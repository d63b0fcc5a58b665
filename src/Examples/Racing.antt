-- ===== src/Examples/Racing.antt =====
-- `range` on the concrete machine, with an input of two bytes.
use diy_ddmin.Base.{ℕ, ◌≡◌, refl, [], ◌∷◌, arith}
use diy_ddmin.Paths.{codes, bytes_eq}
use diy_ddmin.Machine.{put, into_array, byte_count_file}
use diy_ddmin.Copy.{copy, copy_blocks}
use diy_ddmin.Stdio.{
  contents, fopen_read, fopen_write, unchecked, fread, fflush, truncate, write_at,
}
use diy_ddmin.Runner.{kill_child, child, redirect, runner, get_error, timed_out}
use diy_ddmin.Oracle.{
  test_buffer_overflow_thread, create_file, verdict_thread, look_for, scan_file, dummy_path,
}
use diy_ddmin.Oracle.Search.{prints}
use diy_ddmin.Range.{read_and_write}
use diy_ddmin.Range.Increasing.{commit_window}
use diy_ddmin.Range.Queue.{Job, push_queue, pop_queue, set_node, link}
use diy_ddmin.Range.Threads.{
  waiting, woken, holding, System, moved, worker_move, coordinator_move, start_range, first_round,
  copy_origins, origin_path, start_size, run_job, first_out_file,
}
use diy_ddmin.Range.Threads.Totals.{total, one_if, is_busy, is_woken}
use diy_ddmin.Range.Threads.Invariant.{is_window}
use diy_ddmin.Range.Threads.Safety.{range_barrier, range_pop}
use diy_ddmin.Examples.Lab.{lab, program_path, input_path, message}
use diy_ddmin.Examples.Schedule.{
  first_free, first_free-unused, empty_store, two_bytes, LabReachable, run, next, next_worker,
  next_coordinator, pick, from_move, start, start-Reachable, round_run,
}

-- A job is pushed and signalled, and the first thread is woken.
abbrev woken_run : (s : System) × LabReachable s
woken_run = run (4 ∷ 4 ∷ 0 ∷ []) (start, start-Reachable)

range_pop_example :
    (a : ℕ) × (job : Job) × (s' : System) × (worker_move lab program_path message 0 woken
        woken_run.0
      ≡ moved (holding a job) s')
unfolding from_move start_range first_round copy_origins origin_path put bytes_eq copy copy_blocks
    contents start_size run next next_worker next_coordinator pick first_free worker_move
    coordinator_move push_queue pop_queue set_node link
range_pop_example =
    range_pop lab program_path message (first_free 9) (λ k. 0) (first_free-unused 9) input_path
      two_bytes empty_store (codes "ax") refl (omega arith) woken_run.0 []
      (waiting ∷ waiting ∷ waiting ∷ []) woken_run.1 refl

range_barrier_example :
    (total is_busy round_run.0.workers ≡ 0)
    × (total is_woken round_run.0.workers ≡ 0)
    × (round_run.0.store.queue.count ≡ 0)
    × ((b : ℕ)
        → total (λ k. one_if k b) round_run.0.tried
          ≡ is_window round_run.0.rs round_run.0.input_size b)
unfolding from_move start_range first_round copy_origins origin_path put bytes_eq copy copy_blocks
    contents start_size run next next_worker next_coordinator pick first_free worker_move
    coordinator_move push_queue pop_queue set_node link run_job fopen_read fopen_write unchecked
    fread fflush truncate write_at read_and_write commit_window first_out_file
    test_buffer_overflow_thread create_file verdict_thread look_for scan_file dummy_path prints
    kill_child child redirect runner get_error timed_out into_array byte_count_file
range_barrier_example =
    range_barrier lab program_path message (first_free 9) (λ k. 0) (first_free-unused 9) input_path
      two_bytes empty_store (codes "ax") refl (omega arith) round_run.0 round_run.1 refl
