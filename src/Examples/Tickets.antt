-- ===== src/Examples/Tickets.antt =====
-- Two threads that draw windows, and one window that is cut out and tested.
use mathlib.Core.WellFounded.{Acc}
use diy_ddmin.Base.{
  ℕ, ap, zero, suc, ◌≤◌, ◌≢◌, ◌==◌, if◌then◌else◌, ◌≡◌, refl, none, some, [], ◌∷◌, length, arith,
}
use diy_ddmin.Paths.{Bytes, codes, bytes_eq}
use diy_ddmin.Machine.{Fault, World, done, fault, buffer_overflow, put, set_file}
use diy_ddmin.Oracle.{dummy_path}
use diy_ddmin.Oracle.Search.{prints}
use diy_ddmin.Oracle.Verdict.{reproduces}
use diy_ddmin.Stdio.Writing.{sink, Stored}
use diy_ddmin.Ddmin.Round.{start_of}
use diy_ddmin.Range.Increasing.Spec.{without}
use diy_ddmin.Range.Threads.Totals.{total, one_if}
use diy_ddmin.Range.Threads.Invariant.{is_window}
use diy_ddmin.MultiThread.{
  stopped, drawing, drawn, gone, Round, start_round, Work, thread_move, Step, by_thread, Reachable,
  starts, goes_on, count_loop, no_thread,
}
use diy_ddmin.MultiThread.Tickets.{tickets_once, tickets_as_no_thread, tickets_terminate}
use diy_ddmin.MultiThread.Cutting.{
  Streams, cutting, set_up, cut_range, Found, run_runner, next_out_file,
}
use diy_ddmin.MultiThread.Cutting.Correct.{
  Idle, set_up_overflows, cut_range-Stored, run_runner_counts_twice,
}
use diy_ddmin.MultiThread.Cutting.Threads.{Separate, cutting_goes_on}
use diy_ddmin.MultiThread.Restarting.{Search, end_round}
use diy_ddmin.MultiThread.Restarting.Unset.{end_round_faults}
use diy_ddmin.Examples.Lab.{lab, lab-IsHealthy, program_path, input_path, message, desk}

-- Nothing is done for a window, as in non/main.c.
abbrev idle_work : Work (Unit {0})
idle_work th_idx start rs input_size a = some a

-- Both threads draw, the first one works on the only window, and draws again.
abbrev last_round : Round (Unit {0})
last_round = record {
  state = tt;
  begin = 3;
  cur_rs = 1;
  ip_size = 1;
  threads = gone ∷ gone ∷ [];
  tried = 0 ∷ [];
}

last_round-Reachable : Reachable idle_work 2 1 1 tt last_round
unfolding start_round thread_move
last_round-Reachable =
    goes_on
      (goes_on
        (goes_on
          (goes_on
            (goes_on (goes_on starts (by_thread [] drawing (drawn 0) (drawing ∷ []) refl refl))
              (by_thread (drawn 0 ∷ []) drawing (drawn 1) [] refl refl))
            (by_thread [] (drawn 0) drawing (drawn 1 ∷ []) refl refl))
          (by_thread (drawing ∷ []) (drawn 1) gone [] refl refl))
        (by_thread [] drawing (drawn 2) (gone ∷ []) refl refl))
      (by_thread [] (drawn 2) gone (gone ∷ []) refl refl)

tickets_once_example :
    ((b : ℕ) → total (λ k. one_if k b) last_round.tried ≡ is_window 1 1 b) × (last_round.begin ≡ 3)
tickets_once_example =
    tickets_once idle_work 2 1 1 tt (omega arith) (omega arith) (omega arith) last_round
      last_round-Reachable refl

tickets_as_no_thread_example : length last_round.tried ≡ count_loop 2 0 1 1 0
tickets_as_no_thread_example =
    tickets_as_no_thread idle_work 2 1 1 tt (omega arith) (omega arith) (omega arith) last_round
      last_round-Reachable refl

no_thread_test : no_thread 3 5 ≡ 3 ∷ 4 ∷ 5 ∷ []
unfolding no_thread count_loop
no_thread_test = refl

tickets_terminate_example : Acc (λ t u. Step idle_work 2 u t) (start_round 2 5 4 tt)
tickets_terminate_example = tickets_terminate idle_work 2 (start_round 2 5 4 tt)

-- The streams of a thread, behind the `fopen`s.
abbrev streams : Streams
streams = record {
  room = 32;
  out_file = codes "thread1";
  in_fp = start_of input_path;
  out_fp = sink (codes "thread1") 0 [];
}

abbrev opened : World
opened = set_file (codes "thread1") (some []) (desk (codes "abxd"))

opened-Idle : Idle (codes "abxd") streams opened
unfolding put bytes_eq
opened-Idle = record {
  held = refl;
  empty = refl;
  off = 0;
  writes = refl;
  old = [];
  made = refl;
  apart = λ e. cc;
}

cut_range-Stored_example :
    (d : Streams) × (w : World) × (cut_range lab 1 1 4 streams opened ≡ done d w)
    × Stored (codes "thread1") (without 1 1 (codes "abxd")) opened w
    × Idle (codes "abxd") d w
    × (d.out_file ≡ codes "thread1")
    × (d.in_fp.path ≡ input_path)
cut_range-Stored_example =
    cut_range-Stored (lab-IsHealthy program_path) message 1 1 (codes "abxd") streams opened
      opened-Idle (omega arith)

abbrev nothing_found : Found
nothing_found = record { fail_n = 0; fail_arr = λ k. none }

-- One candidate is found, and two are counted.
run_runner_counts_twice_example :
    (d : Streams) × (g : Found) × (w : World) × (run_runner lab program_path message 1 1 4 1 streams
        nothing_found opened
      ≡ done (d, g) w)
    × (g.fail_n ≡ 2)
    × (g.fail_arr 0 ≡ some (codes "thread1"))
    × (g.fail_arr 1 ≡ none)
    × (w.files (codes "thread1") ≡ some (without 1 1 (codes "abxd")))
unfolding dummy_path next_out_file reproduces prints
run_runner_counts_twice_example =
    run_runner_counts_twice (lab-IsHealthy program_path) message 1 1 (codes "abxd") streams opened
      opened-Idle (omega arith) 1 nothing_found (omega arith)
      (record { no_out = λ e. cc; no_err = λ e. cc }) (λ e. cc) refl

-- The nine threads' files of io/main.c
set_up_overflows_example : set_up lab 9 0 input_path (desk (codes "abxd")) ≡ fault buffer_overflow
set_up_overflows_example = set_up_overflows lab 8 0 input_path (desk (codes "abxd"))

abbrev seventh : Bytes → ℕ
seventh (a ∷ b ∷ c ∷ d ∷ e ∷ f ∷ g ∷ s) = g
seventh s = 0

-- Two threads' streams on the same input
abbrev two_streams : ℕ → Streams
two_streams i = record {
  room = 32;
  out_file = if i == 0 then codes "thread0" else codes "thread1";
  in_fp = start_of input_path;
  out_fp = sink (if i == 0 then codes "thread0" else codes "thread1") 0 [];
}

abbrev two_opened : World
two_opened = set_file (codes "thread0") (some []) opened

two_streams-Separate : Separate 1 (codes "abxd") two_opened two_streams
unfolding put bytes_eq
two_streams-Separate = record {
  idle = λ i h. idle_of i h;
  apart = λ i j h g ne. apart_of i j h g ne;
  input_apart = λ i j h g. input_apart_of i h;
}
  where
    idle_of : (i : ℕ) → i ≤ 1 → Idle (codes "abxd") (two_streams i) two_opened
    idle_of zero h = record {
      held = refl;
      empty = refl;
      off = 0;
      writes = refl;
      old = [];
      made = refl;
      apart = λ e. cc;
    }
    idle_of (suc zero) h = record {
      held = refl;
      empty = refl;
      off = 0;
      writes = refl;
      old = [];
      made = refl;
      apart = λ e. cc;
    }
    idle_of (suc (suc i)) h = absurd (omega arith)

    apart_of :
        (i j : ℕ) → i ≤ 1 → j ≤ 1 → i ≢ j → (two_streams i).out_file ≢ (two_streams j).out_file
    apart_of zero zero h g ne = absurd (ne refl)
    apart_of zero (suc zero) h g ne = λ e. absurd (omega (arith, ap seventh e))
    apart_of (suc zero) zero h g ne = λ e. absurd (omega (arith, ap seventh e))
    apart_of (suc zero) (suc zero) h g ne = absurd (ne refl)
    apart_of (suc (suc i)) j h g ne = absurd (omega arith)
    apart_of zero (suc (suc j)) h g ne = absurd (omega arith)
    apart_of (suc zero) (suc (suc j)) h g ne = absurd (omega arith)

    input_apart_of : (i : ℕ) → i ≤ 1 → (two_streams i).out_file ≢ input_path
    input_apart_of zero h = λ e. cc
    input_apart_of (suc zero) h = λ e. cc
    input_apart_of (suc (suc i)) h = absurd (omega arith)

-- The thread has drawn the first window.
abbrev drawn_round : Round (World × (ℕ → Streams))
drawn_round = record {
  state = (two_opened, two_streams);
  begin = 1;
  cur_rs = 2;
  ip_size = 4;
  threads = drawn 0 ∷ [];
  tried = [];
}

drawn_round-Reachable : Reachable (cutting lab) 1 4 2 (two_opened, two_streams) drawn_round
unfolding start_round thread_move
drawn_round-Reachable = goes_on starts (by_thread [] drawing (drawn 0) [] refl refl)

cutting_goes_on_example :
    (thread_move (cutting lab) 1 (drawn 0) drawn_round ≢ stopped)
    × Separate 1 (codes "abxd") two_opened two_streams
cutting_goes_on_example =
    cutting_goes_on (lab-IsHealthy program_path) message 1 (codes "abxd") 2 (omega arith)
      (omega arith) two_opened two_streams two_streams-Separate drawn_round [] (drawn 0) []
      drawn_round-Reachable refl

-- One window was found, and two were counted.
abbrev one_found : Search
one_found = record {
  input_path = input_path;
  input_size = 4;
  rs = 1;
  total_fail_n = 0;
  found = record { fail_n = 2; fail_arr = λ k. if k == 0 then some (codes "thread1") else none };
  streams = two_streams;
}

end_round_faults_example : (f : Fault) × (end_round lab (λ k. 0) one_found two_opened ≡ fault f)
end_round_faults_example = end_round_faults lab one_found two_opened 1 (omega arith) refl (λ k. 0)
