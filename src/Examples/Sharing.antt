-- ===== src/Examples/Sharing.antt =====
-- Two threads in `runner`: the first child hangs.
use diy_ddmin.Base.{ℕ, ◌≡◌, refl, ◌⊎◌, Bool, true, ◌==◌}
use diy_ddmin.Runner.Shared.{
  running, ended, Pool, fork_child, call_waitpid, kill_c_pid, forks, calls, here, on, idle_pool,
}
use diy_ddmin.Runner.Shared.Turns.{turns_own_child}

-- Child 1 does not end by itself.
abbrev hangs : ℕ → Bool
hangs k = k == 1

abbrev waiting_one : Pool
waiting_one = call_waitpid 0 1 (fork_child 0 idle_pool)

abbrev overtaken : Pool
overtaken = fork_child 1 waiting_one

turns_own_child_example :
    (◌≡◌ {A = ℕ} 1 1)
    × ((waiting_one.children 1 ≡ ended)
        ⊎ ((waiting_one.children 1 ≡ running)
            × (waiting_one.alarmed ≡ true)
            × ((kill_c_pid waiting_one).children 1 ≡ ended)))
unfolding fork_child call_waitpid kill_c_pid
turns_own_child_example =
    turns_own_child hangs waiting_one 0 1 1
      (on (on here (forks 0 refl (λ i. refl))) (calls 0 1 refl)) refl
