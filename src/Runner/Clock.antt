-- ===== src/Runner/Clock.antt =====
-- The two readings of `clock()` round the `waitpid` of `runner`.
use diy_ddmin.Base.{ℕ, ◌+◌, ◌*◌, ◌<◌, ◌≡◌, false, arith}
use diy_ddmin.Runner.{timed_out, clocks_per_sec}

pub timed_out-idle :
    (start used : ℕ) → used < 2 * clocks_per_sec → timed_out start (start + used) ≡ false
unfolding timed_out
timed_out-idle start used h = ground arith
