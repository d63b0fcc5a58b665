-- ===== src/Lib.antt =====
-- A model of DIY_ddmin: the delta debugging of a crashing input, in C.
--
-- The program. `main` (src/main.c) is given a program under test, an input file and an error message,
-- and calls a reducer on them. `ddmin` (src/ddmin.c) splits the input into parts and writes one
-- candidate after another to a file `./<k>.part`; for each it asks `test_buffer_overflow` whether
-- the program under test still prints the message. That function runs the program by
-- `runner` (src/runner.c: fork, exec, alarm, waitpid), and reads its standard error line by line.
-- The reducers differ in the candidates they try.
--
-- The files.
-- Base: numbers with Boolean tests, lists, conditionals, and what `take` and `drop` cut out.
-- Paths: file names as byte lists, and the formats of `sprintf`; Paths/Apart: that they differ.
-- Machine: the state (`World`: the files, the globals `file_no` and `fail_no` of src/ddmin.c, the
--   number of forks, the CPU clock), what is outside the program (`Host`), and commands, which end
--   normally, by `exit`, in undefined behaviour, or run out of fuel.
-- Stdio: the stream functions of the C library with their buffers, and the copying loops of
--   src/ddmin.c (`while (_part_size > 0)` and the two like it).
-- Runner: src/runner.c and include/runner.h. `runner`, `get_error`, `kill_child` keep their names.
--   Runner/Shared is about several threads in it, with the global `c_pid` and the alarm.
-- FileRunner: its variants in example/libxml_example/source/runner_libxml2_243.c and
--   example/fuzzer-test-suite_example/source/runner_f-test-suite.c.
-- Oracle: `test_buffer_overflow` and `test_buffer_overflow_thread`. Oracle/Search is the loop over
--   the lines, with `fgets` and `strstr` written out.
-- Ddmin: `ddmin`. One function per loop: `ddmin_loop`, `subset_loop`, `complement_loop`. Ddmin/Spec
--   is the same search on byte strings alone, to which Ddmin/Refine relates the loops on files.
-- Copy: `copy` of src/ddmin.c. DdminDir: `ddmin_dir`, which has the same loops over files of a
--   directory, and puts each part in the place of `<input_dir>/test_input`.
-- Range: src/range.c. Range/Increasing: `range_increasing`, one function per loop; its Spec is the
--   search on byte strings alone. Range/Queue: `init_queue`, `push_queue` and `pop_queue` on a heap
--   of nodes. Range/Threads: `range`, `_range` and `test_range` as moves of five threads on the
--   globals of src/range.c; Range/Threads/Steps lets them move in any order, and Range/Threads/Jobs
--   is about the files of one job. Range/Threads/Invariant counts windows, nodes and signals, and
--   Range/Threads/Contents says what is in the files.
-- Main: src/main.c, which chooses a reducer by `argv[3]` and ends with what that ends in;
--   Main/Ending is about an end of each.
-- MultiThread: example/multi-thread, where threads draw windows from a counter; non/main.c is the
--   counter alone. MultiThread/Cutting: the work of io/main.c and main.c for a window;
--   MultiThread/Restarting: what `thread` of main.c does when a round has found something.
-- Examples: concrete machines and inputs, one schedule of the threads among them.
--
-- Fuel. The copying loop has a round for each byte asked for, and so enough if the stream has as many
-- bytes; where it has not, the loop of the source does not end either. The outer loop of `ddmin`
-- has `s * s + (s - n)` rounds at most for `s` bytes and `n` parts: a round shortens the candidate,
-- or makes the parts finer. The search in a text has a round for each of its bytes. In
-- `range_increasing` a round of the inner loop lowers `2 * size - begin`, and the outer loop has a
-- round for each size of a window.
--
-- Taken as given, in `Host` and in the records of hypotheses: the program under test is a function of
-- the files and of its standard input, and for most theorems of the latter alone;
-- `ceilf((float) a / (float) b)` is the quotient rounded up for `a` below 2 ^ 24, which a float
-- holds exactly; a stream may read any number of bytes ahead. The ints and longs of the program are
-- natural numbers, which the bounds in the theorems keep below 2 ^ 31.
--
-- The threads of `range`: a move is what a thread does between two points of synchronisation, that is,
-- up to a semaphore or a mutex, and the moves follow one another in any order. The files of one job
-- and its test, from `fork` to verdict, are one move, and so are lines 120 to 125 of src/range.c,
-- which enlarge `fail_arr` and store into it. In the source these can also overlap; what is stated of
-- `range` is about the runs in which they do not. Then `c_pid` is the thread's own child, which
-- Runner/Shared/Turns is about; Runner/Shared/Alarms is about calls of `runner` that overlap. `malloc`
-- may give any unused address, or NULL.
--
-- A text reproduces the error where the scan of the source finds the message in what the program under
-- test prints on it; the scan reads pieces of 511 bytes at most, and misses a message across two.
--
-- Not modelled: the errors of `fwrite`, `fflush`, `truncate` and `fclose`, a `malloc` that fails
-- outside the queue, messages on the terminal, the time of day, what a reducer does with the NULL of
-- a missing `argv[4]`, file modes and owners, and links (a file is known by the spelling of its path
-- alone); the second copy of the program that a failed `execl` leaves; what `range` destroys and
-- frees at its end; `no_thread` of example/multi-thread/main.c, which nothing calls; and the drivers
-- that call the reducers in tests.
-- The file `include/mymin.h` declares a function that does not exist.
pub mod Base
pub mod Paths
pub mod Machine
pub mod Stdio
pub mod Runner
pub mod FileRunner
pub mod Oracle
pub mod Ddmin
pub mod Copy
pub mod DdminDir
pub mod Range
pub mod Main
pub mod MultiThread
pub mod Examples
