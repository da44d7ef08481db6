-- ===== src/Runner.antt =====
-- Running commands, src/core/benchrunner.py. An AsyncRunner repeats a command in a thread of its
-- own until another thread calls `stop`. The two threads share the state below; what a thread does
-- while it holds the lock, and what it does in one operation, is one step, and between the steps of
-- the worker the other thread and the operating system may act. What the processes print is left
-- out.
pub mod Stopping
pub mod Sync
mod Tests
use asct.Prelude.{
  ℕ, suc, Bool, true, false, not, Option, none, some, Result, ok, err, Exec, ℤ, pos, negsuc,
  nat_key, if◌then◌else◌, ◌==◌, ◌≡◌,
}
use asct.Text.{Text}

pub data Process : Type 0 where
  running : Process
  -- A signal that no process survives was sent.
  killed : Process
  ended : ℤ → Process

-- Where the worker of `_run` stands: before the test of the loop, before the block that holds the
-- lock, in `communicate()`, before the last block, or at its end.
pub data Worker : Type 0 where
  testing : Worker
  starting : Worker
  waiting : Worker
  leaving : Worker
  finished : Worker

pub record Runner : Type 0 where
  pub worker : Worker
  pub stop_requested : Bool
  pub current_proc : Option Process
  pub retcode : Option ℤ
  -- `self._thread is not None`
  pub has_thread : Bool

abbrev pub new_runner : Runner
new_runner = record {
  worker = finished;
  stop_requested = false;
  current_proc = none;
  retcode = none;
  has_thread = false;
}

pub data CommandError : Type 0 where
  assertion_error : CommandError
  value_error : CommandError
  runtime_error : CommandError

unfoldable pub start : Exec CommandError Runner (Unit {0})
start s =
    if s.has_thread
    then (err assertion_error, s)
    else (ok tt, record s { stop_requested = false; worker = testing; has_thread = true })

-- `while not self._stop_requested.is_set()`
unfoldable pub test_loop : Runner → Runner
test_loop s = record s { worker = if s.stop_requested then leaving else starting }

-- The block that holds the lock, where the command can be executed, and where it raises
unfoldable pub start_process : Runner → Runner
start_process s =
    if s.stop_requested
    then record s { worker = leaving }
    else record s { current_proc = some running; worker = waiting }

unfoldable pub fail_to_start : Runner → Runner
fail_to_start s =
    if s.stop_requested
    then record s { worker = leaving }
    else record s { retcode = some (pos 255); worker = leaving }

-- Where the process watcher was stopped, it raises `SystemExit`, which ends the thread at once.
unfoldable pub abort_start : Runner → Runner
abort_start s =
    if s.stop_requested then record s { worker = leaving } else record s { worker = finished }

unfoldable pub is_zero : ℤ → Bool
is_zero (pos n) = n == 0
is_zero (negsuc n) = false

-- After `communicate()`: the return code, and whether the loop goes on
unfoldable pub collect_code : ℤ → Runner → Runner
unfolding is_zero
collect_code code s =
    let retcode : ℤ = if not s.stop_requested then code else pos 0 in
    record s { retcode = some retcode; worker = if is_zero retcode then testing else leaving }

unfoldable pub leave : Runner → Runner
leave s = record s { current_proc = none; worker = finished }

-- `kill()`, and a signal that a process may ignore
unfoldable pub signal : Bool → Option Process → Option Process
signal use_int none = none
signal use_int (some running) = if use_int then some running else some killed
signal use_int (some killed) = some killed
signal use_int (some (ended code)) = some (ended code)

-- The block of `stop` that holds the lock
unfoldable pub request_stop : Bool → Runner → Runner
unfolding signal
request_stop use_int s = record s {
  stop_requested = true;
  current_proc = signal use_int s.current_proc;
}

-- One step of the worker, or of its process
pub data Step (s : Runner) : Runner → Type 0 where
  tests : s.worker ≡ testing → Step s (test_loop s)
  starts : s.worker ≡ starting → Step s (start_process s)
  fails : s.worker ≡ starting → Step s (fail_to_start s)
  aborts : s.worker ≡ starting → Step s (abort_start s)
  ends :
      (code : ℤ)
      → s.current_proc ≡ some running
      → Step s (record s { current_proc = some (ended code) })
  dies :
      (code : ℤ)
      → s.current_proc ≡ some killed
      → Step s (record s { current_proc = some (ended code) })
  collects :
      (code : ℤ)
      → s.worker ≡ waiting
      → s.current_proc ≡ some (ended code)
      → Step s (collect_code code s)
  leaves : s.worker ≡ leaving → Step s (leave s)

-- What happens to a runner that is stopped by `kill()` only: `start`, where there is no thread,
-- steps, the block of `stop`, and the end of its `join`, for which the worker has to be finished.
pub data Reach : Runner → Type 0 where
  created : Reach new_runner
  started : (s : Runner) → Reach s → s.has_thread ≡ false → Reach ((start s).1)
  stepped : (s t : Runner) → Reach s → Step s t → Reach t
  stopped : (s : Runner) → Reach s → Reach (request_stop false s)
  joined : (s : Runner) → Reach s → s.worker ≡ finished → Reach (record s { has_thread = false })

-- A number of steps
pub data Steps (s : Runner) : ℕ → Runner → Type 0 where
  no_step : Steps s 0 s
  one_more : {n : ℕ} {t u : Runner} → Steps s n t → Step t u → Steps s (suc n) u
