-- ===== src/Runner/Stopping.antt =====
-- Stopping a runner, src/core/benchrunner.py: what holds of the threads and processes in every
-- interleaving.
use asct.Prelude.{
  ℕ, ◌+◌, ◌≤◌, ◌<◌, Bool, true, false, Option, none, some, ◌≡◌, refl, ◌≢◌, ◌⊎◌, inl, inr, arith,
  Bool-cases, negsuc,
}
use asct.Runner.{
  Process, running, killed, ended, Worker, testing, starting, waiting, leaving, finished, Runner,
  start, test_loop, start_process, fail_to_start, abort_start, is_zero, collect_code, leave, signal,
  request_stop, Step, Reach, Steps,
}

unfoldable pub is_alive : Option Process → Bool
is_alive none = false
is_alive (some running) = true
is_alive (some killed) = true
is_alive (some (ended code)) = false

-- A requested stop leaves no process without a deadly signal; a process lives only while the worker
-- waits for it, and then there is one; and where there is no thread, the worker is finished.
unfoldable pub IsSafe : Runner → Type 0
IsSafe s =
    (s.stop_requested ≡ true → s.current_proc ≢ some running)
    × (s.worker ≢ waiting → is_alive s.current_proc ≡ false)
    × (s.worker ≡ waiting → s.current_proc ≢ none)
    × (s.has_thread ≡ false → s.worker ≡ finished)

Step-IsSafe : {s t : Runner} → Step s t → IsSafe s → IsSafe t
unfolding IsSafe test_loop start_process fail_to_start abort_start collect_code leave is_alive
Step-IsSafe {s = s} (Step.tests e) h = elim (Bool-cases s.stop_requested) [
  | inl stop ↦ rw stop (ground arith)
  | inr go ↦ rw go (ground arith)
]
Step-IsSafe (Step.starts e) h = (ground arith)
Step-IsSafe (Step.fails e) h = (ground arith)
Step-IsSafe (Step.aborts e) h = ground arith
Step-IsSafe (Step.ends code e) h = (ground arith)
Step-IsSafe (Step.dies code e) h = (ground arith)
Step-IsSafe (Step.collects code e p) h = (ground arith)
Step-IsSafe (Step.leaves e) h = (ground arith)

request_stop-IsSafe : (s : Runner) → IsSafe s → IsSafe (request_stop false s)
unfolding IsSafe request_stop is_alive signal
request_stop-IsSafe s h = (ground arith)

start-IsSafe : (s : Runner) → s.has_thread ≡ false → IsSafe s → IsSafe ((start s).1)
unfolding IsSafe start is_alive
start-IsSafe s none_yet h = rw none_yet (ground arith)

-- In every state that a runner stopped by `kill()` only can reach, in whatever order the threads
-- and the processes act: once a stop is requested no process is left without a deadly signal; there
-- is a live process only while the worker waits for it, so that no process is replaced that lives;
-- and where there is no thread, the worker is finished.
pub Reach-IsSafe : {s : Runner} → Reach s → IsSafe s
unfolding IsSafe is_alive
Reach-IsSafe Reach.created = ground arith
Reach-IsSafe (Reach.started s r e) = start-IsSafe s e (Reach-IsSafe r)
Reach-IsSafe (Reach.stepped s t r e) = Step-IsSafe e (Reach-IsSafe r)
Reach-IsSafe (Reach.stopped s r) = request_stop-IsSafe s (Reach-IsSafe r)
Reach-IsSafe (Reach.joined s r e) = let h = Reach-IsSafe r in ground arith

-- The steps that are left of a worker after a stop was requested
abbrev steps_of : Worker → Option Process → ℕ
steps_of finished p = 0
steps_of leaving p = 1
steps_of testing p = 2
steps_of starting p = 2
steps_of waiting (some (ended code)) = 3
steps_of waiting p = 4

abbrev pub steps_left : Runner → ℕ
steps_left s = steps_of s.worker s.current_proc

Step-steps_left :
    {s t : Runner}
    → Step s t
    → IsSafe s
    → s.stop_requested ≡ true
    → (t.stop_requested ≡ true) × (steps_left t < steps_left s)
unfolding IsSafe test_loop start_process fail_to_start abort_start collect_code leave is_alive
    is_zero
Step-steps_left (Step.tests e) h stop = (ground arith)
Step-steps_left (Step.starts e) h stop = (ground arith)
Step-steps_left (Step.fails e) h stop = (ground arith)
Step-steps_left (Step.aborts e) h stop = ground arith
Step-steps_left (Step.ends code e) h stop = (ground arith)
Step-steps_left (Step.dies code e) h stop = (ground arith)
Step-steps_left (Step.collects code e p) h stop = (ground arith)
Step-steps_left (Step.leaves e) h stop = (ground arith)

worker-Step :
    (s : Runner) (w : Worker) (p : Option Process)
    → s.worker ≡ w
    → s.current_proc ≡ p
    → IsSafe s
    → s.stop_requested ≡ true
    → (s.worker ≡ finished) ⊎ ((t : Runner) × Step s t)
unfolding IsSafe
worker-Step s finished p e f h stop = inl e
worker-Step s leaving p e f h stop = inr (_, Step.leaves e)
worker-Step s testing p e f h stop = inr (_, Step.tests e)
worker-Step s starting p e f h stop = inr (_, Step.starts e)
worker-Step s waiting none e f h stop = absurd (h.2 e f)
worker-Step s waiting (some running) e f h stop = absurd (h.0 stop f)
worker-Step s waiting (some killed) e f h stop = inr (_, Step.dies (negsuc 8) f)
worker-Step s waiting (some (ended code)) e f h stop = inr (_, Step.collects code e f)

Steps-bound :
    {s t : Runner} {n : ℕ}
    → Steps s n t
    → IsSafe s
    → s.stop_requested ≡ true
    → IsSafe t × (t.stop_requested ≡ true) × (n + steps_left t ≤ steps_left s)
Steps-bound Steps.no_step h stop = (h, stop, omega arith)
Steps-bound (Steps.one_more steps step) h stop =
    let (h', stop', bound) = Steps-bound steps h stop in
    let (stop_t, less) = Step-steps_left step h' stop' in
    (Step-IsSafe step h', stop_t, omega (arith, bound, less))

steps_left-le : (s : Runner) → steps_left s ≤ 4
steps_left-le s = ground arith

-- In every state with a requested stop that a runner stopped by `kill()` only can reach, the worker
-- and its process can make at most four more steps, whichever they are, and as long as the worker
-- is not finished there is one: so the worker finishes, and the `join` of `stop` returns.
pub Reach-finishes :
    {s t : Runner} {n : ℕ}
    → Reach s
    → s.stop_requested ≡ true
    → Steps s n t
    → (n ≤ 4) × ((t.worker ≡ finished) ⊎ ((u : Runner) × Step t u))
Reach-finishes {s = s} {t = t} r stop steps =
    let (h, stop', bound) = Steps-bound steps (Reach-IsSafe r) stop in
    (omega (arith, bound, steps_left-le s), worker-Step t t.worker t.current_proc refl refl h stop')
