-- ===== src/Runner/Tests.antt =====
-- A runner that is stopped while its process runs.
use asct.Prelude.{◌≤◌, true, false, some, ◌≡◌, refl, ◌⊎◌, pos, negsuc}
use asct.Runner.{
  Runner, new_runner, killed, ended, start, test_loop, start_process, collect_code, leave, waiting,
  finished, request_stop, Reach, Step, Steps,
}
use asct.Runner.Stopping.{IsSafe, Reach-IsSafe, Reach-finishes}

abbrev at_work : Runner
at_work = start_process (test_loop (start new_runner).1)

abbrev stopped_runner : Runner
stopped_runner = request_stop false at_work

at_work_waits : at_work.worker ≡ waiting
unfolding start_process test_loop start
at_work_waits = refl

was_killed : stopped_runner.current_proc ≡ some killed
unfolding start_process test_loop start request_stop
was_killed = refl

was_asked : stopped_runner.stop_requested ≡ true
unfolding request_stop
was_asked = refl

reached : Reach stopped_runner
unfolding start_process test_loop start
reached = Reach.stopped at_work (
    Reach.stepped (test_loop (start new_runner).1) at_work
      (Reach.stepped (start new_runner).1 (test_loop (start new_runner).1)
        (Reach.started new_runner Reach.created refl) (Step.tests refl))
      (Step.starts refl))

abbrev dead_runner : Runner
dead_runner = record stopped_runner { current_proc = some (ended (negsuc 8)) }

one_step : Steps stopped_runner 1 dead_runner
one_step = Steps.one_more Steps.no_step (Step.dies (negsuc 8) was_killed)

last_code : (leave (test_loop (collect_code (negsuc 8) dead_runner))).retcode ≡ some (pos 0)
unfolding start_process test_loop start request_stop collect_code leave
last_code = refl

Reach-IsSafe_example : IsSafe stopped_runner
Reach-IsSafe_example = Reach-IsSafe reached

Reach-finishes_example :
    (1 ≤ 4) × ((dead_runner.worker ≡ finished) ⊎ ((u : Runner) × Step dead_runner u))
Reach-finishes_example = Reach-finishes reached was_asked one_step
