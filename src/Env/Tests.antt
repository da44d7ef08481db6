-- ===== src/Env/Tests.antt =====
-- A lock that another process holds at first.
use asct.Prelude.{true, none, some, List, [], ◌∷◌, take, ◌≡◌, refl, if◌then◌else◌}
use asct.Text.{codes, text_beq}
use asct.Env.{
  Attempt, open_fails, flock_fails, locks, directory, already_running, enter, exit, lock_successful,
  read_env_var,
}
use asct.Env.Lock.{AreTruthy, any_locks, enter-exit}

abbrev later_free : List Attempt
later_free = flock_fails 5 ∷ open_fails ∷ locks 5 ∷ []

later_free-AreTruthy : AreTruthy later_free
unfolding AreTruthy
later_free-AreTruthy = (refl, (refl, tt))

third_attempt :
    lock_successful (enter 2 directory (record { open_fds = []; attempts = later_free })).0 ≡ true
unfolding enter lock_successful
third_attempt = refl

-- The descriptor 0 locks, but is taken for no success, and stays open.
zero_descriptor :
    (let (m, h) = enter 0 directory (record { open_fds = []; attempts = locks 0 ∷ [] }) in
      (exit m h).open_fds)
    ≡ 0 ∷ []
unfolding enter exit
zero_descriptor = refl

enables : read_env_var ((codes "PMU", codes "Yes") ∷ []) (codes "PMU") (codes "0") ≡ some true
unfolding read_env_var text_beq
enables = refl

enter-exit_example :
    let (m, h) = enter 2 directory (record { open_fds = 9 ∷ []; attempts = later_free }) in
    (lock_successful m ≡ any_locks (take 3 later_free))
    × (m.error ≡ (if any_locks (take 3 later_free) then none else some already_running))
    × ((exit m h).open_fds ≡ 9 ∷ [])
enter-exit_example = enter-exit 2 directory later_free (9 ∷ []) (λ e. cc) later_free-AreTruthy
