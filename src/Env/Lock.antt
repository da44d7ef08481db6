-- ===== src/Env/Lock.antt =====
-- Taking and releasing the application's lock, src/core/asct_env.py.
use asct.Prelude.{
  ℕ, zero, suc, Bool, true, false, Option, none, some, List, [], ◌∷◌, ◌≡◌, refl, ◌≢◌, ==_refl,
  nat_key, if◌then◌else◌, take, subst, sym,
}
use asct.Env.{
  is_truthy, return_or, retry_rounds, retry, LockPath, absent, directory, plain_file, Attempt,
  open_fails, flock_fails, locks, already_running, LockHost, close, attempt_lock, entered, enter,
  is_set, lock_successful, close_handle, exit,
}

-- Every descriptor that is opened is not 0.
unfoldable pub AreTruthy : List Attempt → Type 0
AreTruthy [] = Unit
AreTruthy (open_fails ∷ rest) = AreTruthy rest
AreTruthy (flock_fails fd ∷ rest) = (is_truthy (some fd) ≡ true) × AreTruthy rest
AreTruthy (locks fd ∷ rest) = (is_truthy (some fd) ≡ true) × AreTruthy rest

-- Whether one of the attempts takes the lock
unfoldable pub any_locks : List Attempt → Bool
any_locks [] = false
any_locks (open_fails ∷ rest) = any_locks rest
any_locks (flock_fails fd ∷ rest) = any_locks rest
any_locks (locks fd ∷ rest) = true

close_opened : (fd : ℕ) (fds : List ℕ) → close fd (fd ∷ fds) ≡ fds
unfolding close
close_opened fd fds = rw (==_refl fd) refl

abbrev host_of : List Attempt → List ℕ → LockHost
host_of attempts fds = record { open_fds = fds; attempts = attempts }

closed_again :
    (fd : ℕ) (fds : List ℕ)
    → is_truthy (some fd) ≡ true
    → (if is_truthy (some fd) then close fd (fd ∷ fds) else fd ∷ fds) ≡ fds
closed_again fd fds h = rw h (close_opened fd fds)

close_handle-locks :
    (fd : ℕ) (rest : List Attempt) (fds : List ℕ)
    → is_truthy (some fd) ≡ true
    → (close_handle (some fd) (host_of rest (fd ∷ fds))).open_fds ≡ fds
unfolding close_handle
close_handle-locks fd rest fds h = rw h (close_opened fd fds)

-- A descriptor was found or not, and closing it leaves these open.
Fits : Option ℕ × LockHost → Bool → List ℕ → Type 0
Fits (handle, h) found fds =
    (is_truthy handle ≡ found) × (is_set handle ≡ found) × ((close_handle handle h).open_fds ≡ fds)

retry_rounds-Fits :
    (n : ℕ) (attempts : List Attempt) (fds : List ℕ)
    → AreTruthy attempts
    → Fits (retry_rounds attempt_lock n (host_of attempts fds)) (any_locks (take n attempts)) fds
unfolding Fits AreTruthy any_locks retry_rounds return_or attempt_lock close_handle
retry_rounds-Fits zero attempts fds h = (refl, refl, refl)
retry_rounds-Fits (suc zero) [] fds h = (refl, refl, refl)
retry_rounds-Fits (suc (suc n)) [] fds h = retry_rounds-Fits (suc n) [] fds h
retry_rounds-Fits (suc n) (open_fails ∷ rest) fds h = retry_rounds-Fits n rest fds h
retry_rounds-Fits (suc n) (flock_fails fd ∷ rest) fds h =
    subst
      (λ left. Fits (retry_rounds attempt_lock n (host_of rest left)) (any_locks (take n rest)) fds)
      (sym (closed_again fd fds h.0)) (retry_rounds-Fits n rest fds h.1)
retry_rounds-Fits (suc n) (locks fd ∷ rest) fds h =
    let opened : LockHost = host_of rest (fd ∷ fds) in
    subst (λ b. Fits (if b then (some fd, opened) else retry_rounds attempt_lock n opened) true fds)
      (sym h.0) (h.0, refl, close_handle-locks fd rest fds h.0)

-- Where the lock's path is no plain file and every descriptor that is opened is not 0, entering
-- takes the lock exactly if one of the first `retry_count` + 1 attempts does, reports that another
-- instance runs exactly if none does, and leaving closes whatever descriptors were opened.
pub enter-exit :
    (retry_count : ℕ) (path : LockPath) (attempts : List Attempt) (fds : List ℕ)
    → path ≢ plain_file
    → AreTruthy attempts
    → let (m, h) = enter retry_count path (record { open_fds = fds; attempts = attempts }) in
      (lock_successful m ≡ any_locks (take (suc retry_count) attempts))
      × (m.error
          ≡ (if any_locks (take (suc retry_count) attempts) then none else some already_running))
      × ((exit m h).open_fds ≡ fds)
unfolding enter retry entered lock_successful exit Fits
enter-exit retry_count absent attempts fds free truthy =
    let r = retry_rounds-Fits (suc retry_count) attempts fds truthy in (r.1, rw r.0 refl, r.2)
enter-exit retry_count directory attempts fds free truthy =
    let r = retry_rounds-Fits (suc retry_count) attempts fds truthy in (r.1, rw r.0 refl, r.2)
enter-exit retry_count plain_file attempts fds free truthy = absurd (free refl)
