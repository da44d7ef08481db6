-- ===== src/Env.antt =====
-- The application's lock and its debug settings, src/core/asct_env.py, with `retry` of
-- src/lib/utility/misc.py. What the operating system answers to each attempt is given.
pub mod Lock
mod Tests
use asct.Prelude.{
  ℕ, zero, suc, Bool, true, false, not, ◌||◌, Option, none, some, List, [], ◌∷◌, ◌==◌, nat_key,
  if◌then◌else◌,
}
use asct.Text.{Text, codes, text_key, lower}
use asct.Dict.{Dict, lookup, contains}

-- A descriptor that is 0 counts as false.
abbrev pub is_truthy : Option ℕ → Bool
is_truthy none = false
is_truthy (some fd) = not (fd == 0)

module _ {S : Type 0} (func : S → Option ℕ × S) where
  unfoldable pub return_or : Option ℕ × S → (S → Option ℕ × S) → Option ℕ × S
  return_or (result, s) again = if is_truthy result then (result, s) else again s

  -- The rounds of the wrapper's loop
  unfoldable pub retry_rounds : ℕ → S → Option ℕ × S
  unfolding return_or
  retry_rounds zero s = (none, s)
  retry_rounds (suc n) s = return_or (func s) (retry_rounds n)

  unfoldable pub retry : ℕ → S → Option ℕ × S
  unfolding retry_rounds
  retry retry_count s = retry_rounds (suc retry_count) s

-- What stands at the lock's path
pub data LockPath : Type 0 where
  absent : LockPath
  directory : LockPath
  plain_file : LockPath

-- What an attempt meets: `os.open` raises, `fcntl.flock` raises, or the lock is taken.
pub data Attempt : Type 0 where
  open_fails : Attempt
  flock_fails : ℕ → Attempt
  locks : ℕ → Attempt

pub data LockError : Type 0 where
  path_is_file : LockError
  already_running : LockError

-- The descriptors that are open, and the attempts to come; after these, opening fails.
pub record LockHost : Type 0 where
  pub open_fds : List ℕ
  pub attempts : List Attempt

pub record Mutex : Type 0 where
  pub lock_file_handle : Option ℕ
  pub error : Option LockError

unfoldable pub close : ℕ → List ℕ → List ℕ
close fd [] = []
close fd (x ∷ fds) = if x == fd then fds else x ∷ close fd fds

-- `attempt_lock`: after a `flock` that raises, the descriptor is closed if it is true.
unfoldable pub attempt_once : Attempt → LockHost → Option ℕ × LockHost
unfolding close
attempt_once open_fails h = (none, h)
attempt_once (flock_fails fd) h =
    let opened : List ℕ = fd ∷ h.open_fds in
    (none, record h { open_fds = if is_truthy (some fd) then close fd opened else opened })
attempt_once (locks fd) h = (some fd, record h { open_fds = fd ∷ h.open_fds })

unfoldable pub next_attempt : List Attempt → LockHost → Option ℕ × LockHost
unfolding attempt_once
next_attempt [] h = (none, h)
next_attempt (a ∷ rest) h = attempt_once a (record h { attempts = rest })

unfoldable pub attempt_lock : LockHost → Option ℕ × LockHost
unfolding next_attempt
attempt_lock h = next_attempt h.attempts h

unfoldable pub entered : Option ℕ × LockHost → Mutex × LockHost
entered (handle, h) = (
  record {
    lock_file_handle = handle;
    error = if is_truthy handle then none else some already_running;
  },
  h,
)

-- `__enter__`
unfoldable pub enter : ℕ → LockPath → LockHost → Mutex × LockHost
unfolding retry entered attempt_lock
enter retry_count plain_file h = (record { lock_file_handle = none; error = some path_is_file }, h)
enter retry_count absent h = entered (retry attempt_lock retry_count h)
enter retry_count directory h = entered (retry attempt_lock retry_count h)

abbrev pub is_set : Option ℕ → Bool
is_set none = false
is_set (some fd) = true

unfoldable pub lock_successful : Mutex → Bool
lock_successful m = is_set m.lock_file_handle

unfoldable pub close_handle : Option ℕ → LockHost → LockHost
unfolding close
close_handle none h = h
close_handle (some fd) h =
    if is_truthy (some fd) then record h { open_fds = close fd h.open_fds } else h

-- `__exit__`
unfoldable pub exit : Mutex → LockHost → LockHost
unfolding close_handle
exit m h = close_handle m.lock_file_handle h

-- `_to_bool`, `none` for a ValueError
unfoldable pub to_bool : Text → Option Bool
unfolding contains lower
to_bool value =
    if contains (lower value) (codes "1" ∷ codes "yes" ∷ codes "on" ∷ [])
    then some true
    else if contains (lower value) (codes "0" ∷ codes "no" ∷ codes "off" ∷ [])
    then some false
    else none

unfoldable pub or_value : Text → Option Text → Text
or_value default none = default
or_value default (some value) = value

unfoldable pub or_default_value : Option Bool → Option Bool → Option Bool
or_default_value none default = default
or_default_value (some value) default = some value

-- The value of one option in `read_env_vars`, with `none` where even the default raises
unfoldable pub read_env_var : Dict Text Text → Text → Text → Option Bool
unfolding lookup to_bool or_value or_default_value
read_env_var environ name default =
    or_default_value (to_bool (or_value default (lookup name environ))) (to_bool default)
