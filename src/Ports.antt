-- ===== src/Ports.antt =====
-- Ports: src/lib/networking/network_helpers.py, `check_port_value` and `normalize_port_value`.
use asct.Prelude.{
  ℕ, ◌≡◌, refl, Bool, true, false, ◌&&◌, Option, none, some, Result, ok, err, ℤ, pos, negsuc, leb,
  if◌then◌else◌, Bool-cases, subst, sym, ◌⊎◌, Option-cases, inl, inr,
}
use asct.Text.{int}
use asct.Config.{Item, missing, number, text}

abbrev pub max_port : ℕ
max_port = 65535

-- USERSPACE_PORT_MIN or MIN_PORT
abbrev pub min_port : Bool → ℕ
min_port userspace_only = if userspace_only then 1024 else 1

pub data PortError : Type 0 where
  value_error : PortError

-- `int(port)`; `none` is a TypeError or a ValueError
as_int : Item → Option ℤ
unfolding int
as_int missing = none
as_int (number n) = some n
as_int (text s) = int s

abbrev pub in_range : Bool → ℤ → Bool
in_range userspace_only (pos n) = leb (min_port userspace_only) n && leb n max_port
in_range userspace_only (negsuc n) = false

invalid : Bool → Result PortError (Option ℤ)
invalid raise_on_error = if raise_on_error then err value_error else ok none

unfoldable pub check_port_value : Bool → Bool → Item → Result PortError (Option ℤ)
unfolding as_int invalid
check_port_value userspace_only raise_on_error port = elim (as_int port) [
  | none ↦ invalid raise_on_error
  | some n ↦ if in_range userspace_only n then ok (some n) else invalid raise_on_error
]

-- The call of `check_port_value` raises nothing.
unfoldable pub normalize_port_value : ℤ → Bool → Item → ℤ
unfolding check_port_value
normalize_port_value default_port userspace_only port =
    elim (check_port_value userspace_only false port) [
      | err e ↦ default_port
      | ok v ↦ elim v [ none ↦ default_port | some n ↦ n ]
    ]

normalize_port_value-cases :
    (default_port : ℤ) (userspace_only : Bool) (port : Item)
    → (normalize_port_value default_port userspace_only port ≡ default_port)
      ⊎ (in_range userspace_only (normalize_port_value default_port userspace_only port) ≡ true)
unfolding normalize_port_value check_port_value
normalize_port_value-cases default_port userspace_only port = elim (Option-cases (as_int port)) [
  | inl e ↦ inl (rw (e, normalize_port_value, check_port_value) refl)
  | inr (n, e) ↦ elim (Bool-cases (in_range userspace_only n)) [
    | inl k ↦
        let same : normalize_port_value default_port userspace_only port ≡ n =
          rw (e, k, normalize_port_value, check_port_value) refl in
        inr (subst (λ z. in_range userspace_only z ≡ true) (sym same) k)
    | inr k ↦ inl (rw (e, k, normalize_port_value, check_port_value) refl)
  ]
]

-- A normalized port is in the allowed range, whatever was given, if the default port is.
pub normalize_port_value-in_range :
    (default_port : ℤ) (userspace_only : Bool) (port : Item)
    → in_range userspace_only default_port ≡ true
    → in_range userspace_only (normalize_port_value default_port userspace_only port) ≡ true
normalize_port_value-in_range default_port userspace_only port h =
    elim (normalize_port_value-cases default_port userspace_only port) [
      | inl same ↦ subst (λ z. in_range userspace_only z ≡ true) (sym same) h
      | inr fine ↦ fine
    ]
