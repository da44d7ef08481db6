-- ===== src/Prelude/Keys.antt =====
-- Keys of dictionaries and members of sets: a type with a Boolean equality, as an instance.
use Prim.Native.Nat.{ℕ}
use Prim.Native.String.{String}
use mathlib.Core.Path.{◌≡◌, refl}
use mathlib.Core.Logic.{◌↔◌}
use mathlib.Core.Bool.{Bool, true}
use text.Mathlib.Text
use text.Mathlib.TextEquality
use asct.Prelude.Tests.{nat_beq, nat_beq_iff}

pub record Key {ℓ} (K : Type ℓ) : Type ℓ where
  pub equal : K → K → Bool
  pub equal_iff : (j k : K) → (equal j k ≡ true) ↔ (j ≡ k)

-- The instances are `abbrev`s, since `ground` and the tests open them.
instance abbrev pub string_key : Key String
string_key = record { equal = Text.◌==◌; equal_iff = TextEquality.eq_iff }

instance abbrev pub nat_key : Key ℕ
nat_key = record { equal = nat_beq; equal_iff = nat_beq_iff }

module _ {ℓ} {K : Type ℓ} ⦃key : Key K⦄ where
  infix 50 ◌==◌
  abbrev pub ◌==◌ : K → K → Bool
  j == k = key.equal j k

  pub ==_refl : (k : K) → (k == k) ≡ true
  ==_refl k = (key.equal_iff k k).1 refl
