-- ===== src/Benchspec/Sizes.antt =====
-- What `ASCTBenchmarkConfig._set` of src/core/benchspec/benchspec.py makes of the size of the data.
use native.Mathlib.Nat.{mul-le-mul_left, div-add-mod}
use asct.Prelude.{
  ℕ, zero, suc, ◌*◌, ◌/◌, ◌≤◌, max, ◌≡◌, refl, ◌∙◌, Bool, true, false, some, ok, arith,
}
use asct.Text.{text_key, text_beq, starts_with}
use asct.Dict.{lookup, insert}
use asct.Dict.Laws.{lookup-insert, lookup-insert_self}
use asct.Benchspec.{
  Config, Scaling, whole, cache_line_size, data_size, orig, scaled_size, adjusted_size, set_value,
}

-- In quick mode the size is made of whole cache lines, at least one, and it is no larger than what
-- was asked for, unless that is less than a cache line.
unfoldable pub Adjusted : Bool → ℕ → ℕ → ℕ → Type 0
Adjusted true line n size = (lines : ℕ) × (size ≡ line * lines) × (1 ≤ lines) × (size ≤ max n line)
Adjusted false line n size = size ≡ n

fits : (l n t : ℕ) → t ≤ n / suc l → suc l * max t 1 ≤ max n (suc l)
fits l n zero h = omega arith
fits l n (suc t) h =
    let all : max (suc t) 1 ≡ suc t = omega arith in
    rw all (omega (arith, mul-le-mul_left (suc l) h, div-add-mod n (suc l)))

module _ {V : Type 0} (scaling : Scaling V) where
  adjusted_size-Adjusted :
      (quick_mode : Bool) (data' : Config V) (l n : ℕ)
      → ((k : ℕ) → scaling.tenth k ≤ k)
      → lookup cache_line_size data' ≡ some (whole (suc l))
      → (size : ℕ) × (adjusted_size scaling quick_mode data' (whole n) ≡ ok (whole size))
        × Adjusted quick_mode (suc l) n size
  unfolding adjusted_size Adjusted scaled_size
  adjusted_size-Adjusted false data' l n less line = (n, refl, refl)
  adjusted_size-Adjusted true data' l n less line =
      let lines = max (scaling.tenth (n / suc l)) 1 in
      (
        suc l * lines,
        rw line refl,
        (lines, refl, omega arith, fits l n (scaling.tenth (n / suc l)) (less (n / suc l))),
      )

  -- Setting the size of the data, where the size of a cache line is set and positive, and a tenth of
  -- a number is no larger than the number, keeps the size as it is and writes the adjusted one:
  -- out of quick mode it is the same, and in quick mode it is a positive number of cache lines and at
  -- most the size or one cache line, whichever is larger.
  pub set_value-Adjusted :
      (quick_mode : Bool) (data' : Config V) (l n : ℕ)
      → ((k : ℕ) → scaling.tenth k ≤ k)
      → lookup cache_line_size data' ≡ some (whole (suc l))
      → (c : Config V) × (set_value scaling quick_mode data_size (whole n) data' ≡ ok c)
        × (lookup (orig data_size) c ≡ some (whole n))
        × ((size : ℕ) × (lookup data_size c ≡ some (whole size))
            × Adjusted quick_mode (suc l) n size)
  unfolding set_value text_beq starts_with
  set_value-Adjusted quick_mode data' l n less line =
      let (size, e, adjusted) = adjusted_size-Adjusted quick_mode data' l n less line in
      let inner = insert data_size (whole size) data' in
      (
        insert (orig data_size) (whole n) inner,
        rw e refl,
        lookup-insert_self (orig data_size) (whole n) inner,
        (
          size,
          lookup-insert (orig data_size) data_size (whole n) inner
              ∙ lookup-insert_self data_size (whole size) data',
          adjusted,
        ),
      )
