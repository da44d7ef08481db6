-- ===== src/Registers/Fields.antt =====
-- The rows of the fields of a register: src/lib/ip_registers/collector.py.
use asct.Prelude.{
  ℕ, Bool, true, false, ◌&&◌, ◌≡◌, refl, List, [], ◌∷◌, ◌==◌, ◌⊎◌, ◌<◌, arith, nat_key, nat_beq_iff,
  inl, inr, Bool-cases,
}
use asct.Registers.{Field, FieldRow, field_rows}

and_left : (a b : Bool) → (a && b) ≡ true → a ≡ true
and_left true b h = refl
and_left false b h = h

and_right : (a b : Bool) → (a && b) ≡ true → b ≡ true
and_right true b h = h
and_right false b h = cc h

positive : (a : Bool) (n : ℕ) → (a && n == 0) ≡ false → a ≡ true → 0 < n
positive true n h k = ground (arith, nat_beq_iff n 0, h)
positive false n h k = cc k

-- What a row of a field says.
pub record ShowsField (f : Field) (v : ℕ) (row : FieldRow) : Type 0 where
  pub field_name : row.field_name ≡ f.name
  pub bit_range : row.bit_range ≡ f.range_str
  pub value : row.value ≡ f.extract v
  pub description : row.description ≡ f.desc

-- The fields have a row each, in order, but the reserved ones that are 0.
unfoldable pub ShowsFields : List Field → ℕ → List FieldRow → Type 0
ShowsFields [] v rows = rows ≡ []
ShowsFields (f ∷ fs) v rows =
    ((f.is_reserved ≡ true) × (f.extract v ≡ 0) × ShowsFields fs v rows)
    ⊎ ((f.is_reserved ≡ true → 0 < f.extract v)
        × ((row : FieldRow) × (rest : List FieldRow) × (rows ≡ row ∷ rest)
            × ShowsField f v row
            × ShowsFields fs v rest))

pub field_rows-ShowsFields : (fs : List Field) (v : ℕ) → ShowsFields fs v (field_rows fs v)
unfolding ShowsFields field_rows
field_rows-ShowsFields [] v = refl
field_rows-ShowsFields (f ∷ fs) v =
    let rest = field_rows-ShowsFields fs v in
    elim (Bool-cases (f.is_reserved && f.extract v == 0)) [
      | inl h ↦ rw h (
          inl (
            and_left f.is_reserved (f.extract v == 0) h,
            (nat_beq_iff (f.extract v) 0).0 (and_right f.is_reserved (f.extract v == 0) h),
            rest,
          ))
      | inr h ↦ rw h (
          inr (
            positive f.is_reserved (f.extract v) h,
            (
              _,
              _,
              refl,
              record { field_name = refl; bit_range = refl; value = refl; description = refl },
              rest,
            ),
          ))
    ]
