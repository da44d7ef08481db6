-- ===== src/Sysdiff/Adapters/Transposed.antt =====
-- `_latency_sweep_data` of src/lib/sysdiff/adapters.py turns a table by columns into one by levels.
use asct.Prelude.{
  true, false, ◌&&◌, ◌≡◌, refl, ◌∙◌, Option, none, some, [], ◌∷◌, ok, if◌then◌else◌, ◌==◌,
  Bool-cases, inl, inr, ap, sym, subst, ◌⊎◌,
}
use asct.Text.{Text, text_key, text_beq_iff}
use asct.Dict.Laws.{or_else}
use asct.Trees.{Value, Entries, leaf, dict, list, end, entry, find, put, subdict, find_path}
use asct.Trees.Paths.{find-put, subdict-put}
use asct.Sysdiff.Adapters.{set_cell, add_column, add_columns, latency_sweep_data}

module _ {V : Type 0} where
  -- The keys of a dictionary, each once.
  unfoldable pub AreDistinct : Entries V → Type 0
  AreDistinct end = Unit
  AreDistinct (entry k v d) = (find k d ≡ none) × AreDistinct d

  -- A table by columns: each column is a dictionary.
  unfoldable pub IsTable : Entries V → Type 0
  IsTable end = Unit
  IsTable (entry k (dict d) rest) = AreDistinct d × IsTable rest
  IsTable (entry k (leaf v) rest) = ⊥
  IsTable (entry k (list l) rest) = ⊥

  -- Each level that is there is a dictionary.
  abbrev HasRows : Entries V → Type 0
  HasRows n = (k : Text) → (find k n ≡ none) ⊎ ((d : Entries V) × (find k n ≡ some (dict d)))

  abbrev cell : Text → Text → Entries V → Option (Value V)
  cell level column n = find column (subdict level n)

  HasRows-put : (k : Text) (d n : Entries V) → HasRows n → HasRows (put k (dict d) n)
  HasRows-put k d n h j = elim (Bool-cases (k == j)) [
    | inl same ↦ inr (d, find-put k j (dict d) n ∙ rw same refl)
    | inr other ↦ elim (h j) [
      | inl gone ↦ inl (find-put k j (dict d) n ∙ rw other gone)
      | inr (e, is) ↦ inr (e, find-put k j (dict d) n ∙ rw other is)
    ]
  ]

  subdict-end : (k : Text) (n : Entries V) → find k n ≡ none → subdict k n ≡ end
  unfolding subdict
  subdict-end k n h = rw (h, subdict) refl

  subdict-dict : (k : Text) (n d : Entries V) → find k n ≡ some (dict d) → subdict k n ≡ d
  unfolding subdict
  subdict-dict k n d h = rw (h, subdict) refl

  -- The level with one cell more.
  abbrev with_cell : Text → Text → Value V → Entries V → Entries V
  with_cell level column value n = put level (dict (put column value (subdict level n))) n

  set_cell-ok :
      (level column : Text) (value : Value V) (n : Entries V)
      → HasRows n
      → set_cell level column value n ≡ ok (with_cell level column value n)
  unfolding set_cell
  set_cell-ok level column value n h = elim (h level) [
    | inl gone ↦ rw (gone, set_cell) (rw (subdict-end level n gone) refl)
    | inr (d, is) ↦ rw (is, set_cell) (rw (subdict-dict level n d is) refl)
  ]

  cell-with_cell :
      (l c : Text) (value : Value V) (n : Entries V) (level column : Text)
      → cell level column (with_cell l c value n)
        ≡ (if l == level && c == column then some value else cell level column n)
  cell-with_cell l c value n level column =
      ap (find column) (subdict-put l level (put c value (subdict l n)) n)
      ∙ elim (Bool-cases (l == level)) [
        | inr other ↦ rw other refl
        | inl same ↦
            let e : l ≡ level = (text_beq_iff l level).0 same in
            rw same (rw (find-put c column value (subdict l n)) (rw e refl))
      ]

  -- What a loop over the levels of one column leaves.
  record Column (c : Text) (by_level n m : Entries V) : Type 0 where
    rows : HasRows m
    cells :
        (level column : Text)
        → cell level column m ≡ (
            if c == column
            then or_else (find level by_level) (cell level column n)
            else cell level column n)

  column_step :
      (c l : Text) (value : Value V) (by_level n : Entries V) (level column : Text)
      → find l by_level ≡ none
      → (if c == column
          then or_else (find level by_level) (cell level column (with_cell l c value n))
          else cell level column (with_cell l c value n))
        ≡ (if c == column
            then or_else (find level (entry l value by_level)) (cell level column n)
            else cell level column n)
  column_step c l value by_level n level column fresh =
      rw (cell-with_cell l c value n level column) (elim (Bool-cases (c == column)) [
        | inr other ↦ elim (Bool-cases (l == level)) [
          | inl a ↦ rw (other, a) refl
          | inr a ↦ rw (other, a) refl
        ]
        | inl same ↦ elim (Bool-cases (l == level)) [
          | inr a ↦ rw (same, a) (unfold find in rw a refl)
          | inl a ↦
              let e : l ≡ level = (text_beq_iff l level).0 a in
              let gone = subst (λ k. find k by_level ≡ none) e fresh in
              rw (same, a) (rw gone (unfold find or_else in rw a refl))
        ]
      ])

  add_column-Column :
      (c : Text) (by_level n : Entries V)
      → AreDistinct by_level
      → HasRows n
      → (m : Entries V) × (add_column c by_level n ≡ ok m) × Column c by_level n m
  unfolding add_column AreDistinct
  add_column-Column c end n d h = (
    n,
    refl,
    record {
      rows = h;
      cells = λ level column. elim (Bool-cases (c == column)) [
        | inl same ↦ rw same (unfold find or_else in refl)
        | inr other ↦ rw other refl
      ];
    },
  )
  add_column-Column c (entry l value by_level) n d h =
      let rows = HasRows-put l (put c value (subdict l n)) n h in
      let (m, e, done) = add_column-Column c by_level (with_cell l c value n) d.1 rows in
      (
        m,
        rw (set_cell-ok l c value n h) e,
        record {
          rows = done.rows;
          cells = λ level column.
              done.cells level column ∙ column_step c l value by_level n level column d.0;
        },
      )

  found_here :
      (c column : Text) (by_level rest : Entries V)
      → (c == column) ≡ true
      → find column (entry c (dict by_level) rest) ≡ some (dict by_level)
  unfolding find
  found_here c column by_level rest same = rw same refl

  subdict-find : (k : Text) (a b : Entries V) → find k a ≡ find k b → subdict k a ≡ subdict k b
  unfolding subdict
  subdict-find k a b h = rw (h, subdict) refl

  found_later :
      (c column : Text) (v : Value V) (rest : Entries V)
      → (c == column) ≡ false
      → find column (entry c v rest) ≡ find column rest
  unfolding find
  found_later c column v rest other = rw other refl

  -- A cell of the table by columns, of which none has the name of a later one.
  table_step :
      (c : Text) (by_level rest n m : Entries V) (level column : Text)
      → find c rest ≡ none
      → Column c by_level n m
      → or_else (cell column level rest) (cell level column m)
        ≡ or_else (cell column level (entry c (dict by_level) rest)) (cell level column n)
  table_step c by_level rest n m level column fresh done =
      rw (done.cells level column) (elim (Bool-cases (c == column)) [
        | inr other ↦
            let later = found_later c column (dict by_level) rest other in
            rw (other, subdict-find column (entry c (dict by_level) rest) rest later) refl
        | inl same ↦
            let e : c ≡ column = (text_beq_iff c column).0 same in
            let gone = subdict-end column rest (subst (λ k. find k rest ≡ none) e fresh) in
            let row =
              subdict-dict column (entry c (dict by_level) rest) by_level
                (found_here c column by_level rest same) in
            rw (same, gone, row) (unfold find or_else in refl)
      ])

  add_columns-cells :
      (d n : Entries V)
      → IsTable d
      → AreDistinct d
      → HasRows n
      → (m : Entries V) × (add_columns d n ≡ ok m)
        × ((level column : Text)
            → cell level column m ≡ or_else (cell column level d) (cell level column n))
  unfolding add_columns AreDistinct IsTable
  add_columns-cells end n t a h = (n, refl, λ level column. unfold subdict find or_else in refl)
  add_columns-cells (entry c (leaf v) rest) n t a h = absurd t
  add_columns-cells (entry c (list l) rest) n t a h = absurd t
  add_columns-cells (entry c (dict by_level) rest) n t a h =
      let (m, e, done) = add_column-Column c by_level n t.0 h in
      let (q, f, all) = add_columns-cells rest m t.1 a.1 done.rows in
      (
        q,
        rw e f,
        λ level column. all level column ∙ table_step c by_level rest n m level column a.0 done,
      )

  or_else-empty :
      (o : Option (Value V)) (level column : Text) → or_else o (cell level column end) ≡ o
  unfolding or_else subdict find
  or_else-empty none level column = refl
  or_else-empty (some v) level column = refl

  find_path-two : (a b : Text) (d : Entries V) → find_path (a ∷ b ∷ []) d ≡ find b (subdict a d)
  unfolding find_path
  find_path-two a b d = refl

  -- A table by columns, with no column and no level named twice, becomes the table by levels: what
  -- stands under a column and a level is found under that level and that column, and nothing else.
  pub latency_sweep_data-transposed :
      (d : Entries V) (level column : Text)
      → IsTable d
      → AreDistinct d
      → (m : Entries V) × (latency_sweep_data d ≡ ok m)
        × (find_path (level ∷ column ∷ []) m ≡ find_path (column ∷ level ∷ []) d)
  unfolding latency_sweep_data
  latency_sweep_data-transposed d level column t a =
      let (m, e, all) = add_columns-cells d end t a (λ k. inl (unfold find in refl)) in
      (
        m,
        e,
        find_path-two level column m
            ∙ all level column
            ∙ or_else-empty (cell column level d) level column
            ∙ sym (find_path-two column level d),
      )
