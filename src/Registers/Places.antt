-- ===== src/Registers/Places.antt =====
-- What `RegDumper.collect` of src/lib/ip_registers/collector.py reads, as a list of places.
use asct.Prelude.{
  ℕ, suc, ◌+◌, Bool, true, false, not, ◌&&◌, ◌≡◌, refl, ◌∙◌, sym, ap, Option, List, [], ◌∷◌, ◌++◌,
  subst, if◌then◌else◌, ltb, leb, ◌||◌, arith, nat_key, none, some, inl, inr, Bool-cases,
}
use mathlib.Core.List.{append_assoc, append-nil}
use asct.Text.{Text}
use asct.Registers.Fields.{ShowsFields, field_rows-ShowsFields}
use asct.Registers.{
  any_search, Register, Block, Selection, Row, Dump, is_behind, register_row, reg_selected,
  read_instances, read_register, read_registers, read_blocks, collect,
}

append-if :
    {A : Type 0} (b : Bool) (xs ys : List A)
    → (if b then xs else []) ++ ys ≡ (if b then xs ++ ys else ys)
append-if true xs ys = refl
append-if false xs ys = refl

both :
    (a b c v w : Bool) → not a ≡ b → (not a && (c && not (v && w))) ≡ (b && (c && (not v || not w)))
both a b c true w h = rw h refl
both a b c false w h = rw h refl

-- A register of an instance.
pub record Place (I : Type 0) : Type 0 where
  pub block : Block
  pub register : Register
  pub number : ℕ
  pub of_instance : I

module _ {E I S : Type 0} (search : E → Text → Bool) (pa : I → Option ℕ)
    (read32 : I → ℕ → S → ℕ × S) where
  -- A pattern is found in the name.
  unfoldable pub is_found : List E → Text → Bool
  is_found [] name = false
  is_found (e ∷ es) name = if search e name then true else is_found es name

  -- There are no patterns, or one of them is found.
  unfoldable pub name_fits : List E → Text → Bool
  unfolding is_found
  name_fits [] name = true
  name_fits (e ∷ es) name = is_found (e ∷ es) name

  -- The offset is below the end, if there is one.
  unfoldable pub is_before : Option ℕ → ℕ → Bool
  is_before none addr = true
  is_before (some end_offset) addr = ltb addr end_offset

  -- What is wanted of the registers: those whose name fits, whose offset is in the range, and that
  -- are stable where volatile ones are excluded.
  unfoldable pub is_wanted : Selection E → Register → Bool
  unfolding name_fits is_before
  is_wanted sel r =
      name_fits sel.reg_list r.name
      && (leb sel.start_offset r.addr
          && (is_before sel.end_offset r.addr && (not sel.exclude_volatile || not r.is_volatile)))

  any_search-is_found : (es : List E) (name : Text) → any_search search es name ≡ is_found es name
  unfolding any_search is_found
  any_search-is_found [] name = refl
  any_search-is_found (e ∷ es) name = elim (Bool-cases (search e name)) [
    | inl a ↦ rw a refl
    | inr a ↦ rw a (any_search-is_found es name)
  ]

  reg_selected-name_fits :
      (es : List E) (name : Text) → reg_selected search es name ≡ name_fits es name
  unfolding reg_selected name_fits
  reg_selected-name_fits [] name = refl
  reg_selected-name_fits (e ∷ es) name = any_search-is_found (e ∷ es) name

  is_behind-is_before : (o : Option ℕ) (addr : ℕ) → not (is_behind o addr) ≡ is_before o addr
  unfolding is_before
  is_behind-is_before none addr = refl
  is_behind-is_before (some end_offset) addr = ground arith

  -- What passes the tests of the loop
  abbrev passes : Selection E → Register → Bool
  passes sel r =
      reg_selected search sel.reg_list r.name
      && (not (ltb r.addr sel.start_offset)
          && (not (is_behind sel.end_offset r.addr) && not (sel.exclude_volatile && r.is_volatile)))

  passes-is_wanted : (sel : Selection E) (r : Register) → passes sel r ≡ is_wanted sel r
  unfolding is_wanted
  passes-is_wanted sel r =
      rw (reg_selected-name_fits sel.reg_list r.name, is_behind-is_before sel.end_offset r.addr)
        (ap (λ b. name_fits sel.reg_list r.name && b)
          (both (ltb r.addr sel.start_offset) (leb sel.start_offset r.addr)
            (is_before sel.end_offset r.addr) sel.exclude_volatile r.is_volatile (ground arith)))

  unfoldable pub places_of : Block → Register → ℕ → List I → List (Place I)
  places_of rm r n [] = []
  places_of rm r n (m ∷ ms) =
      record { block = rm; register = r; number = n; of_instance = m } ∷ places_of rm r (suc n) ms

  unfoldable pub places_in : Selection E → List I → Block → List Register → List (Place I)
  unfolding places_of
  places_in sel ms rm [] = []
  places_in sel ms rm (r ∷ rs) =
      let rest = places_in sel ms rm rs in
      if is_wanted sel r then places_of rm r 0 ms ++ rest else rest

  -- The wanted registers of all maps, each for every instance.
  unfoldable pub places : Selection E → List I → List Block → List (Place I)
  unfolding places_in
  places sel ms [] = []
  places sel ms (rm ∷ rms) = places_in sel ms rm rm.regs ++ places sel ms rms

  abbrev read_at : Place I → S → ℕ × S
  read_at p s = read32 p.of_instance (p.block.addr + p.register.addr) s

  -- What a row says of a reading.
  pub record Reports (fields : Bool) (p : Place I) (v : ℕ) (row : Row) : Type 0 where
    pub number : row.instance' ≡ p.number
    pub base : row.base ≡ pa p.of_instance
    pub block_address : row.block_address ≡ p.block.addr
    pub block_name : row.block_name ≡ p.block.name
    pub offset : row.offset ≡ p.register.addr
    pub address : row.address ≡ p.block.addr + p.register.addr
    pub reg_name : row.reg_name ≡ p.register.name
    pub value : row.value ≡ v
    pub access : row.access ≡ p.register.access
    pub security : row.security ≡ p.register.security
    pub description : row.description ≡ p.register.desc
    pub no_fields : fields ≡ false → row.fields ≡ []
    pub all_fields : fields ≡ true → ShowsFields p.register.fields v row.fields

  -- The places are read one after the other, each once, and each gives one row.
  unfoldable pub Reads : Bool → List (Place I) → S → List Row → S → Type 0
  Reads fields [] s rows t = (rows ≡ []) × (s ≡ t)
  Reads fields (p ∷ ps) s rows t =
      (row : Row) × (rest : List Row) × (rows ≡ row ∷ rest)
      × Reports fields p (read_at p s).0 row
      × Reads fields ps (read_at p s).1 rest t

  register_row-Reports :
      (fields : Bool) (p : Place I) (v : ℕ)
      → Reports fields p v (register_row fields p.block p.register p.number (pa p.of_instance) v)
  unfolding register_row
  register_row-Reports fields p v = record {
    number = refl;
    base = refl;
    block_address = refl;
    block_name = refl;
    offset = refl;
    address = refl;
    reg_name = refl;
    value = refl;
    access = refl;
    security = refl;
    description = refl;
    no_fields = λ h. rw h refl;
    all_fields = λ h. rw h (field_rows-ShowsFields p.register.fields v);
  }

  Reads-append :
      (fields : Bool) (ps qs : List (Place I)) (s : S) (a : List Row) (u : S) (b : List Row) (t : S)
      → Reads fields ps s a u
      → Reads fields qs u b t
      → Reads fields (ps ++ qs) s (a ++ b) t
  unfolding Reads
  Reads-append fields [] qs s a u b t (empty, same) h = rw (empty, same) h
  Reads-append fields (p ∷ ps) qs s a u b t (row, rest, e, reports, more) h = (
    row,
    rest ++ b,
    rw e refl,
    reports,
    Reads-append fields ps qs (read_at p s).1 rest u b t more h,
  )

  -- What reading some places adds to a dump.
  record Grown (fields : Bool) (ps : List (Place I)) (d e : Dump S) : Type 0 where
    added : List Row
    is : e.rows ≡ d.rows ++ added
    reads : Reads fields ps d.device added e.device

  Grown-nothing : (fields : Bool) (d : Dump S) → Grown fields [] d d
  unfolding Reads
  Grown-nothing fields d = record { added = []; is = sym (append-nil d.rows); reads = (refl, refl) }

  Grown-append :
      (fields : Bool) (ps qs : List (Place I)) (d e f : Dump S)
      → Grown fields ps d e
      → Grown fields qs e f
      → Grown fields (ps ++ qs) d f
  Grown-append fields ps qs d e f g h = record {
    added = g.added ++ h.added;
    is = h.is ∙ ap (λ l. l ++ h.added) g.is ∙ append_assoc d.rows g.added h.added;
    reads = Reads-append fields ps qs d.device g.added e.device h.added f.device g.reads h.reads;
  }

  read_instances-Grown :
      (fields : Bool) (rm : Block) (r : Register) (n : ℕ) (ms : List I) (d : Dump S)
      → Grown fields (places_of rm r n ms) d (read_instances search pa read32 fields rm r n ms d)
  unfolding read_instances places_of Reads
  read_instances-Grown fields rm r n [] d = Grown-nothing fields d
  read_instances-Grown fields rm r n (m ∷ ms) d =
      let (v, device) = read32 m (rm.addr + r.addr) d.device in
      let row = register_row fields rm r n (pa m) v in
      let place : Place I = record { block = rm; register = r; number = n; of_instance = m } in
      let next : Dump S = record { rows = d.rows ++ row ∷ []; device = device } in
      let more = read_instances-Grown fields rm r (suc n) ms next in
      record {
        added = row ∷ more.added;
        is = more.is ∙ append_assoc d.rows (row ∷ []) more.added;
        reads = (row, more.added, refl, register_row-Reports fields place v, more.reads);
      }

  read_register-passes :
      (sel : Selection E) (ms : List I) (rm : Block) (r : Register) (d : Dump S)
      → Grown sel.fields
          (if passes sel r then places_of rm r 0 ms else [])
          d
          (read_register search pa read32 sel ms rm r d)
  unfolding read_register
  read_register-passes sel ms rm r d =
      let nothing = Grown-nothing sel.fields d in
      elim (Bool-cases (reg_selected search sel.reg_list r.name)) [
        | inr a ↦ rw a nothing
        | inl a ↦ elim (Bool-cases (ltb r.addr sel.start_offset)) [
          | inl b ↦ rw (a, b) nothing
          | inr b ↦ elim (Bool-cases (is_behind sel.end_offset r.addr)) [
            | inl c ↦ rw (a, b, c) nothing
            | inr c ↦ elim (Bool-cases (sel.exclude_volatile && r.is_volatile)) [
              | inl e ↦ rw (a, b, c, e) nothing
              | inr e ↦ rw (a, b, c, e) (read_instances-Grown sel.fields rm r 0 ms d)
            ]
          ]
        ]
      ]

  read_register-Grown :
      (sel : Selection E) (ms : List I) (rm : Block) (r : Register) (d : Dump S)
      → Grown sel.fields
          (if is_wanted sel r then places_of rm r 0 ms else [])
          d
          (read_register search pa read32 sel ms rm r d)
  read_register-Grown sel ms rm r d =
      subst
        (λ b.
          Grown sel.fields (if b then places_of rm r 0 ms else []) d
            (read_register search pa read32 sel ms rm r d))
        (passes-is_wanted sel r) (read_register-passes sel ms rm r d)

  read_registers-Grown :
      (sel : Selection E) (ms : List I) (rm : Block) (rs : List Register) (d : Dump S)
      → Grown sel.fields (places_in sel ms rm rs) d (read_registers search pa read32 sel ms rm rs d)
  unfolding read_registers places_in
  read_registers-Grown sel ms rm [] d = Grown-nothing sel.fields d
  read_registers-Grown sel ms rm (r ∷ rs) d =
      let next = read_register search pa read32 sel ms rm r d in
      let here = if is_wanted sel r then places_of rm r 0 ms else [] in
      let all =
        Grown-append sel.fields here (places_in sel ms rm rs) d next
          (read_registers search pa read32 sel ms rm rs next) (read_register-Grown sel ms rm r d)
          (read_registers-Grown sel ms rm rs next) in
      subst (λ ps. Grown sel.fields ps d (read_registers search pa read32 sel ms rm rs next))
        (append-if (is_wanted sel r) (places_of rm r 0 ms) (places_in sel ms rm rs)) all

  read_blocks-Grown :
      (sel : Selection E) (ms : List I) (rms : List Block) (d : Dump S)
      → Grown sel.fields (places sel ms rms) d (read_blocks search pa read32 sel ms rms d)
  unfolding read_blocks places
  read_blocks-Grown sel ms [] d = Grown-nothing sel.fields d
  read_blocks-Grown sel ms (rm ∷ rms) d =
      let next = read_registers search pa read32 sel ms rm rm.regs d in
      Grown-append sel.fields (places_in sel ms rm rm.regs) (places sel ms rms) d next
        (read_blocks search pa read32 sel ms rms next) (read_registers-Grown sel ms rm rm.regs d)
        (read_blocks-Grown sel ms rms next)

  -- `collect` reads the registers that are wanted, those and no others, each once for every instance
  -- in the order of the maps, and gives for each reading the row with the value that was read.
  pub collect-Reads :
      (rms : List Block) (sel : Selection E) (ms : List I) (s : S)
      → Reads sel.fields
          (places sel ms rms)
          s
          (collect search pa read32 rms sel ms s).rows
          (collect search pa read32 rms sel ms s).device
  unfolding collect
  collect-Reads rms sel ms s =
      let start : Dump S = record { rows = []; device = s } in
      let g = read_blocks-Grown sel ms rms start in rw g.is g.reads
