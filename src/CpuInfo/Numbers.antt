-- ===== src/CpuInfo/Numbers.antt =====
-- The numbers of the CPUs that `read_proc_cpuinfo` of src/lib/sysreport/sr_cpulist.py yields.
use asct.Prelude.{
  ℕ, true, ◌≡◌, refl, ◌∙◌, Option, none, some, List, [], ◌∷◌, ◌++◌, Result, ok, err, continue,
  modify, ℤ, if◌then◌else◌, Bool-cases, Option-cases, inl, inr, ap, sym, subst,
}
use mathlib.Core.List.{append_assoc, append-nil}
use asct.Text.{Text, int, starts_with}
use asct.Dict.{Dict}
use asct.CpuInfo.{
  CpuInfoError, Reader, new_reader, find_colon, behind, pass_on, flush, is_next, add_cpu,
  read_processor, collect, read_key, end_block, processor, read_line, read_lines, read_proc_cpuinfo,
}

-- The number that a line gives.
abbrev line_numbers : Option ℤ → List ℤ
line_numbers none = []
line_numbers (some n) = n ∷ []

-- The number of a line that starts with `processor`.
unfoldable pub processor_number : Text → List ℤ
processor_number line =
    if starts_with processor line then line_numbers (int (behind (find_colon line) line)) else []

unfoldable pub processor_numbers : List Text → List ℤ
processor_numbers [] = []
processor_numbers (line ∷ lines) = processor_number line ++ processor_numbers lines

abbrev pub numbers : List (ℤ × Dict Text Text) → List ℤ
numbers [] = []
numbers ((c, keys) ∷ l) = c ∷ numbers l

abbrev Before : Option ℤ → ℤ → Type 0
Before o x = is_next o x ≡ true

-- An ascending list, from behind `o` up to `last`.
abbrev pub Ascends : Option ℤ → List ℤ → Option ℤ → Type 0
Ascends o [] last = o ≡ last
Ascends o (x ∷ xs) last = Before o x × Ascends (some x) xs last

Ascends-snoc :
    (o : Option ℤ) (xs : List ℤ) (last : Option ℤ) (x : ℤ)
    → Ascends o xs last
    → Before last x
    → Ascends o (xs ++ x ∷ []) (some x)
Ascends-snoc o [] last x h b = (subst (λ p. Before p x) (sym h) b, refl)
Ascends-snoc o (y ∷ xs) last x h b = (h.0, Ascends-snoc (some y) xs last x h.1 b)

-- All numbers so far: those that were yielded and those that wait for the end of their block.
abbrev all_numbers : Reader → List ℤ
all_numbers r = numbers r.yielded ++ r.cpus

numbers-append : (l m : List (ℤ × Dict Text Text)) → numbers (l ++ m) ≡ numbers l ++ numbers m
numbers-append [] m = refl
numbers-append ((c, k) ∷ l) m = ap (λ t. c ∷ t) (numbers-append l m)

numbers-pass_on : (cs : List ℤ) (keys : Dict Text Text) → numbers (pass_on cs keys) ≡ cs
unfolding pass_on
numbers-pass_on [] keys = refl
numbers-pass_on (c ∷ cs) keys = ap (λ t. c ∷ t) (numbers-pass_on cs keys)

numbers-flush : (r : Reader) → numbers (flush r).yielded ≡ all_numbers r
unfolding flush
numbers-flush r =
    rw (numbers-append r.yielded (pass_on r.cpus r.keys)) (rw (numbers-pass_on r.cpus r.keys) refl)

all_numbers-flush : (r : Reader) → all_numbers (flush r) ≡ all_numbers r
all_numbers-flush r = unfold flush in append-nil _ ∙ unfold flush in numbers-flush r

end_block-numbers : (cix : Option ℕ) (r : Reader) → all_numbers (end_block cix r) ≡ all_numbers r
end_block-numbers none r = all_numbers-flush r
end_block-numbers (some i) r = refl

end_block-last :
    (cix : Option ℕ) (r : Reader) → (end_block cix r).last_cpu_number ≡ r.last_cpu_number
end_block-last none r = unfold flush in refl
end_block-last (some i) r = refl

collect-numbers :
    (cs : List ℤ) (i : ℕ) (line : Text) (r : Reader)
    → (all_numbers (collect cs i line r) ≡ all_numbers r)
      × ((collect cs i line r).last_cpu_number ≡ r.last_cpu_number)
unfolding collect
collect-numbers [] i line r = (refl, refl)
collect-numbers (c ∷ cs) i line r = (refl, refl)

read_key-numbers :
    (cix : Option ℕ) (line : Text) (r : Reader)
    → (all_numbers (read_key cix line r) ≡ all_numbers r)
      × ((read_key cix line r).last_cpu_number ≡ r.last_cpu_number)
unfolding read_key
read_key-numbers none line r = (refl, refl)
read_key-numbers (some i) line r = collect-numbers r.cpus i line r

abbrev IsAscending : Reader → Type 0
IsAscending r = Ascends none (all_numbers r) r.last_cpu_number

-- What a step does to the numbers: in any case they ascend, and without an exception those of `ns`
-- are added at the end.
record Reads (r : Reader) (out : Result CpuInfoError (Unit {0}) × Reader) (ns : List ℤ)
    : Type 0 where
  ascending : IsAscending r → IsAscending out.1
  added : out.0 ≡ ok tt → all_numbers out.1 ≡ all_numbers r ++ ns

add_cpu-Reads : (n : ℤ) (r : Reader) → Reads r (add_cpu n r) (n ∷ [])
unfolding add_cpu
add_cpu-Reads n r = elim (Bool-cases (is_next r.last_cpu_number n)) [
  | inl b ↦ rw b (record {
    ascending = λ h.
        subst (λ l. Ascends none l (some n)) (append_assoc (numbers r.yielded) r.cpus (n ∷ []))
          (Ascends-snoc none (all_numbers r) r.last_cpu_number n h b);
    added = λ h. sym (append_assoc (numbers r.yielded) r.cpus (n ∷ []));
  })
  | inr b ↦ rw b (record { ascending = λ h. h; added = λ h. cc h })
]

read_processor-Reads :
    (value : Text) (r : Reader) → Reads r (read_processor value r) (line_numbers (int value))
unfolding read_processor
read_processor-Reads value r = elim (Option-cases (int value)) [
  | inl e ↦ rw (e, read_processor) (record { ascending = λ h. h; added = λ h. cc h })
  | inr (n, e) ↦ rw (e, read_processor) (add_cpu-Reads n r)
]

end_block-Reads :
    (cix : Option ℕ) (r : Reader) {out : Result CpuInfoError (Unit {0}) × Reader} {ns : List ℤ}
    → Reads (end_block cix r) out ns
    → Reads r out ns
end_block-Reads cix r {out} {ns} d = record {
  ascending = λ h. d.ascending (
      subst (λ l. Ascends none l (end_block cix r).last_cpu_number) (sym (end_block-numbers cix r))
        (subst (Ascends none (all_numbers r)) (sym (end_block-last cix r)) h));
  added = λ h. d.added h ∙ ap (λ l. l ++ ns) (end_block-numbers cix r);
}

read_key-Reads :
    (cix : Option ℕ) (line : Text) (r : Reader) → Reads r (ok tt, read_key cix line r) []
read_key-Reads cix line r =
    let (same, last) = read_key-numbers cix line r in
    record {
      ascending = λ h.
          subst (λ l. Ascends none l (read_key cix line r).last_cpu_number) (sym same)
            (subst (Ascends none (all_numbers r)) (sym last) h);
      added = λ _. same ∙ sym (append-nil (all_numbers r));
    }

read_line-Reads : (line : Text) (r : Reader) → Reads r (read_line line r) (processor_number line)
unfolding read_line processor_number
read_line-Reads line r =
    let cix = find_colon line in
    elim (Bool-cases (starts_with processor line)) [
      | inl yes' ↦
          rw yes' (end_block-Reads cix r (read_processor-Reads (behind cix line) (end_block cix r)))
      | inr no' ↦ rw no' (end_block-Reads cix r (read_key-Reads cix line (end_block cix r)))
    ]

continue-Reads :
    (r : Reader) (out : Result CpuInfoError (Unit {0}) × Reader) (ns : List ℤ) (lines : List Text)
    → Reads r out ns
    → ((s : Reader) → Reads s (read_lines lines s) (processor_numbers lines))
    → Reads r (continue out.0 (λ _. read_lines lines) out.1) (ns ++ processor_numbers lines)
continue-Reads r (err e, s) ns lines d more = record {
  ascending = λ h. d.ascending h;
  added = λ h. cc h;
}
continue-Reads r (ok tt, s) ns lines d more = record {
  ascending = λ h. (more s).ascending (d.ascending h);
  added = λ h.
      (more s).added h
      ∙ ap (λ l. l ++ processor_numbers lines) (d.added refl)
      ∙ append_assoc (all_numbers r) ns (processor_numbers lines);
}

read_lines-Reads :
    (lines : List Text) (r : Reader) → Reads r (read_lines lines r) (processor_numbers lines)
unfolding read_lines processor_numbers
read_lines-Reads [] r = record { ascending = λ h. h; added = λ _. sym (append-nil (all_numbers r)) }
read_lines-Reads (line ∷ lines) r =
    continue-Reads r (read_line line r) (processor_number line) lines (read_line-Reads line r)
      (read_lines-Reads lines)

-- What `read_proc_cpuinfo` has yielded.
abbrev pub yielded_numbers : List Text → List ℤ
yielded_numbers lines = numbers (read_proc_cpuinfo lines).1.yielded

finish :
    (lines : List Text) (out : Result CpuInfoError (Unit {0}) × Reader)
    → Reads new_reader out (processor_numbers lines)
    → (continue out.0 (λ _. modify flush) out.1).0 ≡ ok tt
    → (numbers (continue out.0 (λ _. modify flush) out.1).1.yielded ≡ processor_numbers lines)
      × ((last : Option ℤ) × Ascends none (processor_numbers lines) last)
finish lines (err e, s) d h = cc h
finish lines (ok tt, s) d h =
    let all = d.added refl in
    (
      numbers-flush s ∙ all,
      (s.last_cpu_number, subst (λ l. Ascends none l s.last_cpu_number) all (d.ascending refl)),
    )

-- Where no line raises, the generator yields each CPU of the file once, in the order of its
-- `processor` lines, whichever way these are grouped to blocks, and the numbers ascend.
pub read_proc_cpuinfo-numbers :
    (lines : List Text)
    → (read_proc_cpuinfo lines).0 ≡ ok tt
    → (yielded_numbers lines ≡ processor_numbers lines)
      × ((last : Option ℤ) × Ascends none (processor_numbers lines) last)
unfolding read_proc_cpuinfo
read_proc_cpuinfo-numbers lines h =
    finish lines (read_lines lines new_reader) (read_lines-Reads lines new_reader) h
