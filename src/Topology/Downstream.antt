-- ===== src/Topology/Downstream.antt =====
-- The parents of caches that `System.discover` of src/lib/sysreport/sr_cpulist.py sets.
use asct.Prelude.{
  suc, ◌+◌, ◌⊎◌, nat_beq_iff, nat_key, true, ◌≡◌, refl, ◌∙◌, Option, none, some, List, [], ◌∷◌, ok,
  and_then-eq-ok, arith, ◌==◌, Bool-cases, Option-cases, inl, inr, if◌then◌else◌, subst, sym,
}
use asct.Dict.{contains, insert, lookup}
use asct.Dict.Laws.{lookup-insert}
use asct.Topology.{CacheKey}
use asct.Topology.Caches.{
  cache_key, same_key_iff, Parents, Caches, FirstLevel, is_downstream, cache_parent,
  set_cache_parent, link_cache, link_caches, add_cache, add_caches, note_first_level, discover_cpu,
}

-- Parents stay what they are.
abbrev pub Extends : Parents → Parents → Type 0
Extends ps qs = (j p : CacheKey) → cache_parent j ps ≡ some p → cache_parent j qs ≡ some p

-- A parent is one level below its cache and takes what that one holds.
abbrev IsSoundBy : Parents → Type 0
IsSoundBy ps = (j p : CacheKey) → cache_parent j ps ≡ some p → is_downstream j p ≡ true

cache_parent-insert :
    (c : CacheKey) (o : Option CacheKey) (j : CacheKey) (ps : Parents)
    → cache_parent j (insert c o ps) ≡ (if c == j then o else cache_parent j ps)
unfolding cache_parent
cache_parent-insert c o j ps =
    rw (lookup-insert c j o ps)
      (elim (Bool-cases (c == j)) [ inl s ↦ rw s refl | inr n ↦ rw n refl ])

-- What a write that raises nothing has done.
record Written (c cp : CacheKey) (ps qs : Parents) : Type 0 where
  result : qs ≡ insert c (some cp) ps
  allowed : (p : CacheKey) → cache_parent c ps ≡ some p → p ≡ cp

set_cache_parent-Written :
    (c cp : CacheKey) (ps : Parents) {qs : Parents}
    → set_cache_parent (cache_parent c ps) c cp ps ≡ ok qs
    → Written c cp ps qs
set_cache_parent-Written c cp ps {qs} h = elim (Option-cases (cache_parent c ps)) [
  | inl gone ↦
      let e = subst (λ o. set_cache_parent o c cp ps ≡ ok qs) gone h in
      record { result = unfold set_cache_parent in cc e; allowed = λ p k. cc (gone, k) }
  | inr (p, is) ↦
      let e = subst (λ o. set_cache_parent o c cp ps ≡ ok qs) is h in
      elim (Bool-cases (p == cp)) [
        | inl same ↦ record {
          result = unfold set_cache_parent in cc (rw same at e);
          allowed = λ q k. let b : p ≡ cp = (same_key_iff p cp).0 same in cc (is, k, b);
        }
        | inr other ↦ unfold set_cache_parent in cc (rw other at e)
      ]
]

Written-Extends : (c cp : CacheKey) (ps qs : Parents) → Written c cp ps qs → Extends ps qs
Written-Extends c cp ps qs w j p h =
    rw (w.result, cache_parent-insert c (some cp) j ps)
      (elim (Bool-cases (c == j)) [
        | inr n ↦ rw n h
        | inl s ↦
            let e : c ≡ j = (same_key_iff c j).0 s in
            let b : p ≡ cp = w.allowed p (subst (λ i. cache_parent i ps ≡ some p) (sym e) h) in
            rw (s, b) refl
      ])

Written-IsSoundBy :
    (c cp : CacheKey) (ps qs : Parents)
    → is_downstream c cp ≡ true
    → Written c cp ps qs
    → IsSoundBy ps
    → IsSoundBy qs
Written-IsSoundBy c cp ps qs d w sound j p h =
    let at = subst (λ o. cache_parent j o ≡ some p) w.result h in
    let k = sym (cache_parent-insert c (some cp) j ps) ∙ at in
    elim (Bool-cases (c == j)) [
      | inr n ↦ sound j p (rw n at k)
      | inl s ↦
          let e : c ≡ j = (same_key_iff c j).0 s in
          let b : cp ≡ p = cc (rw s at k) in rw (← e, ← b) d
    ]

-- The inner loop for one cache.
record Linked (c : CacheKey) (cps : List CacheKey) (ps qs : Parents) : Type 0 where
  kept : Extends ps qs
  sound : IsSoundBy ps → IsSoundBy qs
  linked :
      (cp : CacheKey)
      → contains cp cps ≡ true
      → is_downstream c cp ≡ true
      → cache_parent c qs ≡ some cp

Linked-cons :
    (c x : CacheKey) (cps : List CacheKey) (ps rs qs : Parents)
    → Extends ps rs
    → (IsSoundBy ps → IsSoundBy rs)
    → (is_downstream c x ≡ true → cache_parent c rs ≡ some x)
    → Linked c cps rs qs
    → Linked c (x ∷ cps) ps qs
Linked-cons c x cps ps rs qs e s here l = record {
  kept = λ j p h. l.kept j p (e j p h);
  sound = λ h. l.sound (s h);
  linked = λ cp m d. elim (Bool-cases (x == cp)) [
    | inl same ↦
        let b : x ≡ cp = (same_key_iff x cp).0 same in
        l.kept c cp (
          subst (λ y. cache_parent c rs ≡ some y) b
            (here (subst (λ y. is_downstream c y ≡ true) (sym b) d)))
    | inr other ↦ l.linked cp (unfold contains in ground (arith, m, other)) d
  ];
}

link_cache-Linked :
    (c : CacheKey) (cps : List CacheKey) (ps : Parents) {qs : Parents}
    → link_cache c cps ps ≡ ok qs
    → Linked c cps ps qs
unfolding link_cache
link_cache-Linked c [] ps {qs} h =
    let e : ps ≡ qs = cc h in
    record {
      kept = λ j p k. rw (← e) k;
      sound = λ s. subst IsSoundBy e s;
      linked = λ cp m d. unfold contains in cc m;
    }
link_cache-Linked c (x ∷ cps) ps {qs} h = elim (Bool-cases (is_downstream c x)) [
  | inr n ↦
      Linked-cons c x cps ps ps qs (λ j p k. k) (λ s. s) (λ d. cc (n, d))
        (link_cache-Linked c cps ps (rw n at h))
  | inl d ↦
      let (rs, e, rest) =
        and_then-eq-ok (set_cache_parent (cache_parent c ps) c x ps) (link_cache c cps)
          (rw d at h) in
      let w = set_cache_parent-Written c x ps e in
      Linked-cons c x cps ps rs qs (Written-Extends c x ps rs w) (Written-IsSoundBy c x ps rs d w)
        (λ _.
          rw (w.result, cache_parent-insert c (some x) c ps) (rw ((same_key_iff c c).1 refl) refl))
        (link_cache-Linked c cps rs rest)
]

-- All the caches of a CPU, by the test of the loop.
record EachLinked (cs cps : List CacheKey) (ps qs : Parents) : Type 0 where
  kept : Extends ps qs
  sound : IsSoundBy ps → IsSoundBy qs
  linked :
      (c cp : CacheKey)
      → contains c cs ≡ true
      → contains cp cps ≡ true
      → is_downstream c cp ≡ true
      → cache_parent c qs ≡ some cp

link_caches-EachLinked :
    (cs cps : List CacheKey) (ps : Parents) {qs : Parents}
    → link_caches cs cps ps ≡ ok qs
    → EachLinked cs cps ps qs
unfolding link_caches
link_caches-EachLinked [] cps ps {qs} h =
    let e : ps ≡ qs = cc h in
    record {
      kept = λ j p k. rw (← e) k;
      sound = λ s. subst IsSoundBy e s;
      linked = λ c cp m n d. unfold contains in cc m;
    }
link_caches-EachLinked (x ∷ cs) cps ps {qs} h =
    let (rs, e, rest) = and_then-eq-ok (link_cache x cps ps) (link_caches cs cps) h in
    let one = link_cache-Linked x cps ps e in
    let more = link_caches-EachLinked cs cps rs rest in
    record {
      kept = λ j p k. more.kept j p (one.kept j p k);
      sound = λ s. more.sound (one.sound s);
      linked = λ c cp m n d. elim (Bool-cases (x == c)) [
        | inl same ↦
            let b : x ≡ c = (same_key_iff x c).0 same in
            more.kept c cp (
              subst (λ y. cache_parent y rs ≡ some cp) b
                (one.linked cp n (subst (λ y. is_downstream y cp ≡ true) (sym b) d)))
        | inr other ↦ more.linked c cp (unfold contains in ground (arith, m, other)) n d
      ];
    }

-- A cache without a parent is added; the parents stay.
cache_parent-add_cache :
    (c j : CacheKey) (s : Caches)
    → cache_parent j (add_cache c s).caches_by_key ≡ cache_parent j s.caches_by_key
unfolding add_cache
cache_parent-add_cache c j s = elim (Option-cases (lookup c s.caches_by_key)) [
  | inr (p, e) ↦ rw (e, add_cache) refl
  | inl gone ↦
      rw (gone, add_cache)
        (cache_parent-insert c none j s.caches_by_key ∙ elim (Bool-cases (c == j)) [
          | inr n ↦ rw n refl
          | inl same ↦
              let b : c ≡ j = (same_key_iff c j).0 same in
              rw (same, ← b) (unfold cache_parent in rw gone refl)
        ])
]

cache_parent-add_caches :
    (cs : List CacheKey) (j : CacheKey) (s : Caches) (f : FirstLevel)
    → cache_parent j (add_caches cs s f).0.caches_by_key ≡ cache_parent j s.caches_by_key
unfolding add_caches
cache_parent-add_caches [] j s f = refl
cache_parent-add_caches (c ∷ cs) j s f =
    cache_parent-add_caches cs j (add_cache c s) (note_first_level c f)
    ∙ cache_parent-add_cache c j s

-- `cp` is one level below `c` and takes what `c` holds: `c` is unified, or `cp` is, or both hold the
-- same.
abbrev pub IsDownstream : CacheKey → CacheKey → Type 0
IsDownstream c cp =
    (cp.level ≡ suc c.level) × ((c.letter ≡ b'U') ⊎ ((cp.letter ≡ b'U') ⊎ (cp.letter ≡ c.letter)))

is_downstream→IsDownstream : (c cp : CacheKey) → is_downstream c cp ≡ true → IsDownstream c cp
unfolding is_downstream
is_downstream→IsDownstream c cp h = ground (
  arith,
  h,
  nat_beq_iff cp.level (c.level + 1),
  nat_beq_iff c.letter b'U',
  nat_beq_iff cp.letter b'U',
  nat_beq_iff cp.letter c.letter,
)

IsDownstream→is_downstream : (c cp : CacheKey) → IsDownstream c cp → is_downstream c cp ≡ true
unfolding is_downstream
IsDownstream→is_downstream c cp h = ground (
  arith,
  h,
  nat_beq_iff cp.level (c.level + 1),
  nat_beq_iff c.letter b'U',
  nat_beq_iff cp.letter b'U',
  nat_beq_iff cp.letter c.letter,
)

-- Every parent is one level below its cache and takes what that one holds.
abbrev pub IsSound : Parents → Type 0
IsSound ps = (j p : CacheKey) → cache_parent j ps ≡ some p → IsDownstream j p

-- All the caches of a CPU.
pub record AllLinked (cs : List CacheKey) (ps qs : Parents) : Type 0 where
  pub kept : Extends ps qs
  pub sound : IsSound ps → IsSound qs
  pub linked :
      (c cp : CacheKey)
      → contains c cs ≡ true
      → contains cp cs ≡ true
      → IsDownstream c cp
      → cache_parent c qs ≡ some cp

-- Where no assertion fails, the parents of earlier CPUs stay, each parent is one level below its
-- cache and takes what that one holds, and each cache of the CPU has as its parent whatever cache
-- of the CPU is downstream of it.
pub discover_cpu-AllLinked :
    (ckeys : List CacheKey) (s : Caches) (f : FirstLevel) {t : Caches} {g : FirstLevel}
    → discover_cpu ckeys s f ≡ ok (t, g)
    → AllLinked ckeys s.caches_by_key t.caches_by_key
unfolding discover_cpu
discover_cpu-AllLinked ckeys s f {t} {g} h =
    let found = (add_caches ckeys s f).0.caches_by_key in
    let (qs, e, rest) = and_then-eq-ok (link_caches ckeys ckeys found) _ h in
    let done : qs ≡ t.caches_by_key = cc rest in
    let all = link_caches-EachLinked ckeys ckeys found e in
    rw (← done) (record {
      kept = λ j p k. all.kept j p (cache_parent-add_caches ckeys j s f ∙ k);
      sound = λ k j p i. is_downstream→IsDownstream j p (
          all.sound
            (λ j p i.
              IsDownstream→is_downstream j p
                (k j p (sym (cache_parent-add_caches ckeys j s f) ∙ i)))
            j p i);
      linked = λ c cp m n d. all.linked c cp m n (IsDownstream→is_downstream c cp d);
    })
