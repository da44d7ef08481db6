-- ===== src/Topology/Links.antt =====
-- The tree of groups that `System.discover` builds: src/lib/sysreport/sr_cpulist.py.
use asct.Prelude.{
  ℕ, true, false, ◌≡◌, refl, ap, Option, none, some, List, [], ◌∷◌, ◌++◌, arith, ◌==◌, ◌||◌,
  nat_key, ==_refl, nat_beq_iff, Bool-cases, inl, inr, if◌then◌else◌, ◌⊎◌, subst,
}
use asct.Dict.{contains, lookup}
use asct.Dict.Laws.{lookup-insert, lookup-insert_self}
use asct.Topology.{
  Group, Groups, parent_in, subgroups_in, parent_of, subgroups_of, put_back, update_group,
  set_parent, add_subgroup, best_parent, link_one,
}

-- The group is in the table.
abbrev pub IsHeld : ℕ → Groups → Type 0
IsHeld k gs = (g : Group) × (lookup k gs ≡ some g)

abbrev map_group : (Group → Group) → Option Group → Option Group
map_group f none = none
map_group f (some g) = some (f g)

lookup-put_back_self :
    (k : ℕ) (f : Group → Group) (o : Option Group) (gs : Groups)
    → lookup k gs ≡ o
    → lookup k (put_back o k f gs) ≡ map_group f o
unfolding put_back
lookup-put_back_self k f none gs e = e
lookup-put_back_self k f (some g) gs e = lookup-insert_self k (f g) gs

lookup-put_back_other :
    (k j : ℕ) (f : Group → Group) (o : Option Group) (gs : Groups)
    → (k == j) ≡ false
    → lookup j (put_back o k f gs) ≡ lookup j gs
unfolding put_back
lookup-put_back_other k j f none gs n = refl
lookup-put_back_other k j f (some g) gs n = rw (lookup-insert k j (f g) gs) (rw n refl)

lookup-update_group :
    (k j : ℕ) (f : Group → Group) (gs : Groups)
    → lookup j (update_group k f gs) ≡ (if k == j then map_group f (lookup j gs) else lookup j gs)
unfolding update_group
lookup-update_group k j f gs = elim (Bool-cases (k == j)) [
  | inl s ↦ rw s (
      subst (λ i. lookup i (put_back (lookup k gs) k f gs) ≡ map_group f (lookup i gs))
        ((nat_beq_iff k j).0 s) (lookup-put_back_self k f (lookup k gs) gs refl))
  | inr n ↦ rw n (lookup-put_back_other k j f (lookup k gs) gs n)
]

parent_of-set_parent :
    (k p j : ℕ) (gs : Groups)
    → IsHeld k gs
    → parent_of j (set_parent k p gs) ≡ (if k == j then some p else parent_of j gs)
unfolding parent_of set_parent
parent_of-set_parent k p j gs (g, e) =
    rw (lookup-update_group k j (λ g. record g { parent = some p }) gs)
      (elim (Bool-cases (k == j)) [
        | inl s ↦ let same : k ≡ j = (nat_beq_iff k j).0 s in rw s (rw (← same) (rw e refl))
        | inr n ↦ rw n refl
      ])

subgroups_in-map :
    (p : ℕ) (o : Option Group)
    → subgroups_in (map_group (λ g. record g { parent = some p }) o) ≡ subgroups_in o
subgroups_in-map p none = refl
subgroups_in-map p (some g) = refl

parent_in-map :
    (k : ℕ) (o : Option Group)
    → parent_in (map_group (λ g. record g { subgroups = g.subgroups ++ k ∷ [] }) o) ≡ parent_in o
parent_in-map k none = refl
parent_in-map k (some g) = refl

subgroups_of-set_parent :
    (k p j : ℕ) (gs : Groups) → subgroups_of j (set_parent k p gs) ≡ subgroups_of j gs
unfolding subgroups_of set_parent
subgroups_of-set_parent k p j gs =
    rw (lookup-update_group k j (λ g. record g { parent = some p }) gs)
      (elim (Bool-cases (k == j)) [
        | inl s ↦ rw s (subgroups_in-map p (lookup j gs))
        | inr n ↦ rw n refl
      ])

parent_of-add_subgroup :
    (p k j : ℕ) (gs : Groups) → parent_of j (add_subgroup p k gs) ≡ parent_of j gs
unfolding parent_of add_subgroup
parent_of-add_subgroup p k j gs =
    rw (lookup-update_group p j (λ g. record g { subgroups = g.subgroups ++ k ∷ [] }) gs)
      (elim (Bool-cases (p == j)) [
        | inl s ↦ rw s (parent_in-map k (lookup j gs))
        | inr n ↦ rw n refl
      ])

contains-snoc : (x k : ℕ) (xs : List ℕ) → contains x (xs ++ k ∷ []) ≡ (contains x xs || k == x)
unfolding contains
contains-snoc x k [] = ground arith
contains-snoc x k (y ∷ xs) = ground (arith, contains-snoc x k xs)

contains-subgroups_in :
    (k s : ℕ) (o : Option Group)
    → contains s (subgroups_in (map_group (λ g. record g { subgroups = g.subgroups ++ k ∷ [] }) o))
      ≡ true
    → (contains s (subgroups_in o) ≡ true) ⊎ (k ≡ s)
contains-subgroups_in k s none h = inl h
contains-subgroups_in k s (some g) h = elim (Bool-cases (k == s)) [
  | inl t ↦ inr ((nat_beq_iff k s).0 t)
  | inr f ↦ inl (ground (arith, contains-snoc s k g.subgroups, h, f))
]

-- Who is among the subgroups after `append`.
contains-add_subgroup :
    (p k q s : ℕ) (gs : Groups)
    → contains s (subgroups_of q (add_subgroup p k gs)) ≡ true
    → (contains s (subgroups_of q gs) ≡ true) ⊎ ((p ≡ q) × (k ≡ s))
unfolding subgroups_of add_subgroup
contains-add_subgroup p k q s gs =
    rw (lookup-update_group p q (λ g. record g { subgroups = g.subgroups ++ k ∷ [] }) gs)
      (elim (Bool-cases (p == q)) [
        | inr n ↦ rw n (λ h. inl h)
        | inl m ↦ rw m (λ h. elim (contains-subgroups_in k s (lookup q gs) h) [
          | inl old ↦ inl old
          | inr new ↦ inr ((nat_beq_iff p q).0 m, new)
        ])
      ])

-- A group among the subgroups of another one has that one as its parent.
abbrev pub IsLinked : Groups → Type 0
IsLinked gs = (q s : ℕ) → contains s (subgroups_of q gs) ≡ true → parent_of s gs ≡ some q

map_group-held :
    (f : Group → Group) (o : Option Group)
    → (g : Group) × (o ≡ some g)
    → (g : Group) × (map_group f o ≡ some g)
map_group-held f o (g, e) = (f g, rw e refl)

update_group-IsHeld :
    (k j : ℕ) (f : Group → Group) (gs : Groups) → IsHeld j gs → IsHeld j (update_group k f gs)
update_group-IsHeld k j f gs h = rw (lookup-update_group k j f gs) (elim (Bool-cases (k == j)) [
  | inl s ↦ rw s (map_group-held f (lookup j gs) h)
  | inr n ↦ rw n h
])

pub link_one-IsHeld :
    (top : ℕ) (masks : List ℕ) (k j : ℕ) (gs : Groups)
    → IsHeld j gs
    → IsHeld j (link_one top masks k gs)
unfolding link_one set_parent add_subgroup
link_one-IsHeld top masks k j gs h = elim (Bool-cases (k == top)) [
  | inl s ↦ rw s h
  | inr n ↦ rw n (update_group-IsHeld _ j _ _ (update_group-IsHeld k j _ gs h))
]

-- What one round does to the parents.
pub parent_of-link_one :
    (top : ℕ) (masks : List ℕ) (k j : ℕ) (gs : Groups)
    → IsHeld k gs
    → (k == top) ≡ false
    → parent_of j (link_one top masks k gs)
      ≡ (if k == j then some (best_parent k top masks) else parent_of j gs)
unfolding link_one
parent_of-link_one top masks k j gs h n =
    rw
      (
        n,
        parent_of-add_subgroup (best_parent k top masks) k j
            (set_parent k (best_parent k top masks) gs),
      )
      (parent_of-set_parent k (best_parent k top masks) j gs h)

-- A round that passes the top group over changes nothing.
pub link_one-top :
    (top : ℕ) (masks : List ℕ) (k : ℕ) (gs : Groups)
    → (k == top) ≡ true
    → link_one top masks k gs ≡ gs
unfolding link_one
link_one-top top masks k gs h = rw h refl

contains-link_one :
    (top : ℕ) (masks : List ℕ) (k q s : ℕ) (gs : Groups)
    → (k == top) ≡ false
    → contains s (subgroups_of q (link_one top masks k gs)) ≡ true
    → (contains s (subgroups_of q gs) ≡ true) ⊎ ((best_parent k top masks ≡ q) × (k ≡ s))
unfolding link_one
contains-link_one top masks k q s gs n = rw n λ c.
    let best = best_parent k top masks in
    elim (contains-add_subgroup best k q s (set_parent k best gs) c) [
      | inl old ↦ inl (rw (← subgroups_of-set_parent k best q gs) old)
      | inr new ↦ inr new
    ]

pub link_one-IsLinked :
    (top : ℕ) (masks : List ℕ) (k : ℕ) (gs : Groups)
    → IsHeld k gs
    → parent_of k gs ≡ none
    → IsLinked gs
    → IsLinked (link_one top masks k gs)
link_one-IsLinked top masks k gs h fresh linked q s c = elim (Bool-cases (k == top)) [
  | inl same ↦
      let kept = link_one-top top masks k gs same in
      rw kept (linked q s (subst (λ b. contains s (subgroups_of q b) ≡ true) kept c))
  | inr n ↦
      rw (parent_of-link_one top masks k s gs h n)
        (elim (contains-link_one top masks k q s gs n c) [
          | inr new ↦ rw (← new.1) (rw (==_refl k) (ap some new.0))
          | inl old ↦ elim (Bool-cases (k == s)) [
            | inr m ↦ rw m (linked q s old)
            | inl m ↦
                let same : k ≡ s = (nat_beq_iff k s).0 m in
                let none_now : parent_of s gs ≡ none =
                  subst (λ i. parent_of i gs ≡ none) same fresh in
                cc (linked q s old, none_now)
          ]
        ])
]
