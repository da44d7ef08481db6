-- ===== src/Topology/Tree.antt =====
-- The tree of groups that `System.discover` builds: src/lib/sysreport/sr_cpulist.py.
use asct.Prelude.{
  ℕ, ◌≤◌, ◌<◌, true, false, ◌≡◌, ◌≢◌, refl, ◌∙◌, none, some, List, [], ◌∷◌, ok, arith, ◌==◌, ◌||◌,
  nat_key, ==_refl, nat_beq_iff, Bool-cases, Option-cases, inl, inr, subst, sym,
}
use asct.Dict.{contains, keys, lookup, insert}
use asct.CpuSets.Subsets.{Within}
use asct.Topology.{
  Group, Groups, new_group, group, parent_of, subgroups_of, best_parent, link_one, link_all,
  has_parent, check_subgroups, check_all, link_groups,
}
use asct.Topology.Parents.{IsParent, best_parent-IsParent, Within-le}
use asct.Topology.Links.{
  IsHeld, IsLinked, link_one-IsHeld, parent_of-link_one, link_one-IsLinked, link_one-top,
}

-- Masks in the table, no two of them equal.
abbrev AllHeld : List ℕ → Groups → Type 0
AllHeld [] gs = Unit
AllHeld (k ∷ ks) gs = IsHeld k gs × AllHeld ks gs

abbrev pub AreDistinct : List ℕ → Type 0
AreDistinct [] = Unit
AreDistinct (k ∷ ks) = (contains k ks ≡ false) × AreDistinct ks

-- Groups that have no parent yet.
abbrev AllFresh : List ℕ → Groups → Type 0
AllFresh [] gs = Unit
AllFresh (k ∷ ks) gs = (parent_of k gs ≡ none) × AllFresh ks gs

AllHeld-link_one :
    (top : ℕ) (masks : List ℕ) (k : ℕ) (ks : List ℕ) (gs : Groups)
    → AllHeld ks gs
    → AllHeld ks (link_one top masks k gs)
AllHeld-link_one top masks k [] gs h = tt
AllHeld-link_one top masks k (j ∷ ks) gs h =
    (link_one-IsHeld top masks k j gs h.0, AllHeld-link_one top masks k ks gs h.1)

parent_of-link_one_other :
    (top : ℕ) (masks : List ℕ) (k j : ℕ) (gs : Groups)
    → IsHeld k gs
    → (k == j) ≡ false
    → parent_of j (link_one top masks k gs) ≡ parent_of j gs
parent_of-link_one_other top masks k j gs h n = elim (Bool-cases (k == top)) [
  | inl same ↦ rw (link_one-top top masks k gs same) refl
  | inr m ↦ rw (parent_of-link_one top masks k j gs h m) (rw n refl)
]

AllFresh-link_one :
    (top : ℕ) (masks : List ℕ) (k : ℕ) (ks : List ℕ) (gs : Groups)
    → IsHeld k gs
    → contains k ks ≡ false
    → AllFresh ks gs
    → AllFresh ks (link_one top masks k gs)
AllFresh-link_one top masks k [] gs h d f = tt
AllFresh-link_one top masks k (j ∷ ks) gs h d f = (
  rw
      (parent_of-link_one_other top masks k j gs h
        (unfold contains in ground (arith, d, nat_beq_iff j k, nat_beq_iff k j)))
      f.0,
  AllFresh-link_one top masks k ks gs h (unfold contains in ground (arith, d)) f.1,
)

-- The loop over the groups keeps the links right.
link_all-IsLinked :
    (top : ℕ) (masks ks : List ℕ) (gs : Groups)
    → AllHeld ks gs
    → AreDistinct ks
    → AllFresh ks gs
    → IsLinked gs
    → IsLinked (link_all top masks ks gs)
unfolding link_all
link_all-IsLinked top masks [] gs h d f l = l
link_all-IsLinked top masks (k ∷ ks) gs h d f l =
    link_all-IsLinked top masks ks (link_one top masks k gs)
      (AllHeld-link_one top masks k ks gs h.1) d.1 (AllFresh-link_one top masks k ks gs h.0 d.0 f.1)
      (link_one-IsLinked top masks k gs h.0 f.0 l)

parent_of-link_all_other :
    (top : ℕ) (masks ks : List ℕ) (j : ℕ) (gs : Groups)
    → AllHeld ks gs
    → contains j ks ≡ false
    → parent_of j (link_all top masks ks gs) ≡ parent_of j gs
unfolding link_all contains
parent_of-link_all_other top masks [] j gs h d = refl
parent_of-link_all_other top masks (k ∷ ks) j gs h d =
    parent_of-link_all_other top masks ks j (link_one top masks k gs)
      (AllHeld-link_one top masks k ks gs h.1) (ground (arith, d))
    ∙ parent_of-link_one_other top masks k j gs h.0 (ground (arith, d))

-- In the end a group's parent is the one that the inner loop has found.
parent_of-link_all :
    (top : ℕ) (masks ks : List ℕ) (j : ℕ) (gs : Groups)
    → AllHeld ks gs
    → AreDistinct ks
    → contains j ks ≡ true
    → (j == top) ≡ false
    → parent_of j (link_all top masks ks gs) ≡ some (best_parent j top masks)
unfolding link_all contains
parent_of-link_all top masks [] j gs h d c n = cc c
parent_of-link_all top masks (k ∷ ks) j gs h d c n = elim (Bool-cases (k == j)) [
  | inl same ↦
      let e : k ≡ j = (nat_beq_iff k j).0 same in
      parent_of-link_all_other top masks ks j (link_one top masks k gs)
        (AllHeld-link_one top masks k ks gs h.1) (subst (λ i. contains i ks ≡ false) e d.0)
      ∙ parent_of-link_one top masks k j gs h.0 (subst (λ i. (i == top) ≡ false) (sym e) n)
      ∙ rw (same, e) refl
  | inr other ↦
      parent_of-link_all top masks ks j (link_one top masks k gs)
        (AllHeld-link_one top masks k ks gs h.1) d.1 (ground (arith, other, c)) n
]

has_parent_lem :
    (mask s : ℕ) (gs : Groups) → parent_of s gs ≡ some mask → has_parent mask s gs ≡ true
unfolding has_parent
has_parent_lem mask s gs h = rw (h, has_parent) (==_refl mask)

check_subgroups-ok :
    (mask : ℕ) (ss : List ℕ) (gs : Groups)
    → ((s : ℕ) → contains s ss ≡ true → parent_of s gs ≡ some mask)
    → check_subgroups mask ss gs ≡ ok tt
unfolding check_subgroups contains
check_subgroups-ok mask [] gs h = refl
check_subgroups-ok mask (s ∷ ss) gs h =
    let here : has_parent mask s gs ≡ true = has_parent_lem mask s gs (h s (rw (==_refl s) refl)) in
    rw here (check_subgroups-ok mask ss gs (λ t c. h t (rw c (ground arith))))

check_all-ok : (masks : List ℕ) (gs : Groups) → IsLinked gs → check_all masks gs ≡ ok tt
unfolding check_all
check_all-ok [] gs l = refl
check_all-ok (mask ∷ masks) gs l =
    rw (check_subgroups-ok mask (subgroups_of mask gs) gs (l mask)) (check_all-ok masks gs l)

-- Groups that were created and not linked yet.
abbrev AllNew : Groups → Type 0
AllNew [] = Unit
AllNew ((k, g) ∷ gs) = (g.parent ≡ none) × (g.subgroups ≡ []) × AllNew gs

pub record IsNew (gs : Groups) : Type 0 where
  pub unlinked : AllNew gs
  pub distinct : AreDistinct (keys gs)

parent_of-new : (k : ℕ) (gs : Groups) → AllNew gs → parent_of k gs ≡ none
unfolding parent_of lookup
parent_of-new k [] h = refl
parent_of-new k ((j, g) ∷ gs) h = elim (Bool-cases (j == k)) [
  | inl s ↦ rw s h.0
  | inr n ↦ rw n (parent_of-new k gs h.2)
]

subgroups_of-new : (k : ℕ) (gs : Groups) → AllNew gs → subgroups_of k gs ≡ []
unfolding subgroups_of lookup
subgroups_of-new k [] h = refl
subgroups_of-new k ((j, g) ∷ gs) h = elim (Bool-cases (j == k)) [
  | inl s ↦ rw s h.1
  | inr n ↦ rw n (subgroups_of-new k gs h.2)
]

AllFresh-new : (ks : List ℕ) (gs : Groups) → AllNew gs → AllFresh ks gs
AllFresh-new [] gs h = tt
AllFresh-new (k ∷ ks) gs h = (parent_of-new k gs h, AllFresh-new ks gs h)

IsLinked-new : (gs : Groups) → AllNew gs → IsLinked gs
unfolding contains
IsLinked-new gs h q s c =
    let empty = subst (λ (l : List ℕ). contains s l ≡ true) (subgroups_of-new q gs h) c in cc empty

held : (k : ℕ) (gs : Groups) → contains k (keys gs) ≡ true → IsHeld k gs
unfolding lookup contains
held k [] h = cc h
held k ((j, g) ∷ gs) h = elim (Bool-cases (j == k)) [
  | inl s ↦ (g, rw s refl)
  | inr n ↦ rw n (held k gs (ground (arith, h, n)))
]

all_held :
    (ks : List ℕ) (gs : Groups) → ((k : ℕ) → contains k ks ≡ true → IsHeld k gs) → AllHeld ks gs
unfolding contains
all_held [] gs h = tt
all_held (k ∷ ks) gs h =
    (h k (rw (==_refl k) refl), all_held ks gs (λ j c. h j (rw c (ground arith))))

insert-AllNew : (k : ℕ) (gs : Groups) → AllNew gs → AllNew (insert k new_group gs)
unfolding insert
insert-AllNew k [] h = (refl, refl, tt)
insert-AllNew k ((j, g) ∷ gs) h = elim (Bool-cases (j == k)) [
  | inl s ↦ rw s (refl, refl, h.2)
  | inr n ↦ rw n (h.0, h.1, insert-AllNew k gs h.2)
]

contains-keys-insert :
    (k j : ℕ) (g : Group) (gs : Groups)
    → contains j (keys (insert k g gs)) ≡ (k == j || contains j (keys gs))
unfolding insert contains
contains-keys-insert k j g [] = ground arith
contains-keys-insert k j g ((i, h) ∷ gs) =
    ground (arith, nat_beq_iff i k, contains-keys-insert k j g gs)

insert-AreDistinct :
    (k : ℕ) (g : Group) (gs : Groups) → AreDistinct (keys gs) → AreDistinct (keys (insert k g gs))
unfolding insert
insert-AreDistinct k g [] h = (unfold contains in refl, tt)
insert-AreDistinct k g ((j, v) ∷ gs) h = elim (Bool-cases (j == k)) [
  | inl s ↦ rw s h
  | inr n ↦ rw n (
    ground (arith, contains-keys-insert k j g gs, h.0, n, nat_beq_iff j k, nat_beq_iff k j),
    insert-AreDistinct k g gs h.1,
  )
]

-- `System.group` gives new groups only.
pub group-IsNew : (mask : ℕ) (gs : Groups) → IsNew gs → IsNew (group mask gs)
unfolding group
group-IsNew mask gs new = elim (Option-cases (lookup mask gs)) [
  | inr (g, e) ↦ rw (e, group) new
  | inl gone ↦
      rw (gone, group)
        (record {
          unlinked = insert-AllNew mask gs new.unlinked;
          distinct = insert-AreDistinct mask new_group gs new.distinct;
        })
]

-- The parent of a group, in a table.
abbrev pub HasParent : ℕ → List ℕ → Groups → ℕ → Type 0
HasParent top masks linked k =
    (p : ℕ) × (parent_of k linked ≡ some p) × IsParent k p top masks × (k < p)

-- The groups that were created are linked to a tree: no assertion fails, and each group but the top
-- one, if its CPUs are among those of the top one, gets a parent with a larger mask, which is around
-- it with no other group between the two.
pub link_groups-HasParent :
    (top : ℕ) (gs : Groups) (k : ℕ)
    → IsNew gs
    → contains k (keys (group top gs)) ≡ true
    → k ≢ top
    → Within k top
    → (linked : Groups) × (link_groups top gs ≡ ok linked)
      × HasParent top (keys (group top gs)) linked k
unfolding link_groups
link_groups-HasParent top gs k new c ne w =
    let all = group top gs in
    let masks = keys (group top gs) in
    let n = group-IsNew top gs new in
    let h = all_held masks all (λ i m. held i all m) in
    let linked = link_all top masks masks all in
    let right : IsLinked linked =
      link_all-IsLinked top masks masks all h n.distinct (AllFresh-new masks all n.unlinked)
        (IsLinked-new all n.unlinked) in
    let p : IsParent k (best_parent k top masks) top masks =
      best_parent-IsParent k top masks ne w in
    let le : k ≤ best_parent k top masks = Within-le k (best_parent k top masks) p.around in
    let other : best_parent k top masks ≢ k = p.other in
    let not_top : (k == top) ≡ false = ground (arith, nat_beq_iff k top, ne) in
    (
      linked,
      (rw (check_all-ok masks linked right) refl),
      (
        best_parent k top masks,
        parent_of-link_all top masks masks k all h n.distinct c not_top,
        p,
        ground (arith, le, other),
      ),
    )
