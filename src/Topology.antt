-- ===== src/Topology.antt =====
-- The groups of CPUs in src/lib/sysreport/sr_cpulist.py: `Group`, `System.group` and the part of
-- `System.discover` that links the groups. A group is known by its mask, and the groups by mask are
-- the heap: a reference to a group is its mask.
pub mod Parents
pub mod Links
pub mod Tree
pub mod Caches
pub mod Downstream
mod Tests
use asct.Prelude.{
  ℕ, Bool, false, not, and_then, ◌&&◌, Option, none, some, List, [], ◌∷◌, ◌++◌, Result, ok, err,
  ◌==◌, nat_key, if◌then◌else◌,
}
use asct.Dict.{Dict, keys, lookup, insert}
use asct.CpuSets.Subsets.{is_subset}

-- (cpumask, level, type); the type is the letter I, D or U.
pub record CacheKey : Type 0 where
  pub cpumask : ℕ
  pub level : ℕ
  pub letter : ℕ

pub record Group : Type 0 where
  pub parent : Option ℕ
  pub subgroups : List ℕ
  pub caches : List CacheKey

abbrev pub Groups : Type 0
Groups = Dict ℕ Group

pub data TopologyError : Type 0 where
  assertion_error : TopologyError

abbrev pub new_group : Group
new_group = record { parent = none; subgroups = []; caches = [] }

-- `System.group`
unfoldable pub group : ℕ → Groups → Groups
unfolding lookup insert
group mask groups = elim (lookup mask groups) [
  | none ↦ insert mask new_group groups
  | some g ↦ groups
]

abbrev pub parent_in : Option Group → Option ℕ
parent_in none = none
parent_in (some g) = g.parent

abbrev pub subgroups_in : Option Group → List ℕ
subgroups_in none = []
subgroups_in (some g) = g.subgroups

unfoldable pub parent_of : ℕ → Groups → Option ℕ
parent_of mask groups = parent_in (lookup mask groups)

unfoldable pub subgroups_of : ℕ → Groups → List ℕ
subgroups_of mask groups = subgroups_in (lookup mask groups)

unfoldable pub put_back : Option Group → ℕ → (Group → Group) → Groups → Groups
unfolding insert
put_back none mask f groups = groups
put_back (some g) mask f groups = insert mask (f g) groups

-- A write to a field of a group.
unfoldable pub update_group : ℕ → (Group → Group) → Groups → Groups
unfolding put_back lookup
update_group mask f groups = put_back (lookup mask groups) mask f groups

-- `g.parent = best_parent`
unfoldable pub set_parent : ℕ → ℕ → Groups → Groups
unfolding update_group
set_parent mask best = update_group mask (λ g. record g { parent = some best })

-- `best_parent.subgroups.append(g)`
unfoldable pub add_subgroup : ℕ → ℕ → Groups → Groups
unfolding update_group
add_subgroup best mask = update_group best (λ g. record g { subgroups = g.subgroups ++ mask ∷ [] })

-- The inner loop, from the parent found so far.
unfoldable pub best_parent : ℕ → ℕ → List ℕ → ℕ
unfolding is_subset
best_parent gk best [] = best
best_parent gk best (gpk ∷ masks) =
    best_parent gk
      (if not (gpk == gk) && (is_subset gk gpk && is_subset gpk best) then gpk else best) masks

unfoldable pub link_one : ℕ → List ℕ → ℕ → Groups → Groups
unfolding set_parent add_subgroup
link_one top masks gk groups =
    let best = best_parent gk top masks in
    if gk == top then groups else add_subgroup best gk (set_parent gk best groups)

-- The loop over `groups_by_cpumask`, whose keys it does not change.
unfoldable pub link_all : ℕ → List ℕ → List ℕ → Groups → Groups
unfolding link_one
link_all top masks [] groups = groups
link_all top masks (gk ∷ rest) groups = link_all top masks rest (link_one top masks gk groups)

-- `gs.parent == g`
unfoldable pub has_parent : ℕ → ℕ → Groups → Bool
unfolding parent_of
has_parent best mask groups = elim (parent_of mask groups) [ none ↦ false | some p ↦ p == best ]

unfoldable pub check_subgroups : ℕ → List ℕ → Groups → Result TopologyError (Unit {0})
unfolding has_parent
check_subgroups mask [] groups = ok tt
check_subgroups mask (gs ∷ rest) groups =
    let more = check_subgroups mask rest groups in
    if has_parent mask gs groups then more else err assertion_error

-- The last loop, which asserts that a subgroup's parent is the group.
unfoldable pub check_all : List ℕ → Groups → Result TopologyError (Unit {0})
unfolding check_subgroups subgroups_of
check_all [] groups = ok tt
check_all (mask ∷ masks) groups =
    and_then (check_subgroups mask (subgroups_of mask groups) groups) λ _. check_all masks groups

-- From `self.top = self.group(allcpu_mask)` on.
unfoldable pub link_groups : ℕ → Groups → Result TopologyError Groups
unfolding group link_all check_all
link_groups allcpu_mask groups =
    let masks = keys (group allcpu_mask groups) in
    let linked = link_all allcpu_mask masks masks (group allcpu_mask groups) in
    and_then (check_all masks linked) λ _. ok linked
