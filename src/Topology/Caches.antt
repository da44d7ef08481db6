-- ===== src/Topology/Caches.antt =====
-- The caches that `System.discover` of src/lib/sysreport/sr_cpulist.py finds for one CPU. A cache is
-- known by its key, (cpumask, level, type), and the table gives the parent of each. The keys come
-- from sysfs.
use asct.Prelude.{
  ℕ, ◌+◌, Bool, true, ◌&&◌, ◌||◌, ◌≡◌, ◌↔◌, Option, none, some, List, [], ◌∷◌, ◌++◌, Result, ok,
  err, and_then, arith, Key, ◌==◌, nat_key, nat_beq_iff, if◌then◌else◌,
}
use asct.Dict.{Dict, lookup, insert}
use asct.Topology.{CacheKey, Groups, TopologyError, assertion_error, group, update_group}

abbrev same_key : CacheKey → CacheKey → Bool
same_key c d = c.cpumask == d.cpumask && (c.level == d.level && c.letter == d.letter)

pub same_key_iff : (c d : CacheKey) → (same_key c d ≡ true) ↔ (c ≡ d)
same_key_iff c d = ground (
  arith,
  nat_beq_iff c.cpumask d.cpumask,
  nat_beq_iff c.level d.level,
  nat_beq_iff c.letter d.letter,
)

instance abbrev pub cache_key : Key CacheKey
cache_key = record { equal = same_key; equal_iff = same_key_iff }

-- `Cache.parent` for each key
abbrev pub Parents : Type 0
Parents = Dict CacheKey (Option CacheKey)

pub record Caches : Type 0 where
  pub caches_by_key : Parents
  pub groups : Groups

-- What a CPU knows of its level 1.
pub record FirstLevel : Type 0 where
  pub l1_instructions : Option CacheKey
  pub l1_data : Option CacheKey

-- `Cache.contains`, for the letters I and D
abbrev pub holds_type : CacheKey → ℕ → Bool
holds_type c cache_type = c.letter == b'U' || c.letter == cache_type

-- A cache that is not known gets an entry and a place in the group of its CPUs.
unfoldable pub add_cache : CacheKey → Caches → Caches
unfolding lookup insert group update_group
add_cache ckey s = elim (lookup ckey s.caches_by_key) [
  | some p ↦ s
  | none ↦ record {
    caches_by_key = insert ckey none s.caches_by_key;
    groups =
        update_group ckey.cpumask (λ g. record g { caches = g.caches ++ ckey ∷ [] })
          (group ckey.cpumask s.groups);
  }
]

unfoldable pub note_first_level : CacheKey → FirstLevel → FirstLevel
note_first_level c f =
    if c.level == 1
    then record {
      l1_instructions = if holds_type c b'I' then some c else f.l1_instructions;
      l1_data = if holds_type c b'D' then some c else f.l1_data;
    }
    else f

unfoldable pub add_caches : List CacheKey → Caches → FirstLevel → Caches × FirstLevel
unfolding add_cache note_first_level
add_caches [] s f = (s, f)
add_caches (c ∷ cs) s f = add_caches cs (add_cache c s) (note_first_level c f)

-- The test of the inner loop: `cp` is one level below and takes what `c` holds.
unfoldable pub is_downstream : CacheKey → CacheKey → Bool
is_downstream c cp = cp.level == c.level + 1 && (c.letter == b'U' || holds_type cp c.letter)

abbrev pub entry_parent : Option (Option CacheKey) → Option CacheKey
entry_parent none = none
entry_parent (some p) = p

unfoldable pub cache_parent : CacheKey → Parents → Option CacheKey
cache_parent c parents = entry_parent (lookup c parents)

-- `c.parent is not None and c.parent != cp` raises.
unfoldable pub set_cache_parent :
    Option CacheKey → CacheKey → CacheKey → Parents → Result TopologyError Parents
unfolding insert
set_cache_parent none c cp parents = ok (insert c (some cp) parents)
set_cache_parent (some p) c cp parents =
    if p == cp then ok (insert c (some cp) parents) else err assertion_error

unfoldable pub link_cache : CacheKey → List CacheKey → Parents → Result TopologyError Parents
unfolding is_downstream cache_parent set_cache_parent
link_cache c [] parents = ok parents
link_cache c (cp ∷ cps) parents =
    and_then
      (if is_downstream c cp
        then set_cache_parent (cache_parent c parents) c cp parents
        else ok parents)
      (link_cache c cps)

unfoldable pub link_caches : List CacheKey → List CacheKey → Parents → Result TopologyError Parents
unfolding link_cache
link_caches [] all parents = ok parents
link_caches (c ∷ cs) all parents = and_then (link_cache c all parents) (link_caches cs all)

-- The part of the loop over the CPUs that treats the caches of one.
unfoldable pub discover_cpu :
    List CacheKey → Caches → FirstLevel → Result TopologyError (Caches × FirstLevel)
unfolding add_caches link_caches
discover_cpu ckeys s f =
    let (found, first) = add_caches ckeys s f in
    and_then (link_caches ckeys ckeys found.caches_by_key)
      λ parents. ok (record found { caches_by_key = parents }, first)
