-- ===== src/Topology/Tests.antt =====
-- Four CPUs of which two share a level 2 cache.
use asct.Prelude.{true, ◌≡◌, refl, none, some, [], ◌∷◌, ok, arith, nat_key}
use asct.Dict.{keys, contains}
use asct.CpuSets.Subsets.{Within, is_subset, is_subset→Within}
use asct.Topology.{CacheKey, Groups, new_group, group, best_parent, link_groups}
use asct.Topology.Caches.{Caches, FirstLevel, discover_cpu}
use asct.Topology.Tree.{IsNew, HasParent, link_groups-HasParent}
use asct.Topology.Downstream.{AllLinked, discover_cpu-AllLinked}

abbrev small : Groups
small = (1, new_group) ∷ (3, new_group) ∷ []

small-IsNew : IsNew small
unfolding contains
small-IsNew = record { unlinked = (refl, refl, (refl, refl, tt)); distinct = (refl, (refl, tt)) }

abbrev linked_groups : Groups
linked_groups =
    (1, record { parent = some 3; subgroups = []; caches = [] })
    ∷ (3, record { parent = some 15; subgroups = 1 ∷ []; caches = [] })
    ∷ (15, record { parent = none; subgroups = 3 ∷ []; caches = [] })
    ∷ []

tree : link_groups 15 small ≡ ok linked_groups
unfolding link_groups best_parent
tree = refl

one_held : contains 1 (keys (group 15 small)) ≡ true
unfolding contains group
one_held = refl

one_subset : is_subset 1 15 ≡ true
unfolding is_subset
one_subset = refl

one-Within : Within 1 15
one-Within = is_subset→Within 1 15 one_subset

link_groups-HasParent_example :
    (linked : Groups) × (link_groups 15 small ≡ ok linked)
    × HasParent 15 (keys (group 15 small)) linked 1
link_groups-HasParent_example =
    link_groups-HasParent 15 small 1 small-IsNew one_held (omega arith) one-Within

abbrev data_cache : CacheKey
data_cache = record { cpumask = 1; level = 1; letter = b'D' }

abbrev unified_cache : CacheKey
unified_cache = record { cpumask = 3; level = 2; letter = b'U' }

abbrev nothing : Caches
nothing = record { caches_by_key = []; groups = [] }

abbrev no_level : FirstLevel
no_level = record { l1_instructions = none; l1_data = none }

abbrev found : Caches
found = record {
  caches_by_key = (data_cache, some unified_cache) ∷ (unified_cache, none) ∷ [];
  groups =
      (1, record { parent = none; subgroups = []; caches = data_cache ∷ [] })
      ∷ (3, record { parent = none; subgroups = []; caches = unified_cache ∷ [] })
      ∷ [];
}

abbrev first : FirstLevel
first = record { l1_instructions = none; l1_data = some data_cache }

discovered : discover_cpu (data_cache ∷ unified_cache ∷ []) nothing no_level ≡ ok (found, first)
unfolding discover_cpu
discovered = refl

discover_cpu-AllLinked_example :
    AllLinked (data_cache ∷ unified_cache ∷ []) nothing.caches_by_key found.caches_by_key
discover_cpu-AllLinked_example =
    discover_cpu-AllLinked (data_cache ∷ unified_cache ∷ []) nothing no_level discovered
