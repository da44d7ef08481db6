-- ===== src/Resources.antt =====
-- The resource manager, src/core/managers/resource_manager.py, with the base class of resources,
-- src/core/resources/resource_base.py. A resource is an object with an identity; its name, its
-- dependencies, its equality and its methods come from its class and are the section's parameters.
pub mod Applied
pub mod Containers
pub mod Sorted
mod Tests
use asct.Prelude.{
  ℕ, String, Bool, true, false, not, List, [], ◌∷◌, ◌++◌, Option, none, some, Result, ok, err, Exec,
  ◌>>=◌, ◌>>◌, pure, raise, lift, gets, modify, catch, ◌==◌, nat_key, string_key, if◌then◌else◌,
  map, continue, and_then, ◌||◌,
}
use mathlib.Core.List.{reverse}
use asct.Dict
use asct.Dict.{Dict, keys}
use asct.Graph.{Graph, CycleError, static_order}

-- What a class defines. `same` is `__eq__`; `setup` and `teardown` may raise, with a number that
-- stands for the exception, and act on the flag `applied` of their own resource and on the world
-- outside the manager, where the flags of the resources inside a container stand too.
pub record Class (W : Type 0) : Type 0 where
  pub name : ℕ → String
  pub depends_on : ℕ → List String
  pub same : ℕ → ℕ → Bool
  pub setup : ℕ → Exec ℕ (Bool × W) (Unit {0})
  pub teardown : ℕ → Exec ℕ (Bool × W) (Unit {0})

pub data Failure : Type 0 where
  raised : ℕ → Failure
  cycle key_error value_error : Failure

-- The manager's two attributes, the flag `applied` of each resource, and the world outside.
pub record World (W : Type 0) : Type 0 where
  pub global_resources : List ℕ
  pub local_resources : Dict ℕ (List ℕ)
  pub applied : ℕ → Bool
  pub outside : W

abbrev pub set_applied : (ℕ → Bool) → ℕ → Bool → ℕ → Bool
set_applied applied r flag q = if r == q then flag else applied q

-- The state in which a method of `r` leaves its flag and the world outside.
abbrev pub after_call : {W : Type 0} → ℕ → Bool × W → World W → World W
after_call r p w = record w { applied = set_applied w.applied r p.0; outside = p.1 }

module _ {W : Type 0} (class : Class W) where
  open class use {name, depends_on, same, setup, teardown}

  -- `resource in resources`
  registered : ℕ → List ℕ → Bool
  registered r [] = false
  registered r (q ∷ qs) = same q r || registered r qs

  abbrev local_list : World W → ℕ → List ℕ
  local_list w object = elim (Dict.lookup object w.local_resources) [ none ↦ [] | some rs ↦ rs ]

  unfoldable pub register : ℕ → ℕ → Bool → World W → World W
  unfolding registered Dict.lookup Dict.insert
  register r object global_scope w =
      if global_scope
      then (if registered r w.global_resources
          then w
          else record w { global_resources = w.global_resources ++ r ∷ [] })
      else record w {
        local_resources = Dict.insert object (local_list w object ++ r ∷ []) w.local_resources;
      }

  -- `{r.name: r for r in resources}`
  unfoldable pub name_to_resource : List ℕ → Dict String ℕ → Dict String ℕ
  unfolding Dict.insert
  name_to_resource [] d = d
  name_to_resource (r ∷ rs) d = name_to_resource rs (Dict.insert (name r) r d)

  -- `{r.name: r.depends_on for r in resources}`
  unfoldable pub dep_graph : List ℕ → Graph → Graph
  unfolding Dict.insert
  dep_graph [] g = g
  dep_graph (r ∷ rs) g = dep_graph rs (Dict.insert (name r) (depends_on r) g)

  unfoldable pub find_all : List String → Dict String ℕ → Result Failure (List ℕ)
  unfolding Dict.lookup
  find_all [] d = ok []
  find_all (n ∷ ns) d =
      let rest = find_all ns d in
      elim (Dict.lookup n d) [ none ↦ err key_error | some r ↦ and_then rest (λ rs. ok (r ∷ rs)) ]

  unfoldable pub topological_sort : List ℕ → Result Failure (List ℕ)
  unfolding name_to_resource dep_graph find_all static_order
  topological_sort rs = elim (static_order (dep_graph rs [])) [
    | err _ ↦ err cycle
    | ok names ↦ find_all names (name_to_resource rs [])
  ]

  -- A method of a resource, called by the manager.
  abbrev call : ℕ → Exec ℕ (Bool × W) (Unit {0}) → Exec Failure (World W) (Unit {0})
  call r m w =
      let (result, p) = m (w.applied r, w.outside) in
      (elim result [ ok _ ↦ ok tt | err e ↦ err (raised e) ], after_call r p w)

  unfoldable pub apply_one : ℕ → Exec Failure (World W) (Unit {0})
  apply_one r w =
      if w.applied r
      then (ok tt, w)
      else (call r (setup r) >> modify (λ v. record v { applied = set_applied v.applied r true })) w

  -- `_apply_all`
  unfoldable pub apply_list : List ℕ → Exec Failure (World W) (Unit {0})
  unfolding apply_one
  apply_list [] = pure tt
  apply_list (r ∷ rs) = apply_one r >> apply_list rs

  unfoldable pub apply_all : Option ℕ → Bool → Exec Failure (World W) (Unit {0})
  unfolding topological_sort apply_list Dict.insert Dict.lookup
  apply_all object true w =
      (do
        sorted ← lift (topological_sort w.global_resources)
        modify (λ v. record v { global_resources = sorted })
        apply_list sorted)
        w
  apply_all none false w = (err value_error, w)
  apply_all (some object) false w = elim (local_list w object) [
    | [] ↦ (ok tt, w)
    | r ∷ rs ↦
        (do
          sorted ← lift (topological_sort (r ∷ rs))
          modify (λ v. record v { local_resources = Dict.insert object sorted v.local_resources })
          apply_list sorted)
          w
  ]

  restore_one : ℕ → Exec Failure (World W) (Unit {0})
  restore_one r w = if w.applied r then call r (teardown r) w else (ok tt, w)

  -- The loops of the restoring methods; an exception of `teardown` ends them.
  unfoldable pub restore_list : List ℕ → Exec Failure (World W) (Unit {0})
  unfolding restore_one
  restore_list [] = pure tt
  restore_list (r ∷ rs) = restore_one r >> restore_list rs

  -- `_restore_all_local_from_id`; reading a missing key of the defaultdict creates an empty list
  unfoldable pub restore_all_local_from_id : ℕ → Exec Failure (World W) (Unit {0})
  unfolding restore_list Dict.remove
  restore_all_local_from_id object w =
      (restore_list (reverse (local_list w object))
          >> modify (λ v. record v { local_resources = Dict.remove object v.local_resources }))
        w

  unfoldable pub restore_all_local : ℕ → Exec Failure (World W) (Unit {0})
  unfolding restore_all_local_from_id Dict.lookup
  restore_all_local object w = elim (Dict.lookup object w.local_resources) [
    | none ↦ (ok tt, w)
    | some _ ↦ restore_all_local_from_id object w
  ]

  unfoldable pub restore_all_global : Exec Failure (World W) (Unit {0})
  unfolding restore_list
  restore_all_global w =
      (restore_list w.global_resources >> modify (λ v. record v { global_resources = [] })) w

  unfoldable pub restore_all : ℕ → Bool → Exec Failure (World W) (Unit {0})
  unfolding restore_all_global restore_all_local
  restore_all object global_scope =
      if global_scope then restore_all_global else restore_all_local object

  cleanup_locals : List ℕ → Exec Failure (World W) (Unit {0})
  unfolding restore_all_local_from_id
  cleanup_locals [] = pure tt
  cleanup_locals (object ∷ objects) = restore_all_local_from_id object >> cleanup_locals objects

  unfoldable pub cleanup_all_resources : Exec Failure (World W) (Unit {0})
  unfolding restore_all_global cleanup_locals
  cleanup_all_resources = do
    restore_all_global
    objects ← gets (λ w. keys w.local_resources)
    cleanup_locals objects

  -- `with manager: body`; an exception of the body passes on after `__exit__`.
  unfoldable pub with_manager :
      Exec Failure (World W) (Unit {0}) → Exec Failure (World W) (Unit {0})
  unfolding apply_all restore_all
  with_manager body = do
    apply_all none true
    λ w.
        let (r, after) = body w in
        let (left, final) = restore_all 0 true after in
        (elim left [ ok _ ↦ r | err e ↦ err e ], final)
