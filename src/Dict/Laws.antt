-- ===== src/Dict/Laws.antt =====
-- The laws of dictionaries, in `if` form where they can be.
use asct.Prelude.{
  subst, Option, none, ◌≡◌, refl, some, [], ◌∷◌, arith, Key, ◌==◌, ==_refl, if◌then◌else◌,
  Bool-cases, inl, inr,
}
use asct.Dict.{Dict, lookup, insert, update}

module _ {ℓ κ} {K : Type ℓ} {V : Type κ} ⦃e : Key K⦄ where
  pub lookup-insert :
      (k j : K) (v : V) (d : Dict K V)
      → lookup j (insert k v d) ≡ (if k == j then some v else lookup j d)
  unfolding lookup insert
  lookup-insert k j v [] = refl
  lookup-insert k j v ((i, w) ∷ d) =
      ground (arith, e.equal_iff k j, e.equal_iff i k, e.equal_iff i j, lookup-insert k j v d)

  pub lookup-insert_self : (k : K) (v : V) (d : Dict K V) → lookup k (insert k v d) ≡ some v
  lookup-insert_self k v d = rw (lookup-insert k k v d, ==_refl k) refl

-- `b if a is None else a`
unfoldable pub or_else {κ} : {V : Type κ} → Option V → Option V → Option V
or_else none b = b
or_else (some v) b = some v

module _ {ℓ κ} {K : Type ℓ} {V : Type κ} ⦃e : Key K⦄ where
  unfoldable pub HasDistinctKeys : Dict K V → Type κ
  HasDistinctKeys [] = Unit
  HasDistinctKeys ((k, v) ∷ d) = (lookup k d ≡ none) × HasDistinctKeys d

  pub insert-HasDistinctKeys :
      (k : K) (v : V) (d : Dict K V) → HasDistinctKeys d → HasDistinctKeys (insert k v d)
  unfolding HasDistinctKeys insert lookup
  insert-HasDistinctKeys k v [] h = (refl, tt)
  insert-HasDistinctKeys k v ((j, w) ∷ d) h = elim (Bool-cases (j == k)) [
    | inl same ↦ rw same h
    | inr other ↦ rw other (
      (rw (lookup-insert k j v d) (ground (arith, e.equal_iff j k, e.equal_iff k j, h.0))),
      insert-HasDistinctKeys k v d h.1,
    )
  ]

  pub lookup-update :
      (k : K) (d other : Dict K V)
      → HasDistinctKeys other
      → lookup k (update d other) ≡ or_else (lookup k other) (lookup k d)
  unfolding HasDistinctKeys update lookup or_else
  lookup-update k d [] h = refl
  lookup-update k d ((j, v) ∷ other) h = elim (Bool-cases (j == k)) [
    | inl same ↦
        let gone = subst (λ x. lookup x other ≡ none) ((e.equal_iff j k).0 same) h.0 in
        rw (
          lookup-update k (insert j v d) other h.1,
          lookup-insert j k v d,
          gone,
          same,
          if◌then◌else◌,
        )
    | inr different ↦
        rw (
          lookup-update k (insert j v d) other h.1,
          lookup-insert j k v d,
          different,
          if◌then◌else◌,
        )
  ]
