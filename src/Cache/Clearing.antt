-- ===== src/Cache/Clearing.antt =====
-- What clearing a recipe's cache leaves, src/core/cache.py.
use asct.Prelude.{
  Bool, true, false, ◌||◌, Option, none, some, [], ◌∷◌, ◌≡◌, refl, sym, subst, Bool-cases, inl, inr,
  ◌==◌, if◌then◌else◌, arith,
}
use asct.Text.{Text, text_key}
use asct.Dict.{Dict, lookup}
use asct.Cache.{
  Host, CacheFile, Cache, is_present, recipe_cache_exists, discard, is_fingerprint,
  clear_recipe_cache,
}

pub lookup-discard :
    (meant : Text → Bool) (name : Text) (files : Dict Text CacheFile)
    → lookup name (discard meant files) ≡ (if meant name then none else lookup name files)
unfolding lookup discard
lookup-discard meant name [] = elim (Bool-cases (meant name)) [
  | inl h ↦ rw h refl
  | inr h ↦ rw h refl
]
lookup-discard meant name ((entry, f) ∷ files) =
    ground (arith, text_key.equal_iff entry name, lookup-discard meant name files)

module _ {A : Type 0} where
  if-or :
      (o : Option A) (p q : Bool)
      → (if p then none else (if q then none else o)) ≡ (if q || p then none else o)
  if-or o p q = ground arith

  if-or_gone :
      (o : Option A) (p q : Bool)
      → (q ≡ true → o ≡ none)
      → (if p then none else o) ≡ (if q || p then none else o)
  if-or_gone o p q h = ground (arith, h)

pub missing : (o : Option CacheFile) → is_present o ≡ false → o ≡ none
unfolding is_present
missing none h = refl
missing (some f) h = cc h

module _ {D : Type 0} (host : Host D) where
  -- Where the cache is used and writeable and the host lets go of the recipe's file, clearing the
  -- recipe removes this file and its fingerprints that can be removed, and keeps every other file.
  pub clear_recipe_cache-lookup :
      (recipe_name entry : Text) (c : Cache)
      → c.use_cache ≡ true
      → c.is_cache_writeable ≡ true
      → host.can_remove recipe_name ≡ true
      → lookup entry (clear_recipe_cache host recipe_name c).files ≡ (
          if entry == recipe_name || is_fingerprint host recipe_name entry
          then none
          else lookup entry c.files)
  unfolding clear_recipe_cache recipe_cache_exists
  clear_recipe_cache-lookup recipe_name entry c used writeable free =
      elim (Bool-cases (recipe_cache_exists c recipe_name)) [
        | inl there ↦
            rw (used, writeable, there, free)
              (rw
                (
                  lookup-discard (is_fingerprint host recipe_name) entry
                      (discard (λ name. name == recipe_name) c.files),
                  lookup-discard (λ name. name == recipe_name) entry c.files,
                )
                (if-or (lookup entry c.files) (is_fingerprint host recipe_name entry)
                  (entry == recipe_name)))
        | inr gone ↦
            rw (used, writeable, gone)
              (rw (lookup-discard (is_fingerprint host recipe_name) entry c.files) (
                if-or_gone (lookup entry c.files) (is_fingerprint host recipe_name entry)
                  (entry == recipe_name)
                  (λ same.
                    subst (λ name. lookup name c.files ≡ none)
                      (sym ((text_key.equal_iff entry recipe_name).0 same))
                      (missing (lookup recipe_name c.files) gone))))
      ]
