-- ===== src/Cache/Saving.antt =====
-- The files that `save` of src/core/cache.py leaves on a host where every operation succeeds.
use asct.Prelude.{
  ℕ, true, false, none, some, [], ◌∷◌, ◌++◌, ◌≡◌, refl, ap, length-append, sym, ◌≢◌, ◌==◌, ==_refl,
  if◌then◌else◌, arith, ok, length,
}
use asct.Text.{Text, text_key, starts_with}
use asct.Dict.{lookup, insert}
use asct.Dict.Laws.{lookup-insert, lookup-insert_self}
use asct.Cache.{
  Host, CacheFile, Cache, is_fingerprint, clear_recipe_cache, dot, write_to_cache, write_dumped,
  write_text, change_to_real_user,
}
use asct.Cache.Results.{fingerprint_name, save_data, save_fingerprint, write_fingerprint}
use asct.Cache.Clearing.{clear_recipe_cache-lookup}

unfoldable pub IsEnabled : Cache → Type 0
IsEnabled c = (c.use_cache ≡ true) × (c.is_cache_writeable ≡ true)

abbrev pub file_now : Text → Cache → CacheFile
file_now text c = record { text = text; mtime = c.now }

module _ {D : Type 0} where
  -- The host writes, removes and gives away every file, JSON reads back what it wrote, and a
  -- fingerprint is no empty text.
  unfoldable pub IsWorking : Host D → Type 0
  IsWorking host =
      ((name : Text) → host.write_error name ≡ none)
      × ((name : Text) → host.chown_error name ≡ none)
      × ((name : Text) → host.can_remove name ≡ true)
      × ((x : D) → (text : Text) × (host.dumps x ≡ ok text) × (host.loads text ≡ ok x))
      × ((mtime size : ℕ) → host.is_falsy (host.string (host.stat_hash mtime size)) ≡ false)

  -- On a working host, data that are not false are written.
  pub write_to_cache-ok :
      (host : Host D) (x : D) (name : Text) (c : Cache)
      → IsWorking host
      → c.is_cache_writeable ≡ true
      → host.is_falsy x ≡ false
      → (text : Text) × (host.loads text ≡ ok x)
        × (write_to_cache host x name c
            ≡ (ok tt, record c { files = insert name (file_now text c) c.files }))
  unfolding IsWorking write_to_cache write_dumped write_text change_to_real_user
  write_to_cache-ok host x name c working writeable full =
      let (text, dumped, loaded) = working.3 x in
      (text, loaded, rw (writeable, full, dumped, working.0 name, working.1 name) refl)

-- Names of fingerprints
module _ where
  starts_with-append : (p s : Text) → starts_with p (p ++ s) ≡ true
  unfolding starts_with
  starts_with-append [] s = refl
  starts_with-append (x ∷ p) s = rw (==_refl x, starts_with-append p s) refl

  append_left_injective : (p : Text) {s t : Text} → p ++ s ≡ p ++ t → s ≡ t
  append_left_injective [] e = e
  append_left_injective (x ∷ p) e = append_left_injective p (cc e)

  pub name-ne-dot : (name mark : Text) → name ≢ (name ++ b'.' ∷ []) ++ mark
  name-ne-dot name mark e =
      omega
        (arith, ap length e, length-append (name ++ b'.' ∷ []) mark, length-append name (b'.' ∷ []))

  pub ==-ne : {s t : Text} → s ≢ t → (s == t) ≡ false
  ==-ne {s = s} {t = t} h = ground (arith, text_key.equal_iff s t, h)

module _ {D : Type 0} (host : Host D) where
  pub clear_recipe_cache-files :
      (name : Text) (c : Cache)
      → clear_recipe_cache host name c ≡ record c { files = (clear_recipe_cache host name c).files }
  unfolding clear_recipe_cache
  clear_recipe_cache-files name c = ground arith

  -- The cache after a recipe was saved as this text, and its fingerprint as that one
  abbrev pub saved : Text → Text → Text → Cache → Cache
  saved name text mark c = record c {
    files =
        insert (fingerprint_name host name (file_now text c)) (file_now mark c)
          (insert name (file_now text c) (clear_recipe_cache host name c).files);
  }

  pub save_data-ok :
      (name : Text) (x : D) (c : Cache)
      → IsWorking host
      → c.is_cache_writeable ≡ true
      → host.is_falsy x ≡ false
      → (text : Text) × (mark : Text) × (host.loads text ≡ ok x)
        × (save_data host name x c ≡ (ok tt, saved name text mark c))
  unfolding save_data save_fingerprint write_fingerprint IsWorking
  save_data-ok name x c working writeable full =
      let cleared : Cache = record c { files = (clear_recipe_cache host name c).files } in
      let (text, loaded, wrote) = write_to_cache-ok host x name cleared working writeable full in
      let written : Cache = record cleared {
        files = insert name (file_now text c) cleared.files;
      } in
      let h : Text = host.stat_hash c.now (length text) in
      let (mark, marked, wrote_mark) =
        write_to_cache-ok host (host.string h) (fingerprint_name host name (file_now text c))
          written working writeable (working.4 c.now (length text)) in
      let at : lookup name written.files ≡ some (file_now text c) =
        lookup-insert_self name (file_now text c) cleared.files in
      (text, mark, loaded, rw (clear_recipe_cache-files name c) (rw wrote (rw at wrote_mark)))

  -- What the directory holds after the recipe was saved: its file, the fingerprint, no other
  -- fingerprint of the recipe, and what was there of other names.
  pub saved-lookup :
      (name text mark entry : Text) (c : Cache)
      → lookup entry (saved name text mark c).files ≡ (
          if fingerprint_name host name (file_now text c) == entry
          then some (file_now mark c)
          else if name == entry
          then some (file_now text c)
          else lookup entry (clear_recipe_cache host name c).files)
  saved-lookup name text mark entry c =
      rw
        (
          lookup-insert (fingerprint_name host name (file_now text c)) entry (file_now mark c)
              (insert name (file_now text c) (clear_recipe_cache host name c).files),
          lookup-insert name entry (file_now text c) (clear_recipe_cache host name c).files,
        )
        refl

  pub saved-file :
      (name text mark : Text) (c : Cache)
      → lookup name (saved name text mark c).files ≡ some (file_now text c)
  saved-file name text mark c =
      rw
        (
          saved-lookup name text mark name c,
          ==-ne (λ e. name-ne-dot name (host.stat_hash c.now (length text)) (sym e)),
          ==_refl name,
        )
        refl

  pub saved-fingerprint :
      (name text mark h : Text) (c : Cache)
      → ((entry : Text) → host.can_remove entry ≡ true)
      → IsEnabled c
      → h ≢ host.stat_hash c.now (length text)
      → lookup (dot name ++ h) (saved name text mark c).files ≡ none
  unfolding IsEnabled is_fingerprint
  saved-fingerprint name text mark h c free enabled other =
      rw
        (
          saved-lookup name text mark (dot name ++ h) c,
          ==-ne (λ e. other (sym (append_left_injective (dot name) e))),
          ==-ne (name-ne-dot name h),
          clear_recipe_cache-lookup host name (dot name ++ h) c enabled.0 enabled.1 (free name),
          starts_with-append (dot name) h,
          free (dot name ++ h),
          ==-ne (λ e. name-ne-dot name h (sym e)),
        )
        refl
