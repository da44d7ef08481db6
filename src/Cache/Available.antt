-- ===== src/Cache/Available.antt =====
-- Saved results are available and are read back, until their file changes, src/core/cache.py.
use asct.Prelude.{true, false, none, some, ◌≡◌, refl, ap, ◌≢◌, ◌∙◌, ==_refl, ok, err, length}
use asct.Text.{Text, text_key}
use asct.Dict.{lookup, insert}
use asct.Dict.Laws.{lookup-insert, lookup-insert_self}
use asct.Cache.{
  os_error, system_exit, exit_on_os_error, Host, CacheFile, Cache, is_present, recipe_cache_exists,
  clear_recipe_cache, write_to_cache, write_dumped, write_text, caught,
}
use asct.Cache.Results.{
  fingerprint_name, save, save_data, has_fingerprint, is_cache_available, or_empty, or_none,
  read_json_file, read_from_cache,
}
use asct.Cache.Clearing.{clear_recipe_cache-lookup}
use asct.Cache.Saving.{
  IsWorking, IsEnabled, saved, save_data-ok, saved-file, saved-fingerprint, saved-lookup,
  clear_recipe_cache-files, file_now, ==-ne, name-ne-dot,
}

module _ {D : Type 0} (host : Host D) where
  save-enabled :
      (name : Text) (x : D) (c : Cache)
      → IsEnabled c
      → host.is_falsy x ≡ false
      → save host name (some x) c ≡ save_data host name x c
  unfolding save IsEnabled
  save-enabled name x c enabled full = rw (enabled.0, enabled.1, full) refl

  available-marked :
      (name : Text) (t : Cache) {f g : CacheFile}
      → t.use_cache ≡ true
      → lookup name t.files ≡ some f
      → lookup (fingerprint_name host name f) t.files ≡ some g
      → is_cache_available host name t ≡ (true, t)
  unfolding is_cache_available recipe_cache_exists has_fingerprint is_present
  available-marked name t used there marked = rw (there, marked, used) refl

  not-available-unmarked :
      (name : Text) (t : Cache) {f : CacheFile}
      → t.use_cache ≡ true
      → lookup name t.files ≡ some f
      → lookup (fingerprint_name host name f) t.files ≡ none
      → is_cache_available host name t ≡ (false, clear_recipe_cache host name t)
  unfolding is_cache_available recipe_cache_exists has_fingerprint is_present
  not-available-unmarked name t used there unmarked = rw (there, unmarked, used) refl

  read-loaded :
      (name : Text) (x empty : D) (t : Cache) {f : CacheFile}
      → t.use_cache ≡ true
      → lookup name t.files ≡ some f
      → host.loads f.text ≡ ok x
      → host.is_falsy x ≡ false
      → read_from_cache host empty name t ≡ x
  unfolding read_from_cache read_json_file or_none or_empty
  read-loaded name x empty t used there loaded full = rw (there, used, loaded) (rw full refl)

  saved-mark :
      (name text mark : Text) (c : Cache)
      → lookup (fingerprint_name host name (file_now text c)) (saved host name text mark c).files
        ≡ some (file_now mark c)
  saved-mark name text mark c =
      rw
        (
          saved-lookup host name text mark (fingerprint_name host name (file_now text c)) c,
          ==_refl (fingerprint_name host name (file_now text c)),
        )
        refl

  write_to_cache-os_error :
      (name text : Text) (x : D) (t : Cache)
      → t.is_cache_writeable ≡ true
      → host.is_falsy x ≡ false
      → host.dumps x ≡ ok text
      → host.write_error name ≡ some os_error
      → write_to_cache host x name t ≡ (err system_exit, t)
  unfolding write_to_cache write_dumped write_text caught exit_on_os_error
  write_to_cache-os_error name text x t writeable full dumped fails =
      rw (writeable, full, dumped, fails) refl

  save_data-os_error :
      (name text : Text) (x : D) (c : Cache)
      → c.is_cache_writeable ≡ true
      → host.is_falsy x ≡ false
      → host.dumps x ≡ ok text
      → host.write_error name ≡ some os_error
      → save_data host name x c ≡ (err system_exit, clear_recipe_cache host name c)
  unfolding save_data
  save_data-os_error name text x c writeable full dumped fails =
      let t : Cache = clear_recipe_cache host name c in
      let still : t.is_cache_writeable ≡ true =
        ap (λ z. z.is_cache_writeable) (clear_recipe_cache-files host name c) ∙ writeable in
      rw (write_to_cache-os_error name text x t still full dumped fails) refl

  -- On a working host, in a cache that is used and writeable, data that are not false can be saved;
  -- then they are available, and reading them gives them back.
  pub save-read_from_cache :
      (name : Text) (x empty : D) (c : Cache)
      → IsWorking host
      → IsEnabled c
      → host.is_falsy x ≡ false
      → (t : Cache) × (save host name (some x) c ≡ (ok tt, t))
        × (is_cache_available host name t ≡ (true, t))
        × (read_from_cache host empty name t ≡ x)
  unfolding IsEnabled
  save-read_from_cache name x empty c working enabled full =
      let (text, mark, loaded, e) = save_data-ok host name x c working enabled.1 full in
      let t : Cache = saved host name text mark c in
      let there = saved-file host name text mark c in
      (
        t,
        save-enabled name x c enabled full ∙ e,
        available-marked name t enabled.0 there (saved-mark name text mark c),
        read-loaded name x empty t enabled.0 there loaded full,
      )

  -- Under the same conditions, if the file of the saved recipe is then replaced by one whose time
  -- and size have another hash, the recipe is no longer available, and asking for it removes the
  -- file.
  pub save-not-available :
      (name : Text) (x : D) (c : Cache)
      → IsWorking host
      → IsEnabled c
      → host.is_falsy x ≡ false
      → (t : Cache) × (f : CacheFile) × (save host name (some x) c ≡ (ok tt, t))
        × (lookup name t.files ≡ some f)
        × ((g : CacheFile)
            → host.stat_hash g.mtime (length g.text) ≢ host.stat_hash f.mtime (length f.text)
            → let (available, u) =
                is_cache_available host name (record t { files = insert name g t.files }) in
              (available ≡ false) × (recipe_cache_exists u name ≡ false))
  unfolding IsEnabled IsWorking recipe_cache_exists is_present
  save-not-available name x c working enabled full =
      let (text, mark, loaded, e) = save_data-ok host name x c working enabled.1 full in
      let t : Cache = saved host name text mark c in
      (
        t,
        file_now text c,
        save-enabled name x c enabled full ∙ e,
        saved-file host name text mark c,
        λ g other.
            let u : Cache = record t { files = insert name g t.files } in
            let unmarked : lookup (fingerprint_name host name g) u.files ≡ none =
              rw
                (
                  lookup-insert name (fingerprint_name host name g) g t.files,
                  ==-ne (name-ne-dot name (host.stat_hash g.mtime (length g.text))),
                )
                (saved-fingerprint host name text mark (host.stat_hash g.mtime (length g.text)) c
                  working.2 enabled other) in
            rw
              (not-available-unmarked name u enabled.0 (lookup-insert_self name g t.files) unmarked)
              (
                refl,
                rw
                    (
                      clear_recipe_cache-lookup host name name u enabled.0 enabled.1
                          (working.2 name),
                      ==_refl name,
                    )
                    refl,
              ),
      )

  -- Where the cache is used and writeable and the results' file cannot be written because of an
  -- `OSError`, `save` ends the program, although `write_to_cache` handles an `OSError`; what was
  -- saved of the recipe is gone by then, if its file could be removed.
  pub save-os_error :
      (name text : Text) (x : D) (c : Cache)
      → IsEnabled c
      → host.is_falsy x ≡ false
      → host.dumps x ≡ ok text
      → host.write_error name ≡ some os_error
      → host.can_remove name ≡ true
      → (save host name (some x) c ≡ (err system_exit, clear_recipe_cache host name c))
        × (lookup name (clear_recipe_cache host name c).files ≡ none)
  unfolding IsEnabled
  save-os_error name text x c enabled full dumped fails free = (
    save-enabled name x c enabled full
        ∙ save_data-os_error name text x c enabled.1 full dumped fails,
    rw (clear_recipe_cache-lookup host name name c enabled.0 enabled.1 free, ==_refl name) refl,
  )
