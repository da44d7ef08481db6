-- ===== src/Cache/Results.antt =====
-- Results of recipes in the cache, src/core/cache.py: `save`, `is_cache_available`,
-- `read_from_cache` and `restore_to_output_folder`.
use asct.Prelude.{
  Bool, true, false, not, ◌||◌, Option, none, some, [], ◌∷◌, ◌++◌, Result, ok, err, Exec, ◌>>◌,
  modify, length, if◌then◌else◌,
}
use asct.Text.{Text, codes, text_key}
use asct.Dict.{Dict, lookup, insert}
use asct.Cache.{
  Exception, Host, CacheFile, Cache, dot, os_error, value_error, type_error, key_error,
  attribute_error, json_decode_error, system_exit, exit_on_os_error, recipe_cache_exists,
  clear_recipe_cache, write_to_cache,
}

module _ {D : Type 0} (host : Host D) where
  -- The name of the file that says for which time and size a cache file was written
  abbrev pub fingerprint_name : Text → CacheFile → Text
  fingerprint_name recipe_name f = dot recipe_name ++ host.stat_hash f.mtime (length f.text)

  -- `os.stat` raises where there is no file.
  unfoldable pub write_fingerprint : Text → Option CacheFile → Exec Exception Cache (Unit {0})
  unfolding write_to_cache
  write_fingerprint recipe_name none c = (err os_error, c)
  write_fingerprint recipe_name (some f) c =
      write_to_cache host (host.string (host.stat_hash f.mtime (length f.text)))
        (fingerprint_name recipe_name f) c

  unfoldable pub save_fingerprint : Text → Exec Exception Cache (Unit {0})
  unfolding write_fingerprint
  save_fingerprint recipe_name c = write_fingerprint recipe_name (lookup recipe_name c.files) c

  unfoldable pub save_data : Text → D → Exec Exception Cache (Unit {0})
  unfolding clear_recipe_cache write_to_cache save_fingerprint
  save_data recipe_name cache_data =
      modify (clear_recipe_cache host recipe_name)
      >> write_to_cache host cache_data recipe_name
      >> save_fingerprint recipe_name

  -- `save`, of a recipe with this name and these `cache_results()`
  unfoldable pub save : Text → Option D → Exec Exception Cache (Unit {0})
  unfolding save_data
  save recipe_name none c = (ok tt, c)
  save recipe_name (some cache_data) c =
      if not c.use_cache || not c.is_cache_writeable
      then (ok tt, c)
      else if host.is_falsy cache_data
      then (ok tt, c)
      else save_data recipe_name cache_data c

  unfoldable pub has_fingerprint : Text → Option CacheFile → Cache → Bool
  unfolding recipe_cache_exists
  has_fingerprint recipe_name none c = false
  has_fingerprint recipe_name (some f) c = recipe_cache_exists c (fingerprint_name recipe_name f)

  -- A cache file without the fingerprint of its time and size is removed.
  unfoldable pub is_cache_available : Text → Cache → Bool × Cache
  unfolding recipe_cache_exists clear_recipe_cache has_fingerprint
  is_cache_available recipe_name c =
      if not c.use_cache
      then (false, c)
      else if not (recipe_cache_exists c recipe_name)
      then (false, c)
      else if has_fingerprint recipe_name (lookup recipe_name c.files) c
      then (true, c)
      else (false, clear_recipe_cache host recipe_name c)

  -- `read_json_file` of src/lib/utility/files.py, whose value is `None` for a file that cannot be
  -- opened or is no JSON
  unfoldable pub or_none : Result Exception D → Result Exception (Option D)
  or_none (ok recipe_data) = ok (some recipe_data)
  or_none (err os_error) = ok none
  or_none (err json_decode_error) = ok none
  or_none (err value_error) = err value_error
  or_none (err type_error) = err type_error
  or_none (err key_error) = err key_error
  or_none (err attribute_error) = err attribute_error
  or_none (err system_exit) = err system_exit

  unfoldable pub read_json_file : Option CacheFile → Result Exception (Option D)
  unfolding or_none
  read_json_file none = ok none
  read_json_file (some f) = or_none (host.loads f.text)

  -- `data or {}`; a `ValueError` or `TypeError` leaves `{}`, and JSON raises no other
  unfoldable pub or_empty : D → Result Exception (Option D) → D
  or_empty empty (err e) = empty
  or_empty empty (ok none) = empty
  or_empty empty (ok (some recipe_data)) = if host.is_falsy recipe_data then empty else recipe_data

  unfoldable pub read_from_cache : D → Text → Cache → D
  unfolding or_empty read_json_file
  read_from_cache empty recipe_name c =
      if not c.use_cache
      then empty
      else or_empty empty (read_json_file (lookup recipe_name c.files))

  -- `write_to_file(output_file, json.dumps(content), "w")` for each of the files, until one raises
  unfoldable pub write_output : Text → Option Exception → Text → Exec Exception Cache (Unit {0})
  unfolding exit_on_os_error
  write_output path (some e) text c = (err (exit_on_os_error host e), c)
  write_output path none text c =
      let written : Cache = record c { output = insert path text c.output } in
      elim (host.chown_error path) [ none ↦ (ok tt, written) | some e ↦ (err e, written) ]

  unfoldable pub write_item : Text → Result Exception Text → Exec Exception Cache (Unit {0})
  unfolding write_output
  write_item path (err e) c = (err e, c)
  write_item path (ok text) c = write_output path (host.write_error path) text c

  unfoldable pub restore_items : Text → Dict Text D → Exec Exception Cache (Unit {0})
  unfolding write_item
  restore_items recipe_dir [] = λ c. (ok tt, c)
  restore_items recipe_dir ((output_file, content) ∷ rest) =
      write_item (recipe_dir ++ b'/' ∷ output_file) (host.dumps content)
      >> restore_items recipe_dir rest

  -- `recipe_data.items()`; `None` has none.
  unfoldable pub loaded_items : Option D → Result Exception (Dict Text D)
  loaded_items none = err attribute_error
  loaded_items (some recipe_data) = host.items recipe_data

  unfoldable pub restore_loaded :
      Text → Result Exception (Dict Text D) → Exec Exception Cache (Unit {0})
  unfolding restore_items
  restore_loaded recipe_dir (err e) c = (err e, c)
  restore_loaded recipe_dir (ok items) c = restore_items recipe_dir items c

  -- The directory is made before the data are looked at.
  unfoldable pub restore_read :
      Text → Result Exception (Option D) → Option Exception → Exec Exception Cache (Unit {0})
  unfolding restore_loaded loaded_items
  restore_read recipe_dir (err e) made c = (err e, c)
  restore_read recipe_dir (ok recipe_data) (some e) c = (err e, c)
  restore_read recipe_dir (ok recipe_data) none c =
      restore_loaded recipe_dir (loaded_items recipe_data) c

  -- `except (OSError, ValueError, TypeError, AttributeError)`: `False`
  unfoldable pub restored : Result Exception (Unit {0}) × Cache → Result Exception Bool × Cache
  restored (ok u, c) = (ok true, c)
  restored (err os_error, c) = (ok false, c)
  restored (err value_error, c) = (ok false, c)
  restored (err type_error, c) = (ok false, c)
  restored (err attribute_error, c) = (ok false, c)
  restored (err json_decode_error, c) = (ok false, c)
  restored (err key_error, c) = (err key_error, c)
  restored (err system_exit, c) = (err system_exit, c)

  unfoldable pub restore_to_output_folder : Text → Exec Exception Cache Bool
  unfolding read_json_file restore_read restored
  restore_to_output_folder recipe_name c =
      if not c.use_cache
      then (ok false, c)
      else restored (
          restore_read (codes "raw/" ++ recipe_name) (read_json_file (lookup recipe_name c.files))
            host.makedirs_error c)
