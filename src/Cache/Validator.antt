-- ===== src/Cache/Validator.antt =====
-- The validator of the cache, src/core/cache.py: two files named by the hashes of the system's
-- memory and hardware say for which system the results stand.
use asct.Prelude.{
  Bool, true, false, not, ◌&&◌, ◌||◌, Option, none, some, [], ◌∷◌, Result, ok, err, Exec, ◌>>◌,
  if◌then◌else◌,
}
use asct.Text.{Text, text_key}
use asct.Dict.{Dict}
use asct.Cache.{
  CacheFile, Exception, Host, Cache, SystemInfo, os_error, value_error, type_error, key_error,
  attribute_error, json_decode_error, system_exit, recipe_cache_exists, write_to_cache,
}

-- `os.listdir(cache_dir)`
unfoldable pub has_files : Dict Text CacheFile → Bool
has_files [] = false
has_files (f ∷ files) = true

module _ {D : Type 0} (host : Host D) where
  -- Whether memory was tested and not found, or else hardware was not found
  unfoldable pub is_other_system : SystemInfo D → Cache → Bool
  unfolding recipe_cache_exists
  is_other_system info c =
      host.is_root && not (recipe_cache_exists c (host.hash info.memory))
      || not (recipe_cache_exists c (host.hash info.sys_hw))

  unfoldable pub is_asct_cache_valid : SystemInfo D → Cache → Bool × Cache
  unfolding is_other_system
  is_asct_cache_valid info c =
      if is_other_system info c then (false, record c { valid = false }) else (true, c)

  -- `os.makedirs(cache_dir, exist_ok=True)` and the change of its owner;
  -- `except (OSError, KeyError)`: what is logged, and what leaves the function
  unfoldable pub caught_creation : Option Exception → Cache → Result Exception (Unit {0}) × Cache
  caught_creation none c = (ok tt, c)
  caught_creation (some os_error) c = (ok tt, c)
  caught_creation (some key_error) c = (ok tt, c)
  caught_creation (some value_error) c = (err value_error, c)
  caught_creation (some type_error) c = (err type_error, c)
  caught_creation (some attribute_error) c = (err attribute_error, c)
  caught_creation (some json_decode_error) c = (err json_decode_error, c)
  caught_creation (some system_exit) c = (err system_exit, c)

  unfoldable pub removed_tree : Option Exception → Exec Exception Cache (Unit {0})
  unfolding caught_creation
  removed_tree none c = caught_creation host.makedirs_error (record c { files = [] })
  removed_tree (some e) c = (err e, c)

  unfoldable pub clear_asct_cache : Bool → Exec Exception Cache (Unit {0})
  unfolding removed_tree has_files
  clear_asct_cache invalidate c =
      if not c.is_cache_writeable
      then (ok tt, c)
      else if invalidate && has_files c.files
      then removed_tree host.rmtree_error c
      else (ok tt, c)

  unfoldable pub refresh_validated : Bool × Cache → Result Exception (Unit {0}) × Cache
  unfolding clear_asct_cache
  refresh_validated (true, c) = (ok tt, c)
  refresh_validated (false, c) = clear_asct_cache true c

  unfoldable pub refresh_cache : SystemInfo D → Exec Exception Cache (Unit {0})
  unfolding refresh_validated is_asct_cache_valid
  refresh_cache info c =
      if not c.use_cache then (ok tt, c) else refresh_validated (is_asct_cache_valid info c)

  unfoldable pub write_validator : SystemInfo D → Exec Exception Cache (Unit {0})
  unfolding write_to_cache
  write_validator info =
      write_to_cache host info.memory (host.hash info.memory)
      >> write_to_cache host info.sys_hw (host.hash info.sys_hw)

  unfoldable pub save_cache_validator : SystemInfo D → Exec Exception Cache (Unit {0})
  unfolding write_validator
  save_cache_validator info c =
      if c.valid
      then (ok tt, c)
      else if not c.is_cache_writeable
      then (ok tt, c)
      else if not c.use_cache
      then (ok tt, c)
      else write_validator info c
