-- ===== src/Cache.antt =====
-- The cache of results, src/core/cache.py. The directory is a table of files, each with its text
-- and the time of its last change; what the program only asks of JSON, of hashes and of the
-- operating system is a `Host`. A write either replaces the whole file or raises and changes
-- nothing.
pub mod Results
pub mod Validator
pub mod Clearing
pub mod Saving
pub mod Available
pub mod Validity
mod Tests
use asct.Prelude.{
  ℕ, Bool, true, false, not, ◌&&◌, ◌||◌, Option, none, some, List, [], ◌∷◌, ◌++◌, Result, ok, err,
  Exec, pure, raise, ◌>>=◌, ◌>>◌, modify, length, ◌==◌, nat_key, if◌then◌else◌,
}
use asct.Text.{Text, text_key, starts_with}
use asct.Dict.{Dict, lookup, insert}

pub data Exception : Type 0 where
  os_error : Exception
  value_error : Exception
  type_error : Exception
  key_error : Exception
  attribute_error : Exception
  -- A `ValueError` too, where the text is no JSON
  json_decode_error : Exception
  -- What `sys.exit` raises; no handler below names it
  system_exit : Exception

-- What is not the program's: `json`, `hashlib`, and the answers of the operating system.
pub record Host (D : Type 0) : Type 0 where
  pub dumps : D → Result Exception Text
  pub loads : Text → Result Exception D
  -- `not data`
  pub is_falsy : D → Bool
  -- A string as JSON data
  pub string : Text → D
  pub items : D → Result Exception (Dict Text D)
  -- `_hash_dict` of the data, and of a time and a size
  pub hash : D → Text
  pub stat_hash : ℕ → ℕ → Text
  -- What opening a file, or writing to it, raises
  pub write_error : Text → Option Exception
  pub chown_error : Text → Option Exception
  pub can_remove : Text → Bool
  pub rmtree_error : Option Exception
  pub makedirs_error : Option Exception
  pub is_root : Bool

pub record CacheFile : Type 0 where
  pub text : Text
  pub mtime : ℕ

pub record Cache : Type 0 where
  pub use_cache : Bool
  pub is_cache_writeable : Bool
  pub valid : Bool
  pub files : Dict Text CacheFile
  -- The output folder
  pub output : Dict Text Text
  -- The time that a file written now gets
  pub now : ℕ

-- What the cache asks of the system report: `asdict(memory)` and `asdict(sys_hw)`.
pub record SystemInfo (D : Type 0) : Type 0 where
  pub memory : D
  pub sys_hw : D

unfoldable pub is_present : Option CacheFile → Bool
is_present none = false
is_present (some f) = true

-- `os.path.exists(self.get_cache_file_path(name))`
unfoldable pub recipe_cache_exists : Cache → Text → Bool
unfolding is_present
recipe_cache_exists c name = is_present (lookup name c.files)

-- `os.remove` of the files that are meant and can be removed
unfoldable pub discard : (Text → Bool) → Dict Text CacheFile → Dict Text CacheFile
discard meant [] = []
discard meant ((name, f) ∷ files) =
    let rest = discard meant files in if meant name then rest else (name, f) ∷ rest

-- `f"{recipe_name}."`
abbrev pub dot : Text → Text
dot name = name ++ b'.' ∷ []

module _ {D : Type 0} (host : Host D) where
  -- Whether an entry of the directory is a fingerprint of the recipe, and the host lets go of it
  unfoldable pub is_fingerprint : Text → Text → Bool
  unfolding starts_with
  is_fingerprint recipe_name entry = starts_with (dot recipe_name) entry && host.can_remove entry

  abbrev pub without : Cache → (Text → Bool) → Cache
  without c meant = record c { files = discard meant c.files }

  -- The first `os.remove` that raises ends the outer `try`; the others are tried one by one.
  unfoldable pub clear_recipe_cache : Text → Cache → Cache
  unfolding recipe_cache_exists is_fingerprint discard
  clear_recipe_cache recipe_name c =
      if not c.use_cache || not c.is_cache_writeable
      then c
      else if not (recipe_cache_exists c recipe_name)
      then without c (is_fingerprint recipe_name)
      else if host.can_remove recipe_name
      then without (without c (λ entry. entry == recipe_name)) (is_fingerprint recipe_name)
      else c

  -- `write_to_file` of src/lib/utility/files.py ends the program on an `OSError`.
  unfoldable pub exit_on_os_error : Exception → Exception
  exit_on_os_error os_error = system_exit
  exit_on_os_error value_error = value_error
  exit_on_os_error type_error = type_error
  exit_on_os_error key_error = key_error
  exit_on_os_error attribute_error = attribute_error
  exit_on_os_error json_decode_error = json_decode_error
  exit_on_os_error system_exit = system_exit

  -- `except (OSError, ValueError, TypeError)`: what is logged, and what leaves the function
  unfoldable pub caught : Exception → Exec Exception Cache (Unit {0})
  caught os_error = pure tt
  caught value_error = pure tt
  caught type_error = pure tt
  caught key_error = raise key_error
  caught attribute_error = raise attribute_error
  caught json_decode_error = pure tt
  caught system_exit = raise system_exit

  -- `change_to_real_user_if_sudo`
  unfoldable pub change_to_real_user : Option Exception → Exec Exception Cache (Unit {0})
  unfolding caught
  change_to_real_user none = pure tt
  change_to_real_user (some e) = caught e

  -- `write_to_file(cache_file, text, "w")` and the change of its owner
  unfoldable pub write_text : Text → Text → Option Exception → Exec Exception Cache (Unit {0})
  unfolding change_to_real_user caught exit_on_os_error
  write_text name text none =
      modify (λ c. record c { files = insert name (record { text = text; mtime = c.now }) c.files })
      >> change_to_real_user (host.chown_error name)
  write_text name text (some e) = caught (exit_on_os_error e)

  unfoldable pub write_dumped : Text → Result Exception Text → Exec Exception Cache (Unit {0})
  unfolding write_text caught
  write_dumped name (ok text) = write_text name text (host.write_error name)
  write_dumped name (err e) = caught e

  unfoldable pub write_to_cache : D → Text → Exec Exception Cache (Unit {0})
  unfolding write_dumped
  write_to_cache recipe_data name c =
      if not c.is_cache_writeable
      then (ok tt, c)
      else if host.is_falsy recipe_data
      then (ok tt, c)
      else write_dumped name (host.dumps recipe_data) c
