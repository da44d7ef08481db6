-- ===== src/Cache/Tests.antt =====
-- A cache whose data are texts.
use asct.Prelude.{Bool, true, false, none, some, [], ◌∷◌, ◌≡◌, refl, ◌≢◌, ok, length}
use asct.Text.{Text, codes, text_key, text_beq}
use asct.Dict.{lookup, insert}
use asct.Cache.{Host, CacheFile, Cache, SystemInfo, clear_recipe_cache, recipe_cache_exists}
use asct.Cache.Results.{save, is_cache_available, read_from_cache}
use asct.Cache.Validator.{is_asct_cache_valid}
use asct.Cache.Saving.{IsWorking, IsEnabled}
use asct.Cache.Available.{save-read_from_cache, save-not-available}
use asct.Cache.Validity.{validate, validate-valid}

abbrev is_empty : Text → Bool
is_empty [] = true
is_empty (c ∷ s) = false

abbrev text_host : Host Text
text_host = record {
  dumps = ok;
  loads = ok;
  is_falsy = is_empty;
  string = λ s. s;
  items = λ s. ok ((codes "out", s) ∷ []);
  hash = λ s. b'h' ∷ s;
  stat_hash = λ mtime size. b'f' ∷ mtime ∷ size ∷ [];
  write_error = λ name. none;
  chown_error = λ name. none;
  can_remove = λ name. true;
  rmtree_error = none;
  makedirs_error = none;
  is_root = true;
}

abbrev other_file : CacheFile
other_file = record { text = codes "old"; mtime = 3 }

abbrev one_cache : Cache
one_cache = record {
  use_cache = true;
  is_cache_writeable = true;
  valid = true;
  files = (codes "lat", other_file) ∷ (codes "lat.f", other_file) ∷ (codes "bw", other_file) ∷ [];
  output = [];
  now = 7;
}

abbrev one_system : SystemInfo Text
one_system = record { memory = codes "mem"; sys_hw = codes "cpu" }

text_host-IsWorking : IsWorking text_host
unfolding IsWorking
text_host-IsWorking =
    (λ name. refl, λ name. refl, λ name. refl, λ x. (x, refl, refl), λ mtime size. refl)

one_cache-IsEnabled : IsEnabled one_cache
unfolding IsEnabled
one_cache-IsEnabled = (refl, refl)

cleared :
    (clear_recipe_cache text_host (codes "lat") one_cache).files ≡ (codes "bw", other_file) ∷ []
unfolding clear_recipe_cache text_beq lookup
cleared = refl

stale : (is_cache_available text_host (codes "lat") one_cache).0 ≡ false
unfolding is_cache_available text_beq lookup
stale = refl

save-read_from_cache_example :
    (t : Cache) × (save text_host (codes "lat") (some (codes "new")) one_cache ≡ (ok tt, t))
    × (is_cache_available text_host (codes "lat") t ≡ (true, t))
    × (read_from_cache text_host [] (codes "lat") t ≡ codes "new")
save-read_from_cache_example =
    save-read_from_cache text_host (codes "lat") (codes "new") [] one_cache text_host-IsWorking
      one_cache-IsEnabled refl

save-not-available_example :
    (t : Cache) × (f : CacheFile) × (save text_host (codes "lat") (some (codes "new")) one_cache
      ≡ (ok tt, t))
    × (lookup (codes "lat") t.files ≡ some f)
    × ((g : CacheFile)
        → text_host.stat_hash g.mtime (length g.text) ≢ text_host.stat_hash f.mtime (length f.text)
        → let (available, u) =
            is_cache_available text_host
              (codes "lat")
              (record t { files = insert (codes "lat") g t.files }) in
          (available ≡ false) × (recipe_cache_exists u (codes "lat") ≡ false))
save-not-available_example =
    save-not-available text_host (codes "lat") (codes "new") one_cache text_host-IsWorking
      one_cache-IsEnabled refl

validate-valid_example :
    (t : Cache) × (validate text_host one_system one_cache ≡ (ok tt, t))
    × (is_asct_cache_valid text_host one_system t ≡ (true, t))
validate-valid_example =
    validate-valid text_host one_system one_cache text_host-IsWorking one_cache-IsEnabled refl refl
      refl refl
