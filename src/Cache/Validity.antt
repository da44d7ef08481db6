-- ===== src/Cache/Validity.antt =====
-- After a run has refreshed the cache and saved the validator, the cache is valid for its system.
use asct.Prelude.{
  true, false, none, [], ◌≡◌, refl, Bool-cases, inl, inr, arith, ok, Exec, ◌>>◌, ◌⊎◌, ◌∙◌,
}
use asct.Text.{Text, text_key}
use asct.Dict.{insert}
use asct.Dict.Laws.{lookup-insert, lookup-insert_self}
use asct.Cache.{Exception, Host, Cache, SystemInfo, is_present, recipe_cache_exists}
use asct.Cache.Saving.{IsWorking, IsEnabled, file_now, write_to_cache-ok}
use asct.Cache.Validator.{
  is_other_system, is_asct_cache_valid, caught_creation, removed_tree, has_files, clear_asct_cache,
  refresh_validated, refresh_cache, write_validator, save_cache_validator,
}

module _ {D : Type 0} (host : Host D) where
  -- One step of a run: `refresh_cache`, then `save_cache_validator`
  unfoldable pub validate : SystemInfo D → Exec Exception Cache (Unit {0})
  unfolding refresh_cache save_cache_validator
  validate info = refresh_cache host info >> save_cache_validator host info

  abbrev with_validator : SystemInfo D → Text → Text → Cache → Cache
  with_validator info memory_text hardware_text c = record c {
    files =
        insert (host.hash info.sys_hw) (file_now hardware_text c)
          (insert (host.hash info.memory) (file_now memory_text c) c.files);
  }

  written-valid :
      (info : SystemInfo D) (s t : Text) (c : Cache)
      → is_asct_cache_valid host info (with_validator info s t c)
        ≡ (true, with_validator info s t c)
  unfolding is_asct_cache_valid is_other_system recipe_cache_exists is_present
  written-valid info s t c =
      rw
        (
          lookup-insert_self (host.hash info.sys_hw) (file_now t c)
              (insert (host.hash info.memory) (file_now s c) c.files),
          lookup-insert (host.hash info.sys_hw) (host.hash info.memory) (file_now t c)
              (insert (host.hash info.memory) (file_now s c) c.files),
          lookup-insert_self (host.hash info.memory) (file_now s c) c.files,
        )
        (ground arith)

  write_validator-enabled :
      (info : SystemInfo D) (c : Cache)
      → IsEnabled c
      → c.valid ≡ false
      → save_cache_validator host info c ≡ write_validator host info c
  unfolding save_cache_validator IsEnabled
  write_validator-enabled info c enabled invalid = rw (invalid, enabled.0, enabled.1) refl

  save_cache_validator-written :
      (info : SystemInfo D) (c : Cache)
      → IsWorking host
      → IsEnabled c
      → c.valid ≡ false
      → host.is_falsy info.memory ≡ false
      → host.is_falsy info.sys_hw ≡ false
      → (s : Text) × (t : Text) × (save_cache_validator host info c
          ≡ (ok tt, with_validator info s t c))
  unfolding write_validator IsEnabled
  save_cache_validator-written info c working enabled invalid memory hardware =
      let (s, _, wrote) =
        write_to_cache-ok host info.memory (host.hash info.memory) c working enabled.1 memory in
      let u : Cache = record c { files = insert (host.hash info.memory) (file_now s c) c.files } in
      let (t, _, wrote_hardware) =
        write_to_cache-ok host info.sys_hw (host.hash info.sys_hw) u working enabled.1 hardware in
      (s, t, write_validator-enabled info c enabled invalid ∙ (rw wrote wrote_hardware))

  saves_nothing :
      (info : SystemInfo D) (c : Cache)
      → c.valid ≡ true
      → save_cache_validator host info c ≡ (ok tt, c)
  unfolding save_cache_validator
  saves_nothing info c valid = rw valid refl

  -- The cache after `refresh_cache`: where it was not for this system, its files are gone.
  refresh_cache-cases :
      (info : SystemInfo D) (c : Cache)
      → IsEnabled c
      → host.rmtree_error ≡ none
      → host.makedirs_error ≡ none
      → (u : Cache) × (refresh_cache host info c ≡ (ok tt, u))
        × IsEnabled u
        × ((u.valid ≡ false) ⊎ (is_asct_cache_valid host info u ≡ (true, u)))
  unfolding refresh_cache refresh_validated is_asct_cache_valid clear_asct_cache removed_tree
      caught_creation IsEnabled
  refresh_cache-cases info c enabled removes makes =
      elim (Bool-cases (is_other_system host info c)) [
        | inr same ↦ (c, rw (same, enabled.0) refl, enabled, inr (rw same refl))
        | inl other ↦
            let v : Cache = record c { valid = false } in
            elim (Bool-cases (has_files c.files)) [
              | inr bare ↦ (v, rw (other, enabled.0, enabled.1) (rw bare refl), enabled, inl refl)
              | inl full ↦ (
                record v { files = [] },
                rw (other, enabled.0, enabled.1, removes, makes) (rw full refl),
                enabled,
                inl refl,
              )
            ]
      ]

  -- On a working host whose directory can be removed and made, in a cache that is used and
  -- writeable, refreshing it and then saving the validator succeeds, and leaves a cache that is
  -- valid for this system, whatever it held, and whether or not the memory is tested, if the data
  -- of the system's memory and hardware are not false.
  pub validate-valid :
      (info : SystemInfo D) (c : Cache)
      → IsWorking host
      → IsEnabled c
      → host.rmtree_error ≡ none
      → host.makedirs_error ≡ none
      → host.is_falsy info.memory ≡ false
      → host.is_falsy info.sys_hw ≡ false
      → (t : Cache) × (validate info c ≡ (ok tt, t)) × (is_asct_cache_valid host info t ≡ (true, t))
  unfolding validate
  validate-valid info c working enabled removes makes memory hardware =
      let (u, refreshed, still, kept) = refresh_cache-cases info c enabled removes makes in
      elim (Bool-cases u.valid) [
        | inl valid ↦
            (u, rw refreshed (saves_nothing info u valid), elim kept [ inl h ↦ cc | inr h ↦ h ])
        | inr invalid ↦
            let (s, t, wrote) =
              save_cache_validator-written info u working still invalid memory hardware in
            (with_validator info s t u, rw refreshed wrote, written-valid info s t u)
      ]
