-- ===== src/Settings/Uncached.antt =====
-- The cache against the table: getString returns what it would return with an empty cache.
use nexcore_x_ui.Prelude.{
  ◌≡◌, refl, sym, ap, ◌∙◌, String, Option, none, some, List, [], ◌∷◌, Option-cases, inl, inr, head?,
}
use nexcore_x_ui.Prelude.Maps.{lookup, insert}
use nexcore_x_ui.Exec.{Result, ok, err, continue}
use nexcore_x_ui.Model.{Setting}
use nexcore_x_ui.Table.{Table}
use nexcore_x_ui.Table.Schemas.{settings_schema}
use nexcore_x_ui.Settings.{
  CacheEntry, absent, Env, SettingStore, read, with_key, get_setting, default_value, opened,
  put_opened, value_of_row, from_cache, cached_or_read, get_string,
}
use nexcore_x_ui.Settings.Coherence.{
  Call, after, after-Coherent, Coherent, selected, entry_of, fresh,
}

module _ (tbl : Table settings_schema) (env : Env) where
  abbrev uncached : SettingStore tbl → SettingStore tbl
  uncached s = record s { cache = [] }

  default-value :
      (key : String) (s t : SettingStore tbl)
      → (default_value tbl env key s).0 ≡ (default_value tbl env key t).0
  unfolding default_value
  default-value key s t = elim (Option-cases (lookup key env.defaults)) [
    | inl unknown ↦ rw unknown refl
    | inr (v, known) ↦ rw known refl
  ]

  put-value :
      (key : String) (o : Result String) (s t : SettingStore tbl)
      → (put_opened tbl key o s).0 ≡ (put_opened tbl key o t).0
  put-value key (ok v) s t = refl
  put-value key (err e) s t = refl

  value_of_row-value :
      (key : String) (rs : List Setting) (s t : SettingStore tbl)
      → (value_of_row tbl env key rs s).0 ≡ (value_of_row tbl env key rs t).0
  value_of_row-value key [] s t =
      default-value key (record s { cache = insert key absent s.cache })
        (record t { cache = insert key absent t.cache })
  value_of_row-value key (r ∷ rs) s t = put-value key (opened env key r.value) s t

  opened-value :
      (key : String) (e : CacheEntry) (o : Result String) (s t : SettingStore tbl)
      → entry_of o ≡ some e
      → (from_cache tbl env key e s).0 ≡ (put_opened tbl key o t).0
  opened-value key e (err x) s t h = cc
  opened-value key e (ok v) s t h =
      ap
        (λ (o : Option CacheEntry). elim o [
          | none ↦ ok v
          | some d ↦ (from_cache tbl env key d s).0
        ])
        (sym h)

  hit-value :
      (key : String) (e : CacheEntry) (rs : List Setting) (s t : SettingStore tbl)
      → fresh env key (head? rs) ≡ some e
      → (from_cache tbl env key e s).0 ≡ (value_of_row tbl env key rs t).0
  hit-value key e [] s t h =
      ap
        (λ (o : Option CacheEntry). elim o [
          | none ↦ (default_value tbl env key s).0
          | some d ↦ (from_cache tbl env key d s).0
        ])
        (sym h)
      ∙ default-value key s (record t { cache = insert key absent t.cache })
  hit-value key e (r ∷ rs) s t h = opened-value key e (opened env key r.value) s t h

  read-value :
      (key : String) (rows : Option (List Setting)) (e : CacheEntry) (s : SettingStore tbl)
      {rs : List Setting}
      → rows ≡ some rs
      → fresh env key (head? rs) ≡ some e
      → (from_cache tbl env key e s).0
        ≡ (continue (read tbl rows (uncached s)) (value_of_row tbl env key)).0
  read-value key rows e s {rs} h now = rw h (hit-value key e rs s (uncached s) now)

  missed-value :
      (key : String) (rows : Option (List Setting)) (s : SettingStore tbl)
      → (continue (read tbl rows s) (value_of_row tbl env key)).0
        ≡ (continue (read tbl rows (uncached s)) (value_of_row tbl env key)).0
  missed-value key none s = refl
  missed-value key (some rs) s = value_of_row-value key rs s (uncached s)

  cached-value :
      (key : String) (o : Option CacheEntry) (s : SettingStore tbl) {rs : List Setting}
      → lookup key s.cache ≡ o
      → Coherent tbl env s
      → tbl.select (with_key tbl key) s.table ≡ some rs
      → (cached_or_read tbl env key o s).0 ≡ (get_string tbl env key (uncached s)).0
  unfolding get_string get_setting
  cached-value key none s held c h = missed-value key (tbl.select (with_key tbl key) s.table) s
  cached-value key (some e) s held c h =
      read-value key (tbl.select (with_key tbl key) s.table) e s h
        (ap (fresh env key) (sym (selected tbl env key s h)) ∙ c key e held)

  -- After any calls of getString, saveSetting and ResetSettings on a table with an empty cache, whether
  -- they succeeded or not, getString of a key returns what it returns with the cache emptied, provided
  -- that the query for the row succeeds.
  pub get_string-uncached :
      (calls : List Call) (t : tbl.Tab) (key : String) {rs : List Setting}
      → tbl.select (with_key tbl key) (after tbl env calls (record { table = t; cache = [] })).table
        ≡ some rs
      → (get_string tbl env key (after tbl env calls (record { table = t; cache = [] }))).0
        ≡ (get_string tbl env key (record {
          table = (after tbl env calls (record { table = t; cache = [] })).table;
          cache = [];
        })).0
  unfolding get_string
  get_string-uncached calls t key h =
      let s = after tbl env calls (record { table = t; cache = [] }) in
      cached-value key (lookup key s.cache) s refl
        (after-Coherent tbl env calls (record { table = t; cache = [] }) (λ k e none_there. cc)) h
