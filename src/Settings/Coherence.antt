-- ===== src/Settings/Coherence.antt =====
-- The invariant of the cache: an entry is what a read of the table would put there.
use nexcore_x_ui.Prelude.{
  ℕ, ◌≡◌, ◌≢◌, refl, sym, ap, ◌∙◌, String, Bool, true, false, Option, none, some, List, [], ◌∷◌,
  str_eq, eq_iff, any, arith, Bool-cases, Option-cases, inl, inr, ◌==◌, Memᴰ, ltb, distinct-eq,
  mem_of_select, all_of_mem, any_of_mem, head?,
}
use mathlib.Core.Path.{subst}
use nexcore_x_ui.Prelude.Maps.{lookup, insert, lookup-insert}
use nexcore_x_ui.Exec.{Result, ok, err, ◌>>=◌, continue}
use nexcore_x_ui.Model.{Setting}
use nexcore_x_ui.Table.{Table}
use nexcore_x_ui.Table.Schemas.{settings_schema}
use nexcore_x_ui.Settings.{
  CacheEntry, absent, found, invalidate, Env, SettingStore, read, stored, cache_reset,
  cache_invalidate, with_key, get_setting, default_value, opened, put_opened, value_of_row,
  cached_or_read, get_string, sealed, save_row, save_sealed, save_setting, reset_settings,
}
use nexcore_x_ui.Settings.Rows.{
  first_with, first_with-select, first_with-append, first_with-update, lookup-invalidate,
}

-- What the cache may hold for the first row with a key.
abbrev pub entry_of : Result String → Option CacheEntry
entry_of (ok v) = some (found v)
entry_of (err e) = none

abbrev pub fresh : Env → String → Option Setting → Option CacheEntry
fresh env key none = some absent
fresh env key (some r) = entry_of (opened env key r.value)

-- The calls that change the table or the cache.
pub data Call : Type 0 where
  read_setting : String → Call
  write_setting : String → String → String → Call
  clear : Call

module _ (tbl : Table settings_schema) (env : Env) where
  abbrev pub Store : Type 0
  Store = SettingStore tbl

  -- The store that a call leaves, whether it succeeds or not.
  unfoldable pub step : Call → Store → Store
  unfolding get_string save_setting reset_settings
  step (read_setting key) s = (get_string tbl env key s).1
  step (write_setting nonce key value) s = (save_setting tbl env nonce key value s).1
  step clear s = (reset_settings tbl s).1

  unfoldable pub after : List Call → Store → Store
  unfolding step
  after [] s = s
  after (c ∷ cs) s = after cs (step c s)

  abbrev pub rows_of : Store → List Setting
  rows_of s = tbl.rows s.table

  abbrev pub Coherent : Store → Type 0
  Coherent s =
      (k : String) (e : CacheEntry)
      → lookup k s.cache ≡ some e
      → fresh env k (first_with k (rows_of s)) ≡ some e

  cached-Coherent :
      (key : String) (e : CacheEntry) (s : Store)
      → fresh env key (first_with key (rows_of s)) ≡ some e
      → Coherent s
      → Coherent (record s { cache = insert key e s.cache })
  cached-Coherent key e s now c k d h = elim (Bool-cases (str_eq key k)) [
    | inl same ↦
        (let same_e : some e ≡ some d = sym (rw same at (lookup-insert key k e s.cache)) ∙ h in
          ap (λ j. fresh env j (first_with j (rows_of s))) (sym ((eq_iff key k).0 same))
          ∙ now
          ∙ same_e)
    | inr other ↦ c k d (sym (rw other at (lookup-insert key k e s.cache)) ∙ h)
  ]

  pub selected :
      (key : String) (s : Store) {rs : List Setting}
      → tbl.select (with_key tbl key) s.table ≡ some rs
      → first_with key (rows_of s) ≡ head? rs
  selected key s h =
      sym (
        ap head? (tbl.select-rows (with_key tbl key) s.table h) ∙ first_with-select key (rows_of s))

  opened-Coherent :
      (key : String) (r : Setting) (s : Store) (o : Result String)
      → opened env key r.value ≡ o
      → first_with key (rows_of s) ≡ some r
      → Coherent s
      → Coherent (put_opened tbl key o s).1
  opened-Coherent key r s (err e) is first c = c
  opened-Coherent key r s (ok v) is first c =
      cached-Coherent key (found v) s (ap (fresh env key) first ∙ ap entry_of is) c

  default-same : (key : String) (s : Store) → (default_value tbl env key s).1 ≡ s
  unfolding default_value
  default-same key s = elim (Option-cases (lookup key env.defaults)) [
    | inl unknown ↦ rw unknown refl
    | inr (v, known) ↦ rw known refl
  ]

  read-Coherent :
      (key : String) (s : Store) (found_rows : Option (List Setting))
      → tbl.select (with_key tbl key) s.table ≡ found_rows
      → Coherent s
      → Coherent (continue (read tbl found_rows s) (value_of_row tbl env key)).1
  read-Coherent key s none h c = c
  read-Coherent key s (some []) h c =
      let s' = record s { cache = insert key absent s.cache } in
      let put : Coherent s' =
        cached-Coherent key absent s (ap (fresh env key) (selected key s h)) c in
      subst Coherent (sym (default-same key s')) put
  read-Coherent key s (some (r ∷ rs)) h c =
      opened-Coherent key r s (opened env key r.value) refl (selected key s h) c

  lookup-Coherent :
      (key : String) (s : Store) (o : Option CacheEntry)
      → Coherent s
      → Coherent (cached_or_read tbl env key o s).1
  unfolding get_setting
  lookup-Coherent key s none c = read-Coherent key s (tbl.select (with_key tbl key) s.table) refl c
  lookup-Coherent key s (some e) c = elim (Bool-cases e.present) [
    | inl there ↦ rw there c
    | inr missing ↦ rw missing (subst Coherent (sym (default-same key s)) c)
  ]

  get_string-Coherent :
      (key : String) (s : Store) → Coherent s → Coherent (get_string tbl env key s).1
  unfolding get_string
  get_string-Coherent key s c = lookup-Coherent key s (lookup key s.cache) c

  -- A write under a key whose cached value is dropped.
  written-Coherent :
      (key : String) (s : Store) (t : tbl.Tab)
      → ((k : String) → str_eq key k ≡ false → first_with k (tbl.rows t) ≡ first_with k (rows_of s))
      → Coherent s
      → Coherent (record s { table = t; cache = invalidate key s.cache })
  written-Coherent key s t others c k e h = elim (Bool-cases (str_eq key k)) [
    | inl same ↦ cc (rw same at (lookup-invalidate key k s.cache), h)
    | inr other ↦
        ap (fresh env k) (others k other)
        ∙ c k e (sym (rw other at (lookup-invalidate key k s.cache)) ∙ h)
  ]

  created-others :
      (key value : String) (s : Store) {n : ℕ} {t : tbl.Tab}
      → tbl.create (record { id = 0; key = key; value = value }) s.table ≡ some (n, t)
      → (k : String) → str_eq key k ≡ false
      → first_with k (tbl.rows t) ≡ first_with k (rows_of s)
  created-others key value s {n} h k other =
      let row : Setting = record { id = n; key = key; value = value } in
      ap (first_with k) (tbl.create-rows (record { id = 0; key = key; value = value }) s.table h)
      ∙ first_with-append k (rows_of s) row
      ∙ elim (Option-cases (first_with k (rows_of s))) [
        | inl no_row ↦ rw no_row (rw other refl)
        | inr (q, some_row) ↦ rw some_row refl
      ]

  same_id : Setting → Setting → Bool
  same_id a b = a.id == b.id

  saved-others :
      (key value : String) (r : Setting) (s : Store) {n : ℕ} {t : tbl.Tab}
      → Memᴰ r (rows_of s)
      → str_eq r.key key ≡ true
      → tbl.save (record r { key = key; value = value }) s.table ≡ some (n, t)
      → (k : String) → str_eq key k ≡ false
      → first_with k (tbl.rows t) ≡ first_with k (rows_of s)
  saved-others key value r s here named h k other =
      let new : Setting = record r { key = key; value = value } in
      let positive : r.id ≢ 0 = ground (
        arith,
        all_of_mem (λ (q : Setting). ltb 0 q.id) (rows_of s) (tbl.keys_positive s.table) here,
      ) in
      let present : any (λ (q : Setting). q.id == r.id) (rows_of s) ≡ true =
        any_of_mem (λ (q : Setting). q.id == r.id) (rows_of s) here (ground arith) in
      ap (first_with k) (tbl.save-rows_old new s.table positive present h)
      ∙ first_with-update k new (rows_of s) other (λ q m same.
        let one : q ≡ r =
          distinct-eq (λ (a b : Setting). a.id == b.id) (λ a b. ground arith) (rows_of s)
            (tbl.keys_unique s.table) here m (ground arith) in
        ap (λ (x : Setting). str_eq x.key k) one
        ∙ ap (λ n. str_eq n k) ((eq_iff r.key key).0 named)
        ∙ other)

  stored-Coherent :
      (key : String) (s : Store) (o : Option (ℕ × tbl.Tab))
      → ((n : ℕ) (t : tbl.Tab) (k : String)
          → o ≡ some (n, t)
          → str_eq key k ≡ false
          → first_with k (tbl.rows t) ≡ first_with k (rows_of s))
      → Coherent s
      → Coherent (continue (stored tbl o s) (λ _. cache_invalidate tbl key)).1
  stored-Coherent key s none others c = c
  stored-Coherent key s (some (n, t)) others c =
      written-Coherent key s t (λ k other. others n t k refl other) c

  save_found-Coherent :
      (key value : String) (s : Store) (rows : Option (List Setting))
      → tbl.select (with_key tbl key) s.table ≡ rows
      → Coherent s
      → Coherent
          (continue
            (read tbl rows s)
            (λ rs. save_row tbl key value rs >>= λ _. cache_invalidate tbl key)).1
  save_found-Coherent key value s none h c = c
  save_found-Coherent key value s (some []) h c =
      stored-Coherent key s (tbl.create (record { id = 0; key = key; value = value }) s.table)
        (λ n t k made other. created-others key value s made k other) c
  save_found-Coherent key value s (some (r ∷ rs)) h c =
      let (here, named) =
        mem_of_select (λ (q : Setting). str_eq q.key key) (rows_of s)
          (subst (Memᴰ r) (tbl.select-rows (with_key tbl key) s.table h) (Memᴰ.head refl)) in
      stored-Coherent key s (tbl.save (record r { key = key; value = value }) s.table)
        (λ n t k made other. saved-others key value r s here named made k other) c

  save_sealed-Coherent :
      (key : String) (o : Result String) (s : Store)
      → Coherent s
      → Coherent (save_sealed tbl key o s).1
  unfolding get_setting
  save_sealed-Coherent key (err e) s c = c
  save_sealed-Coherent key (ok value) s c =
      save_found-Coherent key value s (tbl.select (with_key tbl key) s.table) refl c

  emptied-Coherent :
      (s : Store) (o : Option (ℕ × tbl.Tab))
      → Coherent s
      → Coherent (continue (stored tbl o s) (λ _. cache_reset tbl)).1
  emptied-Coherent s none c = c
  emptied-Coherent s (some (n, t)) c = λ k e h. cc

  step-Coherent : (a : Call) (s : Store) → Coherent s → Coherent (step a s)
  unfolding step get_string save_setting reset_settings
  step-Coherent (read_setting key) s c = get_string-Coherent key s c
  step-Coherent (write_setting nonce key value) s c =
      save_sealed-Coherent key (sealed env nonce key value) s c
  step-Coherent clear s c = emptied-Coherent s (tbl.delete (λ _. true) s.table) c

  pub after-Coherent : (cs : List Call) (s : Store) → Coherent s → Coherent (after cs s)
  unfolding after
  after-Coherent [] s c = c
  after-Coherent (a ∷ cs) s c = after-Coherent cs (step a s) (step-Coherent a s c)
