-- ===== src/Settings/SetGet.antt =====
-- What is saved under a key is read back.
use nexcore_x_ui.Prelude.{
  ℕ, ◌≡◌, ◌≢◌, ◌≤◌, refl, sym, ap, ◌∙◌, String, true, Option, none, some, List, [], ◌∷◌, str_eq,
  eq_iff, eq_refl, if◌then◌else◌, any, arith, Bool-cases, inl, inr, ◌==◌, Memᴰ, update_rows,
  mem_of_select, all_of_mem, any_of_mem, head?, ltb,
}
use mathlib.Core.Path.{subst}
use nexcore_x_ui.Prelude.Maps.{Map, lookup}
use nexcore_x_ui.Exec.{Result, ok, err, ◌>>=◌, continue}
use nexcore_x_ui.Model.{Setting}
use nexcore_x_ui.Table.{Table}
use nexcore_x_ui.Table.Schemas.{settings_schema}
use nexcore_x_ui.Secrets.{Aead, size, decrypt}
use nexcore_x_ui.Secrets.RoundTrip.{decrypt-encrypt}
use nexcore_x_ui.Settings.Rows.{first_with, first_with-select, first_with-append, lookup-invalidate}
use nexcore_x_ui.Settings.{
  CacheEntry, invalidate, Env, SettingStore, read, stored, cache_invalidate, with_key, get_setting,
  opened, put_opened, value_of_row, cached_or_read, get_string, is_sensitive, sealed, save_row,
  save_sealed, save_setting,
}

ok_eq : {A : Type 0} {a b : A} → ◌≡◌ {A = Result A} (ok a) (ok b) → b ≡ a
ok_eq h = cc

-- The row under the key is the new one, once it is there.
first_with-new :
    (key : String) (new r : Setting) (rs : List Setting)
    → str_eq new.key key ≡ true
    → r.id ≡ new.id
    → first_with key rs ≡ some r
    → first_with key (update_rows (λ q. q.id == new.id) (λ _. new) rs) ≡ some new
first_with-new key new r [] named same h = cc
first_with-new key new r (q ∷ rs) named same h = elim (Bool-cases (q.id == new.id)) [
  | inl hit ↦ rw hit (rw named refl)
  | inr miss ↦ rw miss (elim (Bool-cases (str_eq q.key key)) [
    | inl mine ↦
        (let one : q ≡ r =
            ap (λ (o : Option Setting). elim o [ none ↦ r | some x ↦ x ]) (rw mine at h) in
          ground (arith, ap (λ (x : Setting). x.id) one))
    | inr other ↦ rw other (first_with-new key new r rs named same (rw other at h))
  ])
]

module _ (tbl : Table settings_schema) (env : Env) where
  -- The store holds the value under the key, and the cache nothing.
  abbrev Holds : String → String → SettingStore tbl → Type 0
  Holds key value s =
      ((r : Setting) × (first_with key (tbl.rows s.table) ≡ some r) × (r.value ≡ value))
      × (lookup key s.cache ≡ none)

  dropped : (key : String) (m : Map CacheEntry) → lookup key (invalidate key m) ≡ none
  dropped key m =
      lookup-invalidate key key m ∙ ap (λ b. if b then none else lookup key m) (eq_refl key)

  stored-Holds :
      (key value : String) (new : Setting) (s : SettingStore tbl) (o : Option (ℕ × tbl.Tab))
      {t : SettingStore tbl}
      → ((n : ℕ) (u : tbl.Tab)
          → o ≡ some (n, u)
          → (r : Setting) × (first_with key (tbl.rows u) ≡ some r) × (r.value ≡ value))
      → continue (stored tbl o s) (λ _. cache_invalidate tbl key) ≡ (ok tt, t)
      → Holds key value t
  stored-Holds key value new s none there h = cc
  stored-Holds key value new s (some (n, u)) there h =
      let after = record s { table = u; cache = invalidate key s.cache } in
      subst (Holds key value) (ap (λ (r : Result (Unit {0}) × SettingStore tbl). r.1) h)
        (there n u refl, dropped key s.cache)

  save_row-Holds :
      (key value : String) (s : SettingStore tbl) (rows : Option (List Setting))
      {t : SettingStore tbl}
      → tbl.select (with_key tbl key) s.table ≡ rows
      → continue
          (read tbl rows s)
          (λ rs. save_row tbl key value rs >>= λ _. cache_invalidate tbl key)
        ≡ (ok tt, t)
      → Holds key value t
  save_row-Holds key value s none sel h = cc
  save_row-Holds key value s (some []) sel h =
      let row : Setting = record { id = 0; key = key; value = value } in
      stored-Holds key value row s (tbl.create row s.table)
        (λ n u made. (
          record row { id = n },
          ap (first_with key) (tbl.create-rows row s.table made)
              ∙ first_with-append key (tbl.rows s.table) (record row { id = n })
              ∙ ap
                  (λ (o : Option Setting). elim o [
                    | some q ↦ some q
                    | none ↦ if str_eq key key then some (record row { id = n }) else none
                  ])
                  (sym (first_with-select key (tbl.rows s.table))
                    ∙ ap head? (sym (tbl.select-rows (with_key tbl key) s.table sel)))
              ∙ ap (λ b. if b then some (record row { id = n }) else none) (eq_refl key),
          refl,
        ))
        h
  save_row-Holds key value s (some (r ∷ rs)) sel h =
      let new : Setting = record r { key = key; value = value } in
      let listed = tbl.select-rows (with_key tbl key) s.table sel in
      let (here, named) =
        mem_of_select (λ (q : Setting). str_eq q.key key) (tbl.rows s.table)
          (subst (Memᴰ r) listed (Memᴰ.head refl)) in
      let positive : r.id ≢ 0 = ground (
        arith,
        all_of_mem (λ (q : Setting). ltb 0 q.id) (tbl.rows s.table) (tbl.keys_positive s.table)
            here,
      ) in
      let present : any (λ (q : Setting). q.id == r.id) (tbl.rows s.table) ≡ true =
        any_of_mem (λ (q : Setting). q.id == r.id) (tbl.rows s.table) here (ground arith) in
      stored-Holds key value new s (tbl.save new s.table)
        (λ n u made. (
          new,
          ap (first_with key) (tbl.save-rows_old new s.table positive present made)
              ∙ first_with-new key new r (tbl.rows s.table) (eq_refl key) refl
                  (sym (first_with-select key (tbl.rows s.table)) ∙ ap head? (sym listed)),
          refl,
        ))
        h

  read_back :
      (key value : String) (s : SettingStore tbl) {rs : List Setting} {v : String}
      → Holds key value s
      → tbl.select (with_key tbl key) s.table ≡ some rs
      → opened env key value ≡ ok v
      → (get_string tbl env key s).0 ≡ ok v
  unfolding get_string get_setting
  read_back key value s {rs} {v} ((r, first, same), gone) sel plain =
      ap (λ o. (cached_or_read tbl env key o s).0) gone
      ∙ ap (λ rows. (continue (read tbl rows s) (value_of_row tbl env key)).0) sel
      ∙ first_row rs (
          sym (ap head? (sym (tbl.select-rows (with_key tbl key) s.table sel)))
          ∙ first_with-select key (tbl.rows s.table)
          ∙ first)
    where
      first_row : (rs : List Setting) → head? rs ≡ some r → (value_of_row tbl env key rs s).0 ≡ ok v
      first_row [] h = cc
      first_row (q ∷ rs) h =
          let one : q.value ≡ value =
            ap (λ (o : Option Setting). elim o [ none ↦ value | some x ↦ x.value ]) h ∙ same in
          ap (λ x. (put_opened tbl key (opened env key x) s).0) one
          ∙ ap (λ o. (put_opened tbl key o s).0) plain

-- What AES-GCM and base64 document, as in Secrets/RoundTrip.antt.
module _ (tbl : Table settings_schema) (env : Env) (g : Aead)
    (opens : (n p : String) → size n ≡ g.nonce_size → g.open_with n (g.seal_with n p) ≡ some p)
    (long : (n p : String) → g.overhead ≤ size (g.seal_with n p))
    (decodes : (b : String) → env.cipher.decode (env.cipher.encode b) ≡ some b) where
  opened-sealed :
      (nonce key value : String) {w : String}
      → env.cipher.v2 ≡ some g
      → size nonce ≡ g.nonce_size
      → sealed env nonce key value ≡ ok w
      → opened env key w ≡ ok value
  unfolding opened sealed decrypt
  opened-sealed nonce key value {w} built fits h = elim (Bool-cases (is_sensitive key)) [
    | inl secret ↦ rw secret (elim (Bool-cases (str_eq value "")) [
      | inl blank ↦
          (let same : w ≡ value = ok_eq (rw (secret, blank) at h) in
            let empty : value ≡ "" = (eq_iff value "").0 blank in
            ap (decrypt env.cipher) (same ∙ empty) ∙ ap ok (sym empty))
      | inr filled ↦
          (let (s, wrote, reads, _) =
              decrypt-encrypt env.cipher g opens long decodes nonce value built fits in
            let same : w ≡ s = ok_eq (sym wrote ∙ (rw (secret, filled) at h)) in
            ap (decrypt env.cipher) same ∙ reads)
    ])
    | inr plain ↦ rw plain (ap ok (ok_eq (rw plain at h)))
  ]

  -- After a successful saveSetting, getString of the key returns the value, for a sensitive key too, if the
  -- cipher of the second version is built, AES-GCM and base64 do what they document, the nonce has the
  -- cipher's size and the query for the row succeeds.
  pub get_string-save_setting :
      (nonce key value : String) (s : SettingStore tbl) {t : SettingStore tbl} {rs : List Setting}
      → env.cipher.v2 ≡ some g
      → size nonce ≡ g.nonce_size
      → save_setting tbl env nonce key value s ≡ (ok tt, t)
      → tbl.select (with_key tbl key) t.table ≡ some rs
      → (get_string tbl env key t).0 ≡ ok value
  unfolding save_setting get_setting
  get_string-save_setting nonce key value s {t} built fits h sel =
      of_sealed (sealed env nonce key value) refl h
    where
      of_sealed :
          (o : Result String)
          → sealed env nonce key value ≡ o
          → save_sealed tbl key o s ≡ (ok tt, t)
          → (get_string tbl env key t).0 ≡ ok value
      of_sealed (err e) is h = cc
      of_sealed (ok w) is h =
          read_back tbl env key w t
            (save_row-Holds tbl env key w s (tbl.select (with_key tbl key) s.table) refl h) sel
            (opened-sealed nonce key value built fits is)
