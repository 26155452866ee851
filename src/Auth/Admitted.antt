-- ===== src/Auth/Admitted.antt =====
-- Whom AuthMiddleware and RequireScope let through.
use nexcore_x_ui.Prelude.{
  ℕ, ◌≡◌, ◌≢◌, ◌≤◌, ◌⊎◌, refl, sym, ap, ◌∙◌, String, true, false, not, ◌&&◌, Option, none, some,
  List, str_eq, eq_iff, arith, Bool-cases, inl, inr, Memᴰ, one_of,
}
use nexcore_x_ui.Exec.{Result, ok, err}
use nexcore_x_ui.Model.{ApiToken}
use nexcore_x_ui.Table.{Table}
use nexcore_x_ui.Table.Schemas.{api_tokens_schema, settings_schema}
use nexcore_x_ui.ApiTokens.{find_active_by_value, revoke_token}
use nexcore_x_ui.ApiTokens.Revoked.{find_active_by_value-active, revoke_token-inactive}
use nexcore_x_ui.Settings.{Env, SettingStore, get_string}
use nexcore_x_ui.Auth.{
  Request, extract_token, Identity, Outcome, admitted, unauthorized, auth_db_error, scope_forbidden,
  require_scope, is_token_not_found, Gate, by_legacy, by_row, auth_middleware,
}

-- The caller that an outcome admits.
abbrev pub who : Outcome → Option Identity
who (admitted i) = some i
who _ = none

require_scope-admitted :
    (allowed : List String) (o : Outcome) {i : Identity}
    → require_scope allowed o ≡ admitted i
    → (o ≡ admitted i) × (one_of allowed i.scope ≡ true)
unfolding require_scope
require_scope-admitted allowed (admitted j) {i} h =
    elim (Bool-cases (not (str_eq j.scope "") && one_of allowed j.scope)) [
      | inl fits ↦
          (let same : j ≡ i =
              ap (λ (o : Outcome). elim o [ admitted k ↦ k | _ ↦ j ]) (rw fits at h) in
            (
              ap admitted same,
              ap (λ (k : Identity). one_of allowed k.scope) (sym same) ∙ ground arith,
            ))
      | inr unfit ↦ cc (rw unfit at h)
    ]
require_scope-admitted allowed (unauthorized code) h = cc
require_scope-admitted allowed auth_db_error h = cc
require_scope-admitted allowed scope_forbidden h = cc

module _ (tokens : Table api_tokens_schema) (hash : String → String)
    (settings : Table settings_schema) (env : Env) where
  -- A row of the token table that the text opens now.
  abbrev pub ByRow : String → ℕ → List ApiToken → Identity → Type 0
  ByRow got now rows i =
      (r : ApiToken) × Memᴰ r rows
      × (str_eq r.token (hash got) ≡ true)
      × (r.revoked ≡ false)
      × ((r.expires_at ≡ 0) ⊎ (now ≤ r.expires_at))
      × (i ≡ record { token_id = some r.id; name = r.name; scope = r.scope })

  -- The text of the old single token, which has no row and the scope admin.
  abbrev pub ByLegacy : String → SettingStore settings → Identity → Type 0
  ByLegacy got st i =
      (str_eq got "" ≡ false)
      × ((get_string settings env "apiToken" st).0 ≡ ok got)
      × (i ≡ record { token_id = none; name = "legacy"; scope = "admin" })

  by_legacy-admitted :
      (got ip : String) (now : ℕ) (s : Gate tokens hash settings env)
      (r : Result String × SettingStore settings) {i : Identity}
      → (by_legacy tokens hash settings env got ip now s r).0 ≡ admitted i
      → (r.0 ≡ ok got) × (i ≡ record { token_id = none; name = "legacy"; scope = "admin" })
  by_legacy-admitted got ip now s (err e, st) h = cc
  by_legacy-admitted got ip now s (ok want, st) h =
      elim (Bool-cases (not (str_eq want "") && str_eq got want)) [
        | inl fits ↦ (
          ap ok (sym ((eq_iff got want).0 (ground arith))),
          sym (
              ap
                (λ (o : Outcome). elim o [
                  | admitted k ↦ k
                  | _ ↦ record { token_id = none; name = "legacy"; scope = "admin" }
                ])
                (rw fits at h)),
        )
        | inr unfit ↦ cc (rw unfit at h)
      ]

  admitted_eq : {i j : Identity} → admitted j ≡ admitted i → i ≡ j
  admitted_eq {i} {j} h = sym (ap (λ (o : Outcome). elim o [ admitted k ↦ k | _ ↦ j ]) h)

  by_row-admitted :
      (got ip : String) (now : ℕ) (s : Gate tokens hash settings env) {i : Identity}
      (r : Result ApiToken × tokens.Tab)
      → find_active_by_value tokens hash got now s.table ≡ r
      → str_eq got "" ≡ false
      → (by_row tokens hash settings env got ip now s r).0 ≡ admitted i
      → ByRow got now (tokens.rows s.table) i ⊎ ByLegacy got s.store i
  by_row-admitted got ip now s (ok t, tab) found named h =
      let (here, hashed, valid, alive, _) =
        find_active_by_value-active tokens hash got now s.table found in
      inl (t, here, hashed, valid, alive, admitted_eq h)
  by_row-admitted got ip now s (err e, tab) found named h =
      elim (Bool-cases (is_token_not_found e)) [
        | inl unknown ↦
            (let (same, legacy) =
                by_legacy-admitted got ip now (record s { table = tab })
                  (get_string settings env "apiToken" s.store) (rw unknown at h) in
              inr (named, same, legacy))
        | inr failed ↦ cc (rw failed at h)
      ]

  auth_middleware-admitted :
      (r : Request) (now : ℕ) (s : Gate tokens hash settings env) {i : Identity}
      → (auth_middleware tokens hash settings env r now s).0 ≡ admitted i
      → ByRow (extract_token r) now (tokens.rows s.table) i ⊎ ByLegacy (extract_token r) s.store i
  unfolding auth_middleware
  auth_middleware-admitted r now s h = elim (Bool-cases (str_eq (extract_token r) "")) [
    | inl empty ↦ cc (rw empty at h)
    | inr named ↦
        by_row-admitted (extract_token r) r.client_ip now s
          (find_active_by_value tokens hash (extract_token r) now s.table) refl named
          (rw named at h)
  ]

  -- A request that AuthMiddleware and then RequireScope let through carries a text that opens a row of the
  -- token table, neither revoked nor expired, whose scope is allowed, or else the text of the old single
  -- token, which is not empty and has the scope admin, and admin is allowed.
  pub require_scope-authorized :
      (allowed : List String) (r : Request) (now : ℕ) (s : Gate tokens hash settings env)
      {i : Identity}
      → require_scope allowed (auth_middleware tokens hash settings env r now s).0 ≡ admitted i
      → (one_of allowed i.scope ≡ true)
        × (ByRow (extract_token r) now (tokens.rows s.table) i
            ⊎ ByLegacy (extract_token r) s.store i)
  require_scope-authorized allowed r now s h =
      let (passed, fits) =
        require_scope-admitted allowed (auth_middleware tokens hash settings env r now s).0 h in
      (fits, auth_middleware-admitted r now s passed)

  row_of-revoked :
      (id : ℕ) (got ip : String) (now : ℕ) (s : Gate tokens hash settings env) (before : tokens.Tab)
      {i : Identity} (r : Result ApiToken × tokens.Tab)
      → revoke_token tokens hash id before ≡ (ok tt, s.table)
      → find_active_by_value tokens hash got now s.table ≡ r
      → (by_row tokens hash settings env got ip now s r).0 ≡ admitted i
      → i.token_id ≢ some id
  row_of-revoked id got ip now s before (ok t, tab) revoked found h =
      let other = revoke_token-inactive tokens hash id got now before revoked found in
      λ same. other (number (sym (ap (λ (k : Identity). k.token_id) (admitted_eq h)) ∙ same))
    where
      number : {a b : ℕ} → some a ≡ some b → a ≡ b
      number {a} {b} h = ap (λ (o : Option ℕ). elim o [ none ↦ a | some n ↦ n ]) h
  row_of-revoked id got ip now s before (err e, tab) revoked found h =
      elim (Bool-cases (is_token_not_found e)) [
        | inl unknown ↦
            (let (_, legacy) =
                by_legacy-admitted got ip now (record s { table = tab })
                  (get_string settings env "apiToken" s.store) (rw unknown at h) in
              λ same. absurd (cc (ap (λ (k : Identity). k.token_id) legacy, same)))
        | inr failed ↦ absurd (cc (rw failed at h))
      ]

  -- Once RevokeToken of an id has succeeded, no request is admitted as the token of that id.
  pub auth_middleware-revoked :
      (id : ℕ) (r : Request) (now : ℕ) (s : Gate tokens hash settings env) (before : tokens.Tab)
      {i : Identity}
      → revoke_token tokens hash id before ≡ (ok tt, s.table)
      → (auth_middleware tokens hash settings env r now s).0 ≡ admitted i
      → i.token_id ≢ some id
  unfolding auth_middleware
  auth_middleware-revoked id r now s before revoked h =
      elim (Bool-cases (str_eq (extract_token r) "")) [
        | inl empty ↦ absurd (cc (rw empty at h))
        | inr named ↦
            row_of-revoked id (extract_token r) r.client_ip now s before
              (find_active_by_value tokens hash (extract_token r) now s.table) revoked refl
              (rw named at h)
      ]
