-- ===== src/ApiTokens/Revoked.antt =====
-- Who FindActiveByValue lets in.
use nexcore_x_ui.Prelude.{
  ℕ, ◌≤◌, String, Bool, true, false, not, ◌≡◌, ◌≢◌, ◌⊎◌, ◌∙◌, ap, Option, none, some, List, [], ◌∷◌,
  arith, ◌==◌, ==_iff, str_eq, Memᴰ, mem_of_select, mem_of_update, Bool-cases, inl, inr,
}
use nexcore_x_ui.Exec.{Result, ok, guard, bind-eq-ok, token_not_found}
use nexcore_x_ui.Model.{ApiToken}
use nexcore_x_ui.Table.{Table}
use nexcore_x_ui.Table.Schemas.{api_tokens_schema}
use nexcore_x_ui.ApiTokens.{
  has_token, is_expired, read, stored, find, update, found_or_missing, active_row,
  find_active_by_value, revoke_token,
}

abbrev withdrawn : ApiToken → ApiToken
withdrawn r = record r { revoked = true }

module _ (tokens : Table api_tokens_schema) (hash : String → String) where
  read-ok :
      (o : Option (List ApiToken)) (s : tokens.Tab) {rows : List ApiToken} {t : tokens.Tab}
      → read tokens hash o s ≡ (ok rows, t)
      → (o ≡ some rows) × (t ≡ s)
  read-ok none s h = cc
  read-ok (some rows) s h = (cc, cc)

  stored-ok :
      (o : Option (ℕ × tokens.Tab)) (s : tokens.Tab) {n : ℕ} {t : tokens.Tab}
      → stored tokens hash o s ≡ (ok n, t)
      → o ≡ some (n, t)
  stored-ok none s h = cc
  stored-ok (some (n, u)) s h = cc

  guard-same :
      (b : Bool) (s : tokens.Tab) {t : tokens.Tab} → guard b token_not_found s ≡ (ok tt, t) → t ≡ s
  guard-same true s h = cc
  guard-same false s h = cc

  returned-eq :
      (q : ApiToken) (s : tokens.Tab) {r : ApiToken} {t : tokens.Tab}
      → ◌≡◌ {A = Result ApiToken × tokens.Tab} (ok q, s) (ok r, t)
      → (r ≡ q) × (t ≡ s)
  returned-eq q s h = (cc, cc)

  active_row-ok :
      (now : ℕ) (found : List ApiToken) (s : tokens.Tab) {r : ApiToken} {t : tokens.Tab}
      → active_row tokens hash now found s ≡ (ok r, t)
      → Memᴰ r found × (is_expired now r ≡ false) × (t ≡ s)
  active_row-ok now [] s h = cc
  active_row-ok now (q ∷ more) s h = elim (Bool-cases (is_expired now q)) [
    | inl late ↦ cc (rw late at h)
    | inr live ↦
        (let (one, same) = returned-eq q s (rw live at h) in
          (Memᴰ.head one, ap (is_expired now) one ∙ live, same))
  ]

  -- A token that FindActiveByValue returns is in the table under the hash of the value, is not
  -- revoked, and has no expiry or one that has not passed; the table is as it was.
  pub find_active_by_value-active :
      (value : String) (now : ℕ) (s : tokens.Tab) {r : ApiToken} {t : tokens.Tab}
      → find_active_by_value tokens hash value now s ≡ (ok r, t)
      → Memᴰ r (tokens.rows s)
        × (str_eq r.token (hash value) ≡ true)
        × (r.revoked ≡ false)
        × ((r.expires_at ≡ 0) ⊎ (now ≤ r.expires_at))
        × (t ≡ s)
  unfolding find_active_by_value
  find_active_by_value-active value now s {r} {t} h = elim (Bool-cases (str_eq value "")) [
    | inl empty ↦ cc (rw empty at h)
    | inr filled ↦
        (let (found, u, sel, rest) =
            bind-eq-ok (find tokens hash (has_token (hash value))) (active_row tokens hash now) s
              (rw filled at h) in
          let (listed, same) = read-ok (tokens.select (has_token (hash value)) s) s sel in
          let chosen = tokens.select-rows (has_token (hash value)) s listed in
          let (m, live, kept) = active_row-ok now found u rest in
          let (here, named) =
            mem_of_select (has_token (hash value)) (tokens.rows s) (rw chosen at m) in
          (here, ground arith, ground arith, in_time r live, kept ∙ same))
  ]
    where
      in_time :
          (r : ApiToken) → is_expired now r ≡ false → (r.expires_at ≡ 0) ⊎ (now ≤ r.expires_at)
      in_time r live = ground arith

  -- After a successful revoke_token of an id, no value and no time let FindActiveByValue return a token
  -- of that id.
  pub revoke_token-inactive :
      (id : ℕ) (value : String) (now : ℕ) (s : tokens.Tab) {t u : tokens.Tab} {r : ApiToken}
      → revoke_token tokens hash id s ≡ (ok tt, t)
      → find_active_by_value tokens hash value now t ≡ (ok r, u)
      → r.id ≢ id
  unfolding revoke_token
  revoke_token-inactive id value now s {t} {u} {r} revoked active =
      let (n, v, wrote, last) =
        bind-eq-ok (update tokens hash (λ q. q.id == id) withdrawn) (found_or_missing tokens hash) s
          revoked in
      let written =
        tokens.update-rows (λ q. q.id == id) withdrawn s
          (stored-ok (tokens.update (λ q. q.id == id) withdrawn s) s wrote) in
      let same = guard-same (not (n == 0)) v last in
      let (there, _, valid, _, _) = find_active_by_value-active value now t active in
      let (y, before, from) =
        mem_of_update (λ q. q.id == id) withdrawn (tokens.rows s)
          (rw (ap tokens.rows same ∙ written) at there) in
      elim (Bool-cases (y.id == id)) [
        | inl hit ↦
            (let gone : r ≡ withdrawn y = rw hit at from in
              absurd (cc (ap (λ (q : ApiToken). q.revoked) gone, valid)))
        | inr missed ↦
            (let kept : r ≡ y = rw missed at from in
              let number : r.id ≡ y.id = ap (λ (q : ApiToken). q.id) kept in
              λ named. ground (arith, ==_iff y.id id, missed, number, named))
      ]
