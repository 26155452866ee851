-- ===== src/MagicTokens/Consumed.antt =====
-- What a login that succeeds did to the table of the tokens.
use nexcore_x_ui.Prelude.{
  ℕ, ◌≤◌, String, Bool, true, false, not, ◌||◌, ◌≡◌, refl, ◌∙◌, ap, Option, none, some, List, [],
  ◌∷◌, arith, ◌==◌, ==_iff, str_eq, eq_iff, if◌then◌else◌, ltb, Memᴰ, update_rows, mem_of_select,
  distinct-eq, Bool-cases, inl, inr, ap₂, any, All, All-of_mem, ◌&&◌, ◌⊎◌,
}
use nexcore_x_ui.Exec.{Exec, ok, ◌>>=◌, guard, bind-eq-ok, magic_token_invalid}
use nexcore_x_ui.Model.{MagicToken}
use nexcore_x_ui.Table.{Table}
use nexcore_x_ui.Table.Schemas.{magic_tokens_schema}
use nexcore_x_ui.MagicTokens.{is_open, read, stored, find, update, consume_row, consume_magic_token}

abbrev pub spent : ℕ → MagicToken → MagicToken
spent now q = record q { consumed_at = now }

abbrev same_token : MagicToken → MagicToken → Bool
same_token a b = str_eq a.token b.token

token_comm : (a b : MagicToken) → same_token a b ≡ same_token b a
token_comm a b = ground (arith, eq_iff a.token b.token, eq_iff b.token a.token)

guard-ok :
    {S : Type 0} (b : Bool) (s : S) {t : S}
    → guard b magic_token_invalid s ≡ (ok tt, t)
    → (b ≡ true) × (t ≡ s)
guard-ok true s h = (refl, cc)
guard-ok false s h = (cc, cc)

module _ (tokens : Table magic_tokens_schema) (hash : String → String) where
  read-ok :
      (o : Option (List MagicToken)) (s : tokens.Tab) {rows : List MagicToken} {t : tokens.Tab}
      → read tokens hash o s ≡ (ok rows, t)
      → (o ≡ some rows) × (t ≡ s)
  read-ok none s h = cc
  read-ok (some rows) s h = (cc, cc)

  stored-ok :
      (o : Option (ℕ × tokens.Tab)) (s : tokens.Tab) {n : ℕ} {t : tokens.Tab}
      → stored tokens hash o s ≡ (ok n, t)
      → o ≡ some (n, t)
  stored-ok none s h = cc
  stored-ok (some (n, u)) s h = cc

  -- What a login does to the row that it found first.
  pub consume_row-ok :
      (now : ℕ) (found : List MagicToken) (s : tokens.Tab) {t : tokens.Tab}
      → consume_row tokens hash now found s ≡ (ok tt, t)
      → (r : MagicToken) × Memᴰ r found
        × (r.consumed_at ≡ 0)
        × (now ≤ r.expires_at)
        × (tokens.rows t ≡ update_rows (is_open r.id) (spent now) (tokens.rows s))
  unfolding consume_row
  consume_row-ok now [] s h = cc
  consume_row-ok now (r ∷ more) s {t} h =
      let mark : Exec tokens.Tab (Unit {0}) = update tokens hash (is_open r.id) (spent now) >>= λ n.
      guard (not (n == 0 || ltb r.expires_at now)) magic_token_invalid in
      let (_, u, unspent, rest) =
        bind-eq-ok (guard (r.consumed_at == 0) magic_token_invalid) (λ _. mark) s h in
      let (n, v, wrote, last) =
        bind-eq-ok (update tokens hash (is_open r.id) (spent now))
          (λ n. guard (not (n == 0 || ltb r.expires_at now)) magic_token_invalid) u rest in
      let (zero_now, same_u) = guard-ok (r.consumed_at == 0) s unspent in
      let (live, same_t) = guard-ok (not (n == 0 || ltb r.expires_at now)) v last in
      let written =
        tokens.update-rows (is_open r.id) (spent now) u
          (stored-ok (tokens.update (is_open r.id) (spent now) u) u wrote) in
      (
        r,
        Memᴰ.head refl,
        (==_iff r.consumed_at 0).0 zero_now,
        ground arith,
        ap tokens.rows same_t
            ∙ written
            ∙ ap (λ (w : tokens.Tab). update_rows (is_open r.id) (spent now) (tokens.rows w))
                same_u,
      )

  pub consume_magic_token-ok :
      (plain : String) (now : ℕ) (s : tokens.Tab) {t : tokens.Tab}
      → consume_magic_token tokens hash plain now s ≡ (ok tt, t)
      → (r : MagicToken) × Memᴰ r (tokens.rows s)
        × (str_eq r.token (hash plain) ≡ true)
        × (r.consumed_at ≡ 0)
        × (now ≤ r.expires_at)
        × (tokens.rows t ≡ update_rows (is_open r.id) (spent now) (tokens.rows s))
  unfolding consume_magic_token
  consume_magic_token-ok plain now s {t} h = elim (Bool-cases (str_eq plain "")) [
    | inl empty ↦ cc (rw empty at h)
    | inr filled ↦
        (let (found, u, sel, rest) =
            bind-eq-ok (find tokens hash (λ r. str_eq r.token (hash plain)))
              (consume_row tokens hash now) s (rw filled at h) in
          let (listed, same) = read-ok (tokens.select (λ r. str_eq r.token (hash plain)) s) s sel in
          let chosen = tokens.select-rows (λ r. str_eq r.token (hash plain)) s listed in
          let (r, m, unspent, live, written) = consume_row-ok now found u rest in
          let (here, named) =
            mem_of_select (λ r. str_eq r.token (hash plain)) (tokens.rows s) (rw chosen at m) in
          (
            r,
            here,
            named,
            unspent,
            live,
            written
                ∙ ap (λ (w : tokens.Tab). update_rows (is_open r.id) (spent now) (tokens.rows w))
                    same,
          ))
  ]

  -- A row of the hash that has not been consumed.
  abbrev pub fresh : String → MagicToken → Bool
  fresh plain r = str_eq r.token (hash plain) && r.consumed_at == 0

  -- No row of the plaintext's hash is left to consume.
  abbrev pub IsSpent : String → tokens.Tab → Type 0
  IsSpent plain t = any (fresh plain) (tokens.rows t) ≡ false

  fresh-marked :
      (plain : String) (now : ℕ) (r : MagicToken)
      → 1 ≤ now
      → fresh plain (if is_open r.id r then spent now r else r) ≡ false
  fresh-marked plain now r h = ground (arith, ==_iff r.id r.id)

  fresh-other :
      (plain : String) (id now : ℕ) (r : MagicToken)
      → fresh plain r ≡ false
      → fresh plain (if is_open id r then spent now r else r) ≡ false
  fresh-other plain id now r h = ground arith

  -- Marking the open row of an id leaves no more rows to consume than there were.
  pub update_rows-spent :
      (plain : String) (id now : ℕ) (rows : List MagicToken)
      → any (fresh plain) rows ≡ false
      → any (fresh plain) (update_rows (is_open id) (spent now) rows) ≡ false
  update_rows-spent plain id now [] h = refl
  update_rows-spent plain id now (r ∷ rows) h =
      ap₂ ◌||◌ (fresh-other plain id now r (ground arith))
        (update_rows-spent plain id now rows (ground arith))

  update_rows-only :
      (plain : String) (now : ℕ) (r : MagicToken) (rows : List MagicToken)
      → 1 ≤ now
      → All (λ y. (y ≡ r) ⊎ (fresh plain y ≡ false)) rows
      → any (fresh plain) (update_rows (is_open r.id) (spent now) rows) ≡ false
  update_rows-only plain now r [] p h = refl
  update_rows-only plain now r (y ∷ rows) p (inl one, h) =
      ap₂ ◌||◌
        (ap (λ q. fresh plain (if is_open r.id q then spent now q else q)) one
          ∙ fresh-marked plain now r p)
        (update_rows-only plain now r rows p h)
  update_rows-only plain now r (y ∷ rows) p (inr other, h) =
      ap₂ ◌||◌ (fresh-other plain r.id now y other) (update_rows-only plain now r rows p h)

  -- The row that was found was the only one of its hash, and is marked now.
  pub consume_magic_token-IsSpent :
      (plain : String) (now : ℕ) (s : tokens.Tab) {t : tokens.Tab}
      → 1 ≤ now
      → consume_magic_token tokens hash plain now s ≡ (ok tt, t)
      → IsSpent plain t
  consume_magic_token-IsSpent plain now s {t} positive first =
      let (r, here, named, unspent, live, written) = consume_magic_token-ok plain now s first in
      ap (any (fresh plain)) written
      ∙ update_rows-only plain now r (tokens.rows s) positive (
          All-of_mem (tokens.rows s) λ y m. elim (Bool-cases (fresh plain y)) [
            | inr not_fresh ↦ inr not_fresh
            | inl open_row ↦
                (let same : same_token r y ≡ true = ground (
                  arith,
                  eq_iff r.token (hash plain),
                  eq_iff y.token (hash plain),
                  eq_iff r.token y.token,
                ) in
                  inl (
                    distinct-eq same_token token_comm (tokens.rows s)
                      (ground (arith, tokens.keys_unique s)) here m same))
          ])
