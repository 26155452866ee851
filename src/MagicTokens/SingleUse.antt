-- ===== src/MagicTokens/SingleUse.antt =====
-- A magic token logs in once, whatever is called afterwards.
use nexcore_x_ui.Prelude.{
  ℕ, ◌+◌, ◌≤◌, String, Bool, true, false, not, ◌||◌, ◌≡◌, ◌≢◌, refl, ◌∙◌, ap, Option, none, some,
  List, [], ◌∷◌, ◌++◌, arith, ◌==◌, str_eq, ltb, delete_rows, any, all, any_of_mem, Bool-cases, inl,
  inr,
}
use nexcore_x_ui.Exec.{Result, ok, err, guard, continue, magic_token_invalid}
use nexcore_x_ui.Model.{MagicToken}
use nexcore_x_ui.Table.{Table}
use nexcore_x_ui.Table.Schemas.{magic_tokens_schema}
use nexcore_x_ui.MagicTokens.{
  is_open, is_old, read, stored, update, clamped, consume_row, consume_magic_token,
  create_magic_token, purge_old_magic_tokens,
}
use nexcore_x_ui.MagicTokens.Consumed.{
  spent, fresh, IsSpent, update_rows-spent, consume_magic_token-ok, consume_magic_token-IsSpent,
}

-- The calls of the service, with their arguments and their readings of the clock.
pub data Call : Type 0 where
  login : String → ℕ → Call
  issue : String → Option ℕ → String → ℕ → Call
  purge : ℕ → Call

module _ (tokens : Table magic_tokens_schema) (hash : String → String) where
  -- The table after a call, whether it succeeds or fails.
  abbrev pub step : Call → tokens.Tab → tokens.Tab
  step (login plain now) t = (consume_magic_token tokens hash plain now t).1
  step (issue plain ttl note now) t = (create_magic_token tokens hash plain ttl note now t).1
  step (purge now) t = (purge_old_magic_tokens tokens hash now t).1

  abbrev pub after : List Call → tokens.Tab → tokens.Tab
  after [] t = t
  after (c ∷ cs) t = after cs (step c t)

  -- A call that issues no link of the plaintext's hash.
  abbrev pub is_apart : String → Call → Bool
  is_apart plain (issue other ttl note now) = not (str_eq (hash other) (hash plain))
  is_apart plain _ = true

  stored-IsSpent :
      (plain : String) (o : Option (ℕ × tokens.Tab)) (s : tokens.Tab)
      → IsSpent tokens hash plain s
      → ((n : ℕ) (t : tokens.Tab) → o ≡ some (n, t) → IsSpent tokens hash plain t)
      → IsSpent tokens hash plain (stored tokens hash o s).1
  stored-IsSpent plain none s h f = h
  stored-IsSpent plain (some (n, t)) s h f = f n t refl

  delete_rows-fresh :
      (plain : String) (p : MagicToken → Bool) (rows : List MagicToken)
      → any (fresh tokens hash plain) rows ≡ false
      → any (fresh tokens hash plain) (delete_rows p rows) ≡ false
  delete_rows-fresh plain p [] h = refl
  delete_rows-fresh plain p (r ∷ rows) h = ground (arith, delete_rows-fresh plain p rows)

  append-fresh :
      (plain : String) (rows : List MagicToken) (r : MagicToken)
      → any (fresh tokens hash plain) rows ≡ false
      → fresh tokens hash plain r ≡ false
      → any (fresh tokens hash plain) (rows ++ r ∷ []) ≡ false
  append-fresh plain [] r h k = ground arith
  append-fresh plain (q ∷ rows) r h k = ground (arith, append-fresh plain rows r)

  mark-IsSpent :
      (plain : String) (id now : ℕ) (s : tokens.Tab)
      → IsSpent tokens hash plain s
      → IsSpent tokens hash plain (update tokens hash (is_open id) (spent now) s).1
  mark-IsSpent plain id now s h =
      stored-IsSpent plain (tokens.update (is_open id) (spent now) s) s h λ n t e.
        ap (any (fresh tokens hash plain)) (tokens.update-rows (is_open id) (spent now) s e)
        ∙ update_rows-spent tokens hash plain id now (tokens.rows s) h

  guard-state : (b : Bool) (s : tokens.Tab) → (guard b magic_token_invalid s).1 ≡ s
  guard-state true s = refl
  guard-state false s = refl

  read-state : (o : Option (List MagicToken)) (s : tokens.Tab) → (read tokens hash o s).1 ≡ s
  read-state none s = refl
  read-state (some rows) s = refl

  checked-IsSpent :
      (plain : String) (b : ℕ → Bool) (r : Result ℕ × tokens.Tab)
      → IsSpent tokens hash plain r.1
      → IsSpent tokens hash plain (continue r (λ n. guard (b n) magic_token_invalid)).1
  checked-IsSpent plain b (ok n, t) h = rw (guard-state (b n) t) h
  checked-IsSpent plain b (err e, t) h = h

  consume_row-IsSpent :
      (plain : String) (now : ℕ) (found : List MagicToken) (s : tokens.Tab)
      → IsSpent tokens hash plain s
      → IsSpent tokens hash plain (consume_row tokens hash now found s).1
  unfolding consume_row
  consume_row-IsSpent plain now [] s h = h
  consume_row-IsSpent plain now (r ∷ more) s h = elim (Bool-cases (r.consumed_at == 0)) [
    | inr consumed ↦ rw consumed h
    | inl open_row ↦ rw open_row (
        checked-IsSpent plain (λ n. not (n == 0 || ltb r.expires_at now))
          (update tokens hash (is_open r.id) (spent now) s) (mark-IsSpent plain r.id now s h))
  ]

  found-IsSpent :
      (plain : String) (now : ℕ) (o : Option (List MagicToken)) (s : tokens.Tab)
      → IsSpent tokens hash plain s
      → IsSpent tokens hash plain (continue (read tokens hash o s) (consume_row tokens hash now)).1
  found-IsSpent plain now none s h = h
  found-IsSpent plain now (some rows) s h = consume_row-IsSpent plain now rows s h

  login-IsSpent :
      (plain other : String) (now : ℕ) (s : tokens.Tab)
      → IsSpent tokens hash plain s
      → IsSpent tokens hash plain (consume_magic_token tokens hash other now s).1
  unfolding consume_magic_token
  login-IsSpent plain other now s h = elim (Bool-cases (str_eq other "")) [
    | inl empty ↦ rw empty h
    | inr filled ↦
        rw filled (found-IsSpent plain now (tokens.select (λ r. str_eq r.token (hash other)) s) s h)
  ]

  issued-IsSpent :
      (plain other : String) (r : Result ℕ × tokens.Tab)
      → IsSpent tokens hash plain r.1
      → IsSpent tokens hash plain (continue r (λ _ t. (ok other, t))).1
  issued-IsSpent plain other (ok n, t) h = h
  issued-IsSpent plain other (err e, t) h = h

  issue-IsSpent :
      (plain other note : String) (ttl : Option ℕ) (now : ℕ) (s : tokens.Tab)
      → str_eq (hash other) (hash plain) ≡ false
      → IsSpent tokens hash plain s
      → IsSpent tokens hash plain (create_magic_token tokens hash other ttl note now s).1
  unfolding create_magic_token
  issue-IsSpent plain other note ttl now s apart h =
      let row : MagicToken = record {
        id = 0;
        token = hash other;
        created_at = now;
        expires_at = now + clamped ttl;
        consumed_at = 0;
        note = note;
      } in
      issued-IsSpent plain other (stored tokens hash (tokens.create row s) s) (
        stored-IsSpent plain (tokens.create row s) s h λ n t e.
          ap (any (fresh tokens hash plain)) (tokens.create-rows row s e)
          ∙ append-fresh plain (tokens.rows s) (record row { id = n }) h (ground arith))

  purge-IsSpent :
      (plain : String) (now : ℕ) (s : tokens.Tab)
      → IsSpent tokens hash plain s
      → IsSpent tokens hash plain (purge_old_magic_tokens tokens hash now s).1
  unfolding purge_old_magic_tokens
  purge-IsSpent plain now s h = stored-IsSpent plain (tokens.delete (is_old now) s) s h λ n t e.
      ap (any (fresh tokens hash plain)) (tokens.delete-rows (is_old now) s e)
      ∙ delete_rows-fresh plain (is_old now) (tokens.rows s) h

  after-IsSpent :
      (plain : String) (cs : List Call) (s : tokens.Tab)
      → all (is_apart plain) cs ≡ true
      → IsSpent tokens hash plain s
      → IsSpent tokens hash plain (after cs s)
  after-IsSpent plain [] s a h = h
  after-IsSpent plain (login other now ∷ cs) s a h =
      after-IsSpent plain cs _ (ground arith) (login-IsSpent plain other now s h)
  after-IsSpent plain (issue other ttl note now ∷ cs) s a h =
      after-IsSpent plain cs _ (ground arith)
        (issue-IsSpent plain other note ttl now s (ground arith) h)
  after-IsSpent plain (purge now ∷ cs) s a h =
      after-IsSpent plain cs _ (ground arith) (purge-IsSpent plain now s h)

  -- A link that has logged in once, at a time other than 0, does not log in again: after any logins with any
  -- plaintext, purges, and issues of links with another hash, in any order and at any times, each succeeding
  -- or failing, no call with the same plaintext succeeds, whatever its time.
  pub consume_magic_token_once :
      (plain : String) (now later : ℕ) (calls : List Call) (s : tokens.Tab) {t u : tokens.Tab}
      → 1 ≤ now
      → all (is_apart plain) calls ≡ true
      → consume_magic_token tokens hash plain now s ≡ (ok tt, t)
      → consume_magic_token tokens hash plain later (after calls t) ≢ (ok tt, u)
  consume_magic_token_once plain now later calls s {t} positive apart first again =
      let (r, here, named, unspent, _, _) =
        consume_magic_token-ok tokens hash plain later (after calls t) again in
      let spent_now =
        after-IsSpent plain calls t apart
          (consume_magic_token-IsSpent tokens hash plain now s positive first) in
      cc (
        any_of_mem (fresh tokens hash plain) (tokens.rows (after calls t)) here (ground arith),
        spent_now,
      )
