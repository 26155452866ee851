-- ===== src/MagicTokens.antt =====
-- web/service/magic.go: single-use login tokens. The SHA-256 of crypto/sha256 is the parameter `hash`; the
-- plaintext that random.Seq draws is an argument, and so is the clock. Times and lives are seconds.
pub mod Consumed
pub mod SingleUse
use nexcore_x_ui.Prelude.{
  ℕ, ◌+◌, ◌-◌, ◌*◌, String, Bool, true, not, ◌&&◌, ◌||◌, Option, none, some, List, [], ◌∷◌, ◌==◌,
  str_eq, if◌then◌else◌, ltb,
}
use nexcore_x_ui.Exec.{
  Err, database, magic_token_invalid, ok, err, Exec, ◌>>=◌, ◌>>◌, pure, raise, guard,
}
use nexcore_x_ui.Model.{MagicToken}
use nexcore_x_ui.Table.{Table}
use nexcore_x_ui.Table.Schemas.{magic_tokens_schema}

-- A life that is zero or negative is `none`.
unfoldable pub clamped : Option ℕ → ℕ
clamped none = 600
clamped (some ttl) = if ltb ttl 60 then 60 else if ltb 86_400 ttl then 86_400 else ttl

-- Seven days.
abbrev gc_after : ℕ
gc_after = 604_800

-- `(consumed_at != 0 AND consumed_at < cutoff) OR expires_at < cutoff`
abbrev pub is_old : ℕ → MagicToken → Bool
is_old now r =
    (not (r.consumed_at == 0) && ltb (r.consumed_at + gc_after) now)
    || ltb (r.expires_at + gc_after) now

abbrev pub is_open : ℕ → MagicToken → Bool
is_open id r = r.id == id && r.consumed_at == 0

module _ (tokens : Table magic_tokens_schema) (hash : String → String) where
  abbrev pub read : Option (List MagicToken) → Exec tokens.Tab (List MagicToken)
  read none s = (err database, s)
  read (some rows) s = (ok rows, s)

  abbrev pub stored : Option (ℕ × tokens.Tab) → Exec tokens.Tab ℕ
  stored none s = (err database, s)
  stored (some (n, t)) s = (ok n, t)

  abbrev pub find : (MagicToken → Bool) → Exec tokens.Tab (List MagicToken)
  find p s = read (tokens.select p s) s

  abbrev pub update : (MagicToken → Bool) → (MagicToken → MagicToken) → Exec tokens.Tab ℕ
  update p f s = stored (tokens.update p f s) s

  unfoldable pub create_magic_token : String → Option ℕ → String → ℕ → Exec tokens.Tab String
  unfolding clamped
  create_magic_token plain ttl note now =
      (λ s.
        stored
          (tokens.create
            (record {
              id = 0;
              token = hash plain;
              created_at = now;
              expires_at = now + clamped ttl;
              consumed_at = 0;
              note = note;
            })
            s)
          s)
      >> pure plain

  -- The part of ConsumeMagicToken that comes after the row is found.
  unfoldable pub consume_row : ℕ → List MagicToken → Exec tokens.Tab (Unit {0})
  consume_row now [] = raise magic_token_invalid
  consume_row now (r ∷ _) = guard (r.consumed_at == 0) magic_token_invalid >>= λ _.
      (update (is_open r.id) (λ q. record q { consumed_at = now }) >>= λ n.
      guard (not (n == 0 || ltb r.expires_at now)) magic_token_invalid)

  unfoldable pub consume_magic_token : String → ℕ → Exec tokens.Tab (Unit {0})
  unfolding consume_row
  consume_magic_token plain now =
      if str_eq plain ""
      then raise magic_token_invalid
      else (find (λ r. str_eq r.token (hash plain)) >>= consume_row now)

  unfoldable pub purge_old_magic_tokens : ℕ → Exec tokens.Tab ℕ
  purge_old_magic_tokens now s = stored (tokens.delete (is_old now) s) s
