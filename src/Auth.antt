-- ===== src/Auth.antt =====
-- web/controller/api/middleware.go: who the API lets in. It composes the tokens of ApiTokens.antt, with the
-- old single token of Settings.antt behind them. Times are readings of the clock in seconds; gin is the
-- caller, and its reply is a value here.
pub mod Admitted
pub mod Warned
use nexcore_x_ui.Prelude.{
  ℕ, ◌+◌, String, Bool, true, false, not, ◌&&◌, Option, none, some, List, [], ◌∷◌, str_eq,
  if◌then◌else◌, ltb, leb, length, one_of,
}
use nexcore_x_ui.Prelude.Text.{trim_space, after_prefix}
use nexcore_x_ui.Prelude.Maps.{Map, lookup, insert, keep}
use nexcore_x_ui.Exec.{Err, token_not_found, Result, ok, err}
use nexcore_x_ui.Model.{ApiToken}
use nexcore_x_ui.Table.{Table}
use nexcore_x_ui.Table.Schemas.{api_tokens_schema, settings_schema}
use nexcore_x_ui.ApiTokens.{Pending, touch, find_active_by_value}
use nexcore_x_ui.Settings.{Env, SettingStore, get_string}

-- The parts of a request that are read here; "" for a header that is not there.
pub record Request : Type 0 where
  pub authorization : String
  pub api_token : String
  pub client_ip : String

abbrev trimmed_header : String → String
trimmed_header h = if str_eq h "" then "" else trim_space h

abbrev bearer_or_header : String → Option String → String
bearer_or_header header none = trimmed_header header
bearer_or_header header (some token) = trim_space token

unfoldable pub extract_token : Request → String
extract_token r = bearer_or_header r.api_token (after_prefix "Bearer " r.authorization)

-- legacyTokenSeenCap
abbrev pub legacy_token_seen_cap : ℕ
legacy_token_seen_cap = 4096

abbrev earlier : ℕ → ℕ → ℕ
earlier v oldest = if ltb v oldest then v else oldest

abbrev pub oldest : ℕ → Map ℕ → ℕ
oldest now [] = now
oldest now ((ip, v) ∷ m) = earlier v (oldest now m)

abbrev pub unless_before : ℕ → ℕ → Option ℕ
unless_before cutoff v = if ltb v cutoff then none else some v

-- Half an hour after the oldest.
unfoldable pub evict : ℕ → Map ℕ → Map ℕ
evict now m = keep (unless_before (oldest now m + 1_800)) m

abbrev pub is_recent : ℕ → Option ℕ → Bool
is_recent now none = false
is_recent now (some last) = ltb now (last + 3_600)

unfoldable pub warn_legacy_token_once : String → ℕ → Map ℕ → Map ℕ
unfolding evict
warn_legacy_token_once ip now m =
    if is_recent now (lookup ip m)
    then m
    else insert ip now (if leb legacy_token_seen_cap (length m) then evict now m else m)

-- What the middleware sets on the request's context.
pub record Identity : Type 0 where
  pub token_id : Option ℕ
  pub name : String
  pub scope : String

pub data Outcome : Type 0 where
  admitted : Identity → Outcome
  unauthorized : String → Outcome
  auth_db_error : Outcome
  scope_forbidden : Outcome

-- RequireScope, after AuthMiddleware: an aborted request stays aborted.
unfoldable pub require_scope : List String → Outcome → Outcome
require_scope allowed (admitted who) =
    if not (str_eq who.scope "") && one_of allowed who.scope then admitted who else scope_forbidden
require_scope allowed (unauthorized code) = unauthorized code
require_scope allowed auth_db_error = auth_db_error
require_scope allowed scope_forbidden = scope_forbidden

abbrev pub is_token_not_found : Err → Bool
is_token_not_found token_not_found = true
is_token_not_found _ = false

module _ (tokens : Table api_tokens_schema) (hash : String → String)
    (settings : Table settings_schema) (env : Env) where
  pub record Gate : Type 0 where
    pub table : tokens.Tab
    pub pending : Pending
    pub store : SettingStore settings
    pub legacy_token_seen : Map ℕ

  abbrev pub by_legacy :
      String → String → ℕ → Gate → Result String × SettingStore settings → Outcome × Gate
  by_legacy got ip now s (err e, st) = (unauthorized "invalid_api_token", record s { store = st })
  by_legacy got ip now s (ok want, st) =
      if not (str_eq want "") && str_eq got want
      then (
        admitted (record { token_id = none; name = "legacy"; scope = "admin" }),
        record s {
          store = st;
          legacy_token_seen = warn_legacy_token_once ip now s.legacy_token_seen;
        },
      )
      else (unauthorized "invalid_api_token", record s { store = st })

  abbrev pub by_row : String → String → ℕ → Gate → Result ApiToken × tokens.Tab → Outcome × Gate
  by_row got ip now s (ok t, tab) = (
    admitted (record { token_id = some t.id; name = t.name; scope = t.scope }),
    record s { table = tab; pending = touch t.id now s.pending },
  )
  by_row got ip now s (err e, tab) =
      if is_token_not_found e
      then by_legacy got ip now (record s { table = tab })
          (get_string settings env "apiToken" s.store)
      else (auth_db_error, record s { table = tab })

  unfoldable pub auth_middleware : Request → ℕ → Gate → Outcome × Gate
  unfolding extract_token
  auth_middleware r now s =
      let got = extract_token r in
      if str_eq got ""
      then (unauthorized "missing_api_token", s)
      else by_row got r.client_ip now s (find_active_by_value tokens hash got now s.table)
