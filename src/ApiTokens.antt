-- ===== src/ApiTokens.antt =====
-- web/service/token.go: the API's bearer tokens. The SHA-256 of crypto/sha256 is the parameter `hash`; the
-- plaintext that random.Seq draws is an argument, and so is the clock. Times and lives are seconds.
pub mod Revoked
use nexcore_x_ui.Prelude.{
  ℕ, ◌+◌, String, Bool, true, false, not, ◌&&◌, ◌||◌, Option, none, some, List, [], ◌∷◌, ◌++◌, ◌==◌,
  str_eq, if◌then◌else◌, ltb, any,
}
use nexcore_x_ui.Prelude.Text.{trim_space}
use nexcore_x_ui.Exec.{
  Err, database, token_name_required, invalid_scope, token_not_found, ok, err, Exec, ◌>>=◌, ◌>>◌,
  pure, raise, guard, attempt,
}
use nexcore_x_ui.Model.{ApiToken}
use nexcore_x_ui.Table.{Table}
use nexcore_x_ui.Table.Schemas.{api_tokens_schema}

unfoldable pub is_valid_scope : String → Bool
is_valid_scope s = str_eq s "admin" || str_eq s "readonly" || str_eq s "subscription"

abbrev scope_or_admin : String → String
scope_or_admin s = if str_eq s "" then "admin" else s

-- A life that is zero or negative is `none`: the token does not expire.
abbrev expiry : Option ℕ → ℕ → ℕ
expiry none now = 0
expiry (some ttl) now = now + ttl

-- touchPending: the latest time seen for each token; a missing entry reads 0.
abbrev pub Pending : Type 0
Pending = List (ℕ × ℕ)

unfoldable pub touch : ℕ → ℕ → Pending → Pending
touch id now [] = if ltb 0 now then (id, now) ∷ [] else []
touch id now ((k, seen) ∷ rest) =
    let touched = touch id now rest in
    if k == id then (k, if ltb seen now then now else seen) ∷ rest else (k, seen) ∷ touched

-- byTs[ts] = append(byTs[ts], id)
abbrev add_to_group : ℕ → ℕ → List (ℕ × List ℕ) → List (ℕ × List ℕ)
add_to_group id ts [] = (ts, id ∷ []) ∷ []
add_to_group id ts ((k, ids) ∷ groups) =
    let added = add_to_group id ts groups in
    if k == ts then (k, ids ++ id ∷ []) ∷ groups else (k, ids) ∷ added

unfoldable pub by_time : List (ℕ × List ℕ) → Pending → List (ℕ × List ℕ)
by_time groups [] = groups
by_time groups ((id, ts) ∷ rest) = by_time (add_to_group id ts groups) rest

abbrev pub has_token : String → ApiToken → Bool
has_token hashed r = str_eq r.token hashed && not r.revoked

abbrev pub is_expired : ℕ → ApiToken → Bool
is_expired now r = ltb 0 r.expires_at && ltb r.expires_at now

module _ (tokens : Table api_tokens_schema) (hash : String → String) where
  abbrev pub read : Option (List ApiToken) → Exec tokens.Tab (List ApiToken)
  read none s = (err database, s)
  read (some rows) s = (ok rows, s)

  abbrev pub stored : Option (ℕ × tokens.Tab) → Exec tokens.Tab ℕ
  stored none s = (err database, s)
  stored (some (n, t)) s = (ok n, t)

  abbrev pub find : (ApiToken → Bool) → Exec tokens.Tab (List ApiToken)
  find p s = read (tokens.select p s) s

  abbrev pub update : (ApiToken → Bool) → (ApiToken → ApiToken) → Exec tokens.Tab ℕ
  update p f s = stored (tokens.update p f s) s

  abbrev pub found_or_missing : ℕ → Exec tokens.Tab (Unit {0})
  found_or_missing n = guard (not (n == 0)) token_not_found

  abbrev create_named : String → String → Option ℕ → String → ℕ → Exec tokens.Tab String
  create_named name scope ttl plain now = do
    guard (not (str_eq name "")) token_name_required
    guard (is_valid_scope scope) invalid_scope
    (λ s.
        stored
          (tokens.create
            (record {
              id = 0;
              name = name;
              token = hash plain;
              created_at = now;
              last_used_at = 0;
              revoked = false;
              scope = scope;
              expires_at = expiry ttl now;
            })
            s)
          s)
    pure plain

  unfoldable pub create_token : String → String → Option ℕ → String → ℕ → Exec tokens.Tab String
  unfolding is_valid_scope
  create_token name scope ttl plain now =
      create_named (trim_space name) (scope_or_admin scope) ttl plain now

  unfoldable pub list_tokens : Exec tokens.Tab (List ApiToken)
  list_tokens = find (λ _. true)

  unfoldable pub revoke_token : ℕ → Exec tokens.Tab (Unit {0})
  revoke_token id = update (λ r. r.id == id) (λ r. record r { revoked = true }) >>= found_or_missing

  unfoldable pub delete_token : ℕ → Exec tokens.Tab (Unit {0})
  delete_token id = (λ s. stored (tokens.delete (λ r. r.id == id) s) s) >>= found_or_missing

  abbrev first_row : List ApiToken → Exec tokens.Tab ApiToken
  first_row [] = raise database
  first_row (r ∷ _) = pure r

  abbrev rename_to : ℕ → String → Exec tokens.Tab ApiToken
  rename_to id name = do
    guard (not (str_eq name "")) token_name_required
    n ← update (λ r. r.id == id) (λ r. record r { name = name })
    found_or_missing n
    rows ← find (λ r. r.id == id)
    first_row rows

  unfoldable pub rename_token : ℕ → String → Exec tokens.Tab ApiToken
  rename_token id name = rename_to id (trim_space name)

  abbrev pub active_row : ℕ → List ApiToken → Exec tokens.Tab ApiToken
  active_row now [] = raise token_not_found
  active_row now (r ∷ _) = if is_expired now r then raise token_not_found else pure r

  unfoldable pub find_active_by_value : String → ℕ → Exec tokens.Tab ApiToken
  find_active_by_value value now =
      if str_eq value ""
      then raise token_not_found
      else (find (has_token (hash value)) >>= active_row now)

  -- The UPDATEs of flushTouchBatch; their errors are dropped.
  unfoldable pub stamp : List (ℕ × List ℕ) → Exec tokens.Tab (Unit {0})
  stamp [] = pure tt
  stamp ((ts, ids) ∷ groups) =
      attempt (update (λ r. any (λ k. r.id == k) ids) (λ r. record r { last_used_at = ts }))
      >>= λ _. stamp groups

  -- `visit` and `visit_groups` are the orders in which the two maps are ranged over.
  unfoldable pub flush_touch_batch :
      (Pending → Pending)
      → (List (ℕ × List ℕ) → List (ℕ × List ℕ))
      → Pending
      → Exec tokens.Tab Pending
  unfolding stamp by_time
  flush_touch_batch visit visit_groups pending =
      stamp (visit_groups (by_time [] (visit pending))) >> pure []
