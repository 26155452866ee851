-- ===== src/Tests/Access.antt =====
-- Runs of the API's gate.
use nexcore_x_ui.Prelude.{
  Memᴰ, ℕ, ◌≡◌, ◌≢◌, ◌≤◌, ◌⊎◌, String, true, false, refl, none, some, [], ◌∷◌, one_of, length,
}
use nexcore_x_ui.Prelude.Text.{trim_space}
use nexcore_x_ui.Model.{ApiToken}
use nexcore_x_ui.Table.Memory.{memory}
use nexcore_x_ui.Table.Schemas.{api_tokens_schema, settings_schema}
use nexcore_x_ui.ApiTokens.{find_active_by_value, revoke_token}
use nexcore_x_ui.Settings.{Env, SettingStore, default_values}
use nexcore_x_ui.Auth.{
  Request, extract_token, legacy_token_seen_cap, Identity, require_scope, Gate, auth_middleware,
}
use nexcore_x_ui.Routes
use nexcore_x_ui.Routes.{post, Route, routes}
use nexcore_x_ui.Routes.AdminOnly.{gate-admin}
use nexcore_x_ui.Auth.Admitted.{ByRow, ByLegacy, require_scope-authorized, auth_middleware-revoked}
use nexcore_x_ui.Auth.Warned.{warned, warn_legacy_token_once-cap}

abbrev hash : String → String
hash plain = plain

abbrev env : Env
unfolding default_values
env = record {
  cipher = record { v1 = none; v2 = none; encode = λ b. b; decode = λ s. some s };
  defaults = default_values "{}" "session";
}

abbrev api_token : ℕ → String → ApiToken
api_token id hashed = record {
  id = id;
  name = hashed;
  token = hashed;
  created_at = 0;
  last_used_at = 0;
  revoked = false;
  scope = "readonly";
  expires_at = 0;
}

abbrev table : (memory api_tokens_schema).Tab
unfolding memory
table = record {
  content = api_token 1 "one" ∷ api_token 2 "two" ∷ [];
  unique = refl;
  positive = refl;
}

abbrev store : SettingStore (memory settings_schema)
unfolding memory
store = record { table = record { content = []; unique = refl; positive = refl }; cache = [] }

abbrev gate : Gate (memory api_tokens_schema) hash (memory settings_schema) env
gate = record { table = table; pending = []; store = store; legacy_token_seen = [] }

abbrev request : Request
request = record { authorization = "Bearer two"; api_token = ""; client_ip = "10.0.0.1" }

abbrev caller : Identity
caller = record { token_id = some 2; name = "two"; scope = "readonly" }

require_scope-authorized_example :
    (one_of ("admin" ∷ "readonly" ∷ []) "readonly" ≡ true)
    × (ByRow
          (memory api_tokens_schema)
          hash
          (memory settings_schema)
          env
          "two"
          100
          ((memory api_tokens_schema).rows table)
          caller
        ⊎ ByLegacy (memory api_tokens_schema) hash (memory settings_schema) env "two" store caller)
unfolding memory auth_middleware extract_token find_active_by_value require_scope trim_space
require_scope-authorized_example =
    require_scope-authorized (memory api_tokens_schema) hash (memory settings_schema) env
      ("admin" ∷ "readonly" ∷ []) request 100 gate {i = caller} refl

abbrev revoked : Gate (memory api_tokens_schema) hash (memory settings_schema) env
unfolding memory revoke_token
revoked = record gate { table = (revoke_token (memory api_tokens_schema) hash 1 table).1 }

auth_middleware-revoked_example : caller.token_id ≢ some 1
unfolding memory auth_middleware extract_token find_active_by_value revoke_token trim_space
auth_middleware-revoked_example =
    auth_middleware-revoked (memory api_tokens_schema) hash (memory settings_schema) env 1 request
      100 revoked table {i = caller} refl refl

warn_legacy_token_once-cap_example :
    length (warned (("10.0.0.2", 200) ∷ ("10.0.0.1", 100) ∷ [])) ≤ legacy_token_seen_cap
warn_legacy_token_once-cap_example =
    warn_legacy_token_once-cap 300 (("10.0.0.2", 200) ∷ ("10.0.0.1", 100) ∷ []) refl

abbrev restart : Route
restart = record {
  method = post;
  path = "/xray/restart";
  handler = "xrayRestart";
  allowed = "admin" ∷ [];
}

restart_listed : Memᴰ restart routes
restart_listed = Memᴰ.tail (
    Memᴰ.tail (
      Memᴰ.tail (
        Memᴰ.tail (
          Memᴰ.tail (
            Memᴰ.tail (
              Memᴰ.tail (
                Memᴰ.tail (
                  Memᴰ.tail (
                    Memᴰ.tail (
                      Memᴰ.tail (
                        Memᴰ.tail (
                          Memᴰ.tail (
                            Memᴰ.tail (
                              Memᴰ.tail (
                                Memᴰ.tail (
                                  Memᴰ.tail (
                                    Memᴰ.tail (
                                      Memᴰ.tail (
                                        Memᴰ.tail (
                                          Memᴰ.tail (
                                            Memᴰ.tail (
                                              Memᴰ.tail (
                                                Memᴰ.tail (
                                                  Memᴰ.tail (
                                                    Memᴰ.tail (
                                                      Memᴰ.tail (
                                                        Memᴰ.tail (
                                                          Memᴰ.tail (
                                                            Memᴰ.tail (
                                                            Memᴰ.head
                                                            refl))))))))))))))))))))))))))))))

abbrev admin_gate : Gate (memory api_tokens_schema) hash (memory settings_schema) env
unfolding memory
admin_gate = record gate {
  table = record {
    content = record (api_token 3 "three") { scope = "admin" } ∷ [];
    unique = refl;
    positive = refl;
  };
}

abbrev admin_request : Request
admin_request = record { authorization = ""; api_token = "three"; client_ip = "10.0.0.1" }

abbrev admin : Identity
admin = record { token_id = some 3; name = "three"; scope = "admin" }

gate-admin_example :
    ◌≡◌ {A = String} "admin" "admin"
    × (ByRow
          (memory api_tokens_schema)
          hash
          (memory settings_schema)
          env
          "three"
          100
          ((memory api_tokens_schema).rows admin_gate.table)
          admin
        ⊎ ByLegacy
            (memory api_tokens_schema)
            hash
            (memory settings_schema)
            env
            "three"
            admin_gate.store
            admin)
unfolding memory Routes.gate auth_middleware extract_token find_active_by_value require_scope
    trim_space admin_gate
gate-admin_example =
    gate-admin (memory api_tokens_schema) hash (memory settings_schema) env restart admin_request
      100 admin_gate {i = admin} restart_listed refl refl
