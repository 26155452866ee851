-- ===== src/Tests/Links.antt =====
-- Runs of magic.go, token.go, client.go and of the deletion of outbounds.
use nexcore_x_ui.Prelude.{
  ℕ, ◌≤◌, ◌≡◌, ◌≢◌, String, List, none, true, false, refl, ◌⊎◌, some, Memᴰ, str_eq, eq_iff, [], ◌∷◌,
  arith,
}
use nexcore_x_ui.Exec.{ok}
use nexcore_x_ui.Json.{Json, Fields, field, end, lookup_field, blank}
use nexcore_x_ui.Model.{vless, Inbound, Outbound, ApiToken}
use nexcore_x_ui.Tests.Database.{db}
use nexcore_x_ui.Table.Memory.{memory}
use nexcore_x_ui.Table.Schemas.{Panel, magic_tokens_schema, api_tokens_schema}
use nexcore_x_ui.MagicTokens.{consume_magic_token}
use nexcore_x_ui.MagicTokens.SingleUse.{Call, login, issue, purge, after, consume_magic_token_once}
use nexcore_x_ui.ApiTokens.{find_active_by_value, revoke_token}
use nexcore_x_ui.ApiTokens.Revoked.{find_active_by_value-active, revoke_token-inactive}
use nexcore_x_ui.EmbeddedClients.{read_clients, write_clients}
use nexcore_x_ui.EmbeddedClients.RoundTrip.{read-write_clients}
use nexcore_x_ui.Outbounds.{delete_many}
use nexcore_x_ui.Outbounds.Dangling.{all_routed, delete_many-routed}

abbrev hash : String → String
hash plain = plain

abbrev links : (memory magic_tokens_schema).Tab
unfolding memory
links = record {
  content =
      record {
        id = 1;
        token = "secret";
        created_at = 100;
        expires_at = 700;
        consumed_at = 0;
        note = "";
      }
      ∷ [];
  unique = refl;
  positive = refl;
}

abbrev later_calls : List Call
later_calls =
    login "wrong" 250
    ∷ login "secret" 260
    ∷ issue "other" none "" 270
    ∷ purge 280
    ∷ login "other" 290
    ∷ []

consume_magic_token_once_example :
    consume_magic_token (memory magic_tokens_schema) hash "secret" 300 (
      after
        (memory magic_tokens_schema)
        hash
        later_calls
        (consume_magic_token (memory magic_tokens_schema) hash "secret" 200 links).1)
    ≢ (ok tt, links)
unfolding consume_magic_token memory
consume_magic_token_once_example =
    consume_magic_token_once (memory magic_tokens_schema) hash "secret" 200 300 later_calls links
      (omega arith) refl refl

abbrev inbound : ℕ → ℕ → String → String → Inbound
inbound id port tag outbound_tag = record {
  id = id;
  user_id = 1;
  up = 0;
  down = 0;
  total = 0;
  remark = "";
  enable = true;
  expiry_time = 0;
  listen = "";
  port = port;
  protocol = vless;
  settings = blank;
  stream_settings = "";
  tag = tag;
  sniffing = "";
  outbound_tag = outbound_tag;
}

abbrev outbound : ℕ → String → Outbound
outbound id tag = record {
  id = id;
  tag = tag;
  name = tag;
  protocol = "vless";
  address = "a.example";
  port = 443;
  settings = blank;
  stream_settings = blank;
  remark = "";
  enable = true;
  created_at = 0;
}

abbrev start : Panel db
unfolding memory
start = record {
  inbounds = record {
    content = inbound 1 443 "inbound-443" "us" ∷ inbound 2 444 "inbound-444" "eu" ∷ [];
    unique = refl;
    positive = refl;
  };
  clients = record { content = []; unique = refl; positive = refl };
  outbounds = record {
    content = outbound 1 "us" ∷ outbound 2 "eu" ∷ [];
    unique = refl;
    positive = refl;
  };
  block_rules = record { content = []; unique = refl; positive = refl };
  need_restart = false;
}

delete_many-routed_example :
    all_routed
      (db.inbounds.rows (delete_many db (1 ∷ []) start).1.inbounds)
      (db.outbounds.rows (delete_many db (1 ∷ []) start).1.outbounds)
    ≡ true
unfolding delete_many memory
delete_many-routed_example = delete_many-routed db (1 ∷ []) start refl refl

abbrev api_token : ℕ → String → ApiToken
api_token id hashed = record {
  id = id;
  name = hashed;
  token = hashed;
  created_at = 0;
  last_used_at = 0;
  revoked = false;
  scope = "admin";
  expires_at = 500;
}

abbrev keys : (memory api_tokens_schema).Tab
unfolding memory
keys = record {
  content = api_token 1 "first" ∷ api_token 2 "second" ∷ [];
  unique = refl;
  positive = refl;
}

find_active_by_value-active_example :
    Memᴰ (api_token 2 "second") ((memory api_tokens_schema).rows keys)
    × (str_eq "second" (hash "second") ≡ true)
    × (false ≡ false)
    × (◌≡◌ {A = ℕ} 500 0 ⊎ (300 ≤ 500))
    × (keys ≡ keys)
unfolding find_active_by_value memory
find_active_by_value-active_example =
    find_active_by_value-active (memory api_tokens_schema) hash "second" 300 keys refl

revoke_token-inactive_example : (api_token 2 "second").id ≢ 1
unfolding revoke_token find_active_by_value memory
revoke_token-inactive_example =
    revoke_token-inactive (memory api_tokens_schema) hash 1 "second" 300 keys
      {r = api_token 2 "second"} refl refl

abbrev settings : Fields
settings = field "decryption" (Json.text "none") end

abbrev ann : Fields
ann = field "email" (Json.text "ann") end

read-write_clients_example :
    (fs : Fields) × (read_clients (write_clients settings (ann ∷ [])) ≡ some (ann ∷ [], fs))
    × (lookup_field "decryption" fs ≡ some (Json.text "none"))
read-write_clients_example =
    read-write_clients settings (ann ∷ []) "decryption"
      (λ same. cc ((eq_iff "clients" "decryption").1 same))
