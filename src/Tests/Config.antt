-- ===== src/Tests/Config.antt =====
-- Runs of block_rule.go and of GetXrayConfig.
use nexcore_x_ui.Prelude.{
  ◌&&◌, ℕ, ◌≡◌, ◌⊎◌, String, Bool, true, false, refl, some, List, [], ◌∷◌, ◌++◌, map, all, any,
  distinct,
}
use nexcore_x_ui.Exec.{ok}
use nexcore_x_ui.Json.{
  object, array, text, Fields, field, end, JsonText, blank, parsed, malformed, from_list,
}
use nexcore_x_ui.Model.{vless, Inbound, Outbound, ClientTraffic, BlockRule}
use nexcore_x_ui.Tests.Database.{db}
use nexcore_x_ui.Table.Memory.{memory}
use nexcore_x_ui.Table.Schemas.{Panel}
use nexcore_x_ui.Prelude.Text.{split, trim_space}
use nexcore_x_ui.Clients.{disabled_emails}
use nexcore_x_ui.Outbounds.{gen_routing_rules, gen_xray_outbound_configs}
use nexcore_x_ui.BlockRules.{group_rules, gen_block_rules}
use nexcore_x_ui.BlockRules.Grouping.{
  held_under, values_under, first_places, same_key, group_rules-values,
}
use nexcore_x_ui.BlockRules.Presets.{PresetRule, Preset, presets, find_preset, apply_preset}
use nexcore_x_ui.BlockRules.Covered.{covers, rules_of, apply_preset-covers}
use nexcore_x_ui.XrayConfig.{Config, rule_object, append_outbounds, get_xray_config}
use nexcore_x_ui.XrayConfig.Clients.{serves_disabled, get_xray_config-clients}
use nexcore_x_ui.XrayConfig.Rules
use nexcore_x_ui.OnlineIps.{new_online_ips}
use nexcore_x_ui.Xray.{Host, Phase, coming_up, alive, gone, Xray, restart_xray}
use nexcore_x_ui.Xray.Restarted.{serves_on, processes, later, restart_xray-clients}

abbrev block_rule : ℕ → String → String → Bool → BlockRule
block_rule id kind value enable = record {
  id = id;
  kind = kind;
  value = value;
  remark = "";
  inbound_tag = "";
  enable = enable;
  created_at = 0;
}

abbrev block_rules : List BlockRule
block_rules =
    block_rule 1 "domain" "a.example, b.example" true
    ∷ block_rule 2 "port" "25" true
    ∷ block_rule 3 "domain" "b.example,c.example" true
    ∷ []

group_rules-values_example :
    (held_under "|domain" (group_rules [] block_rules)
      ≡ first_places [] (values_under "|domain" block_rules))
    × (distinct same_key (group_rules [] block_rules) ≡ true)
group_rules-values_example = group_rules-values "|domain" block_rules

abbrev settings : JsonText
settings = parsed (
    object (
      field "clients"
        (array (
          from_list (
            object (field "email" (text "a@x") end)
            ∷ object (field "email" (text "b@x") end)
            ∷ [])))
        end))

abbrev inbound : Inbound
inbound = record {
  id = 1;
  user_id = 1;
  up = 0;
  down = 0;
  total = 0;
  remark = "";
  enable = true;
  expiry_time = 0;
  listen = "";
  port = 443;
  protocol = vless;
  settings = settings;
  stream_settings = "";
  tag = "inbound-443";
  sniffing = "";
  outbound_tag = "us";
}

abbrev outbound : Outbound
outbound = record {
  id = 1;
  tag = "us";
  name = "us";
  protocol = "vless";
  address = "a.example";
  port = 443;
  settings = blank;
  stream_settings = blank;
  remark = "";
  enable = true;
  created_at = 0;
}

abbrev client : ClientTraffic
client = record {
  id = 1;
  inbound_id = 1;
  email = "b@x";
  up = 0;
  down = 0;
  total = 0;
  expiry_time = 0;
  enable = false;
}

abbrev start : Panel db
unfolding memory
start = record {
  inbounds = record { content = inbound ∷ []; unique = refl; positive = refl };
  clients = record { content = client ∷ []; unique = refl; positive = refl };
  outbounds = record { content = outbound ∷ []; unique = refl; positive = refl };
  block_rules = record {
    content = block_rule 1 "protocol" "bittorrent" false ∷ [];
    unique = refl;
    positive = refl;
  };
  need_restart = false;
}

abbrev preset_rule : PresetRule
preset_rule = record { kind = "protocol"; value = "bittorrent"; remark = "" }

abbrev blocked : Panel db
unfolding memory
blocked = (apply_preset db "bt" "" 100 start).1

apply_preset-covers_example :
    (p : Preset) × (find_preset "bt" presets ≡ some p)
    × (all (covers "" (rules_of db blocked)) p.rules ≡ true)
    × ((covers "" (rules_of db start) preset_rule ≡ false)
        ⊎ (covers "" (rules_of db blocked) preset_rule ≡ true))
unfolding apply_preset memory
apply_preset-covers_example = apply_preset-covers db "bt" "" 100 preset_rule start refl

abbrev template : Config
template = record {
  log = blank;
  routing = parsed (object end);
  dns = blank;
  inbounds = [];
  outbounds = blank;
  transport = blank;
  policy = blank;
  api = blank;
  stats = blank;
  reverse = blank;
  fake_dns = blank;
}

abbrev in_order : List Outbound → List Outbound
in_order os = os

abbrev query : Fields
query = field "type" (text "field") (
    field "outboundTag" (text "blocked")
      (field "domain" (array (from_list (text "a.example" ∷ []))) end))

abbrev serving : Panel db
unfolding memory
serving = record start {
  block_rules = record {
    content = block_rule 1 "domain" "a.example" true ∷ [];
    unique = refl;
    positive = refl;
  };
}

abbrev made : Config
unfolding get_xray_config memory
made = elim (get_xray_config db (ok template) "/var/log/access.log" in_order serving).0 [
  | ok c ↦ c
  | _ ↦ template
]

get_xray_config-clients_example : any (serves_disabled ("b@x" ∷ [])) made.inbounds ≡ false
unfolding get_xray_config memory disabled_emails gen_block_rules gen_xray_outbound_configs split
    trim_space gen_routing_rules
get_xray_config-clients_example =
    get_xray_config-clients db template "/var/log/access.log" in_order serving refl refl refl

abbrev relayed : List Fields
unfolding gen_xray_outbound_configs memory
relayed = elim (gen_xray_outbound_configs db in_order serving).0 [ ok fs ↦ fs | _ ↦ [] ]

get_xray_config-rules_example :
    Rules.rules_of made.routing
    ≡ map object (map rule_object (gen_routing_rules (inbound ∷ [])))
      ++ (map object (query ∷ []) ++ [])
unfolding get_xray_config append_outbounds memory disabled_emails gen_block_rules
    gen_xray_outbound_configs split trim_space gen_routing_rules
get_xray_config-rules_example =
    Rules.get_xray_config-rules db template end "/var/log/access.log" in_order serving
      {blocks = query ∷ []} {obs = relayed} refl refl refl refl refl

abbrev is_blank : JsonText → Bool
is_blank blank = true
is_blank _ = false

-- Sections count as equal only when they are absent.
abbrev host : Host
host = record {
  bytes_equal = λ a b. is_blank a && is_blank b;
  starts = λ _. true;
  ends = λ _. (ok tt, gone);
}

both_blank : (a b : JsonText) → host.bytes_equal a b ≡ true → a ≡ b
both_blank blank blank h = refl
both_blank blank (parsed v) h = cc
both_blank blank (malformed t) h = cc
both_blank (parsed v) b h = cc
both_blank (malformed t) b h = cc

-- A config with one inbound that serves the disabled email.
abbrev serving_disabled : Config
serving_disabled = record template {
  inbounds =
      record {
        listen = "";
        port = 443;
        protocol = vless;
        settings = parsed (
            object (
              field "clients" (array (from_list (object (field "email" (text "b@x") end) ∷ [])))
                end));
        stream_settings = "";
        tag = "inbound-443";
        sniffing = "";
      }
      ∷ [];
}

-- The process that runs serves the email, and one that was replaced earlier has ended.
abbrev xray : Xray db
xray = record {
  panel = serving;
  process = some (record { config = serving_disabled; phase = alive });
  left = record { config = serving_disabled; phase = gone } ∷ [];
  result = "";
  online = new_online_ips;
}

-- The same process, while it is still coming up.
abbrev starting : Xray db
starting = record xray { process = some (record { config = serving_disabled; phase = coming_up }) }

-- It is replaced without being stopped, and goes on serving the email.
left_behind :
    any (serves_on ("b@x" ∷ [])) (
      processes db
        (restart_xray db host (ok template) "/var/log/access.log" in_order false starting).1)
    ≡ true
unfolding restart_xray get_xray_config memory disabled_emails gen_block_rules
    gen_xray_outbound_configs split trim_space gen_routing_rules
left_behind = refl

-- The new process comes up.
abbrev coming : List (ℕ → Phase)
coming = (λ _. alive) ∷ []

serving_before : any (serves_on ("b@x" ∷ [])) (processes db xray) ≡ true
serving_before = refl

restart_xray-clients_example :
    any (serves_on ("b@x" ∷ [])) (
      later coming (
        processes db
          (restart_xray db host (ok template) "/var/log/access.log" in_order false xray).1))
    ≡ false
unfolding get_xray_config memory disabled_emails gen_block_rules gen_xray_outbound_configs split
    trim_space gen_routing_rules
restart_xray-clients_example =
    restart_xray-clients host both_blank db template "/var/log/access.log" in_order false coming
      xray (λ c. refl) refl refl refl refl refl
