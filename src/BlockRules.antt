-- ===== src/BlockRules.antt =====
-- web/service/block_rule.go: the rules that send traffic to the outbound `blocked`. net.ParseCIDR and
-- net.ParseIP are the parameter `IpSyntax`.
pub mod Presets
pub mod Covered
pub mod Grouping
use nexcore_x_ui.Prelude.{
  ℕ, String, Bool, true, false, not, ◌&&◌, ◌||◌, Option, none, some, List, [], ◌∷◌, ◌++◌, map,
  str_eq, ◌==◌, if◌then◌else◌, leb, any, all, select_rows, starts_with, one_of,
}
use Prim.Native.String
use nexcore_x_ui.Prelude.Text.{trim_space, split, join, atoi}
use nexcore_x_ui.Exec.{
  Err, block_rule_not_found, block_rule_type_invalid, block_rule_value_empty, block_rule_ip_invalid,
  block_rule_port_invalid, block_rule_protocol_invalid, Exec, ◌>>=◌, ◌>>◌, pure, guard,
}
use nexcore_x_ui.Json.{Json, text, array, Fields, field, end, from_list}
use nexcore_x_ui.Model.{BlockRule}
use nexcore_x_ui.Table.Schemas.{Tables, Panel}
use nexcore_x_ui.Panel.{
  find_block_rules, create_block_rule, save_block_rule, update_block_rules, delete_block_rules,
  first_or,
}

pub record IpSyntax : Type 0 where
  pub is_cidr : String → Bool
  pub is_ip : String → Bool

unfoldable pub is_valid_type : String → Bool
is_valid_type = one_of ("domain" ∷ "ip" ∷ "geosite" ∷ "geoip" ∷ "port" ∷ "protocol" ∷ "source" ∷ [])

unfoldable pub is_valid_protocol : String → Bool
is_valid_protocol =
    one_of ("http" ∷ "tls" ∷ "bittorrent" ∷ "ssh" ∷ "socks" ∷ "mqtt" ∷ "quic" ∷ "dns" ∷ [])

-- The items of a value: split at commas, trimmed, the empty ones skipped.
abbrev is_filled : String → Bool
is_filled s = not (str_eq s "")

unfoldable pub items : String → List String
items v = select_rows is_filled (map trim_space (split b',' v))

abbrev is_address : IpSyntax → String → Bool
is_address net item = starts_with item "geoip:" || (net.is_cidr item || net.is_ip item)

-- strings.SplitN(item, "-", 2)
abbrev rejoined : List String → List String
rejoined [] = []
rejoined (first ∷ []) = first ∷ []
rejoined (first ∷ second ∷ more) = first ∷ join "-" (second ∷ more) ∷ []

abbrev in_port_range : Option ℕ → Bool
in_port_range none = false
in_port_range (some n) = leb 1 n && leb n 65535

abbrev is_port_item : String → Bool
is_port_item item = all (λ p. in_port_range (atoi (trim_space p))) (rejoined (split b'-' item))

-- The checks that validate makes on the items, by the type of the rule.
unfoldable pub items_ok : IpSyntax → String → List String → Bool
unfolding is_valid_protocol atoi split join
items_ok net kind vs =
    if one_of ("ip" ∷ "source" ∷ []) kind
    then all (is_address net) vs
    else if str_eq kind "port"
    then all is_port_item vs
    else if str_eq kind "protocol"
    then all is_valid_protocol vs
    else true

abbrev items_error : String → Err
items_error kind =
    if str_eq kind "port"
    then block_rule_port_invalid
    else if str_eq kind "protocol"
    then block_rule_protocol_invalid
    else block_rule_ip_invalid

-- One bucket of GenXrayRoutingRules, with the key it is filed under.
pub record RuleGroup : Type 0 where
  pub key : String
  pub inbound_tag : String
  pub kind : String
  pub values : List String

abbrev pub group_key : BlockRule → String
group_key r = String.◌++◌ r.inbound_tag (String.◌++◌ "|" r.kind)

-- The loop over the values of one rule: those that the bucket holds already are skipped.
unfoldable pub add_values : List String → List String → List String
add_values held [] = held
add_values held (v ∷ vs) = add_values (if one_of held v then held else held ++ v ∷ []) vs

unfoldable pub file_rule : BlockRule → List RuleGroup → List RuleGroup
unfolding add_values items
file_rule r [] =
    record {
      key = group_key r;
      inbound_tag = r.inbound_tag;
      kind = r.kind;
      values = add_values [] (items r.value);
    }
    ∷ []
file_rule r (b ∷ bs) =
    if str_eq b.key (group_key r)
    then record b { values = add_values b.values (items r.value) } ∷ bs
    else b ∷ file_rule r bs

unfoldable pub group_rules : List RuleGroup → List BlockRule → List RuleGroup
unfolding file_rule
group_rules groups [] = groups
group_rules groups (r ∷ rs) = group_rules (if r.enable then file_rule r groups else groups) rs

unfoldable pub prefix_each : String → List String → List String
prefix_each p [] = []
prefix_each p (v ∷ vs) = (if starts_with v p then v else String.◌++◌ p v) ∷ prefix_each p vs

abbrev strings : List String → Json
strings vs = array (from_list (map text vs))

-- The field that holds the values; an unknown type has none.
unfoldable pub matcher : String → List String → Fields
unfolding prefix_each join
matcher kind vs =
    if str_eq kind "domain"
    then field "domain" (strings vs) end
    else if str_eq kind "ip"
    then field "ip" (strings vs) end
    else if str_eq kind "geosite"
    then field "domain" (strings (prefix_each "geosite:" vs)) end
    else if str_eq kind "geoip"
    then field "ip" (strings (prefix_each "geoip:" vs)) end
    else if str_eq kind "port"
    then field "port" (text (join "," vs)) end
    else if str_eq kind "protocol"
    then field "protocol" (strings vs) end
    else if str_eq kind "source"
    then field "source" (strings vs) end
    else end

unfoldable pub routing_rule : RuleGroup → Fields
unfolding matcher
routing_rule b =
    let found = matcher b.kind b.values in
    field "type" (text "field") (
      field "outboundTag" (text "blocked") (
        if str_eq b.inbound_tag ""
        then found
        else field "inboundTag" (strings (b.inbound_tag ∷ [])) found))

abbrev has_values : RuleGroup → Bool
has_values b = any (λ _. true) b.values

module _ (g : Tables) where
  unfoldable pub list_rules : Exec (Panel g) (List BlockRule)
  list_rules = find_block_rules g (λ _. true)

  unfoldable pub get_rule : ℕ → Exec (Panel g) BlockRule
  get_rule id = find_block_rules g (λ r. r.id == id) >>= first_or g block_rule_not_found

  abbrev found_or_missing : ℕ → Exec (Panel g) (Unit {0})
  found_or_missing n = guard (not (n == 0)) block_rule_not_found

  unfoldable pub enable_rule : ℕ → Bool → Exec (Panel g) (Unit {0})
  enable_rule id enable =
      update_block_rules g (λ r. r.id == id) (λ r. record r { enable = enable })
      >>= found_or_missing

  unfoldable pub delete_rule : ℕ → Exec (Panel g) (Unit {0})
  delete_rule id = delete_block_rules g (λ r. r.id == id) >>= found_or_missing

  -- GenXrayRoutingRules
  unfoldable pub gen_block_rules : Exec (Panel g) (List Fields)
  unfolding list_rules group_rules routing_rule
  gen_block_rules = do
    rows ← list_rules
    pure (map routing_rule (select_rows has_values (group_rules [] rows)))

module _ (g : Tables) (net : IpSyntax) where
  unfoldable pub validate : BlockRule → Exec (Panel g) (Unit {0})
  unfolding is_valid_type items items_ok
  validate r = do
    guard (is_valid_type r.kind) block_rule_type_invalid
    guard (is_filled (trim_space r.value)) block_rule_value_empty
    guard (items_ok net r.kind (items (trim_space r.value))) (items_error r.kind)

  -- `now` is in seconds.
  unfoldable pub add_rule : BlockRule → ℕ → Exec (Panel g) (Unit {0})
  unfolding validate
  add_rule r now = do
    validate r
    create_block_rule g (record r { id = 0; created_at = now })
    pure tt

  unfoldable pub update_rule : BlockRule → Exec (Panel g) (Unit {0})
  unfolding validate get_rule
  update_rule r = do
    validate r
    old ← get_rule g r.id
    save_block_rule g (record old {
      kind = r.kind;
      value = r.value;
      remark = r.remark;
      inbound_tag = r.inbound_tag;
      enable = r.enable;
    })
    pure tt
