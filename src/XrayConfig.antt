-- ===== src/XrayConfig.antt =====
-- web/service/xray.go (GetXrayConfig and what it calls) and xray/config.go. A section of the config is
-- raw JSON. What Unmarshal makes of the stored template is an argument, and so are the path of the access
-- log and the order in which `ORDER BY created_at desc` lists the outbounds. The log lines of the code are
-- not modelled.
pub mod Clients
pub mod Rules
mod Parts
use nexcore_x_ui.Prelude.{
  ℕ, String, Bool, true, false, not, ◌&&◌, ◌||◌, Option, none, some, List, [], ◌∷◌, ◌++◌, map,
  str_eq, if◌then◌else◌, any, select_rows, one_of,
}
use nexcore_x_ui.Exec.{
  Err, routing_malformed, outbounds_malformed, nil_map_panic, Result, ok, err, Exec, ◌>>=◌, ◌>>◌,
  pure, raise,
}
use nexcore_x_ui.Json.{
  Json, null, boolean, number, text, array, object, Items, Fields, end, field, JsonText, blank,
  parsed, malformed, lookup_field, set_field, string_field, to_list, from_list, decode_clients,
  decode_map,
}
use nexcore_x_ui.Model.{Inbound, InboundConfig, Outbound, gen_xray_inbound_config}
use nexcore_x_ui.Table.Schemas.{Tables, Panel}
use nexcore_x_ui.Panel.{find_inbounds}
use nexcore_x_ui.Clients.{disabled_emails}
use nexcore_x_ui.Inbounds.{is_multi_user_protocol}
use nexcore_x_ui.Outbounds.{RoutingRule, gen_routing_rules, gen_xray_outbound_configs}
use nexcore_x_ui.BlockRules.{gen_block_rules}

-- xray.Config
pub record Config : Type 0 where
  pub log : JsonText
  pub routing : JsonText
  pub dns : JsonText
  pub inbounds : List InboundConfig
  pub outbounds : JsonText
  pub transport : JsonText
  pub policy : JsonText
  pub api : JsonText
  pub stats : JsonText
  pub reverse : JsonText
  pub fake_dns : JsonText

-- hasNoActiveClients
abbrev is_empty_list : Option (List Fields) → Bool
is_empty_list none = false
is_empty_list (some []) = true
is_empty_list (some (c ∷ cs)) = false

unfoldable pub has_no_active_clients : JsonText → Bool
has_no_active_clients blank = true
has_no_active_clients (parsed v) = is_empty_list (decode_clients (parsed v))
has_no_active_clients (malformed s) = false

-- An element of clients[] that is an object with a disabled email.
abbrev pub is_disabled_email : List String → String → Bool
is_disabled_email disabled email = not (str_eq email "") && one_of disabled email

abbrev pub is_disabled : List String → Json → Bool
is_disabled disabled (object fs) = is_disabled_email disabled (string_field "email" fs)
is_disabled disabled _ = false

-- rawClients, ok := parsed["clients"].([]interface{})
abbrev pub raw_clients : Option Json → List Json
raw_clients (some (array vs)) = to_list vs
raw_clients _ = []

abbrev kept_clients : List String → List Json → List Json
kept_clients disabled vs = select_rows (λ v. not (is_disabled disabled v)) vs

abbrev strip_map : JsonText → List String → Option Fields → JsonText
strip_map settings disabled none = settings
strip_map settings disabled (some fs) =
    let vs = raw_clients (lookup_field "clients" fs) in
    if any (is_disabled disabled) vs
    then parsed (object (set_field "clients" (array (from_list (kept_clients disabled vs))) fs))
    else settings

-- stripDisabledClientsFromSettings
unfoldable pub strip_disabled_clients : JsonText → List String → JsonText
strip_disabled_clients settings disabled = strip_map settings disabled (decode_map settings)

-- The inbound with its disabled clients taken out; with nobody disabled it is left alone.
abbrev pub filtered : List String → Inbound → Inbound
filtered disabled i =
    if any (λ _. true) disabled
    then record i { settings = strip_disabled_clients i.settings disabled }
    else i

abbrev pub is_served : Inbound → Bool
is_served i = not (is_multi_user_protocol i && has_no_active_clients i.settings)

abbrev pub add_served : Inbound → List InboundConfig → List InboundConfig
add_served i rest = if is_served i then gen_xray_inbound_config i ∷ rest else rest

-- The loop over the inbounds.
unfoldable pub served_configs : List String → List Inbound → List InboundConfig
unfolding strip_disabled_clients has_no_active_clients is_multi_user_protocol
    gen_xray_inbound_config
served_configs disabled [] = []
served_configs disabled (i ∷ is) =
    let rest = served_configs disabled is in
    if i.enable then add_served (filtered disabled i) rest else rest

-- A section read into a map that was made empty: null makes the map nil, and a write to it panics; what
-- is no object is an error that leaves the map empty.
pub data Section : Type 0 where
  entries : Fields → Section
  nil_map : Section
  unread : Section

abbrev pub section : JsonText → Section
section blank = entries end
section (parsed (object fs)) = entries fs
section (parsed null) = nil_map
section (parsed _) = unread
section (malformed s) = unread

abbrev with_level : Option Json → Fields → Fields
with_level none fs = set_field "loglevel" (text "info") fs
with_level (some v) fs = fs

abbrev log_entries : String → Fields → JsonText
log_entries access_path fs =
    let fs' = set_field "access" (text access_path) fs in
    parsed (object (with_level (lookup_field "loglevel" fs') fs'))

-- The error of Unmarshal is dropped here.
unfoldable pub with_access_log : String → JsonText → Result JsonText
with_access_log access_path log = elim (section log) [
  | entries fs ↦ ok (log_entries access_path fs)
  | nil_map ↦ err nil_map_panic
  | unread ↦ ok (log_entries access_path end)
]

-- existing, _ := router["rules"].([]interface{})
abbrev pub rules_in : Fields → List Json
rules_in router = raw_clients (lookup_field "rules" router)

abbrev pub prepended : List Fields → Fields → JsonText
prepended rules router =
    parsed
      (object (set_field "rules" (array (from_list (map object rules ++ rules_in router))) router))

-- The rules go in front of those of the routing section.
unfoldable pub prepend_rules : List Fields → JsonText → Result JsonText
prepend_rules [] routing = ok routing
prepend_rules (r ∷ rs) routing = elim (section routing) [
  | entries router ↦ ok (prepended (r ∷ rs) router)
  | nil_map ↦ err nil_map_panic
  | unread ↦ err routing_malformed
]

abbrev pub rule_object : RoutingRule → Fields
rule_object r = field "type" (text "field") (
    field "inboundTag" (array (from_list (text r.inbound_tag ∷ [])))
      (field "outboundTag" (text r.outbound_tag) end))

-- The outbounds section, with the user's outbounds behind those of the template; `none` is an error.
abbrev appended : List Fields → List Json → Option JsonText
appended obs existing = some (parsed (array (from_list (existing ++ map object obs))))

unfoldable pub append_outbounds : List Fields → JsonText → Option JsonText
append_outbounds [] outbounds = some outbounds
append_outbounds (o ∷ os) blank = appended (o ∷ os) []
append_outbounds (o ∷ os) (parsed (array vs)) = appended (o ∷ os) (to_list vs)
append_outbounds (o ∷ os) (parsed null) = appended (o ∷ os) []
append_outbounds (o ∷ os) (parsed _) = none
append_outbounds (o ∷ os) (malformed s) = none

-- An error other than a panic is logged and the section kept.
abbrev pub is_panic : Err → Bool
is_panic nil_map_panic = true
is_panic _ = false

abbrev pub or_keep : Config → Result JsonText → Result Config
or_keep c (ok routing) = ok (record c { routing = routing })
or_keep c (err e) = if is_panic e then err e else ok c

abbrev pub add_rules : List RoutingRule → Option JsonText → Config → Result Config
add_rules rules none c = ok c
add_rules rules (some outbounds) c =
    or_keep (record c { outbounds = outbounds }) (prepend_rules (map rule_object rules) c.routing)

-- The end of injectUserOutbounds: the outbounds are in the config before the rules are looked at.
unfoldable pub inject_outbounds : List Fields → List RoutingRule → Config → Result Config
unfolding append_outbounds prepend_rules
inject_outbounds obs rules c = add_rules rules (append_outbounds obs c.outbounds) c

unfoldable pub inject_blocks : List Fields → Config → Result Config
unfolding prepend_rules
inject_blocks rules c = or_keep c (prepend_rules rules c.routing)

module _ (g : Tables) where
  -- A failed read is replaced by a value, and the state kept.
  abbrev pub or_default : {A : Type 0} → A → Result A × Panel g → Result A × Panel g
  or_default a (ok b, s) = (ok b, s)
  or_default a (err e, s) = (ok a, s)

  abbrev pub default : {A : Type 0} → A → Exec (Panel g) A → Exec (Panel g) A
  default a m s = or_default a (m s)

  abbrev pub lift : {A : Type 0} → Result A → Exec (Panel g) A
  lift (ok a) s = (ok a, s)
  lift (err e) s = (err e, s)

  abbrev pub with_inbounds : List String → List Inbound → String → Config → Exec (Panel g) Config
  with_inbounds disabled is access_path c = lift (with_access_log access_path c.log) >>= λ log.
      pure (record c { inbounds = c.inbounds ++ served_configs disabled is; log = log })

  -- injectBlockRules and injectUserOutbounds, each skipped when its query fails.
  unfoldable pub inject :
      (List Fields) → Option (List Fields) → List Inbound → Config → Exec (Panel g) Config
  unfolding inject_blocks inject_outbounds
  inject blocks none is c = lift (inject_blocks blocks c)
  inject blocks (some obs) is c =
      lift (inject_blocks blocks c) >>= λ c'. lift (inject_outbounds obs (gen_routing_rules is) c')

  unfoldable pub get_xray_config :
      Result Config → String → (List Outbound → List Outbound) → Exec (Panel g) Config
  unfolding inject served_configs with_access_log
  get_xray_config template access_path by_created = do
    c ← lift template
    is ← find_inbounds g (λ _. true)
    disabled ← default [] (disabled_emails g)
    c' ← with_inbounds disabled is access_path c
    blocks ← default [] (gen_block_rules g)
    obs ← default none (gen_xray_outbound_configs g by_created >>= λ l. pure (some l))
    inject blocks obs is c'
