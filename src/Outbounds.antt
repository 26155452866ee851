-- ===== src/Outbounds.antt =====
-- web/service/outbound.go. `by_created` is `ORDER BY created_at desc`, whose ties SQLite may list in any
-- order. The messages of TestConnectivity, which dials the address, are not modelled.
pub mod Dangling
use Prim.Native.Char.{code}
use Prim.Native.String
use nexcore_x_ui.Prelude.{
  ℕ, ◌+◌, String, Bool, true, false, not, ◌&&◌, ◌||◌, Option, none, some, List, [], ◌∷◌, map, ◌==◌,
  str_eq, if◌then◌else◌, leb, ltb, any,
}
use nexcore_x_ui.Prelude.Text.{trim_space}
use nexcore_x_ui.Exec.{
  Err, outbound_tag_invalid, outbound_tag_reserved, outbound_name_empty, outbound_protocol_unsup,
  outbound_address_empty, outbound_port_range, outbound_invalid_json, outbound_tag_duplicate,
  outbound_tag_changed, outbound_not_found, Exec, ◌>>=◌, ◌>>◌, pure, raise, guard, when,
  transaction,
}
use nexcore_x_ui.Json.{Json, text, object, Fields, end, field, JsonText, blank, parsed, malformed}
use nexcore_x_ui.Model.{Inbound, Outbound}
use nexcore_x_ui.Table.Schemas.{Tables, Panel}
use nexcore_x_ui.Panel.{
  find_outbounds, create_outbound, save_outbound, delete_outbounds, update_inbounds, first_or,
}

unfoldable pub is_valid_protocol : String → Bool
is_valid_protocol p =
    str_eq p "vless" || str_eq p "vmess" || str_eq p "trojan" || str_eq p "shadowsocks"

unfoldable pub is_reserved_tag : String → Bool
is_reserved_tag t = str_eq t "api" || str_eq t "direct" || str_eq t "blocked" || str_eq t "dns-out"

-- [A-Za-z0-9_.-]
abbrev is_tag_char : ℕ → Bool
is_tag_char c =
    (leb 65 c && leb c 90)
    || (leb 97 c && leb c 122)
    || (leb 48 c && leb c 57)
    || c == 95
    || c == 46
    || c == 45

tag_chars : String → Bool
tag_chars String.[] = true
tag_chars (String.◌∷◌ c s) = is_tag_char (code c) && tag_chars s

count_chars : String → ℕ
count_chars String.[] = 0
count_chars (String.◌∷◌ c s) = 1 + count_chars s

-- ^[A-Za-z0-9_.-]{1,64}$
unfoldable pub is_tag : String → Bool
unfolding tag_chars count_chars
is_tag t = let n = count_chars t in leb 1 n && leb n 64 && tag_chars t

-- validate trims four fields of the row that it is given.
unfoldable pub trimmed : Outbound → Outbound
trimmed r = record r {
  tag = trim_space r.tag;
  name = trim_space r.name;
  protocol = trim_space r.protocol;
  address = trim_space r.address;
}

abbrev is_json : JsonText → Bool
is_json blank = true
is_json (parsed v) = true
is_json (malformed s) = false

abbrev first_failure : List (Bool × Err) → Option Err
first_failure [] = none
first_failure ((holds, e) ∷ tests) =
    let rest = first_failure tests in if holds then rest else some e

-- The tests of validate on a trimmed row, in their order.
unfoldable pub validate : Outbound → Option Err
unfolding is_tag is_reserved_tag is_valid_protocol
validate r = first_failure (
    (is_tag r.tag, outbound_tag_invalid)
    ∷ (not (is_reserved_tag r.tag), outbound_tag_reserved)
    ∷ (not (str_eq r.name ""), outbound_name_empty)
    ∷ (is_valid_protocol r.protocol, outbound_protocol_unsup)
    ∷ (not (str_eq r.address ""), outbound_address_empty)
    ∷ (ltb 0 r.port && leb r.port 65535, outbound_port_range)
    ∷ (is_json r.settings && is_json r.stream_settings, outbound_invalid_json)
    ∷ [])

abbrev pub refuse_if : {S : Type 0} → Option Err → Exec S (Unit {0})
refuse_if none = pure tt
refuse_if (some e) = raise e

abbrev pub has_id : List ℕ → Outbound → Bool
has_id ids o = any (λ k. o.id == k) ids

abbrev pub bound_to : List String → Inbound → Bool
bound_to tags i = any (λ t. str_eq i.outbound_tag t) tags

abbrev pub unbound : Inbound → Inbound
unbound i = record i { outbound_tag = "" }

abbrev pub tag_of : Outbound → String
tag_of o = o.tag

-- The object of one outbound in the config; `none` skips it.
abbrev parsed_settings : JsonText → Option Json
parsed_settings blank = some (object end)
parsed_settings (parsed v) = some v
parsed_settings (malformed s) = none

abbrev with_stream : Outbound → Json → JsonText → Option Fields
with_stream r settings blank =
    some (
      field "tag" (text r.tag) (field "protocol" (text r.protocol) (field "settings" settings end)))
with_stream r settings (parsed v) = some (
    field "tag" (text r.tag) (
      field "protocol" (text r.protocol)
        (field "settings" settings (field "streamSettings" v end))))
with_stream r settings (malformed s) = none

abbrev with_settings : Outbound → Option Json → Option Fields
with_settings r none = none
with_settings r (some settings) = with_stream r settings r.stream_settings

unfoldable pub gen_outbound : Outbound → Option Fields
gen_outbound r = if r.enable then with_settings r (parsed_settings r.settings) else none

abbrev push : Option Fields → List Fields → List Fields
push none objs = objs
push (some o) objs = o ∷ objs

abbrev pub gen_outbounds : List Outbound → List Fields
unfolding gen_outbound
gen_outbounds [] = []
gen_outbounds (r ∷ rs) = push (gen_outbound r) (gen_outbounds rs)

-- One rule of the routing section: the tag of the inbound, and the tag of the outbound.
pub record RoutingRule : Type 0 where
  pub inbound_tag : String
  pub outbound_tag : String

-- GenXrayRoutingRulesForInbounds
unfoldable pub gen_routing_rules : List Inbound → List RoutingRule
gen_routing_rules [] = []
gen_routing_rules (i ∷ is) =
    let rest = gen_routing_rules is in
    if not i.enable || str_eq i.outbound_tag "" || str_eq i.tag ""
    then rest
    else record { inbound_tag = i.tag; outbound_tag = i.outbound_tag } ∷ rest

module _ (g : Tables) where
  unfoldable pub list_outbounds : (List Outbound → List Outbound) → Exec (Panel g) (List Outbound)
  list_outbounds by_created = do rows ← find_outbounds g (λ _. true); pure (by_created rows)

  unfoldable pub get_outbound : ℕ → Exec (Panel g) Outbound
  get_outbound id = find_outbounds g (λ r. r.id == id) >>= first_or g outbound_not_found

  unfoldable pub get_by_tag : String → Exec (Panel g) Outbound
  get_by_tag tag =
      if str_eq tag ""
      then raise outbound_not_found
      else (find_outbounds g (λ r. str_eq r.tag tag) >>= first_or g outbound_not_found)

  -- Add on the row that validate has trimmed; `now` is in milliseconds.
  abbrev add_trimmed : Outbound → ℕ → Exec (Panel g) (Unit {0})
  add_trimmed r now = do
    refuse_if (validate r)
    same ← find_outbounds g (λ q. str_eq q.tag r.tag)
    guard (not (any (λ _. true) same)) outbound_tag_duplicate
    create_outbound g (record r { id = 0; created_at = now })
    pure tt

  unfoldable pub add_outbound : Outbound → ℕ → Exec (Panel g) (Unit {0})
  unfolding validate trimmed
  add_outbound r now = add_trimmed (trimmed r) now

  abbrev update_trimmed : Outbound → Exec (Panel g) (Unit {0})
  update_trimmed r = do
    refuse_if (validate r)
    existing ← get_outbound r.id
    guard (str_eq existing.tag r.tag) outbound_tag_changed
    save_outbound g (record r { created_at = existing.created_at })
    pure tt

  unfoldable pub update_outbound : Outbound → Exec (Panel g) (Unit {0})
  unfolding get_outbound validate trimmed
  update_outbound r = update_trimmed (trimmed r)

  unfoldable pub set_enable : ℕ → Bool → Exec (Panel g) (Unit {0})
  unfolding get_outbound
  set_enable id enable = do
    r ← get_outbound id
    save_outbound g (record r { enable = enable })
    pure tt

  unfoldable pub delete_outbound : ℕ → Exec (Panel g) (Unit {0})
  unfolding get_outbound
  delete_outbound id = do
    r ← get_outbound id
    update_inbounds g (bound_to (r.tag ∷ [])) unbound
    delete_outbounds g (λ q. q.id == id)
    pure tt

  -- What DeleteMany does in its transaction.
  unfoldable pub delete_bound : List ℕ → Exec (Panel g) ℕ
  delete_bound ids = do
    rows ← find_outbounds g (has_id ids)
    when (any (λ _. true) rows) (update_inbounds g (bound_to (map tag_of rows)) unbound >> pure tt)
    delete_outbounds g (has_id ids)

  unfoldable pub delete_many : List ℕ → Exec (Panel g) ℕ
  unfolding delete_bound
  delete_many [] = pure 0
  delete_many (id ∷ ids) = transaction (delete_bound (id ∷ ids))

  unfoldable pub gen_xray_outbound_configs :
      (List Outbound → List Outbound) → Exec (Panel g) (List Fields)
  unfolding list_outbounds gen_outbound
  gen_xray_outbound_configs by_created = do
    rows ← list_outbounds by_created
    pure (gen_outbounds rows)
