-- ===== src/EmbeddedClients.antt =====
-- web/service/client.go: the clients inside the settings of an inbound. A client is a JSON object.
pub mod RoundTrip
use nexcore_x_ui.Prelude.{
  ℕ, String, Bool, true, false, not, Option, none, some, List, [], ◌∷◌, ◌++◌, map, str_eq, ◌==◌,
  if◌then◌else◌, any, delete_rows,
}
use nexcore_x_ui.Exec.{
  Err, settings_malformed, unsupported_protocol, identifier_required, client_duplicate,
  client_not_found, Result, ok, err, Exec, ◌>>=◌, ◌>>◌, pure, raise, guard, when, attempt,
}
use nexcore_x_ui.Json.{
  Json, object, array, Items, Fields, end, JsonText, blank, parsed, malformed, lookup_field,
  set_field, string_field, to_list, from_list, decode_map,
}
use nexcore_x_ui.Model.{
  Protocol, vless, vmess, trojan, shadowsocks, Inbound, InboundConfig, ClientTraffic,
}
use nexcore_x_ui.Table.Schemas.{Tables, Panel}
use nexcore_x_ui.Panel.{set_need_restart}
use nexcore_x_ui.Clients.{ensure_row, delete_by_email, get_by_email}
use nexcore_x_ui.Inbounds.{Net, get_inbound, update_inbound}

-- "" for a protocol whose inbounds have no clients.
abbrev pub client_id_field : Protocol → String
client_id_field vless = "email"
client_id_field vmess = "email"
client_id_field trojan = "email"
client_id_field shadowsocks = "email"
client_id_field _ = ""

-- raw, _ := settings["clients"].([]any), and the elements that are objects.
abbrev push_object : Json → List Fields → List Fields
push_object (object fs) cs = fs ∷ cs
push_object _ cs = cs

abbrev pub objects_of : List Json → List Fields
objects_of [] = []
objects_of (v ∷ vs) = push_object v (objects_of vs)

abbrev pub clients_in : Option Json → List Fields
clients_in (some (array vs)) = objects_of (to_list vs)
clients_in _ = []

-- The settings as a map; `none` is the error of Unmarshal.
abbrev pub settings_map : JsonText → Option Fields
settings_map blank = some end
settings_map (parsed v) = decode_map (parsed v)
settings_map (malformed s) = none

abbrev with_clients : Option Fields → Option (List Fields × Fields)
with_clients none = none
with_clients (some fs) = some (clients_in (lookup_field "clients" fs), fs)

unfoldable pub read_clients : JsonText → Option (List Fields × Fields)
read_clients settings = with_clients (settings_map settings)

unfoldable pub write_clients : Fields → List Fields → JsonText
write_clients fs clients =
    parsed (object (set_field "clients" (array (from_list (map object clients))) fs))

abbrev is_client : String → String → Fields → Bool
is_client id_field identifier c = str_eq (string_field id_field c) identifier

-- clients[idx] = patch, for the first client that has the identifier.
unfoldable pub replace_first : String → String → Fields → List Fields → List Fields
replace_first id_field identifier patch [] = []
replace_first id_field identifier patch (c ∷ cs) =
    let rest = replace_first id_field identifier patch cs in
    if is_client id_field identifier c then patch ∷ cs else c ∷ rest

-- patch[idField] = identifier, when the patch has none.
abbrev identified : String → String → Fields → Fields
identified id_field identifier patch =
    if str_eq (string_field id_field patch) ""
    then set_field id_field (Json.text identifier) patch
    else patch

module _ (g : Tables) (net : Net) (accepts : List InboundConfig → Bool) where
  abbrev read_or_fail : Option (List Fields × Fields) → Exec (Panel g) (List Fields × Fields)
  read_or_fail none = raise settings_malformed
  read_or_fail (some p) = pure p

  unfoldable pub list_clients : ℕ → Exec (Panel g) (List Fields)
  unfolding read_clients
  list_clients inbound_id = do
    i ← get_inbound g net accepts inbound_id
    p ← read_or_fail (read_clients i.settings)
    pure p.0

  -- EnsureRow, for a client that has an email.
  abbrev ensure_client : ℕ → Inbound → String → Exec (Panel g) (Unit {0})
  ensure_client inbound_id i email =
      when (not (str_eq email ""))
        (attempt (ensure_row g inbound_id email i.total i.expiry_time i.enable))

  -- AddClient on the loaded inbound.
  abbrev add_to : ℕ → Fields → Inbound → Exec (Panel g) Inbound
  add_to inbound_id client i = do
    guard (not (str_eq (client_id_field i.protocol) "")) unsupported_protocol
    guard (not (str_eq (string_field (client_id_field i.protocol) client) "")) identifier_required
    p ← read_or_fail (read_clients i.settings)
    guard
        (not (
          any
            (is_client (client_id_field i.protocol)
              (string_field (client_id_field i.protocol) client))
            p.0))
        client_duplicate
    update_inbound g net accepts (record i { settings = write_clients p.1 (p.0 ++ client ∷ []) })
    ensure_client inbound_id i (string_field "email" client)
    set_need_restart g
    pure (record i { settings = write_clients p.1 (p.0 ++ client ∷ []) })

  unfoldable pub add_client : ℕ → Fields → Exec (Panel g) Inbound
  unfolding read_clients write_clients
  add_client inbound_id client = get_inbound g net accepts inbound_id >>= add_to inbound_id client

  -- The rows of client_traffics after an update: the old email's row goes when the email has changed.
  abbrev follow_email : ℕ → Inbound → String → String → Exec (Panel g) (Unit {0})
  follow_email inbound_id i identifier email = when (not (str_eq email "")) do
    when (not (str_eq email identifier)) (attempt (delete_by_email g identifier))
    attempt (ensure_row g inbound_id email i.total i.expiry_time i.enable)

  abbrev update_in : ℕ → String → Fields → Inbound → Exec (Panel g) Inbound
  update_in inbound_id identifier patch i = do
    guard (not (str_eq (client_id_field i.protocol) "")) unsupported_protocol
    guard (not (str_eq identifier "")) identifier_required
    p ← read_or_fail (read_clients i.settings)
    guard (any (is_client (client_id_field i.protocol) identifier) p.0) client_not_found
    update_inbound g net accepts (record i {
      settings = write_clients p.1 (
          replace_first (client_id_field i.protocol) identifier
            (identified (client_id_field i.protocol) identifier patch) p.0);
    })
    follow_email inbound_id i identifier
        (string_field "email" (identified (client_id_field i.protocol) identifier patch))
    set_need_restart g
    pure (record i {
      settings = write_clients p.1 (
          replace_first (client_id_field i.protocol) identifier
            (identified (client_id_field i.protocol) identifier patch) p.0);
    })

  unfoldable pub update_client : ℕ → String → Fields → Exec (Panel g) Inbound
  unfolding read_clients write_clients replace_first
  update_client inbound_id identifier patch =
      get_inbound g net accepts inbound_id >>= update_in inbound_id identifier patch

  -- A row of client_traffics without its client goes; any error of GetByEmail counts as "not there".
  abbrev orphan_found :
      ℕ → String → Inbound → Result ClientTraffic × Panel g → Result Inbound × Panel g
  orphan_found inbound_id identifier i (err e, s) = (err client_not_found, s)
  orphan_found inbound_id identifier i (ok r, s) =
      if r.inbound_id == inbound_id
      then (attempt (delete_by_email g identifier) >>= λ _. pure i) s
      else (err client_not_found, s)

  abbrev delete_orphan : ℕ → String → Inbound → Exec (Panel g) Inbound
  delete_orphan inbound_id identifier i s =
      orphan_found inbound_id identifier i (get_by_email g identifier s)

  abbrev delete_found : String → Inbound → List Fields × Fields → Exec (Panel g) Inbound
  delete_found identifier i (clients, fs) = do
    update_inbound g net accepts (record i {
      settings =
          write_clients fs
            (delete_rows (is_client (client_id_field i.protocol) identifier) clients);
    })
    attempt (delete_by_email g identifier)
    set_need_restart g
    pure (record i {
      settings =
          write_clients fs
            (delete_rows (is_client (client_id_field i.protocol) identifier) clients);
    })

  abbrev delete_in : ℕ → String → Inbound → Exec (Panel g) Inbound
  delete_in inbound_id identifier i = do
    guard (not (str_eq (client_id_field i.protocol) "")) unsupported_protocol
    p ← read_or_fail (read_clients i.settings)
    if any (is_client (client_id_field i.protocol) identifier) p.0
        then delete_found identifier i p
        else delete_orphan inbound_id identifier i

  unfoldable pub delete_client : ℕ → String → Exec (Panel g) Inbound
  unfolding read_clients write_clients
  delete_client inbound_id identifier =
      get_inbound g net accepts inbound_id >>= delete_in inbound_id identifier
