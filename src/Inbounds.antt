-- ===== src/Inbounds.antt =====
-- web/service/inbound.go, and from xray_dryrun.go the inbound list of a candidate config. The network
-- interfaces of the host and net.ParseIP are the parameter `Net`; whether `xray -test` accepts a
-- config is the parameter `accepts`, a function of the config's inbounds: what else the config holds
-- (the template, the log section, the block rules) stays the same while a call runs.
mod Frames
pub mod Accepted
pub mod Singleton
pub mod Limits
pub mod Batch
pub mod Update
use Prim.Native.String
use nexcore_x_ui.Prelude.{
  ℕ, ◌+◌, String, Bool, true, false, not, ◌&&◌, ◌||◌, ◌≡◌, Option, none, some, List, [], ◌∷◌, ◌++◌,
  map, ◌==◌, str_eq, if◌then◌else◌, ltb, any, is_pos64, leb64, sum_reaches, starts_with,
  select_rows,
}
use nexcore_x_ui.Prelude.Text.{trim_space, decimal}
use nexcore_x_ui.Exec.{
  Err, listen_not_ip, listen_not_local, port_taken, port_repeated, protocol_singleton,
  config_invalid, inbound_not_found, Exec, ◌>>=◌, ◌>>◌, pure, raise, guard, when, attempt,
  transaction,
}
use nexcore_x_ui.Json.{JsonText, Fields, decode_clients, string_field, method_of}
use nexcore_x_ui.Model.{
  Protocol, vmess, vless, dokodemo, http, trojan, shadowsocks, socks, wireguard, other, Inbound,
  InboundConfig, gen_xray_inbound_config,
}
use nexcore_x_ui.Table.Schemas.{Tables, Panel}
use nexcore_x_ui.Panel.{
  find_inbounds, save_inbound, update_inbounds, delete_inbounds, delete_clients, first_or,
}
use nexcore_x_ui.Clients.{ensure_row}

-- net.IP and the host's interfaces; `interface_addrs` is `none` for the error that the code ignores.
pub record Net : Type 1 where
  pub Ip : Type 0
  pub parse_ip : String → Option Ip
  pub is_unspecified : Ip → Bool
  pub equal : Ip → Ip → Bool
  pub interface_addrs : Option (List Ip)

-- Equality of the Protocol strings.
abbrev pub same_protocol : Protocol → Protocol → Bool
same_protocol vmess vmess = true
same_protocol vless vless = true
same_protocol dokodemo dokodemo = true
same_protocol http http = true
same_protocol trojan trojan = true
same_protocol shadowsocks shadowsocks = true
same_protocol socks socks = true
same_protocol wireguard wireguard = true
same_protocol (other a) (other b) = str_eq a b
same_protocol _ _ = false

unfoldable pub is_multi_user : Protocol → JsonText → Bool
is_multi_user vless settings = true
is_multi_user vmess settings = true
is_multi_user trojan settings = true
is_multi_user shadowsocks settings = starts_with (method_of settings) "2022-blake3-"
is_multi_user _ settings = false

unfoldable pub is_multi_user_protocol : Inbound → Bool
unfolding is_multi_user
is_multi_user_protocol i = is_multi_user i.protocol i.settings

-- The inbounds of BuildCandidateConfig.
abbrev pub enabled : Inbound → Bool
enabled i = i.enable

unfoldable pub candidate_configs : List Inbound → List InboundConfig
unfolding gen_xray_inbound_config
candidate_configs is = map gen_xray_inbound_config (select_rows enabled is)

-- The list that dryRunWithReplacement tries out, for a replacement and no removal.
unfoldable pub with_replacement : Inbound → List Inbound → List Inbound
with_replacement r [] = if r.id == 0 then r ∷ [] else []
with_replacement r (i ∷ is) = (if ltb 0 r.id && i.id == r.id then r else i) ∷ with_replacement r is

-- `WHERE ((total > 0 AND up + down >= total) OR (expiry_time > 0 AND expiry_time <= now)) AND enable`
unfoldable pub is_invalid : ℕ → Inbound → Bool
is_invalid now i =
    ((is_pos64 i.total && sum_reaches i.up i.down i.total)
      || (is_pos64 i.expiry_time && leb64 i.expiry_time now))
    && i.enable

module _ (net : Net) where
  abbrev on_interfaces : Net.Ip net → Option (List (Net.Ip net)) → Option Err
  on_interfaces want none = none
  on_interfaces want (some addrs) =
      if any (λ ip. net.equal ip want) addrs then none else some listen_not_local

  abbrev check_ip : Option (Net.Ip net) → Option Err
  check_ip none = some listen_not_ip
  check_ip (some want) =
      if net.is_unspecified want then none else on_interfaces want net.interface_addrs

  -- `none` is the nil error.
  unfoldable pub validate_listen_address : String → Option Err
  validate_listen_address listen =
      let trimmed = trim_space listen in
      if str_eq trimmed "" then none else check_ip (net.parse_ip trimmed)

-- The row that UpdateInbound writes: the fields that it copies onto the loaded row. The id, the owner
-- and the outbound tag of the loaded row stay.
unfoldable pub merged : Inbound → Inbound → Inbound
merged old new = record old {
  up = new.up;
  down = new.down;
  total = new.total;
  remark = new.remark;
  enable = new.enable;
  expiry_time = new.expiry_time;
  listen = new.listen;
  port = new.port;
  protocol = new.protocol;
  settings = new.settings;
  stream_settings = new.stream_settings;
  sniffing = new.sniffing;
  tag = String.◌++◌ "inbound-" (decimal new.port);
}

abbrev pub refuse_if : {S : Type 0} → Option Err → Exec S (Unit {0})
refuse_if none = pure tt
refuse_if (some e) = raise e

abbrev pub mem_id : List ℕ → Inbound → Bool
mem_id ids i = any (λ k. i.id == k) ids

-- A row that stands in the way of `i` under checkProtocolSingleton.
abbrev pub in_the_way : Inbound → ℕ → Inbound → Bool
in_the_way i ignore r = same_protocol r.protocol i.protocol && not (ltb 0 ignore && r.id == ignore)

abbrev pub same_bucket : Inbound → Inbound → Bool
same_bucket i r = is_multi_user_protocol r && str_eq r.outbound_tag i.outbound_tag

module _ (g : Tables) (net : Net) (accepts : List InboundConfig → Bool) where
  unfoldable pub check_port_exist : ℕ → ℕ → Exec (Panel g) Bool
  check_port_exist port ignore = do
    rows ← find_inbounds g (λ r. r.port == port && not (ltb 0 ignore && r.id == ignore))
    pure (any (λ (r : Inbound). true) rows)

  unfoldable pub check_protocol_singleton : Inbound → ℕ → Exec (Panel g) (Unit {0})
  check_protocol_singleton i ignore = when (is_multi_user_protocol i) do
    rows ← find_inbounds g (in_the_way i ignore)
    guard (not (any (same_bucket i) rows)) protocol_singleton

  -- DryRunInbounds
  unfoldable pub dry_run_inbounds : List Inbound → Exec (Panel g) (Unit {0})
  unfolding candidate_configs
  dry_run_inbounds is = guard (accepts (candidate_configs is)) config_invalid

  unfoldable pub dry_run_with : Inbound → Exec (Panel g) (Unit {0})
  unfolding dry_run_inbounds with_replacement
  dry_run_with r = do rows ← find_inbounds g (λ _. true); dry_run_inbounds (with_replacement r rows)

  -- The loop of syncEmbeddedClientTraffics; the errors of EnsureRow are dropped.
  unfoldable pub sync_clients : Inbound → List Fields → Exec (Panel g) (Unit {0})
  unfolding ensure_row
  sync_clients i [] = pure tt
  sync_clients i (c ∷ cs) =
      when (not (str_eq (string_field "email" c) ""))
        (attempt (ensure_row g i.id (string_field "email" c) i.total i.expiry_time i.enable))
      >>= λ _. sync_clients i cs

  abbrev pub sync_decoded : Inbound → Option (List Fields) → Exec (Panel g) (Unit {0})
  sync_decoded i none = pure tt
  sync_decoded i (some cs) = sync_clients i cs

  unfoldable pub sync_embedded_client_traffics : Inbound → Exec (Panel g) (Unit {0})
  unfolding sync_clients
  sync_embedded_client_traffics i = sync_decoded i (decode_clients i.settings)

  -- The checks that come before the dry run; `ignore` is 0 for a new inbound.
  unfoldable pub check_inbound : Inbound → ℕ → Exec (Panel g) (Unit {0})
  unfolding validate_listen_address check_port_exist check_protocol_singleton
  check_inbound i ignore = do
    refuse_if (validate_listen_address net i.listen)
    exist ← check_port_exist i.port ignore
    guard (not exist) port_taken
    check_protocol_singleton i ignore

  -- db.Save gives the inbound its key, and the clients' rows carry it.
  unfoldable pub add_inbound : Inbound → Exec (Panel g) (Unit {0})
  unfolding check_inbound dry_run_with sync_embedded_client_traffics
  add_inbound i = do
    check_inbound i 0
    when i.enable (dry_run_with i)
    id ← save_inbound g i
    sync_embedded_client_traffics (record i { id = id })

  -- syncEmbeddedClientTraffics on every inbound, at the start of the panel.
  unfoldable pub sync_each : List Inbound → Exec (Panel g) (Unit {0})
  unfolding sync_embedded_client_traffics
  sync_each [] = pure tt
  sync_each (i ∷ is) = sync_embedded_client_traffics i >>= λ _. sync_each is

  unfoldable pub sync_all_client_traffics : Exec (Panel g) (Unit {0})
  unfolding sync_each
  sync_all_client_traffics = find_inbounds g (λ _. true) >>= sync_each

  -- The checks of AddInbounds on one inbound after another: `exists` are the ports taken in the database,
  -- `seen` and `singletons` the ports and the multi-user protocols of the batch so far.
  unfoldable pub check_batch :
      List ℕ → List ℕ → List Protocol → List Inbound → Exec (Panel g) (Unit {0})
  unfolding validate_listen_address check_protocol_singleton
  check_batch exists seen singletons [] = pure tt
  check_batch exists seen singletons (i ∷ is) =
      refuse_if (validate_listen_address net i.listen) >>= λ _.
      (guard (not (any (λ p. i.port == p) seen)) port_repeated >>= λ _.
      (guard (not (any (λ p. i.port == p) exists)) port_taken >>= λ _.
      (check_protocol_singleton i 0 >>= λ _.
      (guard (not (is_multi_user_protocol i && any (same_protocol i.protocol) singletons))
          protocol_singleton
        >>= λ _.
            check_batch exists (i.port ∷ seen)
              (if is_multi_user_protocol i then i.protocol ∷ singletons else singletons) is))))

  unfoldable pub save_each : List Inbound → Exec (Panel g) (Unit {0})
  save_each [] = pure tt
  save_each (i ∷ is) = save_inbound g i >>= λ _. save_each is

  abbrev port_of : Inbound → ℕ
  port_of i = i.port

  -- The ports wanted are looked up in one query, which an empty batch leaves out.
  abbrev taken_ports : List Inbound → Exec (Panel g) (List ℕ)
  taken_ports [] = pure []
  taken_ports (i ∷ is) = do
    rows ← find_inbounds g (λ r. any (λ (w : Inbound). r.port == w.port) (i ∷ is))
    pure (map port_of rows)

  unfoldable pub add_inbounds : List Inbound → Exec (Panel g) (Unit {0})
  unfolding check_batch dry_run_inbounds save_each
  add_inbounds is = do
    exists ← taken_ports is
    check_batch exists [] [] is
    rows ← find_inbounds g (λ _. true)
    dry_run_inbounds (rows ++ select_rows enabled is)
    transaction (save_each is)

  unfoldable pub get_inbound : ℕ → Exec (Panel g) Inbound
  get_inbound id = find_inbounds g (λ r. r.id == id) >>= first_or g inbound_not_found

  unfoldable pub update_inbound : Inbound → Exec (Panel g) (Unit {0})
  unfolding check_inbound get_inbound merged dry_run_with sync_embedded_client_traffics
  update_inbound i = do
    check_inbound i i.id
    old ← get_inbound i.id
    when i.enable (dry_run_with (merged old i))
    save_inbound g (merged old i)
    sync_embedded_client_traffics (merged old i)

  unfoldable pub del_inbound : ℕ → Exec (Panel g) (Unit {0})
  del_inbound id = do delete_inbounds g (λ r. r.id == id); pure tt

  unfoldable pub delete_all : Exec (Panel g) ℕ
  delete_all = transaction do delete_clients g (λ _. true); delete_inbounds g (λ _. true)

  -- What SetEnableMany tries out before it enables: the rows asked for, with the ones enabled already.
  abbrev pub promote : List ℕ → Inbound → Inbound
  promote ids i = if mem_id ids i then record i { enable = true } else i

  unfoldable pub set_enable_many : List ℕ → Bool → Exec (Panel g) ℕ
  unfolding dry_run_inbounds
  set_enable_many [] enable = pure 0
  set_enable_many (id ∷ ids) false =
      update_inbounds g (mem_id (id ∷ ids)) (λ r. record r { enable = false })
  set_enable_many (id ∷ ids) true = do
    rows ← find_inbounds g (λ _. true)
    dry_run_inbounds (select_rows enabled (map (promote (id ∷ ids)) rows))
    update_inbounds g (mem_id (id ∷ ids)) (λ r. record r { enable = true })

  unfoldable pub delete_many : List ℕ → Exec (Panel g) ℕ
  delete_many [] = pure 0
  delete_many (id ∷ ids) = delete_inbounds g (mem_id (id ∷ ids))

  -- No ids is every row.
  unfoldable pub reset_traffic_many : List ℕ → Exec (Panel g) ℕ
  reset_traffic_many ids =
      update_inbounds g (if any (λ _. true) ids then mem_id ids else λ _. true)
        (λ r. record r { up = 0; down = 0 })

  unfoldable pub disable_invalid_inbounds : ℕ → Exec (Panel g) ℕ
  unfolding is_invalid
  disable_invalid_inbounds now =
      update_inbounds g (is_invalid now) (λ r. record r { enable = false })
