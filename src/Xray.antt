-- ===== src/Xray.antt =====
-- web/service/xray.go (RestartXray and the rest of the life of the process), the process of xray/process.go
-- and Equals of xray/config.go and xray/inbound.go. It composes GetXrayConfig of XrayConfig.antt and
-- OnXrayRestart of OnlineIps.antt. The state holds the process that the variable p refers to and every one
-- that it referred to before, since a process outlives its replacement unless it is stopped. The bytes of
-- two raw sections are compared by a parameter, and so are the outcomes of starting the binary and of the
-- signals; the background workers that a first start brings up are not modelled.
pub mod Restarted
use nexcore_x_ui.Prelude.{
  ℕ, String, Bool, true, false, not, ◌&&◌, ◌==◌, Option, none, some, List, [], ◌∷◌, length, str_eq,
  if◌then◌else◌,
}
use nexcore_x_ui.Exec.{Err, xray_start_failed, xray_not_running, Result, ok, err}
use nexcore_x_ui.Json.{JsonText}
use nexcore_x_ui.Model.{
  Protocol, vmess, vless, dokodemo, http, trojan, shadowsocks, socks, wireguard, other, Inbound,
  InboundConfig, Outbound,
}
use nexcore_x_ui.Table.Schemas.{Tables, Panel}
use nexcore_x_ui.OnlineIps.{OnlineIps, on_xray_restart}
use nexcore_x_ui.XrayConfig.{Config, get_xray_config}

-- The text of a Protocol.
unfoldable pub protocol_text : Protocol → String
protocol_text vmess = "vmess"
protocol_text vless = "vless"
protocol_text dokodemo = "Dokodemo-door"
protocol_text http = "http"
protocol_text trojan = "trojan"
protocol_text shadowsocks = "shadowsocks"
protocol_text socks = "socks"
protocol_text wireguard = "wireguard"
protocol_text (other s) = s

-- A process whose command is still being started (cmd.Process is nil), one that runs, and one that has
-- ended or never came up.
pub data Phase : Type 0 where
  coming_up alive gone : Phase

-- The parts that are not in this repository: bytes.Equal on two sections, whether Start of a process with
-- a config returns no error, and for the signals of Stop the error, if any, and the phase they leave.
pub record Host : Type 0 where
  pub bytes_equal : JsonText → JsonText → Bool
  pub starts : Config → Bool
  pub ends : Config → Result (Unit {0}) × Phase

unfoldable pub inbound_equals : Host → InboundConfig → InboundConfig → Bool
unfolding protocol_text
inbound_equals w c d =
    str_eq c.listen d.listen
    && (c.port == d.port
        && (str_eq (protocol_text c.protocol) (protocol_text d.protocol)
            && (w.bytes_equal c.settings d.settings
                && (str_eq c.stream_settings d.stream_settings
                    && (str_eq c.tag d.tag && str_eq c.sniffing d.sniffing)))))

unfoldable pub inbounds_equal : Host → List InboundConfig → List InboundConfig → Bool
unfolding inbound_equals
inbounds_equal w [] [] = true
inbounds_equal w [] (d ∷ ds) = false
inbounds_equal w (c ∷ cs) [] = false
inbounds_equal w (c ∷ cs) (d ∷ ds) = inbound_equals w c d && inbounds_equal w cs ds

unfoldable pub config_equals : Host → Config → Config → Bool
unfolding inbounds_equal
config_equals w c d =
    inbounds_equal w c.inbounds d.inbounds
    && (w.bytes_equal c.log d.log
        && (w.bytes_equal c.routing d.routing
            && (w.bytes_equal c.dns d.dns
                && (w.bytes_equal c.outbounds d.outbounds
                    && (w.bytes_equal c.transport d.transport
                        && (w.bytes_equal c.policy d.policy
                            && (w.bytes_equal c.api d.api
                                && (w.bytes_equal c.stats d.stats
                                    && (w.bytes_equal c.reverse d.reverse
                                        && w.bytes_equal c.fake_dns d.fake_dns)))))))))

pub record Process : Type 0 where
  pub config : Config
  pub phase : Phase

abbrev pub is_alive : Phase → Bool
is_alive alive = true
is_alive _ = false

-- A process that is still coming up does not count as running.
abbrev pub is_running : Process → Bool
is_running p = is_alive p.phase

-- Start returns while the command is being started in a goroutine.
abbrev pub started : Host → Config → Process
started w c = record { config = c; phase = if w.starts c then coming_up else gone }

unfoldable pub stop : Host → Process → Result (Unit {0}) × Process
stop w p =
    if is_running p
    then ((w.ends p.config).0, record p { phase = (w.ends p.config).1 })
    else (err xray_not_running, p)

-- What RestartXray does to the process before it makes another; the error of Stop is ignored.
abbrev pub stopped_first : Host → Option Process → Option Process
stopped_first w none = none
stopped_first w (some p) = some (if is_running p then (stop w p).1 else p)

-- All processes: the current one and those that were replaced.
abbrev pub with_current : Option Process → List Process → List Process
with_current none left = left
with_current (some p) left = p ∷ left

module _ (g : Tables) where
  -- The database, the current process, those that it replaced, the cached result and the addresses that are
  -- online.
  pub record Xray : Type 0 where
    pub panel : Panel g
    pub process : Option Process
    pub left : List Process
    pub result : String
    pub online : OnlineIps

  abbrev pub running : Option Process → Bool
  running none = false
  running (some p) = is_running p

  abbrev pub is_kept : Host → Bool → Config → Option Process → Bool
  is_kept w force c none = false
  is_kept w force c (some p) = is_running p && (not force && config_equals w p.config c)

  -- NewProcess and Start; the process is replaced also when Start fails.
  abbrev pub start : Host → Config → Xray → Result (Unit {0}) × Xray
  start w c s =
      let made = record s {
        process = some (started w c);
        left = with_current s.process s.left;
        result = "";
      } in
      if w.starts c
      then (
        ok tt,
        record made {
          online = on_xray_restart (g.inbounds.select (λ _. true) s.panel.inbounds) s.online;
        },
      )
      else (err xray_start_failed, made)

  abbrev pub restart_with : Host → Bool → Xray → Result Config × Panel g → Result (Unit {0}) × Xray
  restart_with w force s (err e, db) = (err e, record s { panel = db })
  restart_with w force s (ok c, db) =
      if is_kept w force c s.process
      then (ok tt, record s { panel = db })
      else start w c (record s { panel = db; process = stopped_first w s.process })

  -- The template, the path of the log and the order of the outbounds are those of get_xray_config.
  unfoldable pub restart_xray :
      Host
      → Result Config
      → String
      → (List Outbound → List Outbound)
      → Bool
      → Xray
      → Result (Unit {0}) × Xray
  unfolding config_equals get_xray_config on_xray_restart stop
  restart_xray w template access_path by_created force s =
      restart_with w force s (get_xray_config g template access_path by_created s.panel)

  abbrev stop_current : Host → Option Process → Xray → Result (Unit {0}) × Xray
  stop_current w none s = (err xray_not_running, s)
  stop_current w (some p) s =
      if is_running p
      then ((stop w p).0, record s { process = some (stop w p).1 })
      else (err xray_not_running, s)

  unfoldable pub stop_xray : Host → Xray → Result (Unit {0}) × Xray
  unfolding stop
  stop_xray w s = stop_current w s.process s

  unfoldable pub set_to_need_restart : Xray → Xray
  set_to_need_restart s = record s { panel = record s.panel { need_restart = true } }

  unfoldable pub is_need_restart_and_set_false : Xray → Bool × Xray
  is_need_restart_and_set_false s =
      (s.panel.need_restart, record s { panel = record s.panel { need_restart = false } })

  abbrev after_flag :
      Host → Result Config → String → (List Outbound → List Outbound) → Bool × Xray → Xray
  after_flag w template access_path by_created (flag, s) =
      if flag then (restart_xray w template access_path by_created false s).1 else s

  -- The task of web/controller/inbound.go that runs every ten seconds; an error is only logged.
  unfoldable pub restart_task :
      Host → Result Config → String → (List Outbound → List Outbound) → Xray → Xray
  unfolding restart_xray is_need_restart_and_set_false
  restart_task w template access_path by_created s =
      after_flag w template access_path by_created (is_need_restart_and_set_false s)
