-- ===== src/Model.antt =====
-- database/model/model.go and xray/inbound.go, traffic.go: the rows of the tables and what goes into
-- the xray config. int64 fields are bit patterns (Prelude/Words.antt); ids, ports and unix seconds
-- are natural numbers.
use Prim.Native.String
use nexcore_x_ui.Prelude.{ℕ, String, Bool, str_eq, if◌then◌else◌}
use nexcore_x_ui.Json.{JsonText}

-- Protocol is a Go string with named constants; any other string is `other`.
pub data Protocol : Type 0 where
  vmess vless dokodemo http trojan shadowsocks socks wireguard : Protocol
  other : String → Protocol

pub record Inbound : Type 0 where
  pub id : ℕ
  pub user_id : ℕ
  pub up : ℕ
  pub down : ℕ
  pub total : ℕ
  pub remark : String
  pub enable : Bool
  pub expiry_time : ℕ
  pub listen : String
  pub port : ℕ
  pub protocol : Protocol
  pub settings : JsonText
  pub stream_settings : String
  pub tag : String
  pub sniffing : String
  pub outbound_tag : String

-- One inbound of the xray config; `listen` is the JSON string, "" for an absent one.
pub record InboundConfig : Type 0 where
  pub listen : String
  pub port : ℕ
  pub protocol : Protocol
  pub settings : JsonText
  pub stream_settings : String
  pub tag : String
  pub sniffing : String

-- fmt.Sprintf("\"%v\"", listen)
abbrev pub quoted : String → String
quoted s = if str_eq s "" then s else String.◌++◌ "\"" (String.◌++◌ s "\"")

unfoldable pub gen_xray_inbound_config : Inbound → InboundConfig
gen_xray_inbound_config i = record {
  listen = quoted i.listen;
  port = i.port;
  protocol = i.protocol;
  settings = i.settings;
  stream_settings = i.stream_settings;
  tag = i.tag;
  sniffing = i.sniffing;
}

pub record ClientTraffic : Type 0 where
  pub id : ℕ
  pub inbound_id : ℕ
  pub email : String
  pub up : ℕ
  pub down : ℕ
  pub total : ℕ
  pub expiry_time : ℕ
  pub enable : Bool

pub record Outbound : Type 0 where
  pub id : ℕ
  pub tag : String
  pub name : String
  pub protocol : String
  pub address : String
  pub port : ℕ
  pub settings : JsonText
  pub stream_settings : JsonText
  pub remark : String
  pub enable : Bool
  pub created_at : ℕ

pub record ApiToken : Type 0 where
  pub id : ℕ
  pub name : String
  pub token : String
  pub created_at : ℕ
  pub last_used_at : ℕ
  pub revoked : Bool
  pub scope : String
  pub expires_at : ℕ

pub record MagicToken : Type 0 where
  pub id : ℕ
  pub token : String
  pub created_at : ℕ
  pub expires_at : ℕ
  pub consumed_at : ℕ
  pub note : String

pub record BlockRule : Type 0 where
  pub id : ℕ
  pub kind : String
  pub value : String
  pub remark : String
  pub inbound_tag : String
  pub enable : Bool
  pub created_at : ℕ

pub record Setting : Type 0 where
  pub id : ℕ
  pub key : String
  pub value : String

-- APILog
pub record ApiLogRow : Type 0 where
  pub id : ℕ
  pub at_time : ℕ
  pub method : String
  pub path : String
  pub status : ℕ
  pub duration_ms : ℕ
  pub ip : String
  pub token_name : String

pub record User : Type 0 where
  pub id : ℕ
  pub username : String
  pub password : String

-- One row of xray's statistics.
pub record Traffic : Type 0 where
  pub is_inbound : Bool
  pub tag : String
  pub up : ℕ
  pub down : ℕ
