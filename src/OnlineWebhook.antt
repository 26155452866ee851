-- ===== src/OnlineWebhook.antt =====
-- web/service/online_webhook.go: the push of the online addresses to another service. It reads the settings
-- (Settings.antt) and a snapshot of GetIPsByEmail (OnlineIps.antt). The parsers of URLs and addresses, the
-- name lookup, sort.Strings, the host's name, the HMAC and the HTTP client are parameters; what the client
-- was asked to send comes back beside the result. A tick runs undisturbed.
mod Difference
pub mod Pushed
use nexcore_x_ui.Prelude.{
  ℕ, String, Bool, true, false, not, ◌&&◌, ◌||◌, Option, none, some, List, [], ◌∷◌, map, str_eq,
  ◌==◌, if◌then◌else◌, leb, ltb, any, length,
}
use nexcore_x_ui.Prelude.Text.{trim_space}
use nexcore_x_ui.Prelude.Maps.{Map, lookup}
use nexcore_x_ui.Exec.{
  Err, webhook_url_missing, webhook_url_rejected, webhook_failed, Result, ok, err,
}
use nexcore_x_ui.Table.{Table}
use nexcore_x_ui.Table.Schemas.{settings_schema}
use nexcore_x_ui.Settings.{Env, SettingStore, get_string}

-- The tests of net.IP.
pub record Ip : Type 0 where
  pub is_loopback : Bool
  pub is_unspecified : Bool
  pub is_multicast : Bool
  pub is_link_local_unicast : Bool
  pub is_link_local_multicast : Bool
  pub is_private : Bool

-- The scheme, in lower case, and the host of a URL.
pub record Url : Type 0 where
  pub scheme : String
  pub host : String

abbrev pub Online : Type 0
Online = Map (List String)

pub record Payload : Type 0 where
  pub node_id : String
  pub ts : ℕ
  pub online : Online

pub record Post : Type 0 where
  pub url : String
  pub body : Payload
  pub signature : Option String

pub record World : Type 0 where
  pub parse_url : String → Option Url
  pub parse_ip : String → Option Ip
  pub lookup_ip : String → Option (List Ip)
  pub sort_strings : List String → List String
  pub hostname : Option String
  pub sign : String → Payload → String
  -- The status of the answer, `none` for an error of building or of sending the request.
  pub send_post : Post → Option ℕ

-- Whether forbiddenIPReason gives a reason.
unfoldable pub is_forbidden_ip : Ip → Bool
is_forbidden_ip ip =
    ip.is_loopback
    || (ip.is_unspecified
        || (ip.is_multicast
            || ((ip.is_link_local_unicast || ip.is_link_local_multicast) || ip.is_private)))

abbrev pub resolved : Option (List Ip) → Option (List Ip)
resolved none = none
resolved (some []) = none
resolved (some (ip ∷ ips)) = some (ip ∷ ips)

-- The addresses of a host: itself, or what the lookup finds, which must be something.
abbrev pub literal_or_resolved : World → String → Option Ip → Option (List Ip)
literal_or_resolved w host (some ip) = some (ip ∷ [])
literal_or_resolved w host none = resolved (w.lookup_ip host)

abbrev pub addresses : World → String → Option (List Ip)
addresses w host = literal_or_resolved w host (w.parse_ip host)

abbrev pub all_allowed : Option (List Ip) → Bool
all_allowed none = false
all_allowed (some ips) = not (any is_forbidden_ip ips)

abbrev pub is_web : String → Bool
is_web scheme = str_eq scheme "http" || str_eq scheme "https"

abbrev pub is_valid_url : World → Option Url → Bool
is_valid_url w none = false
is_valid_url w (some u) =
    is_web u.scheme && (not (str_eq u.host "") && all_allowed (addresses w u.host))

-- validateWebhookURL, true for no error.
unfoldable pub validate_webhook_url : World → String → Bool
unfolding is_forbidden_ip
validate_webhook_url w raw = is_valid_url w (w.parse_url (trim_space raw))

unfoldable pub equal_sorted_strings : List String → List String → Bool
equal_sorted_strings [] [] = true
equal_sorted_strings [] (b ∷ bs) = false
equal_sorted_strings (a ∷ xs) [] = false
equal_sorted_strings (a ∷ xs) (b ∷ bs) = str_eq a b && equal_sorted_strings xs bs

abbrev pub differs : List String → Option (List String) → Bool
differs ips none = true
differs ips (some prev) = not (equal_sorted_strings prev ips)

abbrev pub some_differ : Online → Online → Bool
some_differ last [] = false
some_differ last ((email, ips) ∷ current) =
    differs ips (lookup email last) || some_differ last current

unfoldable pub has_diff : Online → Online → Bool
unfolding equal_sorted_strings
has_diff last current = not (length current == length last) || some_differ last current

unfoldable pub snapshot : World → Online → Online
snapshot w [] = []
snapshot w ((email, ips) ∷ raw) = (email, w.sort_strings ips) ∷ snapshot w raw

abbrev host_or_unknown : Option String → String
host_or_unknown none = "unknown-node"
host_or_unknown (some h) = if str_eq h "" then "unknown-node" else h

abbrev pub is_accepted : Option ℕ → Result (Unit {0})
is_accepted none = err webhook_failed
is_accepted (some status) = if leb 200 status && ltb status 300 then ok tt else err webhook_failed

module _ (settings : Table settings_schema) (env : Env) where
  pub record Webhook : Type 0 where
    pub store : SettingStore settings
    pub last_sent : Online
    pub resolved_node_id : String

  -- A value that a failed read leaves at "".
  abbrev pub value_or_empty : Result String → String
  value_or_empty (ok v) = v
  value_or_empty (err e) = ""

  abbrev pub named : World → String → Webhook → String × Webhook
  named w id s =
      if not (str_eq id "")
      then (id, s)
      else if not (str_eq s.resolved_node_id "")
      then (s.resolved_node_id, s)
      else (host_or_unknown w.hostname, record s { resolved_node_id = host_or_unknown w.hostname })

  -- GetOnlineWebhookUrl and the like.
  unfoldable pub read_setting : String → Webhook → Result String × Webhook
  unfolding get_string
  read_setting key s =
      let (v, st) = get_string settings env key s.store in (v, record s { store = st })

  unfoldable pub node_id : World → Webhook → String × Webhook
  unfolding read_setting
  node_id w s = let (id, t) = read_setting "onlineWebhookNodeId" s in named w (value_or_empty id) t

  abbrev pub signature : World → String → Payload → Option String
  signature w secret body = if str_eq secret "" then none else some (w.sign secret body)

  abbrev pub push : World → Post → Webhook → Result (Unit {0}) × Option Post × Webhook
  push w p s = (is_accepted (w.send_post p), some p, s)

  abbrev pub send_valid :
      World → String → ℕ → Online → Webhook → Result (Unit {0}) × Option Post × Webhook
  send_valid w url now snap s =
      let (id, t) = node_id w s in
      let (secret, u) = read_setting "onlineWebhookSecret" t in
      let body : Payload = record { node_id = id; ts = now; online = snap } in
      push w
        (record { url = url; body = body; signature = signature w (value_or_empty secret) body }) u

  unfoldable pub send :
      World → String → ℕ → Online → Webhook → Result (Unit {0}) × Option Post × Webhook
  unfolding validate_webhook_url node_id read_setting
  send w url now snap s =
      if validate_webhook_url w url
      then send_valid w url now snap s
      else (err webhook_url_rejected, none, s)

  abbrev pub sent : Online → Result (Unit {0}) × Option Post × Webhook → Option Post × Webhook
  sent current (ok x, p, s) = (p, record s { last_sent = current })
  sent current (err e, p, s) = (p, s)

  abbrev pub tick_url : World → ℕ → Online → Result String × Webhook → Option Post × Webhook
  tick_url w now raw (err e, s) = (none, s)
  tick_url w now raw (ok url, s) =
      let current = snapshot w raw in
      if str_eq url "" || not (has_diff s.last_sent current)
      then (none, s)
      else sent current (send w url now current s)

  -- `raw` is what GetIPsByEmail returns.
  unfoldable pub tick : World → ℕ → Online → Webhook → Option Post × Webhook
  unfolding read_setting snapshot has_diff send
  tick w now raw s = tick_url w now raw (read_setting "onlineWebhookUrl" s)

  abbrev pub send_to :
      World → ℕ → Online → Result String × Webhook → Result (Unit {0}) × Option Post × Webhook
  send_to w now raw (err e, s) = (err e, none, s)
  send_to w now raw (ok url, s) =
      if str_eq url ""
      then (err webhook_url_missing, none, s)
      else send w url now (snapshot w raw) s

  unfoldable pub send_now : World → ℕ → Online → Webhook → Result (Unit {0}) × Option Post × Webhook
  unfolding read_setting snapshot send
  send_now w now raw s = send_to w now raw (read_setting "onlineWebhookUrl" s)
