-- ===== src/OnlineIps.antt =====
-- web/service/online_ip_service.go: the addresses seen per inbound tag and per client email. Times are
-- readings of the clock in seconds; a Go map is the list of its entries, and a list that the code builds
-- from a map has their order. The three regular expressions, applied to a line, are parameters. Each
-- function runs under the lock of the service; handle_line takes it several times, and here nothing runs
-- in between. Reading, reopening and truncating the log file is not modelled.
use nexcore_x_ui.Prelude.{
  ℕ, ◌+◌, ◌*◌, String, Bool, true, false, not, ◌&&◌, ◌||◌, Option, none, some, List, [], ◌∷◌, map,
  str_eq, if◌then◌else◌, ltb, leb, ◌==◌, length,
}
use Prim.Native.String
use Prim.Native.Char.{code}
use nexcore_x_ui.Prelude.Maps.{Map, lookup, insert, keep}
pub mod Collected
pub mod Listed
pub mod Window
use nexcore_x_ui.Json.{Fields, JsonText, string_field, blank, decode_clients}
use nexcore_x_ui.Model.{Inbound}

-- ip -> lastSeen
abbrev pub Seen : Type 0
Seen = Map ℕ

pub record OnlineIps : Type 0 where
  pub state : Map Seen
  pub by_email : Map Seen
  pub email_to_tag : Map String

abbrev pub new_online_ips : OnlineIps
new_online_ips = record { state = []; by_email = []; email_to_tag = [] }

-- onlineIPTTL
abbrev pub online_ip_ttl : ℕ
online_ip_ttl = 300

-- last.After(now - ttl)
abbrev pub is_live : ℕ → ℕ → Bool
is_live now last = ltb now (last + online_ip_ttl)

-- last.Before(now - ttl)
abbrev pub is_stale : ℕ → ℕ → Bool
is_stale now last = ltb (last + online_ip_ttl) now

-- settings.clients[].email with the tag of its inbound; a later entry wins.
unfoldable pub tag_emails : String → List Fields → Map String → Map String
tag_emails tag [] out = out
tag_emails tag (c ∷ cs) out =
    let email = string_field "email" c in
    tag_emails tag cs (if str_eq email "" then out else insert email tag out)

abbrev clients_or_none : Option (List Fields) → List Fields
clients_or_none none = []
clients_or_none (some cs) = cs

unfoldable pub tag_inbound : Inbound → Map String → Map String
unfolding tag_emails
tag_inbound i out =
    if str_eq i.tag ""
    then out
    else tag_emails i.tag (clients_or_none (decode_clients i.settings)) out

unfoldable pub tag_inbounds : List Inbound → Map String → Map String
unfolding tag_inbound
tag_inbounds [] out = out
tag_inbounds (i ∷ is) out = tag_inbounds is (tag_inbound i out)

-- loadEmailToTagFromDB; the query that fails, or a database that is not open, is `none`.
unfoldable pub load_email_to_tag : Option (List Inbound) → Map String
unfolding tag_inbounds
load_email_to_tag none = []
load_email_to_tag (some is) = tag_inbounds is []

unfoldable pub on_xray_restart : Option (List Inbound) → OnlineIps → OnlineIps
unfolding load_email_to_tag
on_xray_restart found s = record {
  state = [];
  by_email = [];
  email_to_tag = load_email_to_tag found;
}

abbrev pub seen_or_new : Option Seen → Seen
seen_or_new none = []
seen_or_new (some ips) = ips

abbrev pub record_in : String → String → ℕ → Map Seen → Map Seen
record_in key ip now m = insert key (insert ip now (seen_or_new (lookup key m))) m

unfoldable pub record_ip : String → String → ℕ → OnlineIps → OnlineIps
record_ip tag ip now s = record s { state = record_in tag ip now s.state }

unfoldable pub record_email : String → String → ℕ → OnlineIps → OnlineIps
record_email email ip now s = record s { by_email = record_in email ip now s.by_email }

abbrev pub refreshed : ℕ → Seen → Seen
refreshed now ips = keep (λ _. some now) ips

abbrev pub touch_found : String → ℕ → Option Seen → Map Seen → Map Seen
touch_found email now none m = m
touch_found email now (some ips) m = insert email (refreshed now ips) m

unfoldable pub touch_email : String → ℕ → OnlineIps → OnlineIps
touch_email email now s =
    if str_eq email ""
    then s
    else record s { by_email = touch_found email now (lookup email s.by_email) s.by_email }

abbrev pub unless_empty {ℓ} : {A : Type ℓ} → List A → Option (List A)
unless_empty [] = none
unless_empty (x ∷ xs) = some (x ∷ xs)

abbrev pub unless_stale : ℕ → ℕ → Option ℕ
unless_stale now last = if is_stale now last then none else some last

abbrev pub collect_ips : ℕ → Seen → Option Seen
collect_ips now ips = unless_empty (keep (unless_stale now) ips)

-- One tick of gcLoop.
unfoldable pub collect_stale : ℕ → OnlineIps → OnlineIps
collect_stale now s = record s {
  state = keep (collect_ips now) s.state;
  by_email = keep (collect_ips now) s.by_email;
}

-- The addresses of a map that are live.
unfoldable pub live_ips : ℕ → Seen → List String
live_ips now [] = []
live_ips now ((ip, last) ∷ ips) =
    let rest = live_ips now ips in if is_live now last then ip ∷ rest else rest

unfoldable pub live_count : ℕ → Seen → Option ℕ
unfolding live_ips
live_count now ips = let n = length (live_ips now ips) in if leb 1 n then some n else none

unfoldable pub get_counts : ℕ → OnlineIps → Map ℕ
unfolding live_count
get_counts now s = keep (live_count now) s.state

unfoldable pub get_ips : String → ℕ → OnlineIps → List String
unfolding live_ips
get_ips tag now s = live_ips now (seen_or_new (lookup tag s.state))

unfoldable pub get_all_ips : ℕ → OnlineIps → Map (List String)
unfolding live_ips
get_all_ips now s = keep (λ ips. unless_empty (live_ips now ips)) s.state

unfoldable pub get_ips_by_email : ℕ → OnlineIps → Map (List String)
unfolding live_ips
get_ips_by_email now s = keep (λ ips. unless_empty (live_ips now ips)) s.by_email

pub record EmailOnlineDetail : Type 0 where
  pub ips : List String
  pub inbound_tag : String
  pub last_seen_at : ℕ

abbrev newer : ℕ → ℕ → ℕ
newer a b = if ltb b a then a else b

unfoldable pub newest : ℕ → Seen → ℕ
newest now [] = 0
newest now ((ip, last) ∷ ips) =
    let rest = newest now ips in if is_live now last then newer last rest else rest

abbrev pub text_or_empty : Option String → String
text_or_empty none = ""
text_or_empty (some s) = s

abbrev pub add_detail :
    String → String → List String → ℕ → Map EmailOnlineDetail → Map EmailOnlineDetail
add_detail email tag [] last out = out
add_detail email tag (ip ∷ ips) last out =
    (email, record { ips = ip ∷ ips; inbound_tag = tag; last_seen_at = last * 1000 }) ∷ out

unfoldable pub detailed : Map String → ℕ → Map Seen → Map EmailOnlineDetail
unfolding live_ips newest
detailed tags now [] = []
detailed tags now ((email, ips) ∷ m) =
    add_detail email (text_or_empty (lookup email tags)) (live_ips now ips) (newest now ips)
      (detailed tags now m)

unfoldable pub get_ips_by_email_detailed : ℕ → OnlineIps → Map EmailOnlineDetail
unfolding detailed
get_ips_by_email_detailed now s = detailed s.email_to_tag now s.by_email

-- The first group of each expression's match on a line.
pub record LineRegex : Type 0 where
  pub ip : String → Option String
  pub tag : String → Option String
  pub email : String → Option String

-- ip[1 : len(ip)-1] of an address in brackets; the expression matches ASCII only.
abbrev but_last : String → String
but_last String.[] = String.[]
but_last (String.◌∷◌ c String.[]) = String.[]
but_last (String.◌∷◌ c (String.◌∷◌ d s)) = String.◌∷◌ c (but_last (String.◌∷◌ d s))

unfoldable pub unbracketed : String → String
unbracketed String.[] = String.[]
unbracketed (String.◌∷◌ c String.[]) = String.◌∷◌ c String.[]
unbracketed (String.◌∷◌ c (String.◌∷◌ d s)) =
    if code c == b'[' then but_last (String.◌∷◌ d s) else String.◌∷◌ c (String.◌∷◌ d s)

abbrev pub is_traffic_tag : String → Bool
is_traffic_tag tag = not (str_eq tag "") && not (str_eq tag "api")

-- `record` with the tag of a line, when it is one of the traffic.
abbrev pub record_tagged : String → String → ℕ → OnlineIps → OnlineIps
record_tagged tag ip now s = if is_traffic_tag tag then record_ip tag ip now s else s

-- The email of a line, and the tag that it stands for when the line has none.
abbrev pub record_by_email : String → String → ℕ → ℕ → Option String → OnlineIps → OnlineIps
record_by_email tag ip email_at tag_at none s = s
record_by_email tag ip email_at tag_at (some email) s =
    let s' = record_email email ip email_at s in
    if str_eq tag ""
    then record_tagged (text_or_empty (lookup email s'.email_to_tag)) ip tag_at s'
    else s'

-- The three times are the readings of the clock in the three calls that record.
abbrev pub handle_match : LineRegex → String → ℕ → ℕ → ℕ → Option String → OnlineIps → OnlineIps
handle_match rx line line_at email_at tag_at none s = s
handle_match rx line line_at email_at tag_at (some found) s =
    let ip = unbracketed found in
    let tag = text_or_empty (rx.tag line) in
    record_by_email tag ip email_at tag_at (rx.email line) (record_tagged tag ip line_at s)

unfoldable pub handle_line : LineRegex → String → ℕ → ℕ → ℕ → OnlineIps → OnlineIps
unfolding record_ip record_email unbracketed
handle_line rx line line_at email_at tag_at s =
    handle_match rx line line_at email_at tag_at (rx.ip line) s
