-- ===== src/Tests/Online.antt =====
-- Runs of the online addresses.
use nexcore_x_ui.Prelude.{◌≡◌, true, refl, none, some, List, [], ◌∷◌, one_of, arith, inr}
use nexcore_x_ui.Prelude.Maps.{lookup}
use nexcore_x_ui.OnlineIps.{
  OnlineIps, LineRegex, seen_or_new, record_ip, record_email, touch_email, collect_stale,
  handle_line, unbracketed, get_ips, get_counts, get_all_ips, get_ips_by_email,
  get_ips_by_email_detailed, live_ips,
}
use nexcore_x_ui.OnlineIps.Window.{
  Event, recorded, collected, recorded_email, after, last_seen, live_at, get_ips-window,
}
use nexcore_x_ui.OnlineIps.Collected.{collect_stale-reads, touch_email-known}
use nexcore_x_ui.OnlineIps.Listed.{handle_line-listed}

abbrev history : List Event
history =
    collected 500
    ∷ recorded "inbound-443" "10.0.0.1" 400
    ∷ recorded_email "a@x" "10.0.0.2" 90
    ∷ recorded "inbound-443" "10.0.0.2" 90
    ∷ []

get_ips-window_example :
    one_of (get_ips "inbound-443" 600 (after history)) "10.0.0.1"
    ≡ live_at 600 (last_seen "inbound-443" "10.0.0.1" history)
get_ips-window_example = get_ips-window "inbound-443" "10.0.0.1" 600 history refl

lapsed : one_of (get_ips "inbound-443" 600 (after history)) "10.0.0.2" ≡ one_of [] "10.0.0.2"
unfolding get_ips after live_ips record_ip record_email collect_stale
lapsed = refl

abbrev online : OnlineIps
online = record {
  state = ("inbound-443", ("10.0.0.1", 400) ∷ ("10.0.0.2", 90) ∷ []) ∷ [];
  by_email = ("a@x", ("10.0.0.1", 400) ∷ ("10.0.0.2", 90) ∷ []) ∷ [];
  email_to_tag = ("a@x", "inbound-443") ∷ ("b@x", "inbound-444") ∷ [];
}

collect_stale-reads_example :
    (get_counts 600 (collect_stale 500 online) ≡ get_counts 600 online)
    × (get_all_ips 600 (collect_stale 500 online) ≡ get_all_ips 600 online)
    × (get_ips_by_email 600 (collect_stale 500 online) ≡ get_ips_by_email 600 online)
    × (get_ips_by_email_detailed 600 (collect_stale 500 online)
        ≡ get_ips_by_email_detailed 600 online)
collect_stale-reads_example = collect_stale-reads 500 600 online (omega arith)

touch_email-known_example :
    live_ips 600 (seen_or_new (lookup "a@x" (touch_email "a@x" 550 online).by_email))
    ≡ "10.0.0.1" ∷ "10.0.0.2" ∷ []
touch_email-known_example = touch_email-known "a@x" 550 600 online refl (omega arith)

-- A line of Shadowsocks 2022: an address and an email, no tag.
abbrev regex : LineRegex
regex = record { ip = λ _. some "10.0.0.3"; tag = λ _. none; email = λ _. some "b@x" }

handle_line-listed_example :
    one_of
      (get_ips "inbound-444" 700 (handle_line regex "line" 600 600 600 online))
      (unbracketed "10.0.0.3")
    ≡ true
handle_line-listed_example =
    handle_line-listed regex "line" "10.0.0.3" "inbound-444" 600 600 600 700 online refl
      (inr (refl, ("b@x", refl, refl))) refl (omega arith) (omega arith)
