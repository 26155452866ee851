-- ===== src/OnlineIps/Listed.antt =====
-- A line of the access log puts its address on the list of its inbound.
use nexcore_x_ui.Prelude.{
  ℕ, ◌≡◌, ◌<◌, refl, ap, ◌∙◌, String, true, false, Option, none, some, [], ◌∷◌, str_eq, eq_refl,
  ◌⊎◌, if◌then◌else◌, one_of, arith, inl, inr, ◌+◌,
}
use nexcore_x_ui.Prelude.Maps.{lookup, insert, lookup-insert}
use nexcore_x_ui.OnlineIps.{
  Seen, OnlineIps, LineRegex, is_live, seen_or_new, record_ip, record_email, live_ips, get_ips,
  unbracketed, is_traffic_tag, record_tagged, record_by_email, text_or_empty, handle_line,
  online_ip_ttl,
}

live_ips-insert :
    (ip : String) (t now : ℕ) (ips : Seen)
    → is_live now t ≡ true
    → one_of (live_ips now (insert ip t ips)) ip ≡ true
unfolding live_ips
live_ips-insert ip t now [] h = ground (arith, eq_refl ip)
live_ips-insert ip t now ((j, last) ∷ ips) h = ground (arith, live_ips-insert ip t now ips h)

record_tagged-listed :
    (tag ip : String) (t now : ℕ) (s : OnlineIps)
    → is_traffic_tag tag ≡ true
    → now < t + online_ip_ttl
    → one_of (get_ips tag now (record_tagged tag ip t s)) ip ≡ true
unfolding record_ip get_ips
record_tagged-listed tag ip t now s traffic h =
    let ips = seen_or_new (lookup tag s.state) in
    rw traffic (
      ap (λ o. one_of (live_ips now (seen_or_new o)) ip)
        (lookup-insert tag tag (insert ip t ips) s.state)
      ∙ ap
          (λ b.
            one_of
              (live_ips now
                (seen_or_new (if b then some (insert ip t ips) else lookup tag s.state)))
              ip)
          (eq_refl tag)
      ∙ live_ips-insert ip t now ips (ground arith))

record_by_email-kept :
    (tag ip : String) (email_at tag_at now : ℕ) (email : Option String) (s : OnlineIps)
    → str_eq tag "" ≡ false
    → get_ips tag now (record_by_email tag ip email_at tag_at email s) ≡ get_ips tag now s
unfolding record_email get_ips
record_by_email-kept tag ip email_at tag_at now none s named = refl
record_by_email-kept tag ip email_at tag_at now (some email) s named = rw named refl

-- A line with an address, and with the tag of an inbound or else an email that stands for one, where the
-- tag is neither empty nor that of the API inbound, "api", puts the address on the list of that inbound until the lifetime after the reading of the clock is over.
pub handle_line-listed :
    (rx : LineRegex) (line found tag : String) (line_at email_at tag_at now : ℕ) (s : OnlineIps)
    → rx.ip line ≡ some found
    → (rx.tag line ≡ some tag)
      ⊎ ((rx.tag line ≡ none)
          × ((email : String) × (rx.email line ≡ some email)
              × (lookup email s.email_to_tag ≡ some tag)))
    → is_traffic_tag tag ≡ true
    → now < line_at + online_ip_ttl
    → now < tag_at + online_ip_ttl
    → one_of (get_ips tag now (handle_line rx line line_at email_at tag_at s)) (unbracketed found)
      ≡ true
unfolding handle_line
handle_line-listed rx line found tag line_at email_at tag_at now s matched (inl tagged) traffic h
      k =
    rw (matched, tagged)
      (ap (λ l. one_of l (unbracketed found))
          (record_by_email-kept tag (unbracketed found) email_at tag_at now (rx.email line)
            (record_tagged tag (unbracketed found) line_at s) (ground arith))
        ∙ record_tagged-listed tag (unbracketed found) line_at now s traffic h)
handle_line-listed rx line found tag line_at email_at tag_at now s matched
      (inr (untagged, (email, named, stands))) traffic h k =
    rw (matched, untagged, named)
      (ap
          (λ o.
            one_of
              (get_ips tag now (
                record_tagged (text_or_empty o) (unbracketed found) tag_at
                  (record_email email (unbracketed found) email_at s)))
              (unbracketed found))
          stands
        ∙ record_tagged-listed tag (unbracketed found) tag_at now
            (record_email email (unbracketed found) email_at s) traffic k)
