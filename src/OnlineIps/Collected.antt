-- ===== src/OnlineIps/Collected.antt =====
-- What a tick of gcLoop and a heartbeat of TouchEmail change for the readers.
use nexcore_x_ui.Prelude.{
  ℕ, ◌≡◌, ◌≤◌, ◌<◌, refl, sym, ap, ap₂, ◌∙◌, String, false, Option, none, some, List, [], ◌∷◌,
  str_eq, eq_refl, ◌⊎◌, if◌then◌else◌, leb, length, arith, Option-cases, inl, inr, ◌+◌,
}
use nexcore_x_ui.Prelude.Maps.{Map, lookup, keep, bind_value, lookup-insert, keep-keep}
use nexcore_x_ui.OnlineIps.{
  Seen, OnlineIps, EmailOnlineDetail, seen_or_new, touch_email, refreshed, collect_stale,
  collect_ips, unless_stale, unless_empty, live_ips, live_count, newest, detailed, text_or_empty,
  add_detail, online_ip_ttl, get_counts, get_all_ips, get_ips_by_email, get_ips_by_email_detailed,
}

live_ips-stale :
    (t now : ℕ) (ips : Seen) → t ≤ now → live_ips now (keep (unless_stale t) ips) ≡ live_ips now ips
unfolding live_ips
live_ips-stale t now [] h = refl
live_ips-stale t now ((ip, last) ∷ ips) h = ground (arith, live_ips-stale t now ips h)

newest-stale :
    (t now : ℕ) (ips : Seen) → t ≤ now → newest now (keep (unless_stale t) ips) ≡ newest now ips
unfolding newest
newest-stale t now [] h = refl
newest-stale t now ((ip, last) ∷ ips) h = ground (arith, newest-stale t now ips h)

bind-unless_empty :
    {B : Type 0} (f : Seen → Option B) (ips : Seen)
    → f [] ≡ none
    → bind_value (unless_empty ips) f ≡ f ips
bind-unless_empty f [] h = sym h
bind-unless_empty f (e ∷ ips) h = refl

detail : Map String → ℕ → String → Seen → Map EmailOnlineDetail → Map EmailOnlineDetail
detail tags now email ips out =
    add_detail email (text_or_empty (lookup email tags)) (live_ips now ips) (newest now ips) out

detailed-stale :
    (tags : Map String) (t now : ℕ) (m : Map Seen)
    → t ≤ now
    → detailed tags now (keep (collect_ips t) m) ≡ detailed tags now m
unfolding detailed live_ips
detailed-stale tags t now [] h = refl
detailed-stale tags t now ((email, ips) ∷ m) h =
    let tag = text_or_empty (lookup email tags) in
    let kept = keep (unless_stale t) ips in
    let rest = detailed-stale tags t now m h in
    let same_ips = live_ips-stale t now ips h in
    let same_last = newest-stale t now ips h in
    elim (List-cases kept) [
      | inl gone ↦
          (let nobody : live_ips now ips ≡ [] = sym same_ips ∙ ap (live_ips now) gone in
            rw (gone, nobody) rest)
      | inr (e, es, left) ↦ rw left (
          ap
            (λ l.
              add_detail email tag (live_ips now l) (newest now l)
                (detailed tags now (keep (collect_ips t) m)))
            (sym left)
          ∙ ap₂ (λ l n. add_detail email tag l n (detailed tags now (keep (collect_ips t) m)))
              same_ips same_last
          ∙ ap (add_detail email tag (live_ips now ips) (newest now ips)) rest)
    ]
  where
    List-cases : (l : Seen) → (l ≡ []) ⊎ ((e : String × ℕ) × (es : Seen) × (l ≡ e ∷ es))
    List-cases [] = inl refl
    List-cases (e ∷ es) = inr (e, es, refl)

-- A collection at or before `now` changes nothing that the readers of the whole maps return at `now`.
pub collect_stale-reads :
    (t now : ℕ) (s : OnlineIps)
    → t ≤ now
    → (get_counts now (collect_stale t s) ≡ get_counts now s)
      × (get_all_ips now (collect_stale t s) ≡ get_all_ips now s)
      × (get_ips_by_email now (collect_stale t s) ≡ get_ips_by_email now s)
      × (get_ips_by_email_detailed now (collect_stale t s) ≡ get_ips_by_email_detailed now s)
unfolding get_counts get_all_ips get_ips_by_email get_ips_by_email_detailed collect_stale live_count
    live_ips
collect_stale-reads t now s h =
    let listed : (ips : Seen)
        → bind_value (collect_ips t ips) (λ l. unless_empty (live_ips now l))
          ≡ unless_empty (live_ips now ips) =
      λ ips.
        bind-unless_empty (λ l. unless_empty (live_ips now l)) (keep (unless_stale t) ips) refl
        ∙ ap unless_empty (live_ips-stale t now ips h) in
    let counted : (ips : Seen)
        → bind_value (collect_ips t ips) (live_count now) ≡ live_count now ips =
      λ ips.
        bind-unless_empty (live_count now) (keep (unless_stale t) ips) refl
        ∙ ap (λ l. let n = length l in if leb 1 n then some n else none)
            (live_ips-stale t now ips h) in
    (
      keep-keep (live_count now) (collect_ips t) s.state counted,
      keep-keep (λ l. unless_empty (live_ips now l)) (collect_ips t) s.state listed,
      keep-keep (λ l. unless_empty (live_ips now l)) (collect_ips t) s.by_email listed,
      detailed-stale s.email_to_tag t now s.by_email h,
    )

-- All addresses of a map.
abbrev pub known : Seen → List String
known [] = []
known ((ip, last) ∷ ips) = ip ∷ known ips

live_ips-refreshed :
    (t now : ℕ) (ips : Seen) → now < t + online_ip_ttl → live_ips now (refreshed t ips) ≡ known ips
unfolding live_ips
live_ips-refreshed t now [] h = refl
live_ips-refreshed t now ((ip, last) ∷ ips) h = ground (arith, live_ips-refreshed t now ips h)

-- A heartbeat at `t` for an email that is not empty makes every address that its entry still holds live
-- until `t` plus the lifetime, also one whose time had passed and that no collection took away.
pub touch_email-known :
    (email : String) (t now : ℕ) (s : OnlineIps)
    → str_eq email "" ≡ false
    → now < t + online_ip_ttl
    → live_ips now (seen_or_new (lookup email (touch_email email t s).by_email))
      ≡ known (seen_or_new (lookup email s.by_email))
unfolding touch_email live_ips
touch_email-known email t now s named h = rw named (elim (Option-cases (lookup email s.by_email)) [
  | inl absent ↦ rw absent (rw absent refl)
  | inr (ips, held) ↦ rw held (
      ap (λ o. live_ips now (seen_or_new o))
        (lookup-insert email email (refreshed t ips) s.by_email)
      ∙ ap
          (λ b.
            live_ips now
              (seen_or_new (if b then some (refreshed t ips) else lookup email s.by_email)))
          (eq_refl email)
      ∙ live_ips-refreshed t now ips h)
])
