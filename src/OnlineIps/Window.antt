-- ===== src/OnlineIps/Window.antt =====
-- The window of the addresses of an inbound: what get_ips returns after a run of the service, against the
-- times in the history of that run.
use nexcore_x_ui.Prelude.{
  ℕ, ◌≡◌, refl, sym, ap, ap₂, ◌∙◌, String, Bool, true, false, ◌&&◌, Option, none, some, List, [],
  ◌∷◌, str_eq, eq_iff, if◌then◌else◌, leb, one_of, arith, Bool-cases, Option-cases, inl, inr, ◌≤◌,
}
use nexcore_x_ui.Prelude.Maps.{
  Map, lookup, insert, keep, bind_value, has_key, keys_distinct, lookup-insert,
  insert-keys_distinct, lookup-keep, keep-keys_distinct,
}
use nexcore_x_ui.Model.{Inbound}
use nexcore_x_ui.OnlineIps.{
  Seen, OnlineIps, new_online_ips, is_live, seen_or_new, record_in, record_ip, record_email,
  touch_email, collect_stale, collect_ips, unless_stale, unless_empty, on_xray_restart, live_ips,
  get_ips,
}

-- The calls that change the state, with the times they read.
pub data Event : Type 0 where
  recorded : String → String → ℕ → Event
  recorded_email : String → String → ℕ → Event
  touched : String → ℕ → Event
  collected : ℕ → Event
  restarted : Option (List Inbound) → Event

unfoldable pub step : Event → OnlineIps → OnlineIps
unfolding record_ip record_email touch_email collect_stale on_xray_restart
step (recorded tag ip t) s = record_ip tag ip t s
step (recorded_email email ip t) s = record_email email ip t s
step (touched email t) s = touch_email email t s
step (collected t) s = collect_stale t s
step (restarted found) s = on_xray_restart found s

-- The state after a history, whose newest event comes first.
unfoldable pub after : List Event → OnlineIps
unfolding step
after [] = new_online_ips
after (e ∷ es) = step e (after es)

-- The newest time at which a line of the inbound had the address, since Xray started last.
abbrev pub last_seen : String → String → List Event → Option ℕ
last_seen tag ip [] = none
last_seen tag ip (recorded j i t ∷ es) =
    let earlier = last_seen tag ip es in if str_eq j tag && str_eq i ip then some t else earlier
last_seen tag ip (restarted found ∷ es) = none
last_seen tag ip (recorded_email email i t ∷ es) = last_seen tag ip es
last_seen tag ip (touched email t ∷ es) = last_seen tag ip es
last_seen tag ip (collected t ∷ es) = last_seen tag ip es

-- No collection of the history comes after a time.
abbrev pub collected_by : ℕ → List Event → Bool
collected_by now [] = true
collected_by now (collected t ∷ es) = leb t now && collected_by now es
collected_by now (recorded j i t ∷ es) = collected_by now es
collected_by now (recorded_email j i t ∷ es) = collected_by now es
collected_by now (touched j t ∷ es) = collected_by now es
collected_by now (restarted found ∷ es) = collected_by now es

abbrev pub live_at : ℕ → Option ℕ → Bool
live_at now none = false
live_at now (some t) = is_live now t

abbrev seen_in : Map Seen → String → String → Option ℕ
seen_in m tag ip = lookup ip (seen_or_new (lookup tag m))

abbrev values_distinct : Map Seen → Bool
values_distinct [] = true
values_distinct ((k, ips) ∷ m) = keys_distinct ips && values_distinct m

abbrev is_map : Map Seen → Bool
is_map m = keys_distinct m && values_distinct m

lookup-distinct :
    (k : String) (m : Map Seen)
    → values_distinct m ≡ true
    → keys_distinct (seen_or_new (lookup k m)) ≡ true
lookup-distinct k [] h = refl
lookup-distinct k ((j, ips) ∷ m) h = ground (arith, lookup-distinct k m)

insert-distinct :
    (k : String) (ips : Seen) (m : Map Seen)
    → keys_distinct ips ≡ true
    → values_distinct m ≡ true
    → values_distinct (insert k ips m) ≡ true
insert-distinct k ips [] h d = ground arith
insert-distinct k ips ((j, old) ∷ m) h d = ground (arith, insert-distinct k ips m)

record_in-is_map :
    (k ip : String) (t : ℕ) (m : Map Seen) → is_map m ≡ true → is_map (record_in k ip t m) ≡ true
record_in-is_map k ip t m h =
    let ips = seen_or_new (lookup k m) in
    ap₂ ◌&&◌ (insert-keys_distinct k (insert ip t ips) m (ground arith)) (
      insert-distinct k (insert ip t ips) m
        (insert-keys_distinct ip t ips (lookup-distinct k m (ground arith))) (ground arith))

unless_empty-distinct :
    (ips : Seen) {left : Seen}
    → unless_empty ips ≡ some left
    → keys_distinct ips ≡ keys_distinct left
unless_empty-distinct [] h = cc
unless_empty-distinct (e ∷ ips) h = ap (λ (o : Option Seen). keys_distinct (seen_or_new o)) h

collect-distinct :
    (t : ℕ) (m : Map Seen)
    → values_distinct m ≡ true
    → values_distinct (keep (collect_ips t) m) ≡ true
collect-distinct t [] h = refl
collect-distinct t ((k, ips) ∷ m) h =
    let rest = collect-distinct t m (ground arith) in
    let kept = keep-keys_distinct (unless_stale t) ips (ground arith) in
    elim (Option-cases (collect_ips t ips)) [
      | inl gone ↦ rw gone rest
      | inr (left, some_left) ↦
          rw some_left (
            ap₂ ◌&&◌ (sym (unless_empty-distinct (keep (unless_stale t) ips) some_left) ∙ kept)
              rest)
    ]

after-is_map : (es : List Event) → is_map (after es).state ≡ true
unfolding after record_ip record_email touch_email collect_stale on_xray_restart
after-is_map [] = refl
after-is_map (recorded tag ip t ∷ es) = record_in-is_map tag ip t (after es).state (after-is_map es)
after-is_map (recorded_email email ip t ∷ es) = after-is_map es
after-is_map (touched email t ∷ es) = elim (Bool-cases (str_eq email "")) [
  | inl none_there ↦ rw none_there (after-is_map es)
  | inr there ↦ rw there (after-is_map es)
]
after-is_map (collected t ∷ es) =
    let m = (after es).state in
    let both = after-is_map es in
    ap₂ ◌&&◌ (keep-keys_distinct (collect_ips t) m (ground arith))
      (collect-distinct t m (ground arith))
after-is_map (restarted found ∷ es) = refl

lookup-seen_or_new :
    (ip : String) (ips : Seen) → lookup ip (seen_or_new (unless_empty ips)) ≡ lookup ip ips
lookup-seen_or_new ip [] = refl
lookup-seen_or_new ip (e ∷ ips) = refl

seen_in-record_in :
    (k i tag ip : String) (t : ℕ) (m : Map Seen)
    → seen_in (record_in k i t m) tag ip
      ≡ (if str_eq k tag && str_eq i ip then some t else seen_in m tag ip)
seen_in-record_in k i tag ip t m =
    let ips = seen_or_new (lookup k m) in
    ap (λ o. lookup ip (seen_or_new o)) (lookup-insert k tag (insert i t ips) m)
    ∙ elim (Bool-cases (str_eq k tag)) [
      | inl same ↦ rw same (
          lookup-insert i ip t ips
          ∙ ap (λ o. if str_eq i ip then some t else lookup ip (seen_or_new (lookup o m)))
              ((eq_iff k tag).0 same))
      | inr other ↦ rw other refl
    ]

live_at-unless_stale :
    (t now : ℕ) (o : Option ℕ)
    → t ≤ now
    → live_at now (bind_value o (unless_stale t)) ≡ live_at now o
live_at-unless_stale t now none h = refl
live_at-unless_stale t now (some last) h = ground arith

seen_in-collect :
    (t now : ℕ) (tag ip : String) (m : Map Seen)
    → t ≤ now
    → is_map m ≡ true
    → live_at now (seen_in (keep (collect_ips t) m) tag ip) ≡ live_at now (seen_in m tag ip)
seen_in-collect t now tag ip m h both =
    ap (λ o. live_at now (lookup ip (seen_or_new o)))
      (lookup-keep (collect_ips t) tag m (ground arith))
    ∙ elim (Option-cases (lookup tag m)) [
      | inl absent ↦ rw absent refl
      | inr (ips, held) ↦
          (let inner : keys_distinct ips ≡ true =
              ap (λ o. keys_distinct (seen_or_new o)) (sym held)
              ∙ lookup-distinct tag m (ground arith) in
            rw held (
              ap (live_at now) (
                lookup-seen_or_new ip (keep (unless_stale t) ips)
                ∙ lookup-keep (unless_stale t) ip ips inner)
              ∙ live_at-unless_stale t now (lookup ip ips) h))
    ]

seen_in-after :
    (tag ip : String) (now : ℕ) (es : List Event)
    → collected_by now es ≡ true
    → live_at now (seen_in (after es).state tag ip) ≡ live_at now (last_seen tag ip es)
unfolding after record_ip record_email touch_email collect_stale on_xray_restart
seen_in-after tag ip now [] h = refl
seen_in-after tag ip now (recorded j i t ∷ es) h =
    ap (live_at now) (seen_in-record_in j i tag ip t (after es).state)
    ∙ elim (Bool-cases (str_eq j tag && str_eq i ip)) [
      | inl hit ↦ rw hit refl
      | inr miss ↦ rw miss (seen_in-after tag ip now es h)
    ]
seen_in-after tag ip now (recorded_email email i t ∷ es) h = seen_in-after tag ip now es h
seen_in-after tag ip now (touched email t ∷ es) h = elim (Bool-cases (str_eq email "")) [
  | inl none_there ↦ rw none_there (seen_in-after tag ip now es h)
  | inr there ↦ rw there (seen_in-after tag ip now es h)
]
seen_in-after tag ip now (collected t ∷ es) h =
    seen_in-collect t now tag ip (after es).state (ground arith) (after-is_map es)
    ∙ seen_in-after tag ip now es (ground arith)
seen_in-after tag ip now (restarted found ∷ es) h = refl

absent_live :
    (now : ℕ) (ip : String) (ips : Seen)
    → has_key ip ips ≡ false
    → one_of (live_ips now ips) ip ≡ false
unfolding live_ips
absent_live now ip [] h = refl
absent_live now ip ((j, last) ∷ ips) h = ground (arith, absent_live now ip ips)

one_of-live_ips :
    (now : ℕ) (ip : String) (ips : Seen)
    → keys_distinct ips ≡ true
    → one_of (live_ips now ips) ip ≡ live_at now (lookup ip ips)
unfolding live_ips
one_of-live_ips now ip [] d = refl
one_of-live_ips now ip ((j, last) ∷ ips) d =
    ground (arith, one_of-live_ips now ip ips, absent_live now ip ips, eq_iff j ip)

-- After any history whose collections do not come after `now`, get_ips at `now` lists an address
-- exactly when the newest line of the inbound with it, since the last restart of Xray, is less than
-- the lifetime old.
pub get_ips-window :
    (tag ip : String) (now : ℕ) (es : List Event)
    → collected_by now es ≡ true
    → one_of (get_ips tag now (after es)) ip ≡ live_at now (last_seen tag ip es)
unfolding get_ips
get_ips-window tag ip now es h =
    let m = (after es).state in
    one_of-live_ips now ip (seen_or_new (lookup tag m))
      (lookup-distinct tag m (ground (arith, after-is_map es)))
    ∙ seen_in-after tag ip now es h
