-- ===== src/Auth/Warned.antt =====
-- The map behind warnLegacyTokenOnce stays within its cap.
use nexcore_x_ui.Prelude.{
  ℕ, suc, ◌≡◌, ◌≤◌, ◌<◌, refl, ap, ◌∙◌, ◌+◌, String, Bool, true, ◌&&◌, ◌||◌, List, [], ◌∷◌, ltb,
  leb, length, any, arith, Bool-cases, inl, inr,
}
use nexcore_x_ui.Prelude.Maps.{Map, lookup, insert, keep}
use nexcore_x_ui.Auth.{
  legacy_token_seen_cap, oldest, unless_before, evict, is_recent, warn_legacy_token_once,
}

-- Every time of a map is at most `now`.
abbrev all_by : ℕ → Map ℕ → Bool
all_by now [] = true
all_by now ((ip, v) ∷ m) = leb v now && all_by now m

all_by-later : (t now : ℕ) (m : Map ℕ) → t ≤ now → all_by t m ≡ true → all_by now m ≡ true
all_by-later t now [] h a = refl
all_by-later t now ((ip, v) ∷ m) h a = ground (arith, all_by-later t now m h)

all_by-insert :
    (now t : ℕ) (ip : String) (m : Map ℕ)
    → t ≤ now
    → all_by now m ≡ true
    → all_by now (insert ip t m) ≡ true
all_by-insert now t ip [] h a = ground arith
all_by-insert now t ip ((j, v) ∷ m) h a = ground (arith, all_by-insert now t ip m h)

all_by-keep :
    (now cutoff : ℕ) (m : Map ℕ)
    → all_by now m ≡ true
    → all_by now (keep (unless_before cutoff) m) ≡ true
all_by-keep now cutoff [] a = refl
all_by-keep now cutoff ((ip, v) ∷ m) a = ground (arith, all_by-keep now cutoff m)

length-insert : (ip : String) (t : ℕ) (m : Map ℕ) → length (insert ip t m) ≤ suc (length m)
length-insert ip t [] = omega arith
length-insert ip t ((j, v) ∷ m) = ground (arith, length-insert ip t m)

length-keep : (cutoff : ℕ) (m : Map ℕ) → length (keep (unless_before cutoff) m) ≤ length m
length-keep cutoff [] = omega arith
length-keep cutoff ((ip, v) ∷ m) = ground (arith, length-keep cutoff m)

length-keep_one :
    (cutoff : ℕ) (m : Map ℕ)
    → any (λ (e : String × ℕ). ltb e.1 cutoff) m ≡ true
    → length (keep (unless_before cutoff) m) < length m
length-keep_one cutoff [] h = cc
length-keep_one cutoff ((ip, v) ∷ m) h =
    ground (arith, length-keep cutoff m, length-keep_one cutoff m)

-- The oldest time is one of the map's.
oldest_there :
    (now cutoff : ℕ) (ip : String) (v : ℕ) (m : Map ℕ)
    → all_by now ((ip, v) ∷ m) ≡ true
    → oldest now ((ip, v) ∷ m) < cutoff
    → any (λ (e : String × ℕ). ltb e.1 cutoff) ((ip, v) ∷ m) ≡ true
oldest_there now cutoff ip v [] a h = ground arith
oldest_there now cutoff ip v ((j, w) ∷ m) a h =
    let o = oldest now ((j, w) ∷ m) in
    elim (Bool-cases (ltb v o)) [
      | inl first ↦ ground arith
      | inr later ↦
          (let tail = oldest_there now cutoff j w m (ground arith) (rw later at h) in
            ap (λ b. ltb v cutoff || b) tail ∙ ground arith)
    ]

length-evict :
    (now : ℕ) (m : Map ℕ) → all_by now m ≡ true → 1 ≤ length m → length (evict now m) < length m
unfolding evict
length-evict now [] a h = ground arith
length-evict now ((ip, v) ∷ m) a h =
    let cutoff = oldest now ((ip, v) ∷ m) + 1_800 in
    length-keep_one cutoff ((ip, v) ∷ m) (oldest_there now cutoff ip v m a (omega arith))

-- The map after the calls, whose newest comes first.
abbrev pub warned : List (String × ℕ) → Map ℕ
warned [] = []
warned ((ip, t) ∷ calls) = warn_legacy_token_once ip t (warned calls)

-- The clock does not go back from call to call, and stands at most at `now`.
abbrev pub in_order : ℕ → List (String × ℕ) → Bool
in_order now [] = true
in_order now ((ip, t) ∷ calls) = leb t now && in_order t calls

warn-kept :
    (ip : String) (t : ℕ) (m : Map ℕ)
    → all_by t m ≡ true
    → length m ≤ legacy_token_seen_cap
    → (length (warn_legacy_token_once ip t m) ≤ legacy_token_seen_cap)
      × (all_by t (warn_legacy_token_once ip t m) ≡ true)
unfolding warn_legacy_token_once evict
warn-kept ip t m a h = elim (Bool-cases (is_recent t (lookup ip m))) [
  | inl recent ↦ rw recent (h, a)
  | inr due ↦ rw due (elim (Bool-cases (leb legacy_token_seen_cap (length m))) [
    | inl full ↦
        (let less = length-evict t m a (ground arith) in
          rw full (
            omega (arith, length-insert ip t (evict t m), less, h),
            all_by-insert t t ip (evict t m) (omega arith) (all_by-keep t (oldest t m + 1_800) m a),
          ))
    | inr room ↦
        rw room (ground (arith, length-insert ip t m), all_by-insert t t ip m (omega arith) a)
  ])
]

warned-kept :
    (now : ℕ) (calls : List (String × ℕ))
    → in_order now calls ≡ true
    → (length (warned calls) ≤ legacy_token_seen_cap) × (all_by now (warned calls) ≡ true)
warned-kept now [] h = (omega arith, refl)
warned-kept now ((ip, t) ∷ calls) h =
    let (few, old) = warned-kept t calls (ground arith) in
    let (kept, times) = warn-kept ip t (warned calls) old few in
    (kept, all_by-later t now (warn_legacy_token_once ip t (warned calls)) (ground arith) times)

-- However many addresses use the old token, the map never holds more than 4096 of them, if the clock
-- does not go back.
pub warn_legacy_token_once-cap :
    (now : ℕ) (calls : List (String × ℕ))
    → in_order now calls ≡ true
    → length (warned calls) ≤ legacy_token_seen_cap
warn_legacy_token_once-cap now calls h = (warned-kept now calls h).0
