-- ===== src/Inbounds/Limits.antt =====
-- DisableInvalidInbounds: the scan for the inbounds that are past a limit.
use nexcore_x_ui.Prelude.{
  ℕ, Bool, false, not, ◌≡◌, ◌<◌, ◌+◌, ◌%◌, ◌-◌, leb64, is_pos64, ap₂, refl, ◌∙◌, ap, List, [], ◌∷◌,
  arith, any, update_rows, count_rows, ◌&&◌, ◌||◌, leb, ltb, sum_reaches, word_mod, half_mod,
  if◌then◌else◌, bias,
}
use nexcore_x_ui.Prelude.Int.{ℤ, pos, negsuc, ◌+ℤ◌, ltb_ℤ, +ℤ_parts, pos_part, neg_part}
use mathlib.Core.Path.{fun_ext}
use nexcore_x_ui.Exec.{ok}
use nexcore_x_ui.Model.{Inbound, InboundConfig}
use nexcore_x_ui.Table.Schemas.{Tables, Panel}
use nexcore_x_ui.Panel.Effects.{update_inbounds-ok}
use nexcore_x_ui.Inbounds.{Net, is_invalid, disable_invalid_inbounds}

abbrev pub switched_off : Inbound → Inbound
switched_off r = record r { enable = false }

-- The integer that an int64's bit pattern stands for.
abbrev pub signed : ℕ → ℤ
signed a = let n = a % word_mod in if ltb n half_mod then pos n else negsuc (word_mod - n - 1)

-- An enabled inbound that has a limit and is past it: a total above 0 that up + down reaches, as integers,
-- or an expiry above 0 that is not in the future. The patterns from 2^63 on stand for negative numbers.
abbrev pub past_limit : ℕ → Inbound → Bool
past_limit now r =
    r.enable
    && ((ltb 0 r.total
          && (ltb r.total half_mod && not (ltb_ℤ (signed r.up +ℤ signed r.down) (signed r.total))))
        || (ltb 0 r.expiry_time && leb r.expiry_time now))

signed_parts : (a : ℕ) → pos_part (signed a) + half_mod ≡ bias a + neg_part (signed a)
signed_parts a = ground arith

sum_reaches-signed : (a b c : ℕ) → sum_reaches a b c ≡ not (ltb_ℤ (signed a +ℤ signed b) (signed c))
sum_reaches-signed a b c =
    ground (arith, signed_parts a, signed_parts b, signed_parts c, +ℤ_parts (signed a) (signed b))

due_expiry : (e now : ℕ) → now < half_mod → (is_pos64 e && leb64 e now) ≡ (ltb 0 e && leb e now)
due_expiry e now h = ground arith

regrouped : (e a b x y : Bool) → (((a && b) && x) || y) && e ≡ e && ((a && (b && x)) || y)
regrouped e a b x y = ground arith

is_invalid-past_limit :
    (now : ℕ) (r : Inbound) → now < half_mod → is_invalid now r ≡ past_limit now r
unfolding is_invalid
is_invalid-past_limit now r h =
    regrouped r.enable (ltb 0 r.total) (ltb r.total half_mod) (sum_reaches r.up r.down r.total)
      (is_pos64 r.expiry_time && leb64 r.expiry_time now)
    ∙ ap₂ (λ x y. r.enable && ((ltb 0 r.total && (ltb r.total half_mod && x)) || y))
        (sum_reaches-signed r.up r.down r.total) (due_expiry r.expiry_time now h)

none_left :
    (now : ℕ) (rows : List Inbound)
    → any (past_limit now) (update_rows (past_limit now) switched_off rows) ≡ false
none_left now [] = refl
none_left now (r ∷ rows) = ground (arith, none_left now rows)

module _ (g : Tables) (net : Net) (accepts : List InboundConfig → Bool) where
  -- At a time that is not negative, a successful scan switches off the enabled inbounds that are past a
  -- limit: a traffic total above 0 that up and down together reach as integers, or an expiry above 0 at or
  -- before that time. It changes nothing else in the table of inbounds, returns how many they were, and
  -- leaves no inbound both enabled and past a limit.
  pub disable_invalid_inbounds-rows :
      (now : ℕ) (s : Panel g) {n : ℕ} {t : Panel g}
      → now < half_mod
      → disable_invalid_inbounds g net accepts now s ≡ (ok n, t)
      → (g.inbounds.rows t.inbounds
          ≡ update_rows (past_limit now) switched_off (g.inbounds.rows s.inbounds))
        × (n ≡ count_rows (past_limit now) (g.inbounds.rows s.inbounds))
        × (any (past_limit now) (g.inbounds.rows t.inbounds) ≡ false)
  unfolding disable_invalid_inbounds
  disable_invalid_inbounds-rows now s {n} {t} clock h =
      let (rows, count, frame) = update_inbounds-ok g (is_invalid now) switched_off s h in
      let same_test : is_invalid now ≡ past_limit now =
        fun_ext λ r. is_invalid-past_limit now r clock in
      let old = g.inbounds.rows s.inbounds in
      let written : g.inbounds.rows t.inbounds ≡ update_rows (past_limit now) switched_off old =
        rows ∙ ap (λ p. update_rows p switched_off old) same_test in
      (
        written,
        count ∙ ap (λ p. count_rows p old) same_test,
        ap (any (past_limit now)) written ∙ none_left now old,
      )
