-- ===== src/Clients/Collect.antt =====
-- Step 1 of AddTrafficByEmail against sums over the whole list of statistics.
use nexcore_x_ui.Prelude.{
  ℕ, ◌+◌, ◌%◌, String, Bool, true, false, ◌&&◌, ◌||◌, ◌≡◌, refl, Option, none, some, List, [], ◌∷◌,
  arith, str_eq, eq_iff, if◌then◌else◌, any, word_mod, Bool-cases, inl, inr,
}
use nexcore_x_ui.Model.{Traffic}
use nexcore_x_ui.Clients.{Delta, Deltas, lookup_delta, add_delta, is_user, collect_from}

-- A row of the statistics that belongs to a client.
abbrev pub is_of : String → Traffic → Bool
is_of e t = is_user t && str_eq t.tag e

abbrev pub reported : String → List Traffic → Bool
reported e ts = any (is_of e) ts

-- The bytes reported for a client, summed without wrapping.
abbrev pub up_of : String → List Traffic → ℕ
up_of e [] = 0
up_of e (t ∷ ts) = (if is_of e t then t.up else 0) + up_of e ts

abbrev pub down_of : String → List Traffic → ℕ
down_of e [] = 0
down_of e (t ∷ ts) = (if is_of e t then t.down else 0) + down_of e ts

-- An entry of the map (or its absence) stands for these sums, up to the wrapping of int64.
abbrev pub StandsFor : Option Delta → Bool → ℕ → ℕ → Type 0
StandsFor none found up down = (found ≡ false) × (up ≡ 0) × (down ≡ 0)
StandsFor (some d) found up down =
    (found ≡ true) × (d.up % word_mod ≡ up % word_mod) × (d.down % word_mod ≡ down % word_mod)

add_delta-StandsFor :
    (e : String) (t : Traffic) (ds : Deltas) (found : Bool) (up down : ℕ)
    → StandsFor (lookup_delta e ds) found up down
    → StandsFor
        (lookup_delta e (add_delta t ds))
        (found || str_eq t.tag e)
        (up + (if str_eq t.tag e then t.up else 0))
        (down + (if str_eq t.tag e then t.down else 0))
unfolding add_delta
add_delta-StandsFor e t [] found up down h = ground arith
add_delta-StandsFor e t ((k, d) ∷ ds) found up down h =
    ground
      (arith, eq_iff k e, eq_iff k t.tag, eq_iff t.tag e, add_delta-StandsFor e t ds found up down)

collect_from-StandsFor :
    (e : String) (ts : List Traffic) (ds : Deltas) (found : Bool) (up down : ℕ)
    → StandsFor (lookup_delta e ds) found up down
    → StandsFor
        (lookup_delta e (collect_from ds ts))
        (found || reported e ts)
        (up + up_of e ts)
        (down + down_of e ts)
unfolding collect_from
collect_from-StandsFor e [] ds found up down h = ground arith
collect_from-StandsFor e (t ∷ ts) ds found up down h = elim (Bool-cases (is_user t)) [
  | inl user ↦ rw user (
      ground (
        arith,
        user,
        collect_from-StandsFor e ts (add_delta t ds) (found || str_eq t.tag e)
            (up + (if str_eq t.tag e then t.up else 0))
            (down + (if str_eq t.tag e then t.down else 0))
            (add_delta-StandsFor e t ds found up down h),
      ))
  | inr other ↦ rw other (ground (arith, collect_from-StandsFor e ts ds found up down h))
]

-- The map that step 1 builds holds, for each email, the sums over the statistics.
pub collect-StandsFor :
    (e : String) (ts : List Traffic)
    → StandsFor (lookup_delta e (collect_from [] ts)) (reported e ts) (up_of e ts) (down_of e ts)
collect-StandsFor e ts = ground (arith, collect_from-StandsFor e ts [] false 0 0 (refl, refl, refl))

-- `email IN ?` selects the rows that have an entry.
pub has_entry_of_lookup :
    (e : String) (ds : Deltas) (d : Delta)
    → lookup_delta e ds ≡ some d
    → any (λ (kd : String × Delta). str_eq kd.0 e) ds ≡ true
has_entry_of_lookup e [] d h = cc
has_entry_of_lookup e ((k, v) ∷ ds) d h = ground (arith, has_entry_of_lookup e ds d)
