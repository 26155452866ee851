-- ===== src/Settings/Rows.antt =====
-- The cache without a key, and the first row with a key.
use nexcore_x_ui.Prelude.{
  ◌≡◌, refl, String, true, false, Option, none, some, List, [], ◌∷◌, ◌++◌, str_eq, eq_iff,
  if◌then◌else◌, arith, ◌==◌, Memᴰ, select_rows, update_rows, head?,
}
use nexcore_x_ui.Prelude.Maps.{Map, lookup}
use nexcore_x_ui.Model.{Setting}
use nexcore_x_ui.Settings.{CacheEntry, invalidate}

pub lookup-invalidate :
    (key j : String) (m : Map CacheEntry)
    → lookup j (invalidate key m) ≡ (if str_eq key j then none else lookup j m)
lookup-invalidate key j [] = ground arith
lookup-invalidate key j ((k, e) ∷ m) =
    ground (arith, eq_iff key j, eq_iff k j, eq_iff k key, lookup-invalidate key j m)

-- The first row with a key.
abbrev pub first_with : String → List Setting → Option Setting
first_with key [] = none
first_with key (r ∷ rs) = let rest = first_with key rs in if str_eq r.key key then some r else rest

pub first_with-select :
    (key : String) (rs : List Setting)
    → head? (select_rows (λ r. str_eq r.key key) rs) ≡ first_with key rs
first_with-select key [] = refl
first_with-select key (r ∷ rs) = ground (arith, first_with-select key rs)

pub first_with-append :
    (key : String) (rs : List Setting) (r : Setting)
    → first_with key (rs ++ r ∷ []) ≡ elim (first_with key rs) [
      | some q ↦ some q
      | none ↦ if str_eq r.key key then some r else none
    ]
first_with-append key [] r = refl
first_with-append key (q ∷ rs) r = ground (arith, first_with-append key rs r)

-- An UPDATE of the row of one key is not seen under another.
pub first_with-update :
    (key : String) (new : Setting) (rs : List Setting)
    → str_eq new.key key ≡ false
    → ((r : Setting) → Memᴰ r rs → (r.id == new.id) ≡ true → str_eq r.key key ≡ false)
    → first_with key (update_rows (λ r. r.id == new.id) (λ _. new) rs) ≡ first_with key rs
first_with-update key new [] other apart = refl
first_with-update key new (r ∷ rs) other apart = ground (
  arith,
  apart r (Memᴰ.head refl),
  first_with-update key new rs other (λ q m. apart q (Memᴰ.tail m)),
)
