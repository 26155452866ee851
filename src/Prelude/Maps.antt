-- ===== src/Prelude/Maps.antt =====
-- A Go map with text keys, as the list of its entries; `keep` is a loop that deletes or rewrites entries.
use Prim.Native.Nat.{◌≤◌, ◌<◌}
use text.Mathlib.TextPositions.{eq_refl}
use Prim.Native.String.{String}
use mathlib.Core.Bool.{Bool, true, false, not, ◌&&◌, ◌||◌}
use mathlib.Core.List.{List, [], ◌∷◌}
use mathlib.Core.Logic.{inl, inr}
use mathlib.Core.Option.{Option, none, some}
use mathlib.Core.Path.{◌≡◌, refl, sym, ap, ◌∙◌}
use native.Mathlib.Omega.{arith}
use text.Mathlib.Text.{◌==◌}
use text.Mathlib.TextEquality.{eq_iff}
use package.nexcore_x_ui.Prelude.Lists.{length}
use package.nexcore_x_ui.Prelude.Tests.{if◌then◌else◌, Bool-cases, Option-cases}

abbrev pub Map {ℓ} : Type ℓ → Type ℓ
Map V = List (String × V)

module _ {ℓ} {V : Type ℓ} where
  -- m[k]
  abbrev pub lookup : String → Map V → Option V
  lookup k [] = none
  lookup k ((j, v) ∷ m) = if j == k then some v else lookup k m

  -- m[k] = v
  abbrev pub insert : String → V → Map V → Map V
  insert k v [] = (k, v) ∷ []
  insert k v ((j, w) ∷ m) = if j == k then (j, v) ∷ m else (j, w) ∷ insert k v m

  abbrev pub has_key : String → Map V → Bool
  has_key k [] = false
  has_key k ((j, v) ∷ m) = j == k || has_key k m

  -- What a map is: no key has two entries.
  abbrev pub keys_distinct : Map V → Bool
  keys_distinct [] = true
  keys_distinct ((k, v) ∷ m) = not (has_key k m) && keys_distinct m

  abbrev pub put_back : String → Option V → Map V → Map V
  put_back k none m = m
  put_back k (some v) m = (k, v) ∷ m

  pub lookup-insert :
      (k j : String) (v : V) (m : Map V)
      → lookup j (insert k v m) ≡ (if k == j then some v else lookup j m)
  lookup-insert k j v [] = refl
  lookup-insert k j v ((i, w) ∷ m) =
      ground (arith, eq_iff k j, eq_iff i k, eq_iff i j, lookup-insert k j v m)

  has_key-insert :
      (k j : String) (v : V) (m : Map V) → has_key j (insert k v m) ≡ (k == j || has_key j m)
  has_key-insert k j v [] = refl
  has_key-insert k j v ((i, w) ∷ m) =
      ground (arith, eq_iff k j, eq_iff i k, eq_iff i j, has_key-insert k j v m)

  pub insert-keys_distinct :
      (k : String) (v : V) (m : Map V)
      → keys_distinct m ≡ true
      → keys_distinct (insert k v m) ≡ true
  insert-keys_distinct k v [] h = refl
  insert-keys_distinct k v ((j, w) ∷ m) h =
      ground (arith, eq_iff j k, eq_iff k j, has_key-insert k j v m, insert-keys_distinct k v m)

  lookup-none : (k : String) (m : Map V) → has_key k m ≡ false → lookup k m ≡ none
  lookup-none k [] h = refl
  lookup-none k ((j, v) ∷ m) h = ground (arith, lookup-none k m)

module _ {ℓ} {V : Type ℓ} where
  -- delete(m, k)
  abbrev pub remove : String → Map V → Map V
  remove k [] = []
  remove k ((j, v) ∷ m) = let rest = remove k m in if j == k then rest else (j, v) ∷ rest

  pub lookup-remove :
      (k j : String) (m : Map V) → lookup j (remove k m) ≡ (if k == j then none else lookup j m)
  lookup-remove k j [] = ground arith
  lookup-remove k j ((i, v) ∷ m) =
      ground (arith, eq_iff k j, eq_iff i j, eq_iff i k, lookup-remove k j m)

  has_key-remove : (k j : String) (m : Map V) → has_key j m ≡ false → has_key j (remove k m) ≡ false
  has_key-remove k j [] h = refl
  has_key-remove k j ((i, v) ∷ m) h = ground (arith, has_key-remove k j m)

  pub remove-keys_distinct :
      (k : String) (m : Map V) → keys_distinct m ≡ true → keys_distinct (remove k m) ≡ true
  remove-keys_distinct k [] h = refl
  remove-keys_distinct k ((i, v) ∷ m) h =
      ground (arith, remove-keys_distinct k m, has_key-remove k i m)

  length-remove_le : (k : String) (m : Map V) → length (remove k m) ≤ length m
  length-remove_le k [] = omega arith
  length-remove_le k ((i, v) ∷ m) = ground (arith, length-remove_le k m)

  length-remove : (k : String) (m : Map V) → has_key k m ≡ true → length (remove k m) < length m
  length-remove k [] h = cc
  length-remove k ((i, w) ∷ m) h = ground (arith, length-remove_le k m, length-remove k m)

  has_key_of_lookup : (k : String) (m : Map V) {v : V} → lookup k m ≡ some v → has_key k m ≡ true
  has_key_of_lookup k [] h = cc
  has_key_of_lookup k ((i, w) ∷ m) h = elim (Bool-cases (i == k)) [
    | inl here ↦ rw here refl
    | inr there ↦ rw there (has_key_of_lookup k m (rw there at h))
  ]

  -- Two maps of one size agree everywhere when the second has the entries of the first.
  pub lookup-same :
      (m n : Map V)
      → keys_distinct m ≡ true
      → keys_distinct n ≡ true
      → length n ≤ length m
      → ((k : String) (v : V) → lookup k m ≡ some v → lookup k n ≡ some v)
      → (j : String) → lookup j n ≡ lookup j m
  lookup-same [] [] d e few held j = refl
  lookup-same [] ((i, w) ∷ n) d e few held j = ground arith
  lookup-same ((k, v) ∷ m) n d e few held j =
      let here : lookup k n ≡ some v =
        held k v (ap (λ b. if b then some v else lookup k m) (eq_refl k)) in
      let rest : lookup j (remove k n) ≡ lookup j m =
        lookup-same m (remove k n) (ground arith) (remove-keys_distinct k n e)
          (ground (arith, length-remove k n (has_key_of_lookup k n here), few))
          (λ i w found. others i w found) j in
      elim (Bool-cases (k == j)) [
        | inl same ↦ rw same (ap (λ i. lookup i n) (sym ((eq_iff k j).0 same)) ∙ here)
        | inr other ↦ rw other (sym (rw other at (lookup-remove k j n)) ∙ rest)
      ]
    where
      others : (i : String) (w : V) → lookup i m ≡ some w → lookup i (remove k n) ≡ some w
      others i w found = elim (Bool-cases (k == i)) [
        | inl same ↦
            cc (lookup-none k m (ground arith), ap (λ x. lookup x m) ((eq_iff k i).0 same), found)
        | inr other ↦ rw (lookup-remove k i n) (rw other (held i w (rw other found)))
      ]

module _ {ℓ} {V W : Type ℓ} where
  abbrev pub keep : (V → Option W) → Map V → Map W
  keep f [] = []
  keep f ((k, v) ∷ m) = put_back k (f v) (keep f m)

  abbrev pub bind_value : Option V → (V → Option W) → Option W
  bind_value none f = none
  bind_value (some v) f = f v

  has_key-keep :
      (f : V → Option W) (k : String) (m : Map V)
      → has_key k m ≡ false
      → has_key k (keep f m) ≡ false
  has_key-keep f k [] h = refl
  has_key-keep f k ((j, v) ∷ m) h =
      let rest = has_key-keep f k m (ground arith) in
      elim (Option-cases (f v)) [
        | inl gone ↦ rw gone rest
        | inr (w, left) ↦ rw left (ground (arith, rest))
      ]

  pub lookup-keep :
      (f : V → Option W) (k : String) (m : Map V)
      → keys_distinct m ≡ true
      → lookup k (keep f m) ≡ bind_value (lookup k m) f
  lookup-keep f k [] h = refl
  lookup-keep f k ((j, v) ∷ m) h =
      let rest = lookup-keep f k m (ground arith) in
      let absent : has_key j (keep f m) ≡ false = has_key-keep f j m (ground arith) in
      elim (Bool-cases (j == k)) [
        | inl here ↦ rw here (elim (Option-cases (f v)) [
          | inl gone ↦ rw gone (
              lookup-none k (keep f m)
                (ap (λ i. has_key i (keep f m)) (sym ((eq_iff j k).0 here)) ∙ absent))
          | inr (w, left) ↦ rw left (rw here refl)
        ])
        | inr there ↦ rw there (elim (Option-cases (f v)) [
          | inl gone ↦ rw gone rest
          | inr (w, left) ↦ rw left (rw there rest)
        ])
      ]

  pub keep-keys_distinct :
      (f : V → Option W) (m : Map V) → keys_distinct m ≡ true → keys_distinct (keep f m) ≡ true
  keep-keys_distinct f [] h = refl
  keep-keys_distinct f ((j, v) ∷ m) h =
      let rest = keep-keys_distinct f m (ground arith) in
      let absent : has_key j (keep f m) ≡ false = has_key-keep f j m (ground arith) in
      elim (Option-cases (f v)) [
        | inl gone ↦ rw gone rest
        | inr (w, left) ↦ rw left (ground (arith, rest, absent))
      ]

module _ {ℓ} {V W : Type ℓ} where
  pub keep-keep :
      (f : V → Option W) (g : V → Option V) (m : Map V)
      → ((v : V) → bind_value (g v) f ≡ f v)
      → keep f (keep g m) ≡ keep f m
  keep-keep f g [] h = refl
  keep-keep f g ((k, v) ∷ m) h = elim (Option-cases (g v)) [
    | inl gone ↦
        (let lost : f v ≡ none = sym (h v) ∙ ap (λ o. bind_value o f) gone in
          rw (gone, lost) (keep-keep f g m h))
    | inr (w, left) ↦
        (let same : f w ≡ f v = ap (λ o. bind_value o f) (sym left) ∙ h v in
          rw (left, same) (ap (put_back k (f v)) (keep-keep f g m h)))
  ]
