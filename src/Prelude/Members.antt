-- ===== src/Prelude/Members.antt =====
-- Members of a list, and what holds of all of them.
use mathlib.Core.Path.{◌≡◌, sym, ◌∙◌, refl, ap₂, ap}
use mathlib.Core.Bool.{Bool, true, false}
use mathlib.Core.Logic.{inl, inr}
use mathlib.Core.List.{List, [], ◌∷◌, ◌++◌, map, Memᴰ}
use Prim.Native.String.{String}
use text.Mathlib.Text.{◌==◌}
use native.Mathlib.Omega.{arith}
use package.nexcore_x_ui.Prelude.Tests.{if◌then◌else◌, Bool-cases}
use package.nexcore_x_ui.Prelude.Lists.{All, any, all, distinct, select_rows, update_rows}

-- Whether a text is among some texts.
abbrev pub one_of : List String → String → Bool
one_of names s = any (λ n. n == s) names

module _ {ℓ} {A : Type ℓ} where
  pub All-of_mem {κ} : {P : A → Type κ} (xs : List A) → ((x : A) → Memᴰ x xs → P x) → All P xs
  All-of_mem [] h = tt
  All-of_mem (x ∷ xs) h = (h x (Memᴰ.head refl), All-of_mem xs (λ y m. h y (Memᴰ.tail m)))

  pub All-imp {κ μ} :
      {P : A → Type κ} {Q : A → Type μ} (xs : List A) → ((x : A) → P x → Q x) → All P xs → All Q xs
  All-imp [] f h = tt
  All-imp (x ∷ xs) f (p, ps) = (f x p, All-imp xs f ps)

  pub All-imp₂ {κ μ ν} :
      {P : A → Type κ} {Q : A → Type μ} {R : A → Type ν} (xs : List A)
      → ((x : A) → P x → Q x → R x)
      → All P xs
      → All Q xs
      → All R xs
  All-imp₂ [] f h k = tt
  All-imp₂ (x ∷ xs) f (p, ps) (q, qs) = (f x p q, All-imp₂ xs f ps qs)

  pub All-append {κ} : (P : A → Type κ) (xs ys : List A) → All P xs → All P ys → All P (xs ++ ys)
  All-append P [] ys h k = k
  All-append P (x ∷ xs) ys (p, ps) k = (p, All-append P xs ys ps k)

  pub All-map {κ} :
      (P : A → Type κ) (f : A → A) (xs : List A) → All (λ x. P (f x)) xs → All P (map f xs)
  All-map P f [] h = tt
  All-map P f (x ∷ xs) (p, ps) = (p, All-map P f xs ps)

  pub map_eq_of_All : (f g : A → A) (xs : List A) → All (λ x. f x ≡ g x) xs → map f xs ≡ map g xs
  map_eq_of_All f g [] h = refl
  map_eq_of_All f g (x ∷ xs) (p, ps) = ap₂ ◌∷◌ p (map_eq_of_All f g xs ps)

  pub map_self_of_All : (f : A → A) (xs : List A) → All (λ x. f x ≡ x) xs → map f xs ≡ xs
  map_self_of_All f [] h = refl
  map_self_of_All f (x ∷ xs) (p, ps) = ap₂ ◌∷◌ p (map_self_of_All f xs ps)

  -- An UPDATE is a map that leaves the other rows alone.
  pub update_rows_eq_map :
      (p : A → Bool) (f g : A → A) (xs : List A)
      → All (λ x. (if p x then f x else x) ≡ g x) xs
      → update_rows p f xs ≡ map g xs
  update_rows_eq_map p f g [] h = refl
  update_rows_eq_map p f g (x ∷ xs) (e, es) = ap₂ ◌∷◌ e (update_rows_eq_map p f g xs es)

  pub update_rows_eq :
      (p q : A → Bool) (f g : A → A) (xs : List A)
      → All (λ x. (if p x then f x else x) ≡ (if q x then g x else x)) xs
      → update_rows p f xs ≡ update_rows q g xs
  update_rows_eq p q f g [] h = refl
  update_rows_eq p q f g (x ∷ xs) (e, es) = ap₂ ◌∷◌ e (update_rows_eq p q f g xs es)

  pub not_any_of_mem :
      (p : A → Bool) (xs : List A) {c : A} → any p xs ≡ false → Memᴰ c xs → p c ≡ false
  not_any_of_mem p [] h m = elim m [ ]
  not_any_of_mem p (x ∷ xs) h (Memᴰ.head e) = ap p e ∙ ground arith
  not_any_of_mem p (x ∷ xs) h (Memᴰ.tail m) = not_any_of_mem p xs (ground arith) m

  pub all_of_mem : (p : A → Bool) (xs : List A) {c : A} → all p xs ≡ true → Memᴰ c xs → p c ≡ true
  all_of_mem p [] h m = elim m [ ]
  all_of_mem p (x ∷ xs) h (Memᴰ.head e) = ap p e ∙ ground arith
  all_of_mem p (x ∷ xs) h (Memᴰ.tail m) = all_of_mem p xs (ground arith) m

  pub any_of_mem : (p : A → Bool) (xs : List A) {c : A} → Memᴰ c xs → p c ≡ true → any p xs ≡ true
  any_of_mem p [] m h = elim m [ ]
  any_of_mem p (x ∷ xs) (Memᴰ.head e) h = rw (ap p (sym e) ∙ h) refl
  any_of_mem p (x ∷ xs) (Memᴰ.tail m) h = ground (arith, any_of_mem p xs m h)

  pub select_all : (xs : List A) → select_rows (λ _. true) xs ≡ xs
  select_all [] = refl
  select_all (x ∷ xs) = ap (◌∷◌ x) (select_all xs)

  pub select_none : (p : A → Bool) (xs : List A) → any p xs ≡ false → select_rows p xs ≡ []
  select_none p [] h = refl
  select_none p (x ∷ xs) h = ground (arith, select_none p xs)

  pub any_of_select : (p : A → Bool) (xs : List A) → select_rows p xs ≡ [] → any p xs ≡ false
  any_of_select p [] h = refl
  any_of_select p (x ∷ xs) h = ground (arith, any_of_select p xs)

  -- A row after an UPDATE is a row before it, rewritten or not.
  pub mem_of_update :
      (p : A → Bool) (f : A → A) (rows : List A) {x : A}
      → Memᴰ x (update_rows p f rows)
      → (y : A) × Memᴰ y rows × (x ≡ (if p y then f y else y))
  mem_of_update p f [] m = elim m [ ]
  mem_of_update p f (r ∷ rows) (Memᴰ.head e) = (r, Memᴰ.head refl, e)
  mem_of_update p f (r ∷ rows) (Memᴰ.tail m) =
      let (y, n, e) = mem_of_update p f rows m in (y, Memᴰ.tail n, e)

  pub mem-select :
      (p : A → Bool) (xs : List A) {c : A} → Memᴰ c xs → p c ≡ true → Memᴰ c (select_rows p xs)
  mem-select p [] m h = elim m [ ]
  mem-select p (x ∷ xs) (Memᴰ.head e) h = rw (ap p (sym e) ∙ h) (Memᴰ.head e)
  mem-select p (x ∷ xs) (Memᴰ.tail m) h = elim (Bool-cases (p x)) [
    | inl e ↦ rw e (Memᴰ.tail (mem-select p xs m h))
    | inr e ↦ rw e (mem-select p xs m h)
  ]

  weaken_select :
      (p : A → Bool) (x : A) (xs : List A) {c : A}
      → p x ≡ true
      → (Memᴰ c (select_rows p xs) → Memᴰ c xs × (p c ≡ true))
      → Memᴰ c (x ∷ select_rows p xs)
      → Memᴰ c (x ∷ xs) × (p c ≡ true)
  weaken_select p x xs e rest (Memᴰ.head f) = (Memᴰ.head f, ap p f ∙ e)
  weaken_select p x xs e rest (Memᴰ.tail m) = (Memᴰ.tail (rest m).0, (rest m).1)

  pub mem_of_select :
      (p : A → Bool) (xs : List A) {c : A} → Memᴰ c (select_rows p xs) → Memᴰ c xs × (p c ≡ true)
  mem_of_select p [] m = elim m [ ]
  mem_of_select p (x ∷ xs) m = elim (Bool-cases (p x)) [
    | inl e ↦ weaken_select p x xs e (mem_of_select p xs) (rw e at m)
    | inr e ↦ (let rest = mem_of_select p xs (rw e at m) in (Memᴰ.tail rest.0, rest.1))
  ]

-- Two members of a list with distinct keys that share their key are one.
module _ {ℓ} {A : Type ℓ} (same : A → A → Bool) (same_comm : (a b : A) → same a b ≡ same b a) where
  pub distinct-eq :
      (xs : List A) {c r : A}
      → distinct same xs ≡ true
      → Memᴰ c xs
      → Memᴰ r xs
      → same c r ≡ true
      → r ≡ c
  distinct-eq [] d m n h = elim m [ ]
  distinct-eq (x ∷ xs) d (Memᴰ.head e) (Memᴰ.head f) h = f ∙ sym e
  distinct-eq (x ∷ xs) {c} {r} d (Memᴰ.head e) (Memᴰ.tail m) h =
      cc (not_any_of_mem (same x) xs (ground arith) m, h, ap (λ y. same y r) e)
  distinct-eq (x ∷ xs) {c} {r} d (Memᴰ.tail m) (Memᴰ.head f) h =
      cc (not_any_of_mem (same x) xs (ground arith) m, h, ap (same c) f, same_comm x c)
  distinct-eq (x ∷ xs) d (Memᴰ.tail m) (Memᴰ.tail n) h = distinct-eq xs (ground arith) m n h
