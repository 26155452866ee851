-- ===== src/BlockRules/Grouping.antt =====
-- Grouping against a reference: the values of a bucket are those of the enabled rules filed under its
-- key, in order and each once.
use nexcore_x_ui.Prelude.{
  String, Bool, true, false, ◌≡◌, refl, sym, ap, ◌∙◌, List, [], ◌∷◌, ◌++◌, arith, str_eq, eq_iff,
  if◌then◌else◌, Bool-cases, inl, inr, ◌&&◌, ◌||◌, any, distinct, one_of,
}
use mathlib.Core.List.{append-nil, append_assoc}
use nexcore_x_ui.Model.{BlockRule}
use nexcore_x_ui.BlockRules.{RuleGroup, group_key, items, add_values, file_rule, group_rules}

-- What the buckets hold under a key.
abbrev pub held_under : String → List RuleGroup → List String
held_under k [] = []
held_under k (b ∷ bs) = if str_eq b.key k then b.values else held_under k bs

-- The values of the enabled rules with a key, one rule after the other.
abbrev pub values_under : String → List BlockRule → List String
values_under k [] = []
values_under k (r ∷ rs) =
    let rest = values_under k rs in
    if r.enable && str_eq (group_key r) k then items r.value ++ rest else rest

-- Each value once, at its first place.
pub first_places : List String → List String → List String
first_places earlier [] = []
first_places earlier (v ∷ vs) =
    let rest = first_places (v ∷ earlier) vs in
    let skipped = first_places earlier vs in if one_of earlier v then skipped else v ∷ rest

add_values-append :
    (held xs ys : List String) → add_values held (xs ++ ys) ≡ add_values (add_values held xs) ys
unfolding add_values
add_values-append held [] ys = refl
add_values-append held (x ∷ xs) ys =
    add_values-append (if one_of held x then held else held ++ x ∷ []) xs ys

held_under-file_rule :
    (k : String) (r : BlockRule) (bs : List RuleGroup)
    → held_under k (file_rule r bs) ≡ (
        if str_eq (group_key r) k
        then add_values (held_under k bs) (items r.value)
        else held_under k bs)
unfolding file_rule
held_under-file_rule k r [] = refl
held_under-file_rule k r (b ∷ bs) = elim (Bool-cases (str_eq b.key (group_key r))) [
  | inl here ↦
      (let name : b.key ≡ group_key r = (eq_iff b.key (group_key r)).0 here in
        rw here (elim (Bool-cases (str_eq (group_key r) k)) [
          | inl same ↦
              (let found : str_eq b.key k ≡ true = ap (λ s. str_eq s k) name ∙ same in
                rw (same, found) refl)
          | inr other ↦
              (let missed : str_eq b.key k ≡ false = ap (λ s. str_eq s k) name ∙ other in
                rw (other, missed) refl)
        ]))
  | inr there ↦ rw there (elim (Bool-cases (str_eq b.key k)) [
    | inl mine ↦
        (let apart : str_eq (group_key r) k ≡ false =
            ground (arith, eq_iff b.key k, eq_iff (group_key r) k, eq_iff b.key (group_key r)) in
          rw (mine, apart) refl)
    | inr other ↦ rw other (held_under-file_rule k r bs)
  ])
]

held_under-group_rules :
    (k : String) (groups : List RuleGroup) (rs : List BlockRule)
    → held_under k (group_rules groups rs) ≡ add_values (held_under k groups) (values_under k rs)
unfolding group_rules
held_under-group_rules k groups [] = unfold add_values in refl
held_under-group_rules k groups (r ∷ rs) = elim (Bool-cases r.enable) [
  | inl on ↦
      held_under-group_rules k (if r.enable then file_rule r groups else groups) rs
      ∙ ap (λ gs. add_values (held_under k gs) (values_under k rs))
          (ap (λ b. if b then file_rule r groups else groups) on)
      ∙ ap (λ h. add_values h (values_under k rs)) (held_under-file_rule k r groups)
      ∙ filed r on
  | inr off ↦
      held_under-group_rules k (if r.enable then file_rule r groups else groups) rs
      ∙ ap (λ gs. add_values (held_under k gs) (values_under k rs))
          (ap (λ b. if b then file_rule r groups else groups) off)
      ∙ ap
          (λ b. add_values (held_under k groups) (
            if b && str_eq (group_key r) k
            then items r.value ++ values_under k rs
            else values_under k rs))
          (sym off)
]
  where
    filed :
        (r : BlockRule)
        → r.enable ≡ true
        → add_values
            (if str_eq (group_key r) k
              then add_values (held_under k groups) (items r.value)
              else held_under k groups)
            (values_under k rs)
          ≡ add_values (held_under k groups) (values_under k (r ∷ rs))
    filed r on = elim (Bool-cases (str_eq (group_key r) k)) [
      | inl same ↦
          ap
            (λ b.
              add_values
                (if b
                  then add_values (held_under k groups) (items r.value)
                  else held_under k groups)
                (values_under k rs))
            same
          ∙ sym (add_values-append (held_under k groups) (items r.value) (values_under k rs))
          ∙ ap
              (λ b.
                add_values (held_under k groups)
                  (if b then items r.value ++ values_under k rs else values_under k rs))
              (sym (ap (λ e. e && str_eq (group_key r) k) on ∙ same))
      | inr other ↦
          ap
            (λ b.
              add_values
                (if b
                  then add_values (held_under k groups) (items r.value)
                  else held_under k groups)
                (values_under k rs))
            other
          ∙ ap
              (λ b.
                add_values (held_under k groups)
                  (if b then items r.value ++ values_under k rs else values_under k rs))
              (sym (ap (λ e. e && str_eq (group_key r) k) on ∙ other))
    ]

one_of-append :
    (held : List String) (x v : String) → one_of (held ++ x ∷ []) v ≡ one_of (x ∷ held) v
one_of-append [] x v = refl
one_of-append (h ∷ held) x v = ground (arith, one_of-append held x v)

add_values-first_places :
    (held earlier xs : List String)
    → ((v : String) → one_of held v ≡ one_of earlier v)
    → add_values held xs ≡ held ++ first_places earlier xs
unfolding add_values first_places
add_values-first_places held earlier [] same = sym (append-nil held)
add_values-first_places held earlier (x ∷ xs) same = elim (Bool-cases (one_of earlier x)) [
  | inl old ↦ rw (same x ∙ old, old) (add_values-first_places held earlier xs same)
  | inr new ↦
      rw (same x ∙ new, new)
        (add_values-first_places (held ++ x ∷ []) (x ∷ earlier) xs (longer new)
          ∙ append_assoc held (x ∷ []) (first_places (x ∷ earlier) xs))
]
  where
    longer :
        one_of earlier x ≡ false → (v : String) → one_of (held ++ x ∷ []) v ≡ one_of (x ∷ earlier) v
    longer new v = one_of-append held x v ∙ ap (λ b. str_eq x v || b) (same v)

abbrev pub same_key : RuleGroup → RuleGroup → Bool
same_key a b = str_eq a.key b.key

none_with :
    (k : String) (r : BlockRule) (bs : List RuleGroup) (b : RuleGroup)
    → str_eq b.key (group_key r) ≡ false
    → any (same_key b) bs ≡ false
    → any (same_key b) (file_rule r bs) ≡ false
unfolding file_rule
none_with k r [] b apart none_yet = ground arith
none_with k r (c ∷ bs) b apart none_yet = elim (Bool-cases (str_eq c.key (group_key r))) [
  | inl here ↦ rw here (ground arith)
  | inr there ↦ rw there (ground (arith, none_with k r bs b apart (ground arith)))
]

file_rule-distinct :
    (r : BlockRule) (bs : List RuleGroup)
    → distinct same_key bs ≡ true
    → distinct same_key (file_rule r bs) ≡ true
unfolding file_rule
file_rule-distinct r [] d = refl
file_rule-distinct r (b ∷ bs) d = elim (Bool-cases (str_eq b.key (group_key r))) [
  | inl here ↦ rw here (ground arith)
  | inr there ↦ rw there (
      ground (
        arith,
        file_rule-distinct r bs (ground arith),
        none_with b.key r bs b there (ground arith),
      ))
]

group_rules-distinct :
    (groups : List RuleGroup) (rs : List BlockRule)
    → distinct same_key groups ≡ true
    → distinct same_key (group_rules groups rs) ≡ true
unfolding group_rules
group_rules-distinct groups [] d = d
group_rules-distinct groups (r ∷ rs) d = elim (Bool-cases r.enable) [
  | inl on ↦ group_rules-distinct (if r.enable then file_rule r groups else groups) rs (
      ap (λ b. distinct same_key (if b then file_rule r groups else groups)) on
      ∙ file_rule-distinct r groups d)
  | inr off ↦
      group_rules-distinct (if r.enable then file_rule r groups else groups) rs
        (ap (λ b. distinct same_key (if b then file_rule r groups else groups)) off ∙ d)
]

-- The buckets have distinct keys, and the bucket of a key holds the values of the enabled rules with
-- that key, in the order of the rules, each at its first place only.
pub group_rules-values :
    (k : String) (rs : List BlockRule)
    → (held_under k (group_rules [] rs) ≡ first_places [] (values_under k rs))
      × (distinct same_key (group_rules [] rs) ≡ true)
group_rules-values k rs = (
  held_under-group_rules k [] rs ∙ add_values-first_places [] [] (values_under k rs) (λ v. refl),
  group_rules-distinct [] rs refl,
)
