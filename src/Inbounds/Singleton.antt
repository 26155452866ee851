-- ===== src/Inbounds/Singleton.antt =====
-- AddInbound keeps at most one multi-user inbound of a protocol per outbound.
use nexcore_x_ui.Prelude.{
  Bool, true, false, ◌&&◌, ◌||◌, ◌≡◌, refl, ◌∙◌, ap, List, [], ◌∷◌, ◌++◌, arith, any, distinct,
  select_rows, str_eq, inl, inr, ◌⊎◌, Bool-cases,
}
use nexcore_x_ui.Exec.{ok}
use nexcore_x_ui.Model.{Inbound, InboundConfig}
use nexcore_x_ui.Table.Schemas.{Tables, Panel}
use nexcore_x_ui.Inbounds.{
  Net, same_protocol, is_multi_user_protocol, in_the_way, same_bucket, add_inbound,
}
use nexcore_x_ui.Inbounds.Frames.{add_inbound-ok}

-- Two multi-user inbounds of one protocol that route to one outbound.
abbrev pub conflict : Inbound → Inbound → Bool
conflict a b =
    same_protocol a.protocol b.protocol
    && (is_multi_user_protocol a
        && (is_multi_user_protocol b && str_eq a.outbound_tag b.outbound_tag))

distinct-append :
    (same : Inbound → Inbound → Bool) (xs : List Inbound) (y : Inbound)
    → distinct same xs ≡ true
    → any (λ x. same x y) xs ≡ false
    → distinct same (xs ++ y ∷ []) ≡ true
distinct-append same [] y d n = refl
distinct-append same (x ∷ xs) y d n =
    let rest = distinct-append same xs y (ground arith) (ground arith) in
    ground (arith, rest, any-append (same x) xs y)
  where
    any-append :
        (p : Inbound → Bool) (xs : List Inbound) (y : Inbound)
        → p y ≡ false
        → any p (xs ++ y ∷ []) ≡ any p xs
    any-append p [] y h = ground arith
    any-append p (x ∷ xs) y h = ap (λ b. p x || b) (any-append p xs y h)

any_select-false :
    (p q c : Inbound → Bool) (rows : List Inbound)
    → ((r : Inbound) → c r ≡ p r && q r)
    → any q (select_rows p rows) ≡ false
    → any c rows ≡ false
any_select-false p q c [] e h = refl
any_select-false p q c (r ∷ rows) e h = elim (Bool-cases (p r)) [
  | inl holds ↦
      (let rest = any_select-false p q c rows e (ground arith) in ground (arith, rest, e r))
  | inr fails ↦
      (let rest = any_select-false p q c rows e (ground arith) in ground (arith, rest, e r))
]

not_any :
    (c : Inbound → Bool) (rows : List Inbound) → ((r : Inbound) → c r ≡ false) → any c rows ≡ false
not_any c [] h = refl
not_any c (r ∷ rows) h = ground (arith, h r, not_any c rows h)

conflict-way :
    (i r : Inbound)
    → is_multi_user_protocol i ≡ true
    → conflict r i ≡ in_the_way i 0 r && same_bucket i r
conflict-way i r multi =
    way (same_protocol r.protocol i.protocol) (is_multi_user_protocol r) (is_multi_user_protocol i)
      (str_eq r.outbound_tag i.outbound_tag) multi
  where
    way : (a b c d : Bool) → c ≡ true → (a && (b && (c && d))) ≡ ((a && true) && (b && d))
    way true true c d h = rw h refl
    way true false c d h = refl
    way false b c d h = refl

conflict-single : (i r : Inbound) → is_multi_user_protocol i ≡ false → conflict r i ≡ false
conflict-single i r single =
    way (same_protocol r.protocol i.protocol) (is_multi_user_protocol r) (is_multi_user_protocol i)
      (str_eq r.outbound_tag i.outbound_tag) single
  where
    way : (a b c d : Bool) → c ≡ false → (a && (b && (c && d))) ≡ false
    way true true c d h = rw h refl
    way true false c d h = refl
    way false b c d h = refl

free_of_conflict :
    (i : Inbound) (rows : List Inbound)
    → (is_multi_user_protocol i ≡ false)
      ⊎ (any (same_bucket i) (select_rows (in_the_way i 0) rows) ≡ false)
    → any (λ r. conflict r i) rows ≡ false
free_of_conflict i rows clear = elim (Bool-cases (is_multi_user_protocol i)) [
  | inl multi ↦ elim clear [
    | inl single ↦ cc
    | inr free ↦
        any_select-false (in_the_way i 0) (same_bucket i) (λ r. conflict r i) rows
          (λ r. conflict-way i r multi) free
  ]
  | inr single ↦ not_any (λ r. conflict r i) rows (λ r. conflict-single i r single)
]

module _ (g : Tables) (net : Net) (accepts : List InboundConfig → Bool) where
  -- If no two multi-user inbounds of the same protocol share an outbound, then none do after a
  -- successful add_inbound of an inbound that has no key yet.
  pub add_inbound-singleton :
      (i : Inbound) (s : Panel g) {t : Panel g}
      → i.id ≡ 0
      → distinct conflict (g.inbounds.rows s.inbounds) ≡ true
      → add_inbound g net accepts i s ≡ (ok tt, t)
      → distinct conflict (g.inbounds.rows t.inbounds) ≡ true
  unfolding is_multi_user_protocol
  add_inbound-singleton i s {t} fresh before h =
      let (k, rows, clear, dry) = add_inbound-ok g net accepts i s fresh h in
      ap (distinct conflict) rows
      ∙ distinct-append conflict (g.inbounds.rows s.inbounds) (record i { id = k }) before
          (free_of_conflict i (g.inbounds.rows s.inbounds) clear)
