-- ===== src/BlockRules/Covered.antt =====
-- What ApplyPreset leaves in the table: every rule of the preset, enabled.
use nexcore_x_ui.Prelude.{
  ℕ, String, Bool, true, false, ◌&&◌, ◌||◌, ◌≡◌, refl, sym, ap, ap₂, ◌∙◌, some, List, [], ◌∷◌, ◌++◌,
  arith, ◌==◌, ==_iff, eq_refl, ◌⊎◌, any, all, Bool-cases, Option-cases, inl, inr, update_rows,
  select_rows, Memᴰ, mem_of_select,
}
use nexcore_x_ui.Exec.{Result, ok, pure, transaction-ok, bind-eq-ok}
use nexcore_x_ui.Model.{BlockRule}
use nexcore_x_ui.Table.Schemas.{Tables, Panel}
use nexcore_x_ui.Panel.{find_block_rules, create_block_rule, update_block_rules}
use nexcore_x_ui.Panel.Effects.{to_exec-ok, store_block_rules-ok}
use nexcore_x_ui.BlockRules.Presets.{
  PresetRule, Preset, presets, find_preset, is_same_rule, enable_or_add, apply_rule, apply_rules,
  apply_preset,
}

-- The table has the rule for the inbound, and it is enabled.
abbrev pub covers : String → List BlockRule → PresetRule → Bool
covers tag rows p = any (λ r. is_same_rule p tag r && r.enable) rows

abbrev enabled_row : BlockRule → BlockRule
enabled_row r = record r { enable = true }

covers-append :
    (tag : String) (rows more : List BlockRule) (p : PresetRule)
    → covers tag rows p ≡ true
    → covers tag (rows ++ more) p ≡ true
covers-append tag [] more p h = cc
covers-append tag (r ∷ rows) more p h = elim (Bool-cases (is_same_rule p tag r && r.enable)) [
  | inl here ↦ rw here refl
  | inr there ↦ rw there (covers-append tag rows more p (rw there at h))
]

covers-last :
    (tag : String) (rows : List BlockRule) (r : BlockRule) (p : PresetRule)
    → is_same_rule p tag r && r.enable ≡ true
    → covers tag (rows ++ r ∷ []) p ≡ true
covers-last tag [] r p h = ground arith
covers-last tag (q ∷ rows) r p h =
    ap (λ b. (is_same_rule p tag q && q.enable) || b) (covers-last tag rows r p h) ∙ ground arith

covers-update :
    (tag : String) (id : ℕ) (rows : List BlockRule) (p : PresetRule)
    → covers tag rows p ≡ true
    → covers tag (update_rows (λ r. r.id == id) enabled_row rows) p ≡ true
covers-update tag id [] p h = cc
covers-update tag id (r ∷ rows) p h = ground (arith, covers-update tag id rows p)

covers_self :
    (tag : String) (rows : List BlockRule) (e : BlockRule) (p : PresetRule)
    → Memᴰ e rows
    → is_same_rule p tag e ≡ true
    → covers tag (update_rows (λ r. r.id == e.id) enabled_row rows) p ≡ true
covers_self tag [] e p m h = elim m [ ]
covers_self tag (r ∷ rows) e p (Memᴰ.head same) h =
    ap (λ x. covers tag (update_rows (λ r. r.id == x.id) enabled_row (r ∷ rows)) p) same
    ∙ ground (arith, ==_iff r.id r.id, ap (is_same_rule p tag) same)
covers_self tag (r ∷ rows) e p (Memᴰ.tail m) h = ground (arith, covers_self tag rows e p m h)

covers_member :
    (tag : String) (rows : List BlockRule) (e : BlockRule) (p : PresetRule)
    → Memᴰ e rows
    → is_same_rule p tag e && e.enable ≡ true
    → covers tag rows p ≡ true
covers_member tag [] e p m h = elim m [ ]
covers_member tag (r ∷ rows) e p (Memᴰ.head same) h =
    ground (arith, ap (λ x. is_same_rule p tag x && x.enable) same)
covers_member tag (r ∷ rows) e p (Memᴰ.tail m) h = ground (arith, covers_member tag rows e p m h)

module _ (g : Tables) where
  abbrev pub rules_of : Panel g → List BlockRule
  rules_of s = g.block_rules.rows s.block_rules

  -- A call that covers `p` and uncovers nothing.
  abbrev Covers : String → PresetRule → Panel g → Panel g → Type 0
  Covers tag p s t =
      (covers tag (rules_of t) p ≡ true)
      × ((q : PresetRule) → covers tag (rules_of s) q ≡ true → covers tag (rules_of t) q ≡ true)

  enable_or_add-Covers :
      (p : PresetRule) (tag : String) (now : ℕ) (found : List BlockRule) (s : Panel g) {t : Panel g}
      → found ≡ select_rows (is_same_rule p tag) (rules_of s)
      → enable_or_add g p tag now found s ≡ (ok tt, t)
      → Covers tag p s t
  enable_or_add-Covers p tag now [] s {t} listed h =
      let row : BlockRule = record {
        id = 0;
        kind = p.kind;
        value = p.value;
        remark = p.remark;
        inbound_tag = tag;
        enable = true;
        created_at = now;
      } in
      let (k, u, made, last) = bind-eq-ok (create_block_rule g row) (λ _. pure tt) s h in
      let (tab, stored, same_u) =
        store_block_rules-ok g (g.block_rules.create row s.block_rules) s made in
      let grown = g.block_rules.create-rows row s.block_rules stored in
      let result : rules_of t ≡ rules_of s ++ record row { id = k } ∷ [] =
        ap (λ (r : Result (Unit {0}) × Panel g). rules_of r.1) (sym last)
        ∙ ap rules_of same_u
        ∙ grown in
      (
        ap (λ rows. covers tag rows p) result
            ∙ covers-last tag (rules_of s) (record row { id = k }) p
                (ground (arith, eq_refl p.kind, eq_refl p.value, eq_refl tag)),
        λ q before.
            ap (λ rows. covers tag rows q) result
            ∙ covers-append tag (rules_of s) (record row { id = k } ∷ []) q before,
      )
  enable_or_add-Covers p tag now (e ∷ more) s {t} listed h =
      let (here, named) =
        mem_of_select (is_same_rule p tag) (rules_of s)
          (rw listed at (Memᴰ.head {x = e} {xs = more} refl)) in
      elim (Bool-cases e.enable) [
        | inl on ↦
            (let same : t ≡ s = ap (λ (r : Result (Unit {0}) × Panel g). r.1) (sym (rw on at h)) in
              (
                ap (λ q. covers tag (rules_of q) p) same
                    ∙ covers_member tag (rules_of s) e p here (ground arith),
                λ q before. ap (λ u. covers tag (rules_of u) q) same ∙ before,
              ))
        | inr off ↦
            (let (n, u, wrote, last) =
                bind-eq-ok (update_block_rules g (λ r. r.id == e.id) enabled_row) (λ _. pure tt) s
                  (rw off at h) in
              let (tab, stored, same_u) =
                store_block_rules-ok g
                  (g.block_rules.update (λ r. r.id == e.id) enabled_row s.block_rules) s wrote in
              let written =
                g.block_rules.update-rows (λ r. r.id == e.id) enabled_row s.block_rules stored in
              let result : rules_of t ≡ update_rows (λ r. r.id == e.id) enabled_row (rules_of s) =
                ap (λ (r : Result (Unit {0}) × Panel g). rules_of r.1) (sym last)
                ∙ ap rules_of same_u
                ∙ written in
              (
                ap (λ rows. covers tag rows p) result ∙ covers_self tag (rules_of s) e p here named,
                λ q before.
                    ap (λ rows. covers tag rows q) result
                    ∙ covers-update tag e.id (rules_of s) q before,
              ))
      ]

  apply_rule-Covers :
      (p : PresetRule) (tag : String) (now : ℕ) (s : Panel g) {t : Panel g}
      → apply_rule g p tag now s ≡ (ok tt, t)
      → Covers tag p s t
  unfolding apply_rule
  apply_rule-Covers p tag now s {t} h =
      let (found, u, sel, rest) =
        bind-eq-ok (find_block_rules g (is_same_rule p tag)) (enable_or_add g p tag now) s h in
      let (taken, same) =
        to_exec-ok g (g.block_rules.select (is_same_rule p tag) s.block_rules) s sel in
      let listed = g.block_rules.select-rows (is_same_rule p tag) s.block_rules taken in
      enable_or_add-Covers p tag now found s listed (rw same at rest)

  apply_rules-covers :
      (ps : List PresetRule) (tag : String) (now : ℕ) (s : Panel g) {t : Panel g}
      → apply_rules g ps tag now s ≡ (ok tt, t)
      → (all (covers tag (rules_of t)) ps ≡ true)
        × ((q : PresetRule) → covers tag (rules_of s) q ≡ true → covers tag (rules_of t) q ≡ true)
  unfolding apply_rules
  apply_rules-covers [] tag now s {t} h =
      let same : t ≡ s = ap (λ (r : Result (Unit {0}) × Panel g). r.1) (sym h) in
      (refl, λ q before. ap (λ u. covers tag (rules_of u) q) same ∙ before)
  apply_rules-covers (p ∷ ps) tag now s {t} h =
      let (_, u, one, rest) =
        bind-eq-ok (apply_rule g p tag now) (λ _. apply_rules g ps tag now) s h in
      let (covered, kept) = apply_rule-Covers p tag now s one in
      let (others, kept_later) = apply_rules-covers ps tag now u rest in
      (ap₂ ◌&&◌ (kept_later p covered) others, λ q before. kept_later q (kept q before))

  -- A successful ApplyPreset found the preset, and then every rule of it stands in the table for the
  -- inbound and is enabled; a preset rule that stood there enabled before still does.
  pub apply_preset-covers :
      (key tag : String) (now : ℕ) (q : PresetRule) (s : Panel g) {t : Panel g}
      → apply_preset g key tag now s ≡ (ok tt, t)
      → (p : Preset) × (find_preset key presets ≡ some p)
        × (all (covers tag (rules_of t)) p.rules ≡ true)
        × ((covers tag (rules_of s) q ≡ false) ⊎ (covers tag (rules_of t) q ≡ true))
  unfolding apply_preset
  apply_preset-covers key tag now q s {t} h = elim (Option-cases (find_preset key presets)) [
    | inl unknown ↦ cc (rw unknown at h)
    | inr (p, known) ↦
        (let (covered, kept) =
            apply_rules-covers p.rules tag now s
              (transaction-ok (apply_rules g p.rules tag now) s (rw known at h)) in
          (
            p,
            known,
            covered,
            elim (Bool-cases (covers tag (rules_of s) q)) [
              | inl before ↦ inr (kept q before)
              | inr absent ↦ inl absent
            ],
          ))
  ]
