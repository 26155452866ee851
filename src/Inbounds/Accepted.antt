-- ===== src/Inbounds/Accepted.antt =====
-- The dry run of AddInbound: what the database holds after it is what `xray -test` was given.
use nexcore_x_ui.Prelude.{
  ℕ, Bool, true, false, ◌&&◌, ◌≡◌, refl, sym, ◌∙◌, ap, ap₂, List, [], ◌∷◌, ◌++◌, if◌then◌else◌, inl,
  inr, ◌⊎◌, Bool-cases, ◌==◌, ltb,
}
use nexcore_x_ui.Exec.{ok}
use nexcore_x_ui.Model.{Inbound, InboundConfig, gen_xray_inbound_config}
use nexcore_x_ui.Table.Schemas.{Tables, Panel}
use nexcore_x_ui.Inbounds.{Net, add_inbound, candidate_configs, with_replacement}
use nexcore_x_ui.Inbounds.Frames.{add_inbound-ok}

-- A replacement without a key is appended.
with_replacement-new :
    (r : Inbound) (rows : List Inbound) → r.id ≡ 0 → with_replacement r rows ≡ rows ++ r ∷ []
unfolding with_replacement
with_replacement-new r [] h = ap (λ k. if k == 0 then r ∷ [] else []) h
with_replacement-new r (i ∷ is) h =
    ap₂ ◌∷◌ (ap (λ k. if ltb 0 k && i.id == k then r else i) h) (with_replacement-new r is h)

-- The key of a row is not part of its config.
candidate_configs-key :
    (r : Inbound) (k : ℕ) (rows : List Inbound)
    → candidate_configs (rows ++ record r { id = k } ∷ []) ≡ candidate_configs (rows ++ r ∷ [])
unfolding candidate_configs gen_xray_inbound_config
candidate_configs-key r k [] = elim (Bool-cases r.enable) [
  | inl on ↦ rw on refl
  | inr off ↦ rw off refl
]
candidate_configs-key r k (x ∷ rows) = elim (Bool-cases x.enable) [
  | inl on ↦ rw on (ap (◌∷◌ (gen_xray_inbound_config x)) (candidate_configs-key r k rows))
  | inr off ↦ rw off (candidate_configs-key r k rows)
]

-- A disabled row is not part of the config.
candidate_configs-off :
    (r : Inbound) (rows : List Inbound)
    → r.enable ≡ false
    → candidate_configs (rows ++ r ∷ []) ≡ candidate_configs rows
unfolding candidate_configs
candidate_configs-off r [] h = rw h refl
candidate_configs-off r (x ∷ rows) h = elim (Bool-cases x.enable) [
  | inl on ↦ rw on (ap (◌∷◌ (gen_xray_inbound_config x)) (candidate_configs-off r rows h))
  | inr off ↦ rw off (candidate_configs-off r rows h)
]

module _ (g : Tables) (net : Net) (accepts : List InboundConfig → Bool) where
  -- After a successful add_inbound of an inbound that has no key yet, Xray accepts the config of the
  -- enabled inbounds in the database, if the new inbound is enabled or Xray accepted the config
  -- before the call.
  pub add_inbound-accepted :
      (i : Inbound) (s : Panel g) {t : Panel g}
      → i.id ≡ 0
      → (i.enable ≡ true) ⊎ (accepts (candidate_configs (g.inbounds.rows s.inbounds)) ≡ true)
      → add_inbound g net accepts i s ≡ (ok tt, t)
      → accepts (candidate_configs (g.inbounds.rows t.inbounds)) ≡ true
  add_inbound-accepted i s {t} fresh before h =
      let (k, rows, clear, dry) = add_inbound-ok g net accepts i s fresh h in
      let old = g.inbounds.rows s.inbounds in
      let written : candidate_configs (g.inbounds.rows t.inbounds)
          ≡ candidate_configs (old ++ i ∷ []) =
        ap candidate_configs rows ∙ candidate_configs-key i k old in
      elim (Bool-cases i.enable) [
        | inl on ↦
            ap accepts (written ∙ ap candidate_configs (sym (with_replacement-new i old fresh)))
            ∙ dry on
        | inr off ↦ elim before [
          | inl on ↦ cc
          | inr held ↦ ap accepts (written ∙ candidate_configs-off i old off) ∙ held
        ]
      ]
