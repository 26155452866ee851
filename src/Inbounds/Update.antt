-- ===== src/Inbounds/Update.antt =====
-- UpdateInbound: the row that it writes, and its dry run.
use nexcore_x_ui.Prelude.{
  ℕ, Bool, true, false, ◌&&◌, ◌≡◌, refl, sym, ◌∙◌, ap, ap₂, List, [], ◌∷◌, arith, update_rows,
  if◌then◌else◌, inl, inr, ◌⊎◌, Bool-cases, ◌==◌, ==_iff, ltb, Memᴰ, All-of_mem, all_of_mem,
  any_of_mem, mem_of_select, distinct-eq, update_rows_eq,
}
use Prim.Native.String
use nexcore_x_ui.Prelude.Text.{decimal}
use nexcore_x_ui.Exec.{Exec, Result, ok, ◌>>=◌, when, bind-eq-ok, inbound_not_found}
use nexcore_x_ui.Model.{Inbound, InboundConfig}
use nexcore_x_ui.Table.Schemas.{Tables, Panel}
use nexcore_x_ui.Panel.{find_inbounds, save_inbound, first_or}
use nexcore_x_ui.Panel.Effects.{find_inbounds-ok, store_inbounds-ok}
use nexcore_x_ui.Inbounds.{
  Net, check_inbound, get_inbound, merged, dry_run_with, update_inbound, candidate_configs,
  with_replacement, sync_embedded_client_traffics,
}
use nexcore_x_ui.Inbounds.Frames.{check_inbound-ok, when_dry_run-ok, sync_embedded-inbounds}

-- The request, as the row of `q`: its tag names the port, and the id, the owner and the outbound tag are q's.
abbrev pub requested : Inbound → Inbound → Inbound
requested i q = record i {
  id = q.id;
  user_id = q.user_id;
  outbound_tag = q.outbound_tag;
  tag = String.◌++◌ "inbound-" (decimal i.port);
}

merged-requested : (i q : Inbound) → merged q i ≡ requested i q
unfolding merged
merged-requested i q = refl

abbrev same_id : Inbound → Inbound → Bool
same_id a b = a.id == b.id

id_comm : (a b : Inbound) → same_id a b ≡ same_id b a
id_comm a b = ground arith

with_replacement-old :
    (r : Inbound) (rows : List Inbound)
    → ltb 0 r.id ≡ true
    → with_replacement r rows ≡ update_rows (λ q. q.id == r.id) (λ _. r) rows
unfolding with_replacement
with_replacement-old r [] h = ground arith
with_replacement-old r (q ∷ rows) h =
    ap₂ ◌∷◌ (ap (λ b. if b && q.id == r.id then r else q) h) (with_replacement-old r rows h)

module _ (g : Tables) (net : Net) (accepts : List InboundConfig → Bool) where
  first_or-ok :
      (rows : List Inbound) (s : Panel g) {old : Inbound} {t : Panel g}
      → first_or g inbound_not_found rows s ≡ (ok old, t)
      → Memᴰ old rows × (t ≡ s)
  first_or-ok [] s h = cc
  first_or-ok (r ∷ rows) s h = (Memᴰ.head (cc h), cc h)

  get_inbound-ok :
      (id : ℕ) (s : Panel g) {old : Inbound} {t : Panel g}
      → get_inbound g net accepts id s ≡ (ok old, t)
      → Memᴰ old (g.inbounds.rows s.inbounds) × (old.id ≡ id) × (t ≡ s)
  unfolding get_inbound
  get_inbound-ok id s {old} {t} h =
      let (rows, u, found, rest) =
        bind-eq-ok (find_inbounds g (λ r. r.id == id)) (first_or g inbound_not_found) s h in
      let (listed, same) = find_inbounds-ok g (λ r. r.id == id) s found in
      let (first, kept) = first_or-ok rows u rest in
      let (here, named) =
        mem_of_select (λ r. r.id == id) (g.inbounds.rows s.inbounds) (rw listed at first) in
      (here, (==_iff old.id id).0 named, kept ∙ same)

  -- The UPDATE of the loaded row, as one of every row that has the id.
  merged-rows :
      (s : Panel g) (i old : Inbound)
      → Memᴰ old (g.inbounds.rows s.inbounds)
      → old.id ≡ i.id
      → update_rows (λ q. q.id == old.id) (λ _. merged old i) (g.inbounds.rows s.inbounds)
        ≡ update_rows (λ q. q.id == i.id) (requested i) (g.inbounds.rows s.inbounds)
  merged-rows s i old m named =
      let rows = g.inbounds.rows s.inbounds in
      update_rows_eq (λ q. q.id == old.id) (λ q. q.id == i.id) (λ _. merged old i) (requested i)
        rows
        (All-of_mem rows λ q n. elim (Bool-cases (q.id == old.id)) [
          | inl same ↦
              (let one : q ≡ old =
                  distinct-eq same_id id_comm rows
                    (ground (arith, g.inbounds.keys_unique s.inbounds)) m n (ground arith) in
                rw (same, (==_iff q.id i.id).1 ((==_iff q.id old.id).0 same ∙ named))
                  (ap (λ r. merged r i) (sym one) ∙ merged-requested i q))
          | inr differs ↦
              (let apart : (q.id == i.id) ≡ false = ground arith in rw (differs, apart) refl)
        ])

  -- A successful update_inbound writes the request over the row that has its id and leaves the other
  -- inbounds alone; the row keeps its id, its owner and its outbound tag, its tag is "inbound-" and the
  -- new port, and every other field is the request's. If the request is enabled, Xray accepts the config of the enabled inbounds that are then in the database.
  pub update_inbound-rows :
      (i : Inbound) (s : Panel g) {t : Panel g}
      → update_inbound g net accepts i s ≡ (ok tt, t)
      → (g.inbounds.rows t.inbounds
          ≡ update_rows (λ q. q.id == i.id) (requested i) (g.inbounds.rows s.inbounds))
        × ((i.enable ≡ false) ⊎ (accepts (candidate_configs (g.inbounds.rows t.inbounds)) ≡ true))
  unfolding update_inbound merged
  update_inbound-rows i s {t} h =
      let write : Inbound → Exec (Panel g) (Unit {0}) = λ old.
        save_inbound g (merged old i) >>= λ _.
        sync_embedded_client_traffics g net accepts (merged old i) in
      let dry : Inbound → Exec (Panel g) (Unit {0}) =
        λ old. when i.enable (dry_run_with g net accepts (merged old i)) >>= λ _. write old in
      let (_, u, checked, rest) =
        bind-eq-ok (check_inbound g net accepts i i.id)
          (λ _. get_inbound g net accepts i.id >>= dry) s h in
      let (same_u, clear) = check_inbound-ok g net accepts i i.id s checked in
      let (old, v, got, rest₁) = bind-eq-ok (get_inbound g net accepts i.id) dry u rest in
      let (here, named, same_v) = get_inbound-ok i.id u got in
      let (_, w, ran, rest₂) =
        bind-eq-ok (when i.enable (dry_run_with g net accepts (merged old i))) (λ _. write old) v
          rest₁ in
      let (same_w, fine) = when_dry_run-ok g net accepts i.enable (merged old i) v ran in
      let (k, x, saved, synced) =
        bind-eq-ok (save_inbound g (merged old i))
          (λ _. sync_embedded_client_traffics g net accepts (merged old i)) w rest₂ in
      let (tab, stored, same_x) =
        store_inbounds-ok g (g.inbounds.save (merged old i) w.inbounds) w saved in
      let rows = g.inbounds.rows s.inbounds in
      let at_s : Memᴰ old rows = rw (← same_u) here in
      let start : w ≡ s = same_w ∙ same_v ∙ same_u in
      let positive : ltb 0 old.id ≡ true =
        all_of_mem (λ (r : Inbound). ltb 0 r.id) rows (g.inbounds.keys_positive s.inbounds) at_s in
      let at_w : Memᴰ old (g.inbounds.rows w.inbounds) = rw start at_s in
      let written =
        g.inbounds.save-rows_old (merged old i) w.inbounds (λ zero_id. ground arith)
          (any_of_mem (λ (q : Inbound). q.id == old.id) (g.inbounds.rows w.inbounds) at_w
            ((==_iff old.id old.id).1 refl))
          stored in
      let kept : t.inbounds ≡ x.inbounds =
        sym (ap (λ (r : Result (Unit {0}) × Panel g). r.1.inbounds) synced)
        ∙ sync_embedded-inbounds g net accepts (merged old i) x in
      let replaced : g.inbounds.rows t.inbounds
          ≡ update_rows (λ q. q.id == old.id) (λ _. merged old i) rows =
        ap g.inbounds.rows (kept ∙ ap (λ (q : Panel g). q.inbounds) same_x)
        ∙ written
        ∙ ap
            (λ (q : Panel g).
              update_rows (λ r. r.id == old.id) (λ _. merged old i) (g.inbounds.rows q.inbounds))
            start in
      (
        replaced ∙ merged-rows s i old at_s named,
        elim (Bool-cases i.enable) [
          | inl on ↦ inr (
              ap (λ l. accepts (candidate_configs l))
                (replaced ∙ sym (with_replacement-old (merged old i) rows positive))
              ∙ ap
                  (λ (q : Panel g). accepts (
                    candidate_configs
                      (with_replacement (merged old i) (g.inbounds.rows q.inbounds))))
                  (sym (same_v ∙ same_u))
              ∙ fine on)
          | inr off ↦ inl off
        ],
      )
