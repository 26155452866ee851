-- ===== src/Inbounds/Batch.antt =====
-- The calls that change many inbounds at once: SetEnableMany and DeleteAll.
use nexcore_x_ui.Prelude.{
  select_all, ℕ, Bool, true, ◌≡◌, refl, sym, ◌∙◌, ap, List, [], ◌∷◌, map, select_rows, update_rows,
  delete_rows, count_rows, length, arith, ◌⊎◌, if◌then◌else◌, inl, inr, Bool-cases,
}
use nexcore_x_ui.Exec.{
  Err, Exec, Result, ok, err, ◌>>=◌, bind-eq-ok, transaction-ok, transaction-err, config_invalid,
}
use nexcore_x_ui.Model.{Inbound, InboundConfig, gen_xray_inbound_config}
use nexcore_x_ui.Table.Schemas.{Tables, Panel}
use nexcore_x_ui.Panel.{find_inbounds, update_inbounds, delete_clients, delete_inbounds}
use nexcore_x_ui.Panel.Effects.{
  find_inbounds-ok, update_inbounds-ok, delete_clients-ok, delete_inbounds-ok,
}
use nexcore_x_ui.Inbounds.{
  Net, candidate_configs, dry_run_inbounds, enabled, mem_id, promote, set_enable_many, delete_all,
}
use nexcore_x_ui.Inbounds.Frames.{guard-ok}

abbrev pub switched_on : Inbound → Inbound
switched_on r = record r { enable = true }

-- The disabled inbounds that the simulation leaves out are not part of the config either.
candidate_configs-select :
    (is : List Inbound) → candidate_configs (select_rows enabled is) ≡ candidate_configs is
unfolding candidate_configs gen_xray_inbound_config
candidate_configs-select [] = refl
candidate_configs-select (i ∷ is) = elim (Bool-cases i.enable) [
  | inl on ↦ rw on (ap (◌∷◌ (gen_xray_inbound_config i)) (candidate_configs-select is))
  | inr off ↦ rw off (candidate_configs-select is)
]

delete_every : {A : Type 0} (xs : List A) → delete_rows (λ _. true) xs ≡ []
delete_every [] = refl
delete_every (x ∷ xs) = delete_every xs

count_every : {A : Type 0} (xs : List A) → count_rows (λ _. true) xs ≡ length xs
count_every [] = refl
count_every (x ∷ xs) = ground (arith, count_every xs)

module _ (g : Tables) (net : Net) (accepts : List InboundConfig → Bool) where
  promote-update :
      (ids : List ℕ) (rows : List Inbound)
      → map (promote g net accepts ids) rows ≡ update_rows (mem_id ids) switched_on rows
  promote-update ids [] = refl
  promote-update ids (r ∷ rows) =
      ap (◌∷◌ (if mem_id ids r then switched_on r else r)) (promote-update ids rows)

  -- A successful set_enable_many that enables at least one id switches on the inbounds with these ids and
  -- changes no other, and Xray accepts the config of the enabled inbounds that are then in the database.
  pub set_enable_many-accepted :
      (id : ℕ) (ids : List ℕ) (s : Panel g) {n : ℕ} {t : Panel g}
      → set_enable_many g net accepts (id ∷ ids) true s ≡ (ok n, t)
      → (g.inbounds.rows t.inbounds
          ≡ update_rows (mem_id (id ∷ ids)) switched_on (g.inbounds.rows s.inbounds))
        × (accepts (candidate_configs (g.inbounds.rows t.inbounds)) ≡ true)
  unfolding set_enable_many dry_run_inbounds
  set_enable_many-accepted id ids s {n} {t} h =
      let wanted = id ∷ ids in
      let write : Exec (Panel g) ℕ = update_inbounds g (mem_id wanted) switched_on in
      let try : List Inbound → Exec (Panel g) (Unit {0}) = λ rows.
        dry_run_inbounds g net accepts
          (select_rows enabled (map (promote g net accepts wanted) rows)) in
      let (rows, u, found, rest) =
        bind-eq-ok (find_inbounds g (λ _. true)) (λ rows. try rows >>= λ _. write) s h in
      let (listed, same_u) = find_inbounds-ok g (λ _. true) s found in
      let (_, v, tried, wrote) = bind-eq-ok (try rows) (λ _. write) u rest in
      let (fine, same_v) =
        guard-ok
          (accepts
            (candidate_configs (select_rows enabled (map (promote g net accepts wanted) rows))))
          config_invalid u tried in
      let (written, count, frame) = update_inbounds-ok g (mem_id wanted) switched_on v wrote in
      let table = g.inbounds.rows s.inbounds in
      let result : g.inbounds.rows t.inbounds ≡ update_rows (mem_id wanted) switched_on table =
        written
        ∙ ap (λ (q : Panel g). update_rows (mem_id wanted) switched_on (g.inbounds.rows q.inbounds))
            (same_v ∙ same_u) in
      let simulated : map (promote g net accepts wanted) rows
          ≡ update_rows (mem_id wanted) switched_on table =
        ap (map (promote g net accepts wanted)) (listed ∙ select_all table)
        ∙ promote-update wanted table in
      (
        result,
        ap (λ l. accepts (candidate_configs l)) (result ∙ sym simulated)
            ∙ ap accepts (sym (candidate_configs-select (map (promote g net accepts wanted) rows)))
            ∙ fine,
      )

  emptied :
      (s : Panel g) {n : ℕ} {t : Panel g}
      → (delete_clients g (λ _. true) >>= λ _. delete_inbounds g (λ _. true)) s ≡ (ok n, t)
      → (n ≡ count_rows (λ _. true) (g.inbounds.rows s.inbounds))
        × (g.inbounds.rows t.inbounds ≡ [])
        × (g.clients.rows t.clients ≡ [])
  emptied s {n} {t} h =
      let (m, u, cleared, last) =
        bind-eq-ok (delete_clients g (λ _. true)) (λ _. delete_inbounds g (λ _. true)) s h in
      let (clients, kept) = delete_clients-ok g (λ _. true) s cleared in
      let (inbounds, count, frame) = delete_inbounds-ok g (λ _. true) u last in
      (
        count ∙ ap (λ (q : Panel g). count_rows (λ _. true) (g.inbounds.rows q.inbounds)) kept,
        inbounds ∙ delete_every (g.inbounds.rows u.inbounds),
        ap (λ (q : Panel g). g.clients.rows q.clients) frame
            ∙ clients
            ∙ delete_every (g.clients.rows s.clients),
      )

  -- delete_all returns the number of inbounds that there were and leaves neither an inbound nor a client's
  -- traffic, or it returns an error and has changed nothing.
  pub delete_all-all_or_none :
      (s : Panel g) {r : Result ℕ} {t : Panel g}
      → delete_all g net accepts s ≡ (r, t)
      → ((r ≡ ok (length (g.inbounds.rows s.inbounds)))
          × (g.inbounds.rows t.inbounds ≡ [])
          × (g.clients.rows t.clients ≡ []))
        ⊎ ((e : Err) × (r ≡ err e) × (t ≡ s))
  unfolding delete_all
  delete_all-all_or_none s {r = ok n} h =
      let (number, none_left, none_kept) = emptied s (
        transaction-ok (delete_clients g (λ _. true) >>= λ _. delete_inbounds g (λ _. true)) s h) in
      inl (ap ok (number ∙ count_every (g.inbounds.rows s.inbounds)), none_left, none_kept)
  delete_all-all_or_none s {r = err e} h = inr (
    e,
    refl,
    transaction-err (delete_clients g (λ _. true) >>= λ _. delete_inbounds g (λ _. true)) s h,
  )
