-- ===== src/Inbounds/Frames.antt =====
-- What the calls inside AddInbound and UpdateInbound leave alone.
use nexcore_x_ui.Prelude.{
  select_all, ℕ, Bool, true, false, not, ◌≡◌, refl, sym, ◌∙◌, ap, Option, none, some, List, [], ◌∷◌,
  arith, ◌==◌, ltb, str_eq, ◌&&◌, ◌++◌, ◌⊎◌, any, Bool-cases, Option-cases, inl, inr, select_rows,
}
use nexcore_x_ui.Exec.{
  Err, Exec, Result, ok, ◌>>=◌, pure, guard, when, attempt, bind-eq-ok, bind-view, port_taken,
  protocol_singleton, config_invalid,
}
use nexcore_x_ui.Json.{Fields, decode_clients, string_field}
use nexcore_x_ui.Model.{Inbound, InboundConfig}
use nexcore_x_ui.Table.Schemas.{Tables, Panel}
use nexcore_x_ui.Panel.{save_inbound, find_inbounds}
use nexcore_x_ui.Panel.Effects.{find_inbounds-ok, store_inbounds-ok}
use nexcore_x_ui.Clients.{ensure_row}
use nexcore_x_ui.Clients.Ensure.{ensure_row-inbounds}
use nexcore_x_ui.Inbounds.{
  Net, refuse_if, validate_listen_address, check_port_exist, check_protocol_singleton,
  check_inbound, in_the_way, same_bucket, is_multi_user_protocol, sync_clients,
  sync_embedded_client_traffics, dry_run_inbounds, dry_run_with, with_replacement,
  candidate_configs, add_inbound,
}

pub guard-ok :
    {S : Type 0} (b : Bool) (e : Err) (s : S) {t : S}
    → guard b e s ≡ (ok tt, t)
    → (b ≡ true) × (t ≡ s)
guard-ok true e s h = (refl, cc)
guard-ok false e s h = (cc, cc)

refuse_if-ok : {S : Type 0} (o : Option Err) (s : S) {t : S} → refuse_if o s ≡ (ok tt, t) → t ≡ s
refuse_if-ok none s h = cc
refuse_if-ok (some e) s h = cc

module _ (g : Tables) (net : Net) (accepts : List InboundConfig → Bool) where
  attempt-inbounds :
      (m : Exec (Panel g) (Unit {0})) (s : Panel g)
      → (m s).1.inbounds ≡ s.inbounds
      → (attempt m s).1.inbounds ≡ s.inbounds
  attempt-inbounds m s h = h

  when-inbounds :
      (b : Bool) (m : Exec (Panel g) (Unit {0})) (s : Panel g)
      → (m s).1.inbounds ≡ s.inbounds
      → (when b m s).1.inbounds ≡ s.inbounds
  when-inbounds true m s h = h
  when-inbounds false m s h = refl

  sync_clients-inbounds :
      (i : Inbound) (cs : List Fields) (s : Panel g)
      → (sync_clients g net accepts i cs s).1.inbounds ≡ s.inbounds
  unfolding sync_clients
  sync_clients-inbounds i [] s = refl
  sync_clients-inbounds i (c ∷ cs) s =
      bind-view (λ (q : Panel g). q.inbounds)
        (when (not (str_eq (string_field "email" c) ""))
          (attempt (ensure_row g i.id (string_field "email" c) i.total i.expiry_time i.enable)))
        (λ _. sync_clients g net accepts i cs) s
        (when-inbounds (not (str_eq (string_field "email" c) ""))
          (attempt (ensure_row g i.id (string_field "email" c) i.total i.expiry_time i.enable)) s
          (ensure_row-inbounds g i.id (string_field "email" c) i.total i.expiry_time i.enable s))
        (λ a q. sync_clients-inbounds i cs q)

  pub sync_embedded-inbounds :
      (i : Inbound) (s : Panel g)
      → (sync_embedded_client_traffics g net accepts i s).1.inbounds ≡ s.inbounds
  unfolding sync_embedded_client_traffics
  sync_embedded-inbounds i s = elim (Option-cases (decode_clients i.settings)) [
    | inl unread ↦ rw unread
    | inr (cs, read) ↦ rw read (sync_clients-inbounds i cs s)
  ]

  -- The checks read the database and no more; when they pass, nothing stands in the way.
  pub check_protocol_singleton-ok :
      (i : Inbound) (ignore : ℕ) (s : Panel g) {t : Panel g}
      → check_protocol_singleton g net accepts i ignore s ≡ (ok tt, t)
      → (t ≡ s)
        × ((is_multi_user_protocol i ≡ false)
            ⊎ (any (same_bucket i) (select_rows (in_the_way i ignore) (g.inbounds.rows s.inbounds))
                ≡ false))
  unfolding check_protocol_singleton
  check_protocol_singleton-ok i ignore s {t} h = elim (Bool-cases (is_multi_user_protocol i)) [
    | inl multi ↦
        (let (rows, u, found, rest) =
            bind-eq-ok (find_inbounds g (in_the_way i ignore))
              (λ rows. guard (not (any (same_bucket i) rows)) protocol_singleton) s
              (rw multi at h) in
          let (listed, same) = find_inbounds-ok g (in_the_way i ignore) s found in
          let (free, kept) = guard-ok _ protocol_singleton u rest in
          (kept ∙ same, inr (rw (← listed) (ground arith))))
    | inr single ↦ (cc (rw single at h), inl single)
  ]

  pub check_inbound-ok :
      (i : Inbound) (ignore : ℕ) (s : Panel g) {t : Panel g}
      → check_inbound g net accepts i ignore s ≡ (ok tt, t)
      → (t ≡ s)
        × ((is_multi_user_protocol i ≡ false)
            ⊎ (any (same_bucket i) (select_rows (in_the_way i ignore) (g.inbounds.rows s.inbounds))
                ≡ false))
  unfolding check_inbound check_port_exist
  check_inbound-ok i ignore s {t} h =
      let singleton : Bool → Exec (Panel g) (Unit {0}) = λ exist.
        guard (not exist) port_taken >>= λ _. check_protocol_singleton g net accepts i ignore in
      let (_, u, listen, rest) =
        bind-eq-ok (refuse_if (validate_listen_address net i.listen))
          (λ _. check_port_exist g net accepts i.port ignore >>= singleton) s h in
      let (exist, v, port, rest₁) =
        bind-eq-ok (check_port_exist g net accepts i.port ignore) singleton u rest in
      let (rows, w, found, last) =
        bind-eq-ok (find_inbounds g (λ r. r.port == i.port && not (ltb 0 ignore && r.id == ignore)))
          (λ rows. pure (any (λ (r : Inbound). true) rows)) u port in
      let (_, x, free, checked) =
        bind-eq-ok (guard (not exist) port_taken)
          (λ _. check_protocol_singleton g net accepts i ignore) v rest₁ in
      let same_w = (find_inbounds-ok g _ u found).1 in
      let same_x = (guard-ok (not exist) port_taken v free).1 in
      let start : x ≡ s = cc (refuse_if-ok (validate_listen_address net i.listen) s listen) in
      let (kept, clear) = check_protocol_singleton-ok i ignore x checked in
      (kept ∙ start, rw (← start) clear)

  dry_run_with-ok :
      (i : Inbound) (s : Panel g) {t : Panel g}
      → dry_run_with g net accepts i s ≡ (ok tt, t)
      → (t ≡ s)
        × (accepts (candidate_configs (with_replacement i (g.inbounds.rows s.inbounds))) ≡ true)
  unfolding dry_run_with dry_run_inbounds
  dry_run_with-ok i s {t} h =
      let (rows, u, found, rest) =
        bind-eq-ok (find_inbounds g (λ _. true))
          (λ rows. dry_run_inbounds g net accepts (with_replacement i rows)) s h in
      let (listed, same) = find_inbounds-ok g (λ _. true) s found in
      let (fine, kept) =
        guard-ok (accepts (candidate_configs (with_replacement i rows))) config_invalid u rest in
      (
        kept ∙ same,
        ap (λ l. accepts (candidate_configs (with_replacement i l)))
              (sym (listed ∙ select_all (g.inbounds.rows s.inbounds)))
            ∙ fine,
      )

  pub when_dry_run-ok :
      (b : Bool) (i : Inbound) (s : Panel g) {t : Panel g}
      → when b (dry_run_with g net accepts i) s ≡ (ok tt, t)
      → (t ≡ s)
        × (b ≡ true
            → accepts (candidate_configs (with_replacement i (g.inbounds.rows s.inbounds))) ≡ true)
  when_dry_run-ok true i s h = let (same, fine) = dry_run_with-ok i s h in (same, λ _. fine)
  when_dry_run-ok false i s h = (cc, λ no. cc)

  -- A new inbound is the last row; it has passed the checks and, if enabled, the dry run.
  pub add_inbound-ok :
      (i : Inbound) (s : Panel g) {t : Panel g}
      → i.id ≡ 0
      → add_inbound g net accepts i s ≡ (ok tt, t)
      → (k : ℕ) × (g.inbounds.rows t.inbounds
          ≡ g.inbounds.rows s.inbounds ++ record i { id = k } ∷ [])
        × ((is_multi_user_protocol i ≡ false)
            ⊎ (any (same_bucket i) (select_rows (in_the_way i 0) (g.inbounds.rows s.inbounds))
                ≡ false))
        × (i.enable ≡ true
            → accepts (candidate_configs (with_replacement i (g.inbounds.rows s.inbounds))) ≡ true)
  unfolding add_inbound
  add_inbound-ok i s {t} fresh h =
      let write : Exec (Panel g) (Unit {0}) = save_inbound g i >>= λ id.
      sync_embedded_client_traffics g net accepts (record i { id = id }) in
      let (_, u, checked, rest) =
        bind-eq-ok (check_inbound g net accepts i 0)
          (λ _. when i.enable (dry_run_with g net accepts i) >>= λ _. write) s h in
      let (same_u, clear) = check_inbound-ok i 0 s checked in
      let (_, v, ran, rest₁) =
        bind-eq-ok (when i.enable (dry_run_with g net accepts i)) (λ _. write) u rest in
      let (same_v, fine) = when_dry_run-ok i.enable i u ran in
      let (k, w, saved, synced) =
        bind-eq-ok (save_inbound g i)
          (λ id. sync_embedded_client_traffics g net accepts (record i { id = id })) v rest₁ in
      let (tab, stored, same_w) = store_inbounds-ok g (g.inbounds.save i v.inbounds) v saved in
      let written = g.inbounds.save-rows_new i v.inbounds fresh stored in
      let kept : t.inbounds ≡ w.inbounds =
        sym (ap (λ (r : Result (Unit {0}) × Panel g). r.1.inbounds) synced)
        ∙ sync_embedded-inbounds (record i { id = k }) w in
      let start : v ≡ s = same_v ∙ same_u in
      (
        k,
        ap g.inbounds.rows (kept ∙ ap (λ (q : Panel g). q.inbounds) same_w)
            ∙ written
            ∙ ap (λ (q : Panel g). g.inbounds.rows q.inbounds ++ record i { id = k } ∷ []) start,
        clear,
        λ on.
            ap
              (λ (q : Panel g).
                accepts (candidate_configs (with_replacement i (g.inbounds.rows q.inbounds))))
              (sym same_u)
            ∙ fine on,
      )
