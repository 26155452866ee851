-- ===== src/Clients/Ensure.antt =====
-- EnsureRow: what it writes for a client that has a row, and for one that has none.
use nexcore_x_ui.Prelude.{
  ℕ, Option, none, some, ltb, String, Bool, true, false, ◌≡◌, ◌≢◌, refl, sym, ◌∙◌, ap, List, [],
  ◌∷◌, ◌++◌, Memᴰ, arith, ◌==◌, ==_iff, str_eq, eq_iff, if◌then◌else◌, Bool-cases, inl, inr, any,
  select_rows, update_rows, All-of_mem, all_of_mem, any_of_mem, select_none, mem_of_select,
  update_rows_eq, any_of_select, distinct-eq,
}
use nexcore_x_ui.Exec.{ok, pure, bind-eq-ok, bind-view}
use nexcore_x_ui.Model.{ClientTraffic}
use nexcore_x_ui.Table.{has_key}
use nexcore_x_ui.Table.Schemas.{Tables, Panel, clients_schema}
use nexcore_x_ui.Panel.{find_clients, create_client, save_client, store_clients, to_exec}
use nexcore_x_ui.Panel.Effects.{find_clients-ok, store_clients-ok}
use nexcore_x_ui.Clients.{create_or_sync, ensure_row}
use nexcore_x_ui.Clients.Lookup.{same_email, same_id, id_comm, str_eq_comm}

-- The configuration of a row set anew, its counters kept.
abbrev pub configured : ℕ → ℕ → ℕ → Bool → ClientTraffic → ClientTraffic
configured inbound_id total expiry_time enable r = record r {
  inbound_id = inbound_id;
  total = total;
  expiry_time = expiry_time;
  enable = enable;
}

abbrev pub has_email : String → ClientTraffic → Bool
has_email email r = str_eq r.email email

str_eq_of_ne : (a b : String) → a ≢ b → str_eq a b ≡ false
str_eq_of_ne a b h = ground (arith, eq_iff a b)

module _ (g : Tables) where
  save_client-rows :
      (r : ClientTraffic) (s : Panel g) {n : ℕ} {t : Panel g}
      → r.id ≢ 0
      → any (has_key clients_schema r.id) (g.clients.rows s.clients) ≡ true
      → save_client g r s ≡ (ok n, t)
      → g.clients.rows t.clients
        ≡ update_rows (has_key clients_schema r.id) (λ _. r) (g.clients.rows s.clients)
  save_client-rows r s nonzero present h =
      let (tab, done, same) = store_clients-ok g (g.clients.save r s.clients) s h in
      ap (λ (q : Panel g). g.clients.rows q.clients) same
      ∙ g.clients.save-rows_old r s.clients nonzero present done

  create_client-rows :
      (r : ClientTraffic) (s : Panel g) {n : ℕ} {t : Panel g}
      → create_client g r s ≡ (ok n, t)
      → g.clients.rows t.clients
        ≡ g.clients.rows s.clients ++ record r { id = n; enable = true } ∷ []
  create_client-rows r s h =
      let (tab, done, same) = store_clients-ok g (g.clients.create r s.clients) s h in
      ap (λ (q : Panel g). g.clients.rows q.clients) same ∙ g.clients.create-rows r s.clients done

  -- Saving a loaded row changes the row of its email, and no other.
  sync-pointwise :
      (s : Panel g) (email : String) (x r : ClientTraffic) (inbound_id total expiry_time : ℕ)
      (enable : Bool)
      → Memᴰ x (g.clients.rows s.clients)
      → has_email email x ≡ true
      → Memᴰ r (g.clients.rows s.clients)
      → (if r.id == x.id then configured inbound_id total expiry_time enable x else r)
        ≡ (if has_email email r then configured inbound_id total expiry_time enable r else r)
  sync-pointwise s email x r inbound_id total expiry_time enable mx named mr =
      let unique = g.clients.keys_unique s.clients in
      elim (Bool-cases (r.id == x.id)) [
        | inl id ↦
            (let one : x ≡ r = distinct-eq same_id id_comm _ (ground arith) mr mx id in
              rw (id, ← one, named))
        | inr other ↦ elim (Bool-cases (has_email email r)) [
          | inl same ↦
              (let one : x ≡ r =
                  distinct-eq same_email (λ a b. str_eq_comm a.email b.email) _ (ground arith) mr mx
                    (ground (
                      arith,
                      eq_iff r.email x.email,
                      eq_iff r.email email,
                      eq_iff x.email email,
                    )) in
                cc ((==_iff r.id r.id).1 refl, ap (λ (q : ClientTraffic). r.id == q.id) one))
          | inr apart ↦ rw (other, apart)
        ]
      ]

  create_or_sync-rows :
      (s : Panel g) (email : String) (inbound_id total expiry_time : ℕ) (enable : Bool)
      (found : List ClientTraffic) {t : Panel g}
      → found ≡ select_rows (has_email email) (g.clients.rows s.clients)
      → found ≢ []
      → create_or_sync g inbound_id email total expiry_time enable found s ≡ (ok tt, t)
      → g.clients.rows t.clients
        ≡ update_rows
            (has_email email)
            (configured inbound_id total expiry_time enable)
            (g.clients.rows s.clients)
  create_or_sync-rows s email i total expiry enable [] sel some_row h = absurd (some_row refl)
  create_or_sync-rows s email i total expiry enable (x ∷ rest) {t} sel some_row h =
      let old = configured i total expiry enable x in
      let (m, named) =
        mem_of_select (has_email email) (g.clients.rows s.clients) {c = x}
          (rw (← sel) (Memᴰ.head refl)) in
      let positive : ltb 0 x.id ≡ true =
        all_of_mem (λ (r : ClientTraffic). ltb 0 r.id) _ (g.clients.keys_positive s.clients) m in
      let (n, u, saved, rest) = bind-eq-ok (save_client g old) (λ _. pure tt) s h in
      let last : t ≡ u = cc rest in
      ap (λ (q : Panel g). g.clients.rows q.clients) last
      ∙ save_client-rows old s (ground arith)
          (any_of_mem (has_key clients_schema x.id) _ m ((==_iff x.id x.id).1 refl)) saved
      ∙ update_rows_eq (has_key clients_schema x.id) (has_email email) (λ _. old)
          (configured i total expiry enable) _
          (All-of_mem _ λ r mr. sync-pointwise s email x r i total expiry enable m named mr)

  -- For a non-empty email that has a row, a successful EnsureRow sets the configuration of that row and keeps its counters.
  pub ensure_row-rows_old :
      (inbound_id : ℕ) (email : String) (total expiry_time : ℕ) (enable : Bool) (s : Panel g)
      {t : Panel g}
      → email ≢ ""
      → any (has_email email) (g.clients.rows s.clients) ≡ true
      → ensure_row g inbound_id email total expiry_time enable s ≡ (ok tt, t)
      → g.clients.rows t.clients
        ≡ update_rows
            (has_email email)
            (configured inbound_id total expiry_time enable)
            (g.clients.rows s.clients)
  unfolding ensure_row
  ensure_row-rows_old i email total expiry enable s {t} named present h =
      let (found, u, sel, rest) =
        bind-eq-ok (find_clients g (has_email email)) (create_or_sync g i email total expiry enable)
          s (rw (str_eq_of_ne email "" named) at h) in
      let (rows, same) = find_clients-ok g (has_email email) s sel in
      create_or_sync-rows s email i total expiry enable found {t = t} rows
        (λ none_found. cc (
          any_of_select (has_email email) (g.clients.rows s.clients) (sym rows ∙ none_found),
          present,
        ))
        (cc)

  -- For a non-empty email that has no row, a successful EnsureRow adds one with zero counters, and the row is enabled
  -- whatever the argument `enable` says.
  pub ensure_row-rows_new :
      (inbound_id : ℕ) (email : String) (total expiry_time : ℕ) (enable : Bool) (s : Panel g)
      {t : Panel g}
      → email ≢ ""
      → any (has_email email) (g.clients.rows s.clients) ≡ false
      → ensure_row g inbound_id email total expiry_time enable s ≡ (ok tt, t)
      → (id : ℕ) × (g.clients.rows t.clients
          ≡ g.clients.rows s.clients
            ++ record {
              id = id;
              inbound_id = inbound_id;
              email = email;
              up = 0;
              down = 0;
              total = total;
              expiry_time = expiry_time;
              enable = true;
            }
              ∷ [])
  unfolding ensure_row
  ensure_row-rows_new i email total expiry enable s {t} named absent h =
      let (found, u, sel, rest) =
        bind-eq-ok (find_clients g (has_email email)) (create_or_sync g i email total expiry enable)
          s (rw (str_eq_of_ne email "" named) at h) in
      let (rows, same) = find_clients-ok g (has_email email) s sel in
      let missing : found ≡ [] = rows ∙ select_none (has_email email) _ absent in
      let from_s : create_or_sync g i email total expiry enable [] s ≡ (ok tt, t) = cc in
      let (n, v, made, end) = bind-eq-ok (create_client g _) (λ _. pure tt) s from_s in
      let last : t ≡ v = cc end in
      (n, ap (λ (q : Panel g). g.clients.rows q.clients) last ∙ create_client-rows _ s made)

  store_clients-inbounds :
      (o : Option (ℕ × g.clients.Tab)) (s : Panel g) → (store_clients g o s).1.inbounds ≡ s.inbounds
  store_clients-inbounds none s = refl
  store_clients-inbounds (some (n, tab)) s = refl

  create_or_sync-inbounds :
      (i : ℕ) (email : String) (total expiry : ℕ) (enable : Bool) (found : List ClientTraffic)
      (s : Panel g)
      → (create_or_sync g i email total expiry enable found s).1.inbounds ≡ s.inbounds
  create_or_sync-inbounds i email total expiry enable [] s =
      bind-view (λ (q : Panel g). q.inbounds) (create_client g _) (λ _. pure tt) s
        (store_clients-inbounds _ s) (λ a q. refl)
  create_or_sync-inbounds i email total expiry enable (x ∷ rest) s =
      bind-view (λ (q : Panel g). q.inbounds) (save_client g _) (λ _. pure tt) s
        (store_clients-inbounds _ s) (λ a q. refl)

  to_exec-inbounds :
      (o : Option (List ClientTraffic)) (s : Panel g) → (to_exec g o s).1.inbounds ≡ s.inbounds
  to_exec-inbounds none s = refl
  to_exec-inbounds (some a) s = refl

  -- EnsureRow leaves the inbounds alone, whether it succeeds or not.
  pub ensure_row-inbounds :
      (i : ℕ) (email : String) (total expiry : ℕ) (enable : Bool) (s : Panel g)
      → (ensure_row g i email total expiry enable s).1.inbounds ≡ s.inbounds
  unfolding ensure_row
  ensure_row-inbounds i email total expiry enable s = elim (Bool-cases (str_eq email "")) [
    | inl no_name ↦ rw no_name
    | inr named ↦ rw named (
        bind-view (λ (q : Panel g). q.inbounds) (find_clients g (has_email email))
          (create_or_sync g i email total expiry enable) s (to_exec-inbounds _ s)
          (create_or_sync-inbounds i email total expiry enable))
  ]
