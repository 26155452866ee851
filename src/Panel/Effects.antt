-- ===== src/Panel/Effects.antt =====
-- What a statement that succeeds has done: the table that it names changed as the law says, and the
-- rest of the panel's state did not.
use nexcore_x_ui.Prelude.{
  ℕ, Bool, ◌≡◌, sym, ◌∙◌, Option, none, some, List, update_rows, delete_rows, select_rows,
  count_rows, ap,
}
use nexcore_x_ui.Exec.{ok}
use nexcore_x_ui.Model.{Inbound, ClientTraffic}
use nexcore_x_ui.Table.Schemas.{Tables, Panel}
use nexcore_x_ui.Panel.{
  to_exec, store_inbounds, store_clients, store_outbounds, store_block_rules, find_inbounds,
  find_clients, update_inbounds, update_clients, delete_inbounds, delete_clients,
}

module _ (g : Tables) where
  pub to_exec-ok :
      {A : Type 0} (o : Option A) (s : Panel g) {a : A} {t : Panel g}
      → to_exec g o s ≡ (ok a, t)
      → (o ≡ some a) × (t ≡ s)
  to_exec-ok none s h = (cc, cc)
  to_exec-ok (some b) s h = (cc, cc)

  pub store_inbounds-ok :
      (o : Option (ℕ × g.inbounds.Tab)) (s : Panel g) {n : ℕ} {t : Panel g}
      → store_inbounds g o s ≡ (ok n, t)
      → (tab : g.inbounds.Tab) × (o ≡ some (n, tab)) × (t ≡ record s { inbounds = tab })
  store_inbounds-ok none s h = cc
  store_inbounds-ok (some (m, tab)) s h = (tab, cc, cc)

  pub store_clients-ok :
      (o : Option (ℕ × g.clients.Tab)) (s : Panel g) {n : ℕ} {t : Panel g}
      → store_clients g o s ≡ (ok n, t)
      → (tab : g.clients.Tab) × (o ≡ some (n, tab)) × (t ≡ record s { clients = tab })
  store_clients-ok none s h = cc
  store_clients-ok (some (m, tab)) s h = (tab, cc, cc)

  pub store_outbounds-ok :
      (o : Option (ℕ × g.outbounds.Tab)) (s : Panel g) {n : ℕ} {t : Panel g}
      → store_outbounds g o s ≡ (ok n, t)
      → (tab : g.outbounds.Tab) × (o ≡ some (n, tab)) × (t ≡ record s { outbounds = tab })
  store_outbounds-ok none s h = cc
  store_outbounds-ok (some (m, tab)) s h = (tab, cc, cc)

  pub store_block_rules-ok :
      (o : Option (ℕ × g.block_rules.Tab)) (s : Panel g) {n : ℕ} {t : Panel g}
      → store_block_rules g o s ≡ (ok n, t)
      → (tab : g.block_rules.Tab) × (o ≡ some (n, tab)) × (t ≡ record s { block_rules = tab })
  store_block_rules-ok none s h = cc
  store_block_rules-ok (some (m, tab)) s h = (tab, cc, cc)

  pub find_clients-ok :
      (p : ClientTraffic → Bool) (s : Panel g) {rs : List ClientTraffic} {t : Panel g}
      → find_clients g p s ≡ (ok rs, t)
      → (rs ≡ select_rows p (g.clients.rows s.clients)) × (t ≡ s)
  find_clients-ok p s h =
      let (found, same) = to_exec-ok (g.clients.select p s.clients) s h in
      (g.clients.select-rows p s.clients found, same)

  pub find_inbounds-ok :
      (p : Inbound → Bool) (s : Panel g) {rs : List Inbound} {t : Panel g}
      → find_inbounds g p s ≡ (ok rs, t)
      → (rs ≡ select_rows p (g.inbounds.rows s.inbounds)) × (t ≡ s)
  find_inbounds-ok p s h =
      let (found, same) = to_exec-ok (g.inbounds.select p s.inbounds) s h in
      (g.inbounds.select-rows p s.inbounds found, same)

  pub update_clients-ok :
      (p : ClientTraffic → Bool) (f : ClientTraffic → ClientTraffic) (s : Panel g) {n : ℕ}
      {t : Panel g}
      → update_clients g p f s ≡ (ok n, t)
      → (g.clients.rows t.clients ≡ update_rows p f (g.clients.rows s.clients))
        × (n ≡ count_rows p (g.clients.rows s.clients))
        × (t ≡ record s { clients = t.clients })
  update_clients-ok p f s {n} {t} h =
      let (tab, done, same) = store_clients-ok (g.clients.update p f s.clients) s h in
      (
        ap (λ (q : Panel g). g.clients.rows q.clients) same
            ∙ g.clients.update-rows p f s.clients done,
        g.clients.update-count p f s.clients done,
        same ∙ ap (λ (q : Panel g). record s { clients = q.clients }) (sym same),
      )

  pub delete_clients-ok :
      (p : ClientTraffic → Bool) (s : Panel g) {n : ℕ} {t : Panel g}
      → delete_clients g p s ≡ (ok n, t)
      → (g.clients.rows t.clients ≡ delete_rows p (g.clients.rows s.clients))
        × (t ≡ record s { clients = t.clients })
  delete_clients-ok p s {n} {t} h =
      let (tab, done, same) = store_clients-ok (g.clients.delete p s.clients) s h in
      (
        ap (λ (q : Panel g). g.clients.rows q.clients) same
            ∙ g.clients.delete-rows p s.clients done,
        same ∙ ap (λ (q : Panel g). record s { clients = q.clients }) (sym same),
      )

  pub update_inbounds-ok :
      (p : Inbound → Bool) (f : Inbound → Inbound) (s : Panel g) {n : ℕ} {t : Panel g}
      → update_inbounds g p f s ≡ (ok n, t)
      → (g.inbounds.rows t.inbounds ≡ update_rows p f (g.inbounds.rows s.inbounds))
        × (n ≡ count_rows p (g.inbounds.rows s.inbounds))
        × (t ≡ record s { inbounds = t.inbounds })
  update_inbounds-ok p f s {n} {t} h =
      let (tab, done, same) = store_inbounds-ok (g.inbounds.update p f s.inbounds) s h in
      (
        ap (λ (q : Panel g). g.inbounds.rows q.inbounds) same
            ∙ g.inbounds.update-rows p f s.inbounds done,
        g.inbounds.update-count p f s.inbounds done,
        same ∙ ap (λ (q : Panel g). record s { inbounds = q.inbounds }) (sym same),
      )

  pub delete_inbounds-ok :
      (p : Inbound → Bool) (s : Panel g) {n : ℕ} {t : Panel g}
      → delete_inbounds g p s ≡ (ok n, t)
      → (g.inbounds.rows t.inbounds ≡ delete_rows p (g.inbounds.rows s.inbounds))
        × (n ≡ count_rows p (g.inbounds.rows s.inbounds))
        × (t ≡ record s { inbounds = t.inbounds })
  delete_inbounds-ok p s {n} {t} h =
      let (tab, done, same) = store_inbounds-ok (g.inbounds.delete p s.inbounds) s h in
      (
        ap (λ (q : Panel g). g.inbounds.rows q.inbounds) same
            ∙ g.inbounds.delete-rows p s.inbounds done,
        g.inbounds.delete-count p s.inbounds done,
        same ∙ ap (λ (q : Panel g). record s { inbounds = q.inbounds }) (sym same),
      )
