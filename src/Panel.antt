-- ===== src/Panel.antt =====
-- The statements of a service on the panel's database: each reads or writes one table, and an error
-- of gorm is the error `database` with the table as it was.
pub mod Effects
use nexcore_x_ui.Prelude.{ℕ, Bool, true, Option, none, some, List, [], ◌∷◌}
use nexcore_x_ui.Exec.{Err, database, ok, err, Exec, pure, raise}
use nexcore_x_ui.Model.{Inbound, ClientTraffic, Outbound, BlockRule}
use nexcore_x_ui.Table.Schemas.{Tables, Panel}

module _ (g : Tables) where
  abbrev pub to_exec : {A : Type 0} → Option A → Exec (Panel g) A
  to_exec none s = (err database, s)
  to_exec (some a) s = (ok a, s)

  abbrev pub store_inbounds : Option (ℕ × g.inbounds.Tab) → Exec (Panel g) ℕ
  store_inbounds none s = (err database, s)
  store_inbounds (some (n, t)) s = (ok n, record s { inbounds = t })

  abbrev pub store_clients : Option (ℕ × g.clients.Tab) → Exec (Panel g) ℕ
  store_clients none s = (err database, s)
  store_clients (some (n, t)) s = (ok n, record s { clients = t })

  abbrev pub store_outbounds : Option (ℕ × g.outbounds.Tab) → Exec (Panel g) ℕ
  store_outbounds none s = (err database, s)
  store_outbounds (some (n, t)) s = (ok n, record s { outbounds = t })

  abbrev pub find_inbounds : (Inbound → Bool) → Exec (Panel g) (List Inbound)
  find_inbounds p s = to_exec (g.inbounds.select p s.inbounds) s

  abbrev pub save_inbound : Inbound → Exec (Panel g) ℕ
  save_inbound r s = store_inbounds (g.inbounds.save r s.inbounds) s

  abbrev pub update_inbounds : (Inbound → Bool) → (Inbound → Inbound) → Exec (Panel g) ℕ
  update_inbounds p f s = store_inbounds (g.inbounds.update p f s.inbounds) s

  abbrev pub delete_inbounds : (Inbound → Bool) → Exec (Panel g) ℕ
  delete_inbounds p s = store_inbounds (g.inbounds.delete p s.inbounds) s

  abbrev pub find_clients : (ClientTraffic → Bool) → Exec (Panel g) (List ClientTraffic)
  find_clients p s = to_exec (g.clients.select p s.clients) s

  abbrev pub create_client : ClientTraffic → Exec (Panel g) ℕ
  create_client r s = store_clients (g.clients.create r s.clients) s

  abbrev pub save_client : ClientTraffic → Exec (Panel g) ℕ
  save_client r s = store_clients (g.clients.save r s.clients) s

  abbrev pub update_clients :
      (ClientTraffic → Bool) → (ClientTraffic → ClientTraffic) → Exec (Panel g) ℕ
  update_clients p f s = store_clients (g.clients.update p f s.clients) s

  abbrev pub delete_clients : (ClientTraffic → Bool) → Exec (Panel g) ℕ
  delete_clients p s = store_clients (g.clients.delete p s.clients) s

  abbrev pub find_outbounds : (Outbound → Bool) → Exec (Panel g) (List Outbound)
  find_outbounds p s = to_exec (g.outbounds.select p s.outbounds) s

  abbrev pub create_outbound : Outbound → Exec (Panel g) ℕ
  create_outbound r s = store_outbounds (g.outbounds.create r s.outbounds) s

  abbrev pub save_outbound : Outbound → Exec (Panel g) ℕ
  save_outbound r s = store_outbounds (g.outbounds.save r s.outbounds) s

  abbrev pub delete_outbounds : (Outbound → Bool) → Exec (Panel g) ℕ
  delete_outbounds p s = store_outbounds (g.outbounds.delete p s.outbounds) s

  abbrev pub store_block_rules : Option (ℕ × g.block_rules.Tab) → Exec (Panel g) ℕ
  store_block_rules none s = (err database, s)
  store_block_rules (some (n, t)) s = (ok n, record s { block_rules = t })

  abbrev pub find_block_rules : (BlockRule → Bool) → Exec (Panel g) (List BlockRule)
  find_block_rules p s = to_exec (g.block_rules.select p s.block_rules) s

  abbrev pub create_block_rule : BlockRule → Exec (Panel g) ℕ
  create_block_rule r s = store_block_rules (g.block_rules.create r s.block_rules) s

  abbrev pub save_block_rule : BlockRule → Exec (Panel g) ℕ
  save_block_rule r s = store_block_rules (g.block_rules.save r s.block_rules) s

  abbrev pub update_block_rules : (BlockRule → Bool) → (BlockRule → BlockRule) → Exec (Panel g) ℕ
  update_block_rules p f s = store_block_rules (g.block_rules.update p f s.block_rules) s

  abbrev pub delete_block_rules : (BlockRule → Bool) → Exec (Panel g) ℕ
  delete_block_rules p s = store_block_rules (g.block_rules.delete p s.block_rules) s

  -- First: the row with the lowest key, or the service's error for gorm.ErrRecordNotFound.
  abbrev pub first_or : {A : Type 0} → Err → List A → Exec (Panel g) A
  first_or e [] = raise e
  first_or e (x ∷ xs) = pure x

  -- SetToNeedRestart
  abbrev pub set_need_restart : Exec (Panel g) (Unit {0})
  set_need_restart s = (ok tt, record s { need_restart = true })
