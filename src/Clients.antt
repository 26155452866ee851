-- ===== src/Clients.antt =====
-- web/service/client_traffic.go: the traffic, quota and expiry of each client. `range` over a Go map
-- visits the entries in an order of its own: it is an argument, a function from the map (an
-- association list in insertion order) to the list of its entries in the order visited.
pub mod Lookup
pub mod Collect
pub mod Billing
pub mod Counting
pub mod Refinement
pub mod Ensure
pub mod Expiry
use nexcore_x_ui.Prelude.{
  ℕ, String, Bool, true, false, not, ◌&&◌, ◌||◌, Option, none, some, List, [], ◌∷◌, ◌++◌, ◌==◌,
  str_eq, if◌then◌else◌, any, add64, is_pos64, leb64,
}
use nexcore_x_ui.Exec.{Err, Exec, ◌>>=◌, ◌>>◌, pure, raise, transaction, client_traffic_not_found}
use nexcore_x_ui.Model.{ClientTraffic, Traffic}
use nexcore_x_ui.Table.Schemas.{Tables, Panel}
use nexcore_x_ui.Panel.{
  find_clients, create_client, save_client, update_clients, delete_clients, first_or,
}

-- The entry of one email in the map `deltas`.
pub record Delta : Type 0 where
  pub up : ℕ
  pub down : ℕ

abbrev pub Deltas : Type 0
Deltas = List (String × Delta)

-- deltas[email], and whether it is there.
abbrev pub lookup_delta : String → Deltas → Option Delta
lookup_delta e [] = none
lookup_delta e ((k, d) ∷ ds) = if str_eq k e then some d else lookup_delta e ds

-- `d.up += t.Up; d.down += t.Down` on a present entry, a new entry otherwise.
unfoldable pub add_delta : Traffic → Deltas → Deltas
add_delta t [] = (t.tag, record { up = t.up; down = t.down }) ∷ []
add_delta t ((k, d) ∷ ds) =
    if str_eq k t.tag
    then (k, record { up = add64 d.up t.up; down = add64 d.down t.down }) ∷ ds
    else (k, d) ∷ add_delta t ds

-- The rows of `traffics` that step 1 of AddTrafficByEmail folds in.
abbrev pub is_user : Traffic → Bool
is_user t = not t.is_inbound && not (str_eq t.tag "")

unfoldable pub collect_from : Deltas → List Traffic → Deltas
unfolding add_delta
collect_from ds [] = ds
collect_from ds (t ∷ ts) = collect_from (if is_user t then add_delta t ds else ds) ts

-- The map row email → row that step 2 builds: of two rows with one email the later one stays.
unfoldable pub row_for : String → List ClientTraffic → Option ClientTraffic
row_for e [] = none
row_for e (r ∷ rs) = elim (row_for e rs) [
  | some later ↦ some later
  | none ↦ if str_eq r.email e then some r else none
]

-- `shouldDisable`, given the new counters.
unfoldable pub should_disable : ℕ → ClientTraffic → ℕ → ℕ → Bool
should_disable now ct up down =
    ct.enable
    && ((is_pos64 ct.total && leb64 ct.total (add64 up down))
        || (is_pos64 ct.expiry_time && leb64 ct.expiry_time now))

-- `WHERE email IN ?` on the collected emails.
abbrev pub is_collected : Deltas → ClientTraffic → Bool
is_collected ds r = any (λ (kd : String × Delta). str_eq kd.0 r.email) ds

-- The WHERE clause of DisableExpired.
abbrev pub is_due : ℕ → ClientTraffic → Bool
is_due now r = r.enable && (is_pos64 r.expiry_time && leb64 r.expiry_time now)

-- What the UPDATE of step 3 sets: the counters, and `enable` only to switch it off.
abbrev pub set_counters : ℕ → ℕ → Bool → ClientTraffic → ClientTraffic
set_counters up down disable r = record r {
  up = up;
  down = down;
  enable = if disable then false else r.enable;
}

-- The emails of the rows that have one.
abbrev pub emails_of : List ClientTraffic → List String
emails_of [] = []
emails_of (r ∷ rs) = let rest = emails_of rs in if str_eq r.email "" then rest else r.email ∷ rest

module _ (g : Tables) where
  unfoldable pub get_by_email : String → Exec (Panel g) ClientTraffic
  get_by_email email =
      if str_eq email ""
      then raise client_traffic_not_found
      else (find_clients g (λ r. str_eq r.email email) >>= first_or g client_traffic_not_found)

  -- The set of emails as the list of its members.
  unfoldable pub disabled_emails : Exec (Panel g) (List String)
  disabled_emails = do rows ← find_clients g (λ r. not r.enable); pure (emails_of rows)

  -- db.Save on the loaded row when it exists: the counters up and down are not among the fields set.
  abbrev create_or_sync : ℕ → String → ℕ → ℕ → Bool → List ClientTraffic → Exec (Panel g) (Unit {0})
  create_or_sync inbound_id email total expiry_time enable [] = do
    create_client g (record {
      id = 0;
      inbound_id = inbound_id;
      email = email;
      up = 0;
      down = 0;
      total = total;
      expiry_time = expiry_time;
      enable = enable;
    })
    pure tt
  create_or_sync inbound_id email total expiry_time enable (existing ∷ _) = do
    save_client g (record existing {
      inbound_id = inbound_id;
      total = total;
      expiry_time = expiry_time;
      enable = enable;
    })
    pure tt

  unfoldable pub ensure_row : ℕ → String → ℕ → ℕ → Bool → Exec (Panel g) (Unit {0})
  ensure_row inbound_id email total expiry_time enable = if str_eq email "" then pure tt else do
    found ← find_clients g (λ r. str_eq r.email email)
    create_or_sync inbound_id email total expiry_time enable found

  unfoldable pub delete_by_email : String → Exec (Panel g) (Unit {0})
  delete_by_email email =
      if str_eq email "" then pure tt else do delete_clients g (λ r. str_eq r.email email); pure tt

  -- `if res.RowsAffected == 0 { return ErrClientTrafficNotFound }`
  abbrev found_or : Err → ℕ → Exec (Panel g) (Unit {0})
  found_or e n = if n == 0 then raise e else pure tt

  unfoldable pub reset_traffic : String → Exec (Panel g) (Unit {0})
  reset_traffic email = do
    n ← update_clients g (λ r. str_eq r.email email) (λ r. record r { up = 0; down = 0 })
    found_or client_traffic_not_found n

  -- A field that is nil in SetLimitsParams stays as it is.
  abbrev or_else {ℓ} : {A : Type ℓ} → A → Option A → A
  or_else a none = a
  or_else a (some b) = b

  abbrev is_none {ℓ} : {A : Type ℓ} → Option A → Bool
  is_none none = true
  is_none (some a) = false

  unfoldable pub set_limits : String → Option ℕ → Option ℕ → Option Bool → Exec (Panel g) (Unit {0})
  set_limits email total expiry_time enable =
      if is_none total && (is_none expiry_time && is_none enable) then pure tt else do
        n ←
            update_clients g (λ r. str_eq r.email email)
              λ r. record r {
                total = or_else r.total total;
                expiry_time = or_else r.expiry_time expiry_time;
                enable = or_else r.enable enable;
              }
        found_or client_traffic_not_found n

  -- One round of step 3, on an email whose row was loaded.
  unfoldable pub apply_loaded :
      ℕ → String → Delta → ClientTraffic → List String → Exec (Panel g) (List String)
  unfolding should_disable
  apply_loaded now email d ct disabled =
      let up = add64 ct.up d.up in
      let down = add64 ct.down d.down in
      let disable = should_disable now ct up down in
      if d.up == 0 && (d.down == 0 && not disable) then pure disabled else do
        update_clients g (λ r. r.id == ct.id) (set_counters up down disable)
        pure (if disable then disabled ++ email ∷ [] else disabled)

  abbrev apply_delta :
      ℕ → String → Delta → Option ClientTraffic → List String → Exec (Panel g) (List String)
  apply_delta now email d none disabled = pure disabled
  apply_delta now email d (some ct) disabled = apply_loaded now email d ct disabled

  unfoldable pub apply_deltas :
      ℕ → List ClientTraffic → Deltas → List String → Exec (Panel g) (List String)
  unfolding apply_loaded row_for
  apply_deltas now loaded [] disabled = pure disabled
  apply_deltas now loaded ((email, d) ∷ ds) disabled =
      apply_delta now email d (row_for email loaded) disabled >>= λ disabled'.
      apply_deltas now loaded ds disabled'

  -- Steps 2 and 3 on the collected emails.
  unfoldable pub bill_loaded : (Deltas → Deltas) → ℕ → Deltas → Exec (Panel g) (List String)
  unfolding apply_deltas
  bill_loaded order now ds = do
    loaded ← find_clients g (is_collected ds)
    apply_deltas now loaded (order ds) []

  -- They run in one transaction; with no email collected none is begun.
  unfoldable pub bill_collected : (Deltas → Deltas) → ℕ → Deltas → Exec (Panel g) (List String)
  unfolding bill_loaded
  bill_collected order now [] = pure []
  bill_collected order now (first ∷ more) = transaction (bill_loaded order now (first ∷ more))

  -- The list of disabled emails that comes beside an error is dropped: the callers ignore it.
  unfoldable pub add_traffic_by_email :
      (Deltas → Deltas) → List Traffic → ℕ → Exec (Panel g) (List String)
  unfolding collect_from bill_collected
  add_traffic_by_email order traffics now = bill_collected order now (collect_from [] traffics)

  -- The loop of DisableExpired, one UPDATE a row and no transaction.
  unfoldable pub disable_rows : List ClientTraffic → Exec (Panel g) (List String)
  disable_rows [] = pure []
  disable_rows (r ∷ rs) =
      update_clients g (λ q. q.id == r.id) (λ q. record q { enable = false }) >>= λ _.
      (disable_rows rs >>= λ out. pure (r.email ∷ out))

  unfoldable pub disable_expired : ℕ → Exec (Panel g) (List String)
  unfolding disable_rows
  disable_expired now = do rows ← find_clients g (is_due now); disable_rows rows
