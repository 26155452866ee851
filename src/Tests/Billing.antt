-- ===== src/Tests/Billing.antt =====
-- Runs of client_traffic.go, on two clients: a quota that the bytes reach, and an expiry that is due.
use nexcore_x_ui.Prelude.{
  ℕ, String, true, false, ◌≡◌, refl, List, [], ◌∷◌, map, any, select_rows, update_rows, arith, All,
  ◌++◌, eq_iff, none, some,
}
use nexcore_x_ui.Exec.{database}
use nexcore_x_ui.Model.{ClientTraffic, Traffic}
use nexcore_x_ui.Table.{Table}
use nexcore_x_ui.Tests.Database.{db}
use nexcore_x_ui.Table.Memory.{memory}
use nexcore_x_ui.Table.Schemas.{
  Tables, Panel, inbounds_schema, clients_schema, outbounds_schema, block_rules_schema,
}
use nexcore_x_ui.Clients.{Deltas, disable_expired, add_traffic_by_email, ensure_row}
use nexcore_x_ui.Clients.Billing.{IsCounted}
use nexcore_x_ui.Clients.Refinement.{billed, add_traffic_by_email-rows, add_traffic_by_email_atomic}
use nexcore_x_ui.Clients.Ensure.{has_email, configured, ensure_row-rows_old, ensure_row-rows_new}
use nexcore_x_ui.Clients.Expiry.{switched_off, expired, disable_expired-rows}

abbrev client : ℕ → String → ℕ → ℕ → ClientTraffic
client id email total expiry_time = record {
  id = id;
  inbound_id = 1;
  email = email;
  up = 5;
  down = 0;
  total = total;
  expiry_time = expiry_time;
  enable = true;
}

abbrev two_clients : List ClientTraffic
two_clients = client 1 "ann" 8 0 ∷ client 2 "bob" 0 40 ∷ []

abbrev start : Panel db
unfolding memory
start = record {
  inbounds = record { content = []; unique = refl; positive = refl };
  clients = record { content = two_clients; unique = refl; positive = refl };
  outbounds = record { content = []; unique = refl; positive = refl };
  block_rules = record { content = []; unique = refl; positive = refl };
  need_restart = false;
}

disable_expired-rows_example :
    (db.clients.rows (disable_expired db 50 start).1.clients
      ≡ update_rows (expired 50) switched_off two_clients)
    × ("bob" ∷ [] ≡ map (λ (r : ClientTraffic). r.email) (select_rows (expired 50) two_clients))
    × (any (expired 50) (db.clients.rows (disable_expired db 50 start).1.clients) ≡ false)
unfolding disable_expired memory
disable_expired-rows_example = disable_expired-rows db 50 start (omega arith) refl

abbrev as_visited : Deltas → Deltas
as_visited ds = ds

abbrev statistics : List Traffic
statistics =
    record { is_inbound = false; tag = "ann"; up = 1; down = 1 }
    ∷ record { is_inbound = true; tag = "inbound-443"; up = 7; down = 7 }
    ∷ record { is_inbound = false; tag = "ann"; up = 0; down = 2 }
    ∷ []

add_traffic_by_email-rows_example :
    (db.clients.rows (add_traffic_by_email db as_visited statistics 20 start).1.clients
      ≡ map (billed 20 statistics) two_clients)
    × ((add_traffic_by_email db as_visited statistics 20 start).1 ≡ record start {
      clients = (add_traffic_by_email db as_visited statistics 20 start).1.clients;
    })
unfolding add_traffic_by_email memory
add_traffic_by_email-rows_example =
    add_traffic_by_email-rows db as_visited statistics 20 start
      (record { same = λ e. refl; once = refl }) counted refl
  where
    counted : All IsCounted two_clients
    counted = ground arith

ensure_row-rows_old_example :
    db.clients.rows (ensure_row db 3 "bob" 100 0 false start).1.clients
    ≡ update_rows (has_email "bob") (configured 3 100 0 false) two_clients
unfolding ensure_row memory
ensure_row-rows_old_example =
    ensure_row-rows_old db 3 "bob" 100 0 false start (λ same. cc ((eq_iff "bob" "").1 same)) refl
      refl

ensure_row-rows_new_example :
    (id : ℕ) × (db.clients.rows (ensure_row db 3 "cat" 100 0 false start).1.clients
      ≡ two_clients
        ++ record {
          id = id;
          inbound_id = 3;
          email = "cat";
          up = 0;
          down = 0;
          total = 100;
          expiry_time = 0;
          enable = true;
        }
          ∷ [])
unfolding ensure_row memory
ensure_row-rows_new_example =
    ensure_row-rows_new db 3 "cat" 100 0 false start (λ same. cc ((eq_iff "cat" "").1 same)) refl
      refl

-- A table whose database refuses every UPDATE.
refused : {A B : Type 0} {a : A} → none ≡ some a → B
refused h = cc

abbrev read_only : Table clients_schema
unfolding memory
read_only = record (memory clients_schema) {
  update = λ p f t. none;
  update-rows = λ p f t h. refused h;
  update-count = λ p f t h. refused h;
}

abbrev read_only_db : Tables
read_only_db = record {
  inbounds = memory inbounds_schema;
  clients = read_only;
  outbounds = memory outbounds_schema;
  block_rules = memory block_rules_schema;
}

abbrev read_only_start : Panel read_only_db
unfolding memory
read_only_start = record {
  inbounds = record { content = []; unique = refl; positive = refl };
  clients = record { content = two_clients; unique = refl; positive = refl };
  outbounds = record { content = []; unique = refl; positive = refl };
  block_rules = record { content = []; unique = refl; positive = refl };
  need_restart = false;
}

add_traffic_by_email_atomic_example :
    (add_traffic_by_email read_only_db as_visited statistics 20 read_only_start).1 ≡ read_only_start
unfolding add_traffic_by_email memory
add_traffic_by_email_atomic_example =
    add_traffic_by_email_atomic read_only_db as_visited statistics 20 read_only_start {e = database}
      refl
