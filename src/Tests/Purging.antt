-- ===== src/Tests/Purging.antt =====
-- A run of Purge.
use nexcore_x_ui.Prelude.{ℕ, refl, [], ◌∷◌, arith}
use nexcore_x_ui.Model.{ApiLogRow}
use nexcore_x_ui.Table.Memory.{memory}
use nexcore_x_ui.Table.Schemas.{api_logs_schema}
use nexcore_x_ui.ApiLog.Purge.{purge}
use nexcore_x_ui.ApiLog.Purged.{Ends, purge-Ends}

abbrev row : ℕ → ℕ → ApiLogRow
row id t = record {
  id = id;
  at_time = t;
  method = "GET";
  path = "/api/v1/inbounds";
  status = 200;
  duration_ms = 3;
  ip = "10.0.0.1";
  token_name = "ops";
}

abbrev table : (memory api_logs_schema).Tab
unfolding memory
table = record {
  content = row 1 100 ∷ row 2 200 ∷ row 3 2_000_000 ∷ [];
  unique = refl;
  positive = refl;
}

purge-Ends_example :
    Ends (memory api_logs_schema) 2_000_000 (purge (memory api_logs_schema) 3 2_000_000 0 table)
unfolding memory
purge-Ends_example = purge-Ends (memory api_logs_schema) 3 2_000_000 0 table (omega arith)
