-- ===== src/Tests/Database.antt =====
-- The panel's tables held in memory.
use nexcore_x_ui.Table.Memory.{memory}
use nexcore_x_ui.Table.Schemas.{
  Tables, inbounds_schema, clients_schema, outbounds_schema, block_rules_schema,
}

abbrev pub db : Tables
db = record {
  inbounds = memory inbounds_schema;
  clients = memory clients_schema;
  outbounds = memory outbounds_schema;
  block_rules = memory block_rules_schema;
}
