-- ===== src/Table/Schemas.antt =====
-- The tables of database/model/model.go with their primary keys and unique indexes, and the panel's
-- database: a value of each table beside the process-wide restart flag of web/service/xray.go.
use nexcore_x_ui.Prelude.{Bool, true, ◌&&◌, ◌==◌, str_eq, distinct, if◌then◌else◌}
use nexcore_x_ui.Model.{
  Inbound, ClientTraffic, Outbound, ApiToken, MagicToken, BlockRule, Setting, User, ApiLogRow,
}
use nexcore_x_ui.Table.{Schema, Table}

abbrev pub inbounds_schema : Schema
inbounds_schema = record {
  Row = Inbound;
  key = λ r. r.id;
  with_key = λ k r. record r { id = k };
  is_unique = λ rs.
      distinct (λ (a b : Inbound). a.id == b.id) rs
      && (distinct (λ (a b : Inbound). a.port == b.port) rs
          && distinct (λ (a b : Inbound). str_eq a.tag b.tag) rs);
  stored = λ r. r;
}

abbrev pub clients_schema : Schema
clients_schema = record {
  Row = ClientTraffic;
  key = λ r. r.id;
  with_key = λ k r. record r { id = k };
  is_unique = λ rs.
      distinct (λ (a b : ClientTraffic). a.id == b.id) rs
      && distinct (λ (a b : ClientTraffic). str_eq a.email b.email) rs;
  -- `gorm:"default:true"` on Enable: false, its zero value, is stored as true
  stored = λ r. record r { enable = true };
}

abbrev pub outbounds_schema : Schema
outbounds_schema = record {
  Row = Outbound;
  key = λ r. r.id;
  with_key = λ k r. record r { id = k };
  is_unique = λ rs.
      distinct (λ (a b : Outbound). a.id == b.id) rs
      && distinct (λ (a b : Outbound). str_eq a.tag b.tag) rs;
  stored = λ r. r;
}

abbrev pub api_tokens_schema : Schema
api_tokens_schema = record {
  Row = ApiToken;
  key = λ r. r.id;
  with_key = λ k r. record r { id = k };
  is_unique = λ rs.
      distinct (λ (a b : ApiToken). a.id == b.id) rs
      && (distinct (λ (a b : ApiToken). str_eq a.name b.name) rs
          && distinct (λ (a b : ApiToken). str_eq a.token b.token) rs);
  -- `gorm:"default:admin"` on Scope
  stored = λ r. record r { scope = if str_eq r.scope "" then "admin" else r.scope };
}

abbrev pub magic_tokens_schema : Schema
magic_tokens_schema = record {
  Row = MagicToken;
  key = λ r. r.id;
  with_key = λ k r. record r { id = k };
  is_unique = λ rs.
      distinct (λ (a b : MagicToken). a.id == b.id) rs
      && distinct (λ (a b : MagicToken). str_eq a.token b.token) rs;
  stored = λ r. r;
}

abbrev pub block_rules_schema : Schema
block_rules_schema = record {
  Row = BlockRule;
  key = λ r. r.id;
  with_key = λ k r. record r { id = k };
  is_unique = λ rs. distinct (λ (a b : BlockRule). a.id == b.id) rs;
  stored = λ r. r;
}

abbrev pub settings_schema : Schema
settings_schema = record {
  Row = Setting;
  key = λ r. r.id;
  with_key = λ k r. record r { id = k };
  is_unique = λ rs. distinct (λ (a b : Setting). a.id == b.id) rs;
  stored = λ r. r;
}

abbrev pub api_logs_schema : Schema
api_logs_schema = record {
  Row = ApiLogRow;
  key = λ r. r.id;
  with_key = λ k r. record r { id = k };
  is_unique = λ rs. distinct (λ (a b : ApiLogRow). a.id == b.id) rs;
  stored = λ r. r;
}

abbrev pub users_schema : Schema
users_schema = record {
  Row = User;
  key = λ r. r.id;
  with_key = λ k r. record r { id = k };
  is_unique = λ rs. distinct (λ (a b : User). a.id == b.id) rs;
  stored = λ r. r;
}

pub record Tables : Type 1 where
  pub inbounds : Table inbounds_schema
  pub clients : Table clients_schema
  pub outbounds : Table outbounds_schema
  pub block_rules : Table block_rules_schema

-- The database file and `isNeedXrayRestart`.
pub record Panel (g : Tables) : Type 0 where
  pub inbounds : g.inbounds.Tab
  pub clients : g.clients.Tab
  pub outbounds : g.outbounds.Tab
  pub block_rules : g.block_rules.Tab
  pub need_restart : Bool
