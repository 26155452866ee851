-- ===== src/Tests/Panel.antt =====
-- Runs of inbound.go, on a table that holds a VLESS and an HTTP inbound. The host has no interface that
-- the code could list, and Xray accepts a config of three inbounds or fewer.
use nexcore_x_ui.Prelude.{
  ℕ, arith, String, Bool, true, false, ◌⊎◌, inl, ◌≡◌, refl, none, List, [], ◌∷◌, any, leb, length,
  distinct, update_rows, count_rows, ◌==◌,
}
use nexcore_x_ui.Prelude.Text.{trim_space, decimal}
use nexcore_x_ui.Exec.{Err, err, ok}
use nexcore_x_ui.Json.{blank}
use nexcore_x_ui.Model.{Protocol, vless, vmess, http, Inbound, InboundConfig}
use nexcore_x_ui.Tests.Database.{db}
use nexcore_x_ui.Table.Memory.{memory}
use nexcore_x_ui.Table.Schemas.{Panel}
use nexcore_x_ui.Inbounds.{
  Net, is_multi_user_protocol, add_inbound, set_enable_many, delete_all, mem_id, update_inbound,
  candidate_configs, disable_invalid_inbounds,
}
use nexcore_x_ui.Inbounds.Accepted.{add_inbound-accepted}
use nexcore_x_ui.Inbounds.Singleton.{conflict, add_inbound-singleton}
use nexcore_x_ui.Inbounds.Batch.{switched_on, set_enable_many-accepted, delete_all-all_or_none}
use nexcore_x_ui.Inbounds.Update.{requested, update_inbound-rows}
use nexcore_x_ui.Inbounds.Limits.{switched_off, past_limit, disable_invalid_inbounds-rows}

abbrev host : Net
host = record {
  Ip = ℕ;
  parse_ip = λ s. none;
  is_unspecified = λ ip. ip == 0;
  equal = λ a b. a == b;
  interface_addrs = none;
}

abbrev at_most_three : List InboundConfig → Bool
at_most_three cs = leb (length cs) 3

abbrev inbound : ℕ → ℕ → Protocol → String → String → Inbound
inbound id port protocol tag outbound_tag = record {
  id = id;
  user_id = 1;
  up = 6;
  down = 6;
  total = 0;
  remark = "";
  enable = true;
  expiry_time = 0;
  listen = "";
  port = port;
  protocol = protocol;
  settings = blank;
  stream_settings = "";
  tag = tag;
  sniffing = "";
  outbound_tag = outbound_tag;
}

-- The second one is past its total.
abbrev two_inbounds : List Inbound
two_inbounds =
    inbound 1 443 vless "inbound-443" ""
    ∷ record (inbound 2 80 http "inbound-80" "") { total = 10 }
    ∷ []

abbrev start : Panel db
unfolding memory
start = record {
  inbounds = record { content = two_inbounds; unique = refl; positive = refl };
  clients = record { content = []; unique = refl; positive = refl };
  outbounds = record { content = []; unique = refl; positive = refl };
  block_rules = record { content = []; unique = refl; positive = refl };
  need_restart = false;
}

abbrev new_vmess : Inbound
new_vmess = inbound 0 8443 vmess "inbound-8443" ""

disable_invalid_inbounds-rows_example :
    (db.inbounds.rows (disable_invalid_inbounds db host at_most_three 50 start).1.inbounds
      ≡ update_rows (past_limit 50) switched_off two_inbounds)
    × (1 ≡ count_rows (past_limit 50) two_inbounds)
    × (any
          (past_limit 50)
          (db.inbounds.rows (disable_invalid_inbounds db host at_most_three 50 start).1.inbounds)
        ≡ false)
unfolding disable_invalid_inbounds memory
disable_invalid_inbounds-rows_example =
    disable_invalid_inbounds-rows db host at_most_three 50 start (omega arith) refl

add_inbound-accepted_example :
    at_most_three (
      candidate_configs
        (db.inbounds.rows (add_inbound db host at_most_three new_vmess start).1.inbounds))
    ≡ true
unfolding add_inbound memory trim_space is_multi_user_protocol
add_inbound-accepted_example =
    add_inbound-accepted db host at_most_three new_vmess start refl (inl refl) refl

add_inbound-singleton_example :
    distinct conflict
      (db.inbounds.rows (add_inbound db host at_most_three new_vmess start).1.inbounds)
    ≡ true
unfolding add_inbound memory trim_space is_multi_user_protocol
add_inbound-singleton_example =
    add_inbound-singleton db host at_most_three new_vmess start refl refl refl

abbrev moved : Inbound
moved = inbound 1 9443 vmess "" ""

update_inbound-rows_example :
    (db.inbounds.rows (update_inbound db host at_most_three moved start).1.inbounds
      ≡ update_rows (λ q. q.id == 1) (requested moved) two_inbounds)
    × ((moved.enable ≡ false)
        ⊎ (at_most_three (
              candidate_configs
                (db.inbounds.rows (update_inbound db host at_most_three moved start).1.inbounds))
            ≡ true))
unfolding update_inbound memory trim_space is_multi_user_protocol decimal
update_inbound-rows_example = update_inbound-rows db host at_most_three moved start refl

set_enable_many-accepted_example :
    (db.inbounds.rows (set_enable_many db host at_most_three (2 ∷ []) true start).1.inbounds
      ≡ update_rows (mem_id (2 ∷ [])) switched_on two_inbounds)
    × (at_most_three (
          candidate_configs (
            db.inbounds.rows
              (set_enable_many db host at_most_three (2 ∷ []) true start).1.inbounds))
        ≡ true)
unfolding set_enable_many memory
set_enable_many-accepted_example = set_enable_many-accepted db host at_most_three 2 [] start refl

delete_all-all_or_none_example :
    (((delete_all db host at_most_three start).0 ≡ ok 2)
      × (db.inbounds.rows (delete_all db host at_most_three start).1.inbounds ≡ [])
      × (db.clients.rows (delete_all db host at_most_three start).1.clients ≡ []))
    ⊎ ((e : Err) × ((delete_all db host at_most_three start).0 ≡ err e)
        × ((delete_all db host at_most_three start).1 ≡ start))
unfolding delete_all memory
delete_all-all_or_none_example = delete_all-all_or_none db host at_most_three start {r = ok 2} refl
