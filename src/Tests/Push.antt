-- ===== src/Tests/Push.antt =====
-- Runs of the webhook.
use nexcore_x_ui.Prelude.{◌≡◌, false, refl, none, some, [], ◌∷◌, inl}
use nexcore_x_ui.Prelude.Maps.{lookup}
use nexcore_x_ui.Table.Memory.{memory}
use nexcore_x_ui.Table.Schemas.{settings_schema}
use nexcore_x_ui.Settings.{Env, default_values, get_string}
use nexcore_x_ui.OnlineWebhook.{
  Ip, Online, Post, World, Webhook, validate_webhook_url, has_diff, snapshot, read_setting, send,
  tick,
}
use nexcore_x_ui.OnlineWebhook.Pushed.{Allowed, Kept, tick-Allowed, tick-last_sent, tick-current}

abbrev public_ip : Ip
public_ip = record {
  is_loopback = false;
  is_unspecified = false;
  is_multicast = false;
  is_link_local_unicast = false;
  is_link_local_multicast = false;
  is_private = false;
}

abbrev world : World
world = record {
  parse_url = λ _. some (record { scheme = "https"; host = "ops.example" });
  parse_ip = λ _. none;
  lookup_ip = λ _. some (public_ip ∷ []);
  sort_strings = λ ips. ips;
  hostname = some "node";
  sign = λ secret body. secret;
  send_post = λ _. some 204;
}

abbrev env : Env
unfolding default_values
env = record {
  cipher = record { v1 = none; v2 = none; encode = λ b. b; decode = λ s. some s };
  defaults = default_values "{}" "session";
}

abbrev webhook : Webhook (memory settings_schema) env
unfolding memory
webhook = record {
  store = record {
    table = record {
      content =
          record { id = 1; key = "onlineWebhookUrl"; value = "https://ops.example/online" } ∷ [];
      unique = refl;
      positive = refl;
    };
    cache = [];
  };
  last_sent = [];
  resolved_node_id = "";
}

abbrev online : Online
online = ("a@x", "10.0.0.1" ∷ []) ∷ []

abbrev pushed : Post
pushed = record {
  url = "https://ops.example/online";
  body = record { node_id = "node"; ts = 100; online = online };
  signature = none;
}

tick-Allowed_example : Allowed world pushed
unfolding memory env get_string tick read_setting snapshot has_diff send
tick-Allowed_example =
    tick-Allowed (memory settings_schema) env world 100 online webhook pushed (inl refl)

tick-last_sent_example :
    Kept
      (memory settings_schema)
      env
      world
      []
      (tick (memory settings_schema) env world 100 online webhook)
unfolding webhook
tick-last_sent_example = tick-last_sent (memory settings_schema) env world 100 online webhook

tick-current_example :
    lookup "a@x" (tick (memory settings_schema) env world 100 online webhook).1.last_sent
    ≡ lookup "a@x" (snapshot world online)
unfolding memory env get_string validate_webhook_url
tick-current_example =
    tick-current (memory settings_schema) env world 100 online "https://ops.example/online" "a@x"
      webhook refl refl refl (λ p. refl) refl refl
