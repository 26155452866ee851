-- ===== src/OnlineWebhook/Pushed.antt =====
-- What is pushed, to whom, and what is kept of it.
use nexcore_x_ui.Prelude.{
  ℕ, ◌/◌, ◌==◌, Bool, ◌≡◌, ◌⊎◌, refl, sym, ap, ◌∙◌, String, true, false, not, ◌||◌, Option, none,
  some, List, [], str_eq, if◌then◌else◌, any, arith, Bool-cases, inl, inr,
}
use nexcore_x_ui.Prelude.Text.{trim_space}
use nexcore_x_ui.Prelude.Maps.{lookup, keys_distinct}
use mathlib.Core.Path.{subst}
use nexcore_x_ui.Exec.{Err, webhook_url_rejected, Result, ok, err}
use nexcore_x_ui.Table.{Table}
use nexcore_x_ui.Table.Schemas.{settings_schema}
use nexcore_x_ui.Settings.{Env, get_string}
use nexcore_x_ui.OnlineWebhook.{
  Ip, Url, Online, Post, World, is_forbidden_ip, addresses, all_allowed, is_web, is_valid_url,
  validate_webhook_url, has_diff, snapshot, is_accepted, Webhook, value_or_empty, read_setting,
  node_id, named, send, send_valid, sent, tick_url, tick, send_to, send_now,
}
use nexcore_x_ui.OnlineWebhook.Difference.{has_diff-lookup, snapshot-keys_distinct}

-- The post goes to a web URL whose host stands for some addresses, none of which is forbidden.
abbrev pub Allowed : World → Post → Type 0
Allowed w p =
    (u : Url) × (w.parse_url (trim_space p.url) ≡ some u)
    × (is_web u.scheme ≡ true)
    × ((ips : List Ip) × (addresses w u.host ≡ some ips) × (any is_forbidden_ip ips ≡ false))

all_allowed-some :
    (o : Option (List Ip))
    → all_allowed o ≡ true
    → (ips : List Ip) × (o ≡ some ips) × (any is_forbidden_ip ips ≡ false)
all_allowed-some none h = cc
all_allowed-some (some ips) h = (ips, refl, ground arith)

is_valid_url-Allowed :
    (w : World) (p : Post) (o : Option Url)
    → w.parse_url (trim_space p.url) ≡ o
    → is_valid_url w o ≡ true
    → Allowed w p
is_valid_url-Allowed w p none h v = cc
is_valid_url-Allowed w p (some u) h v =
    (u, h, ground arith, all_allowed-some (addresses w u.host) (ground arith))

-- A status in the two hundreds.
abbrev pub is_success : Option ℕ → Bool
is_success none = false
is_success (some status) = status / 100 == 2

ok-is_success : (o : Option ℕ) → is_accepted o ≡ ok tt → is_success o ≡ true
ok-is_success none h = cc
ok-is_success (some status) h = ground arith

err-is_success : (o : Option ℕ) {e : Err} → is_accepted o ≡ err e → is_success o ≡ false
err-is_success none h = refl
err-is_success (some status) h = ground arith

abbrev post_of : Option Post → Post
post_of none = record {
  url = "";
  body = record { node_id = ""; ts = 0; online = [] };
  signature = none;
}
post_of (some p) = p

module _ (settings : Table settings_schema) (env : Env) where
  -- An outcome that posts only what is allowed.
  send-Allowed :
      (w : World) (url : String) (now : ℕ) (snap : Online) (s : Webhook settings env) {p : Post}
      → (send settings env w url now snap s).1 ≡ some p
      → Allowed w p
  unfolding send validate_webhook_url
  send-Allowed w url now snap s {p} h = elim (Bool-cases (validate_webhook_url w url)) [
    | inl valid ↦
        (let posted : ◌≡◌ {A = Option Post} (send_valid settings env w url now snap s).1 (some p) =
            rw valid at h in
          let same : url ≡ p.url =
            ap (λ (o : Option Post). elim o [ none ↦ url | some q ↦ q.url ]) posted in
          is_valid_url-Allowed w p (w.parse_url (trim_space p.url)) refl
            (ap (λ x. is_valid_url w (w.parse_url (trim_space x))) (sym same) ∙ valid))
    | inr refused ↦ cc (rw refused at h)
  ]

  sent-posted :
      (current : Online) (r : Result (Unit {0}) × Option Post × Webhook settings env)
      → (sent settings env current r).0 ≡ r.1
  sent-posted current (ok x, p, s) = refl
  sent-posted current (err e, p, s) = refl

  tick_url-Allowed :
      (w : World) (now : ℕ) (raw : Online) (r : Result String × Webhook settings env) {p : Post}
      → (tick_url settings env w now raw r).0 ≡ some p
      → Allowed w p
  tick_url-Allowed w now raw (err e, s) h = cc
  tick_url-Allowed w now raw (ok url, s) h =
      let current = snapshot w raw in
      elim (Bool-cases (str_eq url "" || not (has_diff s.last_sent current))) [
        | inl quiet ↦ cc (rw quiet at h)
        | inr due ↦
            send-Allowed w url now current s
              (sym (sent-posted current (send settings env w url now current s)) ∙ (rw due at h))
      ]

  send_to-Allowed :
      (w : World) (now : ℕ) (raw : Online) (r : Result String × Webhook settings env) {p : Post}
      → (send_to settings env w now raw r).1 ≡ some p
      → Allowed w p
  send_to-Allowed w now raw (err e, s) h = cc
  send_to-Allowed w now raw (ok url, s) h = elim (Bool-cases (str_eq url "")) [
    | inl blank ↦ cc (rw blank at h)
    | inr there ↦ send-Allowed w url now (snapshot w raw) s (rw there at h)
  ]

  -- Whatever a tick or SendNow posts goes to an http or https URL whose host stands for at least one
  -- address, and none of its addresses is loopback, unspecified, multicast, link-local or private.
  pub tick-Allowed :
      (w : World) (now : ℕ) (raw : Online) (s : Webhook settings env) (p : Post)
      → ((tick settings env w now raw s).0 ≡ some p)
        ⊎ ((send_now settings env w now raw s).1 ≡ some p)
      → Allowed w p
  unfolding tick send_now
  tick-Allowed w now raw s p (inl h) =
      tick_url-Allowed w now raw (read_setting settings env "onlineWebhookUrl" s) h
  tick-Allowed w now raw s p (inr h) =
      send_to-Allowed w now raw (read_setting settings env "onlineWebhookUrl" s) h

  read_setting-last_sent :
      (key : String) (s : Webhook settings env)
      → (read_setting settings env key s).1.last_sent ≡ s.last_sent
  unfolding read_setting
  read_setting-last_sent key s = refl

  named-last_sent :
      (w : World) (id : String) (s : Webhook settings env)
      → (named settings env w id s).1.last_sent ≡ s.last_sent
  named-last_sent w id s = elim (Bool-cases (not (str_eq id ""))) [
    | inl set ↦ rw set refl
    | inr unset ↦ rw unset (elim (Bool-cases (not (str_eq s.resolved_node_id ""))) [
      | inl known ↦ rw known refl
      | inr new ↦ rw new refl
    ])
  ]

  node_id-last_sent :
      (w : World) (s : Webhook settings env) → (node_id settings env w s).1.last_sent ≡ s.last_sent
  unfolding node_id
  node_id-last_sent w s =
      named-last_sent w
        (value_or_empty settings env (read_setting settings env "onlineWebhookNodeId" s).0)
        (read_setting settings env "onlineWebhookNodeId" s).1
      ∙ read_setting-last_sent "onlineWebhookNodeId" s

  send_valid-last_sent :
      (w : World) (url : String) (now : ℕ) (snap : Online) (s : Webhook settings env)
      → (send_valid settings env w url now snap s).2.last_sent ≡ s.last_sent
  send_valid-last_sent w url now snap s =
      read_setting-last_sent "onlineWebhookSecret" (node_id settings env w s).1
      ∙ node_id-last_sent w s

  -- What became of the last one sent, given what it was, what a tick posted and the state after it: an
  -- answer of success to a post that carries what is kept now, or else no such answer and nothing changed.
  abbrev pub Kept : World → Online → Option Post × Webhook settings env → Type 0
  Kept w before r =
      ((p : Post) × (r.0 ≡ some p)
        × (is_success (w.send_post p) ≡ true)
        × (r.1.last_sent ≡ p.body.online))
      ⊎ (((r.0 ≡ none) ⊎ ((p : Post) × (r.0 ≡ some p) × (is_success (w.send_post p) ≡ false)))
          × (r.1.last_sent ≡ before))

  sent-Kept :
      (w : World) (current before : Online) (o : Result (Unit {0})) (p : Post)
      (u : Webhook settings env)
      → is_accepted (w.send_post p) ≡ o
      → p.body.online ≡ current
      → u.last_sent ≡ before
      → Kept w before (sent settings env current (o, some p, u))
  sent-Kept w current before (ok x) p u h online kept =
      inl (p, refl, ok-is_success (w.send_post p) h, sym online)
  sent-Kept w current before (err e) p u h online kept =
      inr (inr (p, refl, err-is_success (w.send_post p) h), kept)

  send-Kept :
      (w : World) (url : String) (now : ℕ) (current : Online) (s : Webhook settings env)
      → Kept w s.last_sent (sent settings env current (send settings env w url now current s))
  unfolding send
  send-Kept w url now current s = elim (Bool-cases (validate_webhook_url w url)) [
    | inr refused ↦ rw refused (inr (inl refl, refl))
    | inl valid ↦
        subst
          (λ b. Kept w s.last_sent (
            sent settings env current (
              if b
              then send_valid settings env w url now current s
              else (err webhook_url_rejected, none, s))))
          (sym valid)
          (sent-Kept w current s.last_sent (send_valid settings env w url now current s).0
            (post_of (send_valid settings env w url now current s).1)
            (send_valid settings env w url now current s).2 refl refl
            (send_valid-last_sent w url now current s))
  ]

  tick_url-Kept :
      (w : World) (now : ℕ) (raw : Online) (r : Result String × Webhook settings env)
      → Kept w r.1.last_sent (tick_url settings env w now raw r)
  tick_url-Kept w now raw (err e, s) = inr (inl refl, refl)
  tick_url-Kept w now raw (ok url, s) =
      let current = snapshot w raw in
      elim (Bool-cases (str_eq url "" || not (has_diff s.last_sent current))) [
        | inl quiet ↦ rw quiet (inr (inl refl, refl))
        | inr due ↦ rw due (send-Kept w url now current s)
      ]

  -- Either a tick made a post that was answered with a status in the two hundreds, and then what it keeps as
  -- the last one sent is what that post carried; or it made no post, or one with another answer or none, and
  -- then it keeps what was sent last before.
  pub tick-last_sent :
      (w : World) (now : ℕ) (raw : Online) (s : Webhook settings env)
      → Kept w s.last_sent (tick settings env w now raw s)
  unfolding tick read_setting
  tick-last_sent w now raw s =
      tick_url-Kept w now raw (read_setting settings env "onlineWebhookUrl" s)

  accepted-current :
      (w : World) (current : Online) (p : Post) (u : Webhook settings env)
      → is_accepted (w.send_post p) ≡ ok tt
      → (sent settings env current (is_accepted (w.send_post p), some p, u)).1.last_sent ≡ current
  accepted-current w current p u h = rw h refl

  sent-current :
      (w : World) (url : String) (now : ℕ) (current : Online) (s : Webhook settings env)
      → validate_webhook_url w url ≡ true
      → ((p : Post) → is_accepted (w.send_post p) ≡ ok tt)
      → (sent settings env current (send settings env w url now current s)).1.last_sent ≡ current
  unfolding send
  sent-current w url now current s valid answers =
      let r = send_valid settings env w url now current s in
      rw valid (accepted-current w current (post_of r.1) r.2 (answers (post_of r.1)))

  tick_url-current :
      (w : World) (now : ℕ) (raw : Online) (url email : String) (s : Webhook settings env)
      → str_eq url "" ≡ false
      → validate_webhook_url w url ≡ true
      → ((p : Post) → is_accepted (w.send_post p) ≡ ok tt)
      → keys_distinct s.last_sent ≡ true
      → keys_distinct raw ≡ true
      → lookup email (tick_url settings env w now raw (ok url, s)).1.last_sent
        ≡ lookup email (snapshot w raw)
  tick_url-current w now raw url email s named valid answers d e =
      let current = snapshot w raw in
      elim (Bool-cases (has_diff s.last_sent current)) [
        | inl changed ↦
            rw (named, changed) (ap (lookup email) (sent-current w url now current s valid answers))
        | inr same ↦
            rw (named, same)
              (has_diff-lookup s.last_sent current d (snapshot-keys_distinct w raw e) same email)
      ]

  -- A tick with a URL that is set and allowed, and an answer that is a success, leaves as last sent, email by
  -- email, the snapshot of the addresses that are online, whether it had to push it or not.
  pub tick-current :
      (w : World) (now : ℕ) (raw : Online) (url email : String) (s : Webhook settings env)
      → (get_string settings env "onlineWebhookUrl" s.store).0 ≡ ok url
      → str_eq url "" ≡ false
      → validate_webhook_url w url ≡ true
      → ((p : Post) → is_accepted (w.send_post p) ≡ ok tt)
      → keys_distinct s.last_sent ≡ true
      → keys_distinct raw ≡ true
      → lookup email (tick settings env w now raw s).1.last_sent ≡ lookup email (snapshot w raw)
  unfolding tick read_setting
  tick-current w now raw url email s set named valid answers d e =
      let t : Webhook settings env = record s {
        store = (get_string settings env "onlineWebhookUrl" s.store).1;
      } in
      ap (λ r. lookup email (tick_url settings env w now raw (r, t)).1.last_sent) set
      ∙ tick_url-current w now raw url email t named valid answers d e
