-- ===== src/XrayConfig/Clients.antt =====
-- A disabled client is in no inbound of the config.
use nexcore_x_ui.Prelude.{
  String, Bool, true, false, not, ◌||◌, ◌≡◌, refl, sym, ap, ◌∙◌, Option, none, some, List, [], ◌∷◌,
  ◌++◌, arith, if◌then◌else◌, Bool-cases, inl, inr, any, map, select_rows,
}
use nexcore_x_ui.Exec.{Result, ok, err, bind-eq-ok}
use nexcore_x_ui.Json.{
  Json, array, object, null, boolean, number, text, Fields, JsonText, blank, parsed, malformed,
  lookup_field, from_list,
}
use nexcore_x_ui.Json.Lookup.{lookup-set_field, to_list-from_list}
use nexcore_x_ui.Model.{Inbound, InboundConfig, Outbound, ClientTraffic, gen_xray_inbound_config}
use nexcore_x_ui.Table.Schemas.{Tables, Panel}
use nexcore_x_ui.Clients.{disabled_emails, emails_of}
use nexcore_x_ui.Outbounds.{RoutingRule, gen_routing_rules}
use nexcore_x_ui.XrayConfig.Parts.{lift-ok, get_xray_config-Parts}
use nexcore_x_ui.XrayConfig.{
  Config, raw_clients, is_disabled, strip_disabled_clients, filtered, is_served, add_served,
  served_configs, kept_clients, inject, inject_blocks, inject_outbounds, lift, get_xray_config,
  add_rules, append_outbounds, prepend_rules, or_keep, is_panic, rule_object,
}

-- The elements of clients[].
abbrev pub clients_of : JsonText → List Json
clients_of (parsed (object fs)) = raw_clients (lookup_field "clients" fs)
clients_of _ = []

abbrev pub serves_disabled : List String → InboundConfig → Bool
serves_disabled disabled c = any (is_disabled disabled) (clients_of c.settings)

any_kept :
    (disabled : List String) (vs : List Json)
    → any (is_disabled disabled) (kept_clients disabled vs) ≡ false
any_kept disabled [] = refl
any_kept disabled (v ∷ vs) = elim (Bool-cases (is_disabled disabled v)) [
  | inl out ↦ rw out (any_kept disabled vs)
  | inr stays ↦ rw stays (rw stays (any_kept disabled vs))
]

nobody : (v : Json) → is_disabled [] v ≡ false
nobody null = refl
nobody (boolean b) = refl
nobody (number n) = refl
nobody (text s) = refl
nobody (array vs) = refl
nobody (object fs) = ground arith

any_nobody : (vs : List Json) → any (is_disabled []) vs ≡ false
any_nobody [] = refl
any_nobody (v ∷ vs) = rw (nobody v) (any_nobody vs)

strip-clients :
    (settings : JsonText) (disabled : List String)
    → any (is_disabled disabled) (clients_of (strip_disabled_clients settings disabled)) ≡ false
unfolding strip_disabled_clients
strip-clients (parsed (object fs)) disabled =
    let vs = raw_clients (lookup_field "clients" fs) in
    elim (Bool-cases (any (is_disabled disabled) vs)) [
      | inl hit ↦ rw hit (
          rw (lookup-set_field "clients" (array (from_list (kept_clients disabled vs))) fs)
            (rw (to_list-from_list (kept_clients disabled vs)) (any_kept disabled vs)))
      | inr clear ↦ rw clear clear
    ]
strip-clients (parsed null) disabled = refl
strip-clients (parsed v) disabled = refl
strip-clients blank disabled = refl
strip-clients (malformed s) disabled = refl

append-any :
    (disabled : List String) (xs ys : List InboundConfig)
    → any (serves_disabled disabled) xs ≡ false
    → any (serves_disabled disabled) ys ≡ false
    → any (serves_disabled disabled) (xs ++ ys) ≡ false
append-any disabled [] ys h k = k
append-any disabled (x ∷ xs) ys h k = ground (arith, append-any disabled xs ys)

filtered-clients :
    (disabled : List String) (i : Inbound)
    → any (is_disabled disabled) (clients_of (filtered disabled i).settings) ≡ false
filtered-clients [] i = any_nobody (clients_of i.settings)
filtered-clients (d ∷ ds) i = strip-clients i.settings (d ∷ ds)

if_clear :
    (disabled : List String) (b : Bool) (xs ys : List InboundConfig)
    → any (serves_disabled disabled) xs ≡ false
    → any (serves_disabled disabled) ys ≡ false
    → any (serves_disabled disabled) (if b then xs else ys) ≡ false
if_clear disabled true xs ys h k = h
if_clear disabled false xs ys h k = k

cons_clear :
    (disabled : List String) (i : Inbound) (rest : List InboundConfig)
    → any (is_disabled disabled) (clients_of i.settings) ≡ false
    → any (serves_disabled disabled) rest ≡ false
    → any (serves_disabled disabled) (gen_xray_inbound_config i ∷ rest) ≡ false
unfolding gen_xray_inbound_config
cons_clear disabled i rest h k = ap (λ b. b || any (serves_disabled disabled) rest) h ∙ k

served_configs-clients :
    (disabled : List String) (is : List Inbound)
    → any (serves_disabled disabled) (served_configs disabled is) ≡ false
unfolding served_configs
served_configs-clients disabled [] = refl
served_configs-clients disabled (i ∷ is) =
    let rest = served_configs disabled is in
    let clear = served_configs-clients disabled is in
    let j = filtered disabled i in
    if_clear disabled i.enable (add_served j rest) rest
      (if_clear disabled (is_served j) (gen_xray_inbound_config j ∷ rest) rest
        (cons_clear disabled j rest (filtered-clients disabled i) clear) clear)
      clear

or_keep-inbounds :
    (c : Config) (r : Result JsonText) {c' : Config}
    → or_keep c r ≡ ok c'
    → c'.inbounds ≡ c.inbounds
or_keep-inbounds c (ok routing) h = ok_inbounds (record c { routing = routing }) h
  where
    ok_inbounds :
        (d : Config) {c' : Config}
        → ◌≡◌ {A = Result Config} (ok d) (ok c')
        → c'.inbounds ≡ d.inbounds
    ok_inbounds d h = ground arith
or_keep-inbounds c (err e) h = elim (Bool-cases (is_panic e)) [
  | inl panic ↦ cc (rw panic at h)
  | inr other ↦ ap (λ (d : Config). d.inbounds) (ok_eq c (rw other at h))
]
  where
    ok_eq : (d : Config) {c' : Config} → ◌≡◌ {A = Result Config} (ok d) (ok c') → c' ≡ d
    ok_eq d h = cc

inject_outbounds-inbounds :
    (obs : List Fields) (rules : List RoutingRule) (c : Config) {c' : Config}
    → inject_outbounds obs rules c ≡ ok c'
    → c'.inbounds ≡ c.inbounds
unfolding inject_outbounds
inject_outbounds-inbounds obs rules c h = at_end (append_outbounds obs c.outbounds) h
  where
    at_end :
        (o : Option JsonText) {c' : Config} → add_rules rules o c ≡ ok c' → c'.inbounds ≡ c.inbounds
    at_end none h =
        ap (λ (r : Result Config). elim r [ ok d ↦ d.inbounds | err e ↦ c.inbounds ]) (sym h)
    at_end (some out) h =
        or_keep-inbounds (record c { outbounds = out })
          (prepend_rules (map rule_object rules) c.routing) h

module _ (g : Tables) where
  disabled_emails-eq :
      (s : Panel g) {rs : List ClientTraffic}
      → g.clients.select (λ r. not r.enable) s.clients ≡ some rs
      → disabled_emails g s ≡ (ok (emails_of rs), s)
  unfolding disabled_emails
  disabled_emails-eq s sel = rw sel refl

  inject-inbounds :
      (blocks : List Fields) (obs : Option (List Fields)) (is : List Inbound) (c : Config)
      (s : Panel g) {c' : Config} {t : Panel g}
      → inject g blocks obs is c s ≡ (ok c', t)
      → c'.inbounds ≡ c.inbounds
  unfolding inject inject_blocks
  inject-inbounds blocks none is c s h =
      or_keep-inbounds c (prepend_rules blocks c.routing) (lift-ok g (inject_blocks blocks c) s h).0
  inject-inbounds blocks (some obs) is c s h =
      let (d, u, first, rest) =
        bind-eq-ok (lift g (inject_blocks blocks c))
          (λ d. lift g (inject_outbounds obs (gen_routing_rules is) d)) s h in
      inject_outbounds-inbounds obs (gen_routing_rules is) d
        (lift-ok g (inject_outbounds obs (gen_routing_rules is) d) u rest).0
      ∙ or_keep-inbounds c (prepend_rules blocks c.routing)
          (lift-ok g (inject_blocks blocks c) s first).0

  -- If the query for the disabled rows of client_traffics succeeds and the template's own inbounds serve
  -- none of their emails, then no inbound of the config serves one.
  pub get_xray_config-clients :
      (template : Config) (access_path : String) (by_created : List Outbound → List Outbound)
      (s : Panel g) {disabled : List ClientTraffic} {c : Config} {t : Panel g}
      → g.clients.select (λ r. not r.enable) s.clients ≡ some disabled
      → any (serves_disabled (emails_of disabled)) template.inbounds ≡ false
      → get_xray_config g (ok template) access_path by_created s ≡ (ok c, t)
      → any
          (serves_disabled (emails_of (select_rows (λ r. not r.enable) (g.clients.rows s.clients))))
          c.inbounds
        ≡ false
  get_xray_config-clients template access_path by_created s {disabled} {c} sel clean h =
      let parts = get_xray_config-Parts g template access_path by_created s h in
      let named : parts.emails ≡ emails_of disabled =
        cc (rw (disabled_emails-eq s sel) at parts.disabled) in
      let listed : c.inbounds ≡ template.inbounds ++ served_configs parts.emails parts.found =
        inject-inbounds parts.blocks parts.relays parts.found
          (record template {
            inbounds = template.inbounds ++ served_configs parts.emails parts.found;
            log = parts.log_section;
          })
          s parts.injected in
      ap (λ rs. any (serves_disabled (emails_of rs)) c.inbounds)
        (sym (g.clients.select-rows (λ r. not r.enable) s.clients sel))
      ∙ ap (any (serves_disabled (emails_of disabled))) listed
      ∙ append-any (emails_of disabled) template.inbounds (served_configs parts.emails parts.found)
          clean
          (ap (λ es. any (serves_disabled es) (served_configs parts.emails parts.found)) (sym named)
            ∙ served_configs-clients parts.emails parts.found)
