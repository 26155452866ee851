-- ===== src/XrayConfig/Rules.antt =====
-- The order of the routing rules in the config.
use nexcore_x_ui.Prelude.{String, ◌≡◌, refl, sym, ap, ◌∙◌, none, some, List, [], ◌∷◌, ◌++◌, map}
use nexcore_x_ui.Exec.{Result, ok, Exec, ◌>>=◌, pure, bind-eq-ok}
use nexcore_x_ui.Json.{Json, array, object, Fields, JsonText, parsed, set_field, from_list}
use nexcore_x_ui.Json.Lookup.{lookup-set_field, to_list-from_list}
use nexcore_x_ui.Model.{Inbound, Outbound}
use nexcore_x_ui.Table.Schemas.{Tables, Panel}
use nexcore_x_ui.Outbounds.{RoutingRule, gen_routing_rules, gen_xray_outbound_configs}
use nexcore_x_ui.BlockRules.{gen_block_rules}
use nexcore_x_ui.XrayConfig.{
  Config, raw_clients, rules_in, prepend_rules, rule_object, or_keep, append_outbounds, inject,
  inject_blocks, inject_outbounds, served_configs, default, lift, get_xray_config,
}
use nexcore_x_ui.XrayConfig.Parts.{lift-ok, get_xray_config-Parts}

prepended-rules :
    (rs : List Fields) (router : Fields)
    → (router' : Fields) × (prepend_rules rs (parsed (object router))
        ≡ ok (parsed (object router')))
      × (rules_in router' ≡ map object rs ++ rules_in router)
unfolding prepend_rules
prepended-rules [] router = (router, refl, refl)
prepended-rules (r ∷ rs) router =
    let vs = map object (r ∷ rs) ++ rules_in router in
    (
      set_field "rules" (array (from_list vs)) router,
      refl,
      ap raw_clients (lookup-set_field "rules" (array (from_list vs)) router)
          ∙ to_list-from_list vs,
    )

ok_eq : {A : Type 0} {a b : A} → ◌≡◌ {A = Result A} (ok a) (ok b) → b ≡ a
ok_eq h = cc

or_keep-routing :
    (c : Config) (r : Result JsonText) {routing : JsonText} {c' : Config}
    → r ≡ ok routing
    → or_keep c r ≡ ok c'
    → c' ≡ record c { routing = routing }
or_keep-routing c r e h = ok_eq (rw e at h)

inject_blocks-rules :
    (blocks : List Fields) (router : Fields) (c : Config) {d : Config}
    → c.routing ≡ parsed (object router)
    → inject_blocks blocks c ≡ ok d
    → (router' : Fields) × (d ≡ record c { routing = parsed (object router') })
      × (rules_in router' ≡ map object blocks ++ rules_in router)
unfolding inject_blocks
inject_blocks-rules blocks router c same h =
    let (router', made, rules) = prepended-rules blocks router in
    (
      router',
      or_keep-routing c (prepend_rules blocks c.routing) (ap (prepend_rules blocks) same ∙ made) h,
      rules,
    )

inject_outbounds-rules :
    (obs : List Fields) (rules : List RoutingRule) (router : Fields) (c : Config)
    {outbounds : JsonText} {d : Config}
    → c.routing ≡ parsed (object router)
    → append_outbounds obs c.outbounds ≡ some outbounds
    → inject_outbounds obs rules c ≡ ok d
    → (router' : Fields) × (d
        ≡ record c { outbounds = outbounds; routing = parsed (object router') })
      × (rules_in router' ≡ map object (map rule_object rules) ++ rules_in router)
unfolding inject_outbounds
inject_outbounds-rules obs rules router c {outbounds} same merged h =
    let (router', made, listed) = prepended-rules (map rule_object rules) router in
    (
      router',
      or_keep-routing (record c { outbounds = outbounds })
          (prepend_rules (map rule_object rules) c.routing)
          (ap (prepend_rules (map rule_object rules)) same ∙ made) (rw merged at h),
      listed,
    )

-- The rules of a routing section.
abbrev pub rules_of : JsonText → List Json
rules_of (parsed (object router)) = rules_in router
rules_of _ = []

module _ (g : Tables) where
  inject-rules :
      (blocks obs : List Fields) (is : List Inbound) (router : Fields) (c : Config) (s : Panel g)
      {outbounds : JsonText} {d : Config} {t : Panel g}
      → c.routing ≡ parsed (object router)
      → append_outbounds obs c.outbounds ≡ some outbounds
      → inject g blocks (some obs) is c s ≡ (ok d, t)
      → rules_of d.routing
        ≡ map object (map rule_object (gen_routing_rules is))
          ++ (map object blocks ++ rules_in router)
  unfolding inject
  inject-rules blocks obs is router c s {d = d} same merged h =
      let (e, u, first, rest) =
        bind-eq-ok (lift g (inject_blocks blocks c))
          (λ e. lift g (inject_outbounds obs (gen_routing_rules is) e)) s h in
      let (router₁, eq_e, listed₁) =
        inject_blocks-rules blocks router c same (lift-ok g (inject_blocks blocks c) s first).0 in
      let (router₂, eq_d, listed₂) =
        inject_outbounds-rules obs (gen_routing_rules is) router₁ e
          (ap (λ (x : Config). x.routing) eq_e)
          (ap (λ (x : Config). append_outbounds obs x.outbounds) eq_e ∙ merged)
          (lift-ok g (inject_outbounds obs (gen_routing_rules is) e) u rest).0 in
      ap (λ (x : Config). rules_of x.routing) eq_d
      ∙ listed₂
      ∙ ap (λ l. map object (map rule_object (gen_routing_rules is)) ++ l) listed₁

  default-value :
      {A : Type 0} (a : A) (m : Exec (Panel g) A) (s : Panel g) {b c : A}
      → m s ≡ (ok b, s)
      → default g a m s ≡ (ok c, s)
      → c ≡ b
  default-value {A} a m s done h = value (rw done at h)
    where
      value : {b c : A} {s t : Panel g} → ◌≡◌ {A = Result A × Panel g} (ok b, s) (ok c, t) → c ≡ b
      value h = cc

  -- When the routing section of the template is an object, its outbounds section is absent, null or a list
  -- (or the users have no outbounds), so that the users' outbounds can be put into it, and the queries
  -- succeed, the rules of the config are those that tie inbounds to outbounds, then the block rules, then the
  -- template's own.
  pub get_xray_config-rules :
      (template : Config) (router : Fields) (access_path : String)
      (by_created : List Outbound → List Outbound) (s : Panel g) {blocks obs : List Fields}
      {outbounds : JsonText} {c : Config} {t : Panel g}
      → template.routing ≡ parsed (object router)
      → gen_block_rules g s ≡ (ok blocks, s)
      → gen_xray_outbound_configs g by_created s ≡ (ok obs, s)
      → append_outbounds obs template.outbounds ≡ some outbounds
      → get_xray_config g (ok template) access_path by_created s ≡ (ok c, t)
      → rules_of c.routing
        ≡ map object (map rule_object (gen_routing_rules (g.inbounds.rows s.inbounds)))
          ++ (map object blocks ++ rules_in router)
  get_xray_config-rules template router access_path by_created s {blocks} {obs} same blocked relayed
        merged h =
      let parts = get_xray_config-Parts g template access_path by_created s h in
      let these : parts.blocks ≡ blocks =
        default-value [] (gen_block_rules g) s blocked parts.block_rules in
      let those : parts.relays ≡ some obs =
        default-value none (gen_xray_outbound_configs g by_created >>= λ l. pure (some l)) s
          (queried relayed) parts.outbounds in
      let c₁ : Config = record template {
        inbounds = template.inbounds ++ served_configs parts.emails parts.found;
        log = parts.log_section;
      } in
      inject-rules blocks obs (g.inbounds.rows s.inbounds) router c₁ s same merged (
        ap (λ l. inject g l (some obs) (g.inbounds.rows s.inbounds) c₁ s) (sym these)
        ∙ ap (λ o. inject g parts.blocks o (g.inbounds.rows s.inbounds) c₁ s) (sym those)
        ∙ ap (λ is. inject g parts.blocks parts.relays is c₁ s) (sym parts.all_found)
        ∙ parts.injected)
    where
      queried :
          gen_xray_outbound_configs g by_created s ≡ (ok obs, s)
          → (gen_xray_outbound_configs g by_created >>= λ l. pure (some l)) s ≡ (ok (some obs), s)
      queried relayed = rw relayed refl
