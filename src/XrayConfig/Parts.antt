-- ===== src/XrayConfig/Parts.antt =====
-- The steps of a GetXrayConfig that succeeds: it only reads, so each of them runs on the same state.
use nexcore_x_ui.Prelude.{
  String, true, not, ◌≡◌, refl, sym, ap, ap₂, ◌∙◌, Option, none, some, List, [], ◌++◌, select_all,
}
use nexcore_x_ui.Exec.{Result, ok, err, Exec, ◌>>=◌, pure, bind-eq-ok, bind-view}
use nexcore_x_ui.Json.{Fields, JsonText}
use nexcore_x_ui.Model.{Inbound, InboundConfig, Outbound}
use nexcore_x_ui.Table.Schemas.{Tables, Panel}
use nexcore_x_ui.Panel.{find_inbounds, find_clients, find_outbounds, find_block_rules, to_exec}
use nexcore_x_ui.Panel.Effects.{find_inbounds-ok}
use nexcore_x_ui.Clients.{disabled_emails, emails_of}
use nexcore_x_ui.Outbounds.{list_outbounds, gen_xray_outbound_configs}
use nexcore_x_ui.BlockRules.{gen_block_rules}
use nexcore_x_ui.XrayConfig.{
  Config, served_configs, inject, default, or_default, lift, with_inbounds, with_access_log,
  get_xray_config,
}

module _ (g : Tables) where
  pub lift-ok :
      {A : Type 0} (r : Result A) (s : Panel g) {a : A} {t : Panel g}
      → lift g r s ≡ (ok a, t)
      → (r ≡ ok a) × (t ≡ s)
  lift-ok (ok b) s h = (cc, cc)
  lift-ok (err e) s h = (cc, cc)

  to_exec-state : {A : Type 0} (o : Option A) (s : Panel g) → (to_exec g o s).1 ≡ s
  to_exec-state none s = refl
  to_exec-state (some a) s = refl

  or_default-state : {A : Type 0} (a : A) (r : Result A × Panel g) → (or_default g a r).1 ≡ r.1
  or_default-state a (ok b, s) = refl
  or_default-state a (err e, s) = refl

  default-ok :
      {A : Type 0} (a : A) (m : Exec (Panel g) A) (s : Panel g) {b : A} {t : Panel g}
      → (m s).1 ≡ s
      → default g a m s ≡ (ok b, t)
      → t ≡ s
  default-ok {A} a m s reads h =
      ap (λ (r : Result A × Panel g). r.1) (sym h) ∙ or_default-state a (m s) ∙ reads

  disabled_emails-state : (s : Panel g) → (disabled_emails g s).1 ≡ s
  unfolding disabled_emails
  disabled_emails-state s =
      bind-view (λ (q : Panel g). q) (find_clients g (λ r. not r.enable))
        (λ rows. pure (emails_of rows)) s
        (to_exec-state (g.clients.select (λ r. not r.enable) s.clients) s) (λ rows q. refl)

  gen_block_rules-state : (s : Panel g) → (gen_block_rules g s).1 ≡ s
  unfolding gen_block_rules
  gen_block_rules-state s =
      bind-view (λ (q : Panel g). q) (find_block_rules g (λ _. true)) _ s
        (to_exec-state (g.block_rules.select (λ _. true) s.block_rules) s) (λ rows q. refl)

  gen_outbounds-state :
      (by_created : List Outbound → List Outbound) (s : Panel g)
      → (gen_xray_outbound_configs g by_created s).1 ≡ s
  unfolding gen_xray_outbound_configs
  gen_outbounds-state by_created s =
      bind-view (λ (q : Panel g). q) (list_outbounds g by_created) _ s
        (bind-view (λ (q : Panel g). q) (find_outbounds g (λ _. true))
          (λ rows. pure (by_created rows)) s
          (to_exec-state (g.outbounds.select (λ _. true) s.outbounds) s) (λ rows q. refl))
        (λ rows q. refl)

  abbrev extended : Config → List InboundConfig → JsonText → Config
  extended template more log = record template { inbounds = template.inbounds ++ more; log = log }

  with_log-ok :
      (r : Result JsonText) (template : Config) (more : List InboundConfig) (s : Panel g)
      {c : Config} {t : Panel g}
      → (lift g r >>= λ log. pure (extended template more log)) s ≡ (ok c, t)
      → (log : JsonText) × (c ≡ extended template more log) × (t ≡ s)
  with_log-ok (ok log) template more s h =
      (log, eq_config h, ap (λ (r : Result Config × Panel g). r.1) (sym h))
    where
      eq_config :
          {d : Config} {s t : Panel g} {c : Config}
          → ◌≡◌ {A = Result Config × Panel g} (ok d, s) (ok c, t)
          → c ≡ d
      eq_config h = cc
  with_log-ok (err e) template more s h = absurd (failed h)
    where
      failed :
          {s t : Panel g} {c : Config} → ◌≡◌ {A = Result Config × Panel g} (err e, s) (ok c, t) → ⊥
      failed h = cc

  at_same :
      {A : Type 0} (m : Exec (Panel g) A) {a : A} {s u v : Panel g}
      → m u ≡ (ok a, v)
      → u ≡ s
      → v ≡ s
      → m s ≡ (ok a, s)
  at_same {A} m {a} h from to = ap m (sym from) ∙ h ∙ ap (λ q. with_state a q) to
    where
      with_state : A → Panel g → Result A × Panel g
      with_state a q = (ok a, q)

  pub record Parts (template : Config) (access_path : String)
      (by_created : List Outbound → List Outbound) (s t : Panel g) (c : Config) : Type 0 where
    pub found : List Inbound
    pub emails : List String
    pub log_section : JsonText
    pub blocks : List Fields
    pub relays : Option (List Fields)
    pub all_found : found ≡ g.inbounds.rows s.inbounds
    pub disabled : default g [] (disabled_emails g) s ≡ (ok emails, s)
    pub block_rules : default g [] (gen_block_rules g) s ≡ (ok blocks, s)
    pub outbounds :
        default g none (gen_xray_outbound_configs g by_created >>= λ l. pure (some l)) s
        ≡ (ok relays, s)
    pub injected :
        inject g blocks relays found
          (record template {
            inbounds = template.inbounds ++ served_configs emails found;
            log = log_section;
          })
          s
        ≡ (ok c, t)

  pub get_xray_config-Parts :
      (template : Config) (access_path : String) (by_created : List Outbound → List Outbound)
      (s : Panel g) {c : Config} {t : Panel g}
      → get_xray_config g (ok template) access_path by_created s ≡ (ok c, t)
      → Parts template access_path by_created s t c
  unfolding get_xray_config
  get_xray_config-Parts template access_path by_created s {c} {t} h =
      let query : Exec (Panel g) (Option (List Fields)) =
        gen_xray_outbound_configs g by_created >>= λ l. pure (some l) in
      let relay : List Inbound → Config → List Fields → Exec (Panel g) Config =
        λ is c' blocks. default g none query >>= λ obs. inject g blocks obs is c' in
      let finish : List Inbound → Config → Exec (Panel g) Config =
        λ is c'. default g [] (gen_block_rules g) >>= relay is c' in
      let build : List Inbound → List String → Exec (Panel g) Config =
        λ is emails. with_inbounds g emails is access_path template >>= finish is in
      let (is, u, read₀, rest) =
        bind-eq-ok (find_inbounds g (λ _. true))
          (λ is. default g [] (disabled_emails g) >>= build is) s h in
      let (listed, same_u) = find_inbounds-ok g (λ _. true) s read₀ in
      let (emails, v, read₁, rest₁) =
        bind-eq-ok (default g [] (disabled_emails g)) (build is) u rest in
      let same_v = default-ok [] (disabled_emails g) u (disabled_emails-state u) read₁ ∙ same_u in
      let (c', w, made, rest₂) =
        bind-eq-ok (with_inbounds g emails is access_path template) (finish is) v rest₁ in
      let (log, config, kept_w) =
        with_log-ok (with_access_log access_path template.log) template (served_configs emails is) v
          made in
      let same_w = kept_w ∙ same_v in
      let (blocks, x, read₂, rest₃) =
        bind-eq-ok (default g [] (gen_block_rules g)) (relay is c') w rest₂ in
      let same_x = default-ok [] (gen_block_rules g) w (gen_block_rules-state w) read₂ ∙ same_w in
      let (obs, y, read₃, injected) =
        bind-eq-ok (default g none query) (λ obs. inject g blocks obs is c') x rest₃ in
      let query-state : (query x).1 ≡ x =
        bind-view (λ (q : Panel g). q) (gen_xray_outbound_configs g by_created) (λ l. pure (some l))
          x (gen_outbounds-state by_created x) (λ l q. refl) in
      let same_y = default-ok none query x query-state read₃ ∙ same_x in
      record {
        found = is;
        emails = emails;
        log_section = log;
        blocks = blocks;
        relays = obs;
        all_found = listed ∙ select_all (g.inbounds.rows s.inbounds);
        disabled = at_same (default g [] (disabled_emails g)) read₁ same_u same_v;
        block_rules = at_same (default g [] (gen_block_rules g)) read₂ same_w same_x;
        outbounds = at_same (default g none query) read₃ same_x same_y;
        injected = ap₂ (λ d q. inject g blocks obs is d q) (sym config) (sym same_y) ∙ injected;
      }
