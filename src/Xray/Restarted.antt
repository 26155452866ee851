-- ===== src/Xray/Restarted.antt =====
-- Which processes there are after a restart, and whom they serve.
use nexcore_x_ui.Prelude.{
  ℕ, suc, ◌&&◌, if◌then◌else◌, ◌≡◌, refl, sym, ap, ap₂, ◌∙◌, String, Bool, true, false, not, ◌||◌,
  Option, none, some, List, [], ◌∷◌, any, arith, select_rows, Bool-cases, inl, inr,
}
use mathlib.Core.Path.{subst}
use nexcore_x_ui.Exec.{ok}
use nexcore_x_ui.Json.{JsonText}
use nexcore_x_ui.Model.{InboundConfig, Outbound, ClientTraffic}
use nexcore_x_ui.Table.Schemas.{Tables, Panel}
use nexcore_x_ui.Clients.{emails_of}
use nexcore_x_ui.XrayConfig.{Config, get_xray_config, is_disabled}
use nexcore_x_ui.XrayConfig.Clients.{clients_of, serves_disabled, get_xray_config-clients}
use nexcore_x_ui.Xray.{
  Host, inbound_equals, inbounds_equal, config_equals, Phase, gone, Process, is_alive, stop,
  stopped_first, with_current, Xray, is_kept, start, restart_with, restart_xray,
}

abbrev pub is_live : Phase → Bool
is_live gone = false
is_live _ = true

abbrev pub is_coming_up : Option Process → Bool
is_coming_up none = false
is_coming_up (some p) = is_live p.phase && not (is_alive p.phase)

abbrev pub processes : (g : Tables) → Xray g → List Process
processes g s = with_current s.process s.left

-- The system moves the processes on, each to a phase of its choice, and none that is gone comes back: a
-- command comes up, fails or exits, or the finalizer of a replaced process stops it.
abbrev pub turned : (ℕ → Phase) → List Process → List Process
turned f [] = []
turned f (p ∷ ps) =
    (if is_live p.phase then record p { phase = f 0 } else p) ∷ turned (λ n. f (suc n)) ps

abbrev pub later : List (ℕ → Phase) → List Process → List Process
later [] ps = ps
later (f ∷ fs) ps = later fs (turned f ps)

-- A process that is up or coming up and serves a disabled email.
abbrev pub serves_on : List String → Process → Bool
serves_on disabled p = is_live p.phase && any (serves_disabled disabled) p.config.inbounds

-- bytes.Equal holds of equal sections only.
module _ (w : Host) (sound : (a b : JsonText) → w.bytes_equal a b ≡ true → a ≡ b) where
  inbounds_equal-serves :
      (disabled : List String) (cs ds : List InboundConfig)
      → inbounds_equal w cs ds ≡ true
      → any (serves_disabled disabled) cs ≡ any (serves_disabled disabled) ds
  unfolding inbounds_equal inbound_equals
  inbounds_equal-serves disabled [] [] h = refl
  inbounds_equal-serves disabled [] (d ∷ ds) h = cc
  inbounds_equal-serves disabled (c ∷ cs) [] h = cc
  inbounds_equal-serves disabled (c ∷ cs) (d ∷ ds) h =
      ap₂ ◌||◌
        (ap (λ t. any (is_disabled disabled) (clients_of t))
          (sound c.settings d.settings (ground arith)))
        (inbounds_equal-serves disabled cs ds (ground arith))

  config_equals-serves :
      (disabled : List String) (c d : Config)
      → config_equals w c d ≡ true
      → any (serves_disabled disabled) c.inbounds ≡ any (serves_disabled disabled) d.inbounds
  unfolding config_equals
  config_equals-serves disabled c d h =
      inbounds_equal-serves disabled c.inbounds d.inbounds (ground arith)

  turned-clean :
      (disabled : List String) (f : ℕ → Phase) (ps : List Process)
      → any (serves_on disabled) ps ≡ false
      → any (serves_on disabled) (turned f ps) ≡ false
  turned-clean disabled f [] h = refl
  turned-clean disabled f (p ∷ ps) h =
      let rest = turned-clean disabled (λ n. f (suc n)) ps (ground arith) in
      elim (Bool-cases (is_live p.phase)) [
        | inl up ↦
            (let clear : any (serves_disabled disabled) p.config.inbounds ≡ false = ground arith in
              rw (up, clear, rest) (ground arith))
        | inr down ↦ rw (down, down, rest) refl
      ]

  later-clean :
      (disabled : List String) (fs : List (ℕ → Phase)) (ps : List Process)
      → any (serves_on disabled) ps ≡ false
      → any (serves_on disabled) (later fs ps) ≡ false
  later-clean disabled [] ps h = h
  later-clean disabled (f ∷ fs) ps h =
      later-clean disabled fs (turned f ps) (turned-clean disabled f ps h)

  module _ (g : Tables) where
    kept-clean :
        (disabled : List String) (force : Bool) (c : Config) (o : Option Process)
        (left : List Process)
        → is_kept g w force c o ≡ true
        → any (serves_disabled disabled) c.inbounds ≡ false
        → any (serves_on disabled) left ≡ false
        → any (serves_on disabled) (with_current o left) ≡ false
    kept-clean disabled force c none left k h l = cc
    kept-clean disabled force c (some p) left k h l =
        let clear = config_equals-serves disabled p.config c (ground arith) ∙ h in
        rw (clear, l) (ground arith)

    start-clean :
        (disabled : List String) (c : Config) (s : Xray g)
        → any (serves_disabled disabled) c.inbounds ≡ false
        → any (serves_on disabled) (with_current s.process s.left) ≡ false
        → any (serves_on disabled) (with_current (start g w c s).1.process (start g w c s).1.left)
          ≡ false
    start-clean disabled c s h l = elim (Bool-cases (w.starts c)) [
      | inl up ↦ rw (up, h, l) refl
      | inr down ↦ rw (down, l) refl
    ]

    -- The process that is replaced has ended by then.
    stopped_first-clean :
        (disabled : List String) (o : Option Process) (left : List Process)
        → ((c : Config) → (w.ends c).1 ≡ gone)
        → is_coming_up o ≡ false
        → any (serves_on disabled) left ≡ false
        → any (serves_on disabled) (with_current (stopped_first w o) left) ≡ false
    unfolding stop
    stopped_first-clean disabled none left ends ready l = l
    stopped_first-clean disabled (some p) left ends ready l = elim (Bool-cases (is_alive p.phase)) [
      | inl up ↦ rw (up, ends p.config, l) refl
      | inr down ↦ (let idle : is_live p.phase ≡ false = ground arith in rw (down, idle, l) refl)
    ]

    restart_with-clean :
        (disabled : List String) (force : Bool) (c : Config) (s : Xray g) (db : Panel g)
        → ((c : Config) → (w.ends c).1 ≡ gone)
        → is_coming_up s.process ≡ false
        → any (serves_on disabled) s.left ≡ false
        → any (serves_disabled disabled) c.inbounds ≡ false
        → any (serves_on disabled) (
            with_current
              (restart_with g w force s (ok c, db)).1.process
              (restart_with g w force s (ok c, db)).1.left)
          ≡ false
    restart_with-clean disabled force c s db ends ready l h =
        elim (Bool-cases (is_kept g w force c s.process)) [
          | inl kept ↦ rw kept (kept-clean disabled force c s.process s.left kept h l)
          | inr replaced ↦ rw replaced (
              start-clean disabled c (record s { panel = db; process = stopped_first w s.process })
                h (stopped_first-clean disabled s.process s.left ends ready l))
        ]

    -- After RestartXray, forced or not, no process serves an email that is disabled in client_traffics: not
    -- the current one nor any that was replaced, now or at any later moment until the next call, however the
    -- processes come up and end meanwhile. This holds if the query for the disabled rows succeeds, the
    -- template's own inbounds serve none of these emails, the config can be made, bytes.Equal holds of equal
    -- sections only, the signals of Stop end a process, the current process is not still coming up when
    -- RestartXray is called, and no process that was replaced earlier serves one of these emails. It holds
    -- when the process is kept because its config is equal, when a new one is started in place of the one
    -- that is stopped, and when that start fails.
    pub restart_xray-clients :
        (template : Config) (access_path : String) (by_created : List Outbound → List Outbound)
        (force : Bool) (turns : List (ℕ → Phase)) (s : Xray g) {disabled : List ClientTraffic}
        {c : Config} {db : Panel g}
        → ((c : Config) → (w.ends c).1 ≡ gone)
        → is_coming_up s.process ≡ false
        → any
            (serves_on
              (emails_of (select_rows (λ r. not r.enable) (g.clients.rows s.panel.clients))))
            s.left
          ≡ false
        → g.clients.select (λ r. not r.enable) s.panel.clients ≡ some disabled
        → any (serves_disabled (emails_of disabled)) template.inbounds ≡ false
        → get_xray_config g (ok template) access_path by_created s.panel ≡ (ok c, db)
        → any
            (serves_on
              (emails_of (select_rows (λ r. not r.enable) (g.clients.rows s.panel.clients))))
            (later turns
              (processes g (restart_xray g w (ok template) access_path by_created force s).1))
          ≡ false
    unfolding restart_xray
    restart_xray-clients template access_path by_created force turns s {c = c} {db = db} ends ready
          l sel clean made =
        let emails = emails_of (select_rows (λ r. not r.enable) (g.clients.rows s.panel.clients)) in
        let clear =
          get_xray_config-clients g template access_path by_created s.panel sel clean made in
        later-clean emails turns
          (processes g (restart_xray g w (ok template) access_path by_created force s).1)
          (subst (λ r. any (serves_on emails) (processes g (restart_with g w force s r).1) ≡ false)
            (sym made) (restart_with-clean emails force c s db ends ready l clear))
