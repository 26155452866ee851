-- ===== src/Exec.antt =====
-- What a service call returns (a value or one of the errors of web/service), and calls that read
-- and write a state. A statement that was carried out before an error stays carried out, so the
-- state comes back beside the error too; `transaction` is gorm's `Begin` .. `Commit`/`Rollback`.
use nexcore_x_ui.Prelude.{Bool, true, false, ◌≡◌, refl, ◌∙◌}

-- The errors that the services return, by their cause; the text of a message is not kept.
pub data Err : Type 0 where
  -- gorm's own errors
  database : Err
  -- inbound.go
  listen_not_ip listen_not_local port_taken port_repeated protocol_singleton config_invalid : Err
  inbound_not_found : Err
  -- client.go, client_traffic.go
  settings_malformed unsupported_protocol identifier_required client_duplicate : Err
  client_not_found client_traffic_not_found : Err
  -- outbound.go
  outbound_tag_invalid outbound_tag_reserved outbound_name_empty outbound_protocol_unsup : Err
  outbound_address_empty outbound_port_range outbound_invalid_json outbound_tag_duplicate : Err
  outbound_tag_changed outbound_not_found : Err
  -- token.go, magic.go
  token_name_required invalid_scope token_not_found magic_token_invalid : Err
  -- block_rule.go
  block_rule_not_found block_rule_type_invalid block_rule_value_empty block_rule_ip_invalid : Err
  block_rule_port_invalid block_rule_protocol_invalid preset_unknown : Err
  -- setting.go, secret.go
  setting_unknown value_invalid secret_unavailable secret_malformed : Err
  -- xray.go
  template_invalid routing_malformed outbounds_malformed nil_map_panic : Err
  xray_not_running xray_start_failed : Err
  -- online_webhook.go
  webhook_url_missing webhook_url_rejected webhook_failed : Err
  -- user.go
  user_not_found hash_failed username_empty password_empty : Err

pub data Result {ℓ} (A : Type ℓ) : Type ℓ where
  ok : A → Result A
  err : Err → Result A

abbrev pub Exec {ℓ} : Type ℓ → Type ℓ → Type ℓ
Exec S A = S → Result A × S

module _ {ℓ} {S A : Type ℓ} where
  abbrev pub pure : A → Exec S A
  pure a s = (ok a, s)

  abbrev pub raise : Err → Exec S A
  raise e s = (err e, s)

  abbrev pub gets : (S → A) → Exec S A
  gets f s = (ok (f s), s)

  -- The state goes back to what it was when the calls end in an error.
  abbrev rolled_back : S → Result A × S → Result A × S
  rolled_back s (ok a, s') = (ok a, s')
  rolled_back s (err e, s') = (err e, s)

  abbrev pub transaction : Exec S A → Exec S A
  transaction m s = rolled_back s (m s)

  -- `_ = f()`: the error is dropped, and the state kept.
  abbrev forgotten : Result A × S → Result (Unit {ℓ}) × S
  forgotten (r, s) = (ok tt, s)

  abbrev pub attempt : Exec S A → Exec S (Unit {ℓ})
  attempt m s = forgotten (m s)

module _ {ℓ} {S A : Type ℓ} where
  rolled_back-ok :
      (s : S) (r : Result A × S) {a : A} {t : S} → rolled_back s r ≡ (ok a, t) → r ≡ (ok a, t)
  rolled_back-ok s (ok b, u) h = h
  rolled_back-ok s (err e, u) h = cc

  rolled_back-err :
      (s : S) (r : Result A × S) {e : Err} {t : S} → rolled_back s r ≡ (err e, t) → t ≡ s
  rolled_back-err s (ok b, u) h = cc
  rolled_back-err s (err x, u) h = cc

  -- A transaction commits all of its statements or none.
  pub transaction-ok :
      (m : Exec S A) (s : S) {a : A} {t : S} → transaction m s ≡ (ok a, t) → m s ≡ (ok a, t)
  transaction-ok m s h = rolled_back-ok s (m s) h

  pub transaction-err :
      (m : Exec S A) (s : S) {e : Err} {t : S} → transaction m s ≡ (err e, t) → t ≡ s
  transaction-err m s h = rolled_back-err s (m s) h

module _ {S : Type 0} where
  abbrev pub guard : Bool → Err → Exec S (Unit {0})
  guard true e s = (ok tt, s)
  guard false e s = (err e, s)

  abbrev pub when : Bool → Exec S (Unit {0}) → Exec S (Unit {0})
  when true m = m
  when false m = pure tt

module _ {ℓ} {S A B : Type ℓ} where
  abbrev pub continue : Result A × S → (A → Exec S B) → Result B × S
  continue (ok a, s) f = f a s
  continue (err e, s) f = (err e, s)

  infixl 5 ◌>>=◌
  abbrev pub ◌>>=◌ : Exec S A → (A → Exec S B) → Exec S B
  ◌>>=◌ m f s = continue (m s) f

  continue-eq-ok :
      (r : Result A × S) (f : A → Exec S B) {b : B} {s' : S}
      → continue r f ≡ (ok b, s')
      → (a : A) × (t : S) × (r ≡ (ok a, t)) × (f a t ≡ (ok b, s'))
  continue-eq-ok (ok a, t) f h = (a, t, refl, h)
  continue-eq-ok (err x, t) f h = cc

  -- A successful chain is two successful calls.
  pub bind-eq-ok :
      (m : Exec S A) (f : A → Exec S B) (s : S) {b : B} {s' : S}
      → (m >>= f) s ≡ (ok b, s')
      → (a : A) × (t : S) × (m s ≡ (ok a, t)) × (f a t ≡ (ok b, s'))
  bind-eq-ok m f s h = continue-eq-ok (m s) f h

module _ {S A B X : Type 0} (view : S → X) where
  continue-view :
      (r : Result A × S) (f : A → Exec S B) (x : X)
      → view r.1 ≡ x
      → ((a : A) (s : S) → view (f a s).1 ≡ view s)
      → view (continue r f).1 ≡ x
  continue-view (ok a, s) f x h k = k a s ∙ h
  continue-view (err e, s) f x h k = h

  -- What both halves of a chain leave alone, the chain leaves alone.
  pub bind-view :
      (m : Exec S A) (f : A → Exec S B) (s : S)
      → view (m s).1 ≡ view s
      → ((a : A) (s : S) → view (f a s).1 ≡ view s)
      → view ((m >>= f) s).1 ≡ view s
  bind-view m f s h k = continue-view (m s) f (view s) h k

infixl 5 ◌>>◌
abbrev pub ◌>>◌ : {S A B : Type 0} → Exec S A → Exec S B → Exec S B
m >> n = m >>= λ _. n
