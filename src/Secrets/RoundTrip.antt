-- ===== src/Secrets/RoundTrip.antt =====
-- What was encrypted is decrypted again.
use nexcore_x_ui.Prelude.{
  suc, ◌+◌, ◌≤◌, ◌≡◌, ◌≢◌, ◌⊎◌, refl, sym, ap, ap₂, ◌∙◌, String, false, some, str_eq, eq_iff, ltb,
  arith, Bool-cases, inl, inr,
}
use Prim.Native.String
use Prim.Native.String.append
use nexcore_x_ui.Prelude.Text.{after_prefix}
use nexcore_x_ui.Exec.{Result, ok}
use nexcore_x_ui.Secrets.{
  Aead, Cipher, size, take, drop, prefix_v2, encrypt, or_malformed, open_raw, decrypt_with,
  decrypt_v2, decrypt,
}

abbrev joined : String → String → String
joined = String.◌++◌

take-append : (s t : String) → take (size s) (joined s t) ≡ s
take-append String.[] t = refl
take-append (String.◌∷◌ c s) t =
    ap (take (suc (size s))) (append.cons c s t) ∙ ap (String.◌∷◌ c) (take-append s t)

drop-append : (s t : String) → drop (size s) (joined s t) ≡ t
drop-append String.[] t = append.nil t
drop-append (String.◌∷◌ c s) t = ap (drop (suc (size s))) (append.cons c s t) ∙ drop-append s t

size-append : (s t : String) → size (joined s t) ≡ size s + size t
size-append String.[] t = ap size (append.nil t) ∙ omega arith
size-append (String.◌∷◌ c s) t = ap size (append.cons c s t) ∙ ground (arith, size-append s t)

after_prefix-append : (p s : String) → after_prefix p (joined p s) ≡ some s
after_prefix-append String.[] s = ap some (append.nil s)
after_prefix-append (String.◌∷◌ c p) s =
    ap (after_prefix (String.◌∷◌ c p)) (append.cons c p s) ∙ ground (arith, after_prefix-append p s)

Result-ok : {a b : String} → ◌≡◌ {A = Result String} (ok a) (ok b) → b ≡ a
Result-ok h = cc

-- What AES-GCM and base64 document: open_with undoes seal_with under the same nonce, a sealed text is
-- at least its overhead long, and decode undoes encode.
module _ (z : Cipher) (g : Aead)
    (opens : (n p : String) → size n ≡ g.nonce_size → g.open_with n (g.seal_with n p) ≡ some p)
    (sealed : (n p : String) → g.overhead ≤ size (g.seal_with n p))
    (decodes : (b : String) → z.decode (z.encode b) ≡ some b) where
  open_raw-seal :
      (nonce p : String)
      → size nonce ≡ g.nonce_size
      → open_raw g (some (joined nonce (g.seal_with nonce p))) ≡ ok p
  open_raw-seal nonce p fits =
      let ct = g.seal_with nonce p in
      let enough : ltb (size (joined nonce ct)) (g.nonce_size + g.overhead) ≡ false =
        ground (arith, size-append nonce ct, sealed nonce p) in
      rw enough (
        ap₂ (λ a b. or_malformed (g.open_with a b))
          (ap (λ n. take n (joined nonce ct)) (sym fits) ∙ take-append nonce ct)
          (ap (λ n. drop n (joined nonce ct)) (sym fits) ∙ drop-append nonce ct)
        ∙ ap or_malformed (opens nonce p fits))

  -- If the cipher of the second version is built, AES-GCM and base64 do what they document and the nonce
  -- has the cipher's size, Encrypt succeeds and Decrypt returns the plaintext from what it stored. The
  -- empty text is stored as it is, and any other under the prefix of the second version, as the base64 of
  -- the nonce and the sealed text.
  pub decrypt-encrypt :
      (nonce p : String)
      → z.v2 ≡ some g
      → size nonce ≡ g.nonce_size
      → (stored : String) × (encrypt z nonce p ≡ ok stored)
        × (decrypt z stored ≡ ok p)
        × (((p ≡ "") × (stored ≡ ""))
            ⊎ ((p ≢ "")
                × (after_prefix "enc:v2:" stored
                    ≡ some (z.encode (joined nonce (g.seal_with nonce p))))))
  unfolding encrypt decrypt decrypt_with
  decrypt-encrypt nonce p built fits = elim (Bool-cases (str_eq p "")) [
    | inl blank ↦
        ("", rw blank refl, ap ok (sym ((eq_iff p "").0 blank)), inl ((eq_iff p "").0 blank, refl))
    | inr filled ↦
        (let b64 = z.encode (joined nonce (g.seal_with nonce p)) in
          (
            joined prefix_v2 b64,
            rw filled (rw built refl),
            ap (decrypt_v2 z (joined prefix_v2 b64)) (after_prefix-append prefix_v2 b64)
                ∙ ap (decrypt_with z b64) built
                ∙ ap (open_raw g) (decodes (joined nonce (g.seal_with nonce p)))
                ∙ open_raw-seal nonce p fits,
            inr ((λ empty. cc ((eq_iff p "").1 empty, filled)), after_prefix-append prefix_v2 b64),
          ))
  ]
