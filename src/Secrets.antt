-- ===== src/Secrets.antt =====
-- util/secret/secret.go: the envelope of a stored secret. AES-GCM (`Aead`, one for each version of the
-- seed, `none` when it cannot be built) and base64 are parameters, and the random nonce is an argument. A
-- byte slice is the text of its bytes, as Go converts the one to the other.
pub mod RoundTrip
use nexcore_x_ui.Prelude.{
  ℕ, zero, suc, ◌+◌, String, Bool, true, false, Option, none, some, str_eq, if◌then◌else◌, ltb,
  ◌==◌, starts_with, ◌||◌,
}
use Prim.Native.String
use nexcore_x_ui.Prelude.Text.{after_prefix}
use Prim.Native.Char.{code}
use nexcore_x_ui.Exec.{secret_unavailable, secret_malformed, Result, ok, err}

pub record Aead : Type 0 where
  pub nonce_size : ℕ
  pub overhead : ℕ
  pub seal_with : String → String → String
  pub open_with : String → String → Option String

pub record Cipher : Type 0 where
  pub v1 : Option Aead
  pub v2 : Option Aead
  pub encode : String → String
  pub decode : String → Option String

abbrev pub size : String → ℕ
size String.[] = 0
size (String.◌∷◌ c s) = suc (size s)

-- s[:n], s[n:]
abbrev pub take : ℕ → String → String
take zero s = String.[]
take (suc n) String.[] = String.[]
take (suc n) (String.◌∷◌ c s) = String.◌∷◌ c (take n s)

abbrev pub drop : ℕ → String → String
drop zero s = s
drop (suc n) String.[] = String.[]
drop (suc n) (String.◌∷◌ c s) = drop n s

abbrev pub prefix_v1 : String
prefix_v1 = "enc:v1:"

abbrev pub prefix_v2 : String
prefix_v2 = "enc:v2:"

abbrev pub envelope : Cipher → String → String → Option Aead → Result String
envelope z nonce plaintext none = err secret_unavailable
envelope z nonce plaintext (some g) =
    ok (String.◌++◌ prefix_v2 (z.encode (String.◌++◌ nonce (g.seal_with nonce plaintext))))

unfoldable pub encrypt : Cipher → String → String → Result String
encrypt z nonce plaintext = if str_eq plaintext "" then ok "" else envelope z nonce plaintext z.v2

abbrev pub or_malformed : Option String → Result String
or_malformed none = err secret_malformed
or_malformed (some s) = ok s

abbrev pub open_raw : Aead → Option String → Result String
open_raw g none = err secret_malformed
open_raw g (some raw) =
    if ltb (size raw) (g.nonce_size + g.overhead)
    then err secret_malformed
    else or_malformed (g.open_with (take g.nonce_size raw) (drop g.nonce_size raw))

unfoldable pub decrypt_with : Cipher → String → Option Aead → Result String
decrypt_with z b64 none = err secret_unavailable
decrypt_with z b64 (some g) = open_raw g (z.decode b64)

abbrev pub decrypt_v1 : Cipher → String → Option String → Result String
decrypt_v1 z stored none = ok stored
decrypt_v1 z stored (some b64) = decrypt_with z b64 z.v1

abbrev pub decrypt_v2 : Cipher → String → Option String → Result String
decrypt_v2 z stored none = decrypt_v1 z stored (after_prefix prefix_v1 stored)
decrypt_v2 z stored (some b64) = decrypt_with z b64 z.v2

unfoldable pub decrypt : Cipher → String → Result String
unfolding decrypt_with
decrypt z stored = decrypt_v2 z stored (after_prefix prefix_v2 stored)

unfoldable pub is_encrypted : String → Bool
is_encrypted stored = starts_with stored prefix_v1 || starts_with stored prefix_v2
