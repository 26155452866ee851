-- ===== src/Tests/Keeping.antt =====
-- Runs of the settings and of the envelope of a secret.
use nexcore_x_ui.Prelude.{◌≡◌, ◌≢◌, ◌⊎◌, String, refl, none, some, List, [], ◌∷◌, arith}
use nexcore_x_ui.Prelude.Text.{after_prefix}
use nexcore_x_ui.Exec.{ok}
use nexcore_x_ui.Table.Memory.{memory}
use nexcore_x_ui.Table.Schemas.{settings_schema}
use nexcore_x_ui.Secrets.{Aead, Cipher, encrypt, decrypt}
use nexcore_x_ui.Secrets.RoundTrip.{decrypt-encrypt}
use nexcore_x_ui.Settings.{Env, SettingStore, default_values, get_string, save_setting}
use nexcore_x_ui.Settings.Coherence.{Call, read_setting, write_setting, after}
use nexcore_x_ui.Settings.Uncached.{get_string-uncached}
use nexcore_x_ui.Settings.SetGet.{get_string-save_setting}

-- A cipher that keeps the text as it is.
abbrev clear_text : Aead
clear_text = record {
  nonce_size = 1;
  overhead = 0;
  seal_with = λ n p. p;
  open_with = λ n c. some c;
}

abbrev cipher : Cipher
cipher = record { v1 = none; v2 = some clear_text; encode = λ b. b; decode = λ s. some s }

abbrev plaintext : String
plaintext = "token"

decrypt-encrypt_example :
    (stored : String) × (encrypt cipher "n" plaintext ≡ ok stored)
    × (decrypt cipher stored ≡ ok plaintext)
    × (((plaintext ≡ "") × (stored ≡ ""))
        ⊎ ((plaintext ≢ "") × (after_prefix "enc:v2:" stored ≡ some "ntoken")))
decrypt-encrypt_example =
    decrypt-encrypt cipher clear_text (λ n p h. refl) (λ n p. omega arith) (λ b. refl) "n" plaintext
      refl refl

abbrev env : Env
unfolding default_values
env = record { cipher = cipher; defaults = default_values "{}" "session" }

abbrev table : (memory settings_schema).Tab
unfolding memory
table = record {
  content = record { id = 1; key = "nodeName"; value = "node" } ∷ [];
  unique = refl;
  positive = refl;
}

abbrev store : SettingStore (memory settings_schema)
store = record { table = table; cache = [] }

abbrev calls : List Call
calls =
    read_setting "nodeName"
    ∷ read_setting "tgBotToken"
    ∷ write_setting "n" "tgBotToken" "token"
    ∷ read_setting "tgBotToken"
    ∷ []

abbrev reached : SettingStore (memory settings_schema)
reached = after (memory settings_schema) env calls store

get_string-uncached_example :
    (get_string (memory settings_schema) env "tgBotToken" reached).0
    ≡ (get_string
        (memory settings_schema)
        env
        "tgBotToken"
        (record { table = reached.table; cache = [] })).0
unfolding memory
get_string-uncached_example =
    get_string-uncached (memory settings_schema) env calls table "tgBotToken" refl

abbrev written : SettingStore (memory settings_schema)
unfolding save_setting memory
written = (save_setting (memory settings_schema) env "n" "tgBotToken" "token" store).1

get_string-save_setting_example :
    (get_string (memory settings_schema) env "tgBotToken" written).0 ≡ ok "token"
unfolding save_setting memory env encrypt
get_string-save_setting_example =
    get_string-save_setting (memory settings_schema) env clear_text (λ n p h. refl)
      (λ n p. omega arith) (λ b. refl) "n" "tgBotToken" "token" store refl refl refl refl
