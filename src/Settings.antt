-- ===== src/Settings.antt =====
-- web/service/setting.go: the settings table with the cache in front of it. The embedded template, the
-- session secret that random.Seq draws at the start, and the texts that it draws later are arguments, and
-- so is the random nonce of a write. A call holds no lock between its steps; here they run undisturbed.
mod Rows
pub mod Coherence
pub mod Uncached
pub mod SetGet
use nexcore_x_ui.Prelude.{
  ℕ, String, Bool, true, false, not, ◌&&◌, Option, none, some, List, [], ◌∷◌, str_eq, if◌then◌else◌,
  starts_with, one_of, select_rows,
}
use Prim.Native.String
use nexcore_x_ui.Prelude.Text.{trim_space}
use nexcore_x_ui.Prelude.Maps.{Map, lookup, insert}
use nexcore_x_ui.Exec.{
  Err, database, setting_unknown, value_invalid, Result, ok, err, Exec, ◌>>=◌, ◌>>◌, pure, raise,
  attempt,
}
use nexcore_x_ui.Model.{Setting}
use nexcore_x_ui.Table.{Table}
use nexcore_x_ui.Table.Schemas.{settings_schema}
use nexcore_x_ui.Secrets.{Cipher, encrypt, decrypt}

unfoldable pub is_sensitive : String → Bool
is_sensitive =
    one_of ("secret" ∷ "apiToken" ∷ "tgBotToken" ∷ "onlineWebhookSecret" ∷ "cfApiToken" ∷ [])

-- defaultValueMap
unfoldable pub default_values : String → String → Map String
default_values template session_secret =
    ("xrayTemplateConfig", template)
    ∷ ("webListen", "")
    ∷ ("webPort", "54321")
    ∷ ("webCertFile", "")
    ∷ ("webKeyFile", "")
    ∷ ("secret", session_secret)
    ∷ ("webBasePath", "/")
    ∷ ("timeLocation", "Asia/Shanghai")
    ∷ ("tgBotEnable", "false")
    ∷ ("tgBotToken", "")
    ∷ ("tgBotChatId", "0")
    ∷ ("tgRunTime", "")
    ∷ ("apiToken", "")
    ∷ ("subAllowedHosts", "")
    ∷ ("onlineWebhookUrl", "")
    ∷ ("onlineWebhookSecret", "")
    ∷ ("onlineWebhookNodeId", "")
    ∷ ("nodeName", "")
    ∷ ("secureEntryEnabled", "false")
    ∷ ("secureEntryPath", "")
    ∷ ("nodeAddress", "")
    ∷ ("cfApiToken", "")
    ∷ []

-- settingCacheEntry
pub record CacheEntry : Type 0 where
  pub value : String
  pub present : Bool

abbrev pub absent : CacheEntry
absent = record { value = ""; present = false }

abbrev pub found : String → CacheEntry
found v = record { value = v; present = true }

-- delete(settingCache, key)
abbrev pub invalidate : String → Map CacheEntry → Map CacheEntry
invalidate key [] = []
invalidate key ((k, e) ∷ m) =
    let rest = invalidate key m in if str_eq k key then rest else (k, e) ∷ rest

pub record Env : Type 0 where
  pub cipher : Cipher
  pub defaults : Map String

unfoldable pub opened : Env → String → String → Result String
unfolding is_sensitive
opened env key value = if is_sensitive key then decrypt env.cipher value else ok value

-- What saveSetting writes for a value.
unfoldable pub sealed : Env → String → String → String → Result String
unfolding is_sensitive
sealed env nonce key value =
    if is_sensitive key && not (str_eq value "") then encrypt env.cipher nonce value else ok value

-- strconv.ParseBool
unfoldable pub parse_bool : String → Option Bool
parse_bool s =
    if one_of ("1" ∷ "t" ∷ "T" ∷ "TRUE" ∷ "true" ∷ "True" ∷ []) s
    then some true
    else if one_of ("0" ∷ "f" ∷ "F" ∷ "FALSE" ∷ "false" ∷ "False" ∷ []) s
    then some false
    else none

abbrev ends_in_slash : String → Bool
ends_in_slash String.[] = false
ends_in_slash (String.◌∷◌ c String.[]) = str_eq (String.◌∷◌ c String.[]) "/"
ends_in_slash (String.◌∷◌ c (String.◌∷◌ d s)) = ends_in_slash (String.◌∷◌ d s)

abbrev with_slash_first : String → String
with_slash_first p = if starts_with p "/" then p else String.◌++◌ "/" p

abbrev with_slash_last : String → String
with_slash_last p = if ends_in_slash p then p else String.◌++◌ p "/"

abbrev is_default : Option String → String → Bool
is_default none v = str_eq v ""
is_default (some d) v = str_eq v d

module _ (tbl : Table settings_schema) where
  pub record SettingStore : Type 0 where
    pub table : tbl.Tab
    pub cache : Map CacheEntry

  abbrev pub read : Option (List Setting) → Exec SettingStore (List Setting)
  read none s = (err database, s)
  read (some rows) s = (ok rows, s)

  abbrev pub stored : {A : Type 0} → Option (A × tbl.Tab) → Exec SettingStore (Unit {0})
  stored none s = (err database, s)
  stored (some (a, t)) s = (ok tt, record s { table = t })

  abbrev pub with_key : String → Setting → Bool
  with_key key r = str_eq r.key key

  -- getSetting: First, with no row for gorm's ErrRecordNotFound.
  unfoldable pub get_setting : String → Exec SettingStore (List Setting)
  get_setting key s = read (tbl.select (with_key key) s.table) s

  abbrev pub cache_put : String → CacheEntry → Exec SettingStore (Unit {0})
  cache_put key e s = (ok tt, record s { cache = insert key e s.cache })

  abbrev pub cache_invalidate : String → Exec SettingStore (Unit {0})
  cache_invalidate key s = (ok tt, record s { cache = invalidate key s.cache })

  abbrev pub default_or_unknown : Option String → Exec SettingStore String
  default_or_unknown none = raise setting_unknown
  default_or_unknown (some v) = pure v

  unfoldable pub default_value : Env → String → Exec SettingStore String
  default_value env key = default_or_unknown (lookup key env.defaults)

  abbrev pub put_opened : String → Result String → Exec SettingStore String
  put_opened key (ok v) = cache_put key (found v) >>= λ _. pure v
  put_opened key (err e) = raise e

  abbrev pub value_of_row : Env → String → List Setting → Exec SettingStore String
  value_of_row env key [] = cache_put key absent >>= λ _. default_value env key
  value_of_row env key (r ∷ _) = put_opened key (opened env key r.value)

  abbrev pub from_cache : Env → String → CacheEntry → Exec SettingStore String
  from_cache env key e = if e.present then pure e.value else default_value env key

  abbrev pub cached_or_read : Env → String → Option CacheEntry → Exec SettingStore String
  cached_or_read env key none = get_setting key >>= value_of_row env key
  cached_or_read env key (some e) = from_cache env key e

  unfoldable pub get_string : Env → String → Exec SettingStore String
  unfolding get_setting default_value opened
  get_string env key s = cached_or_read env key (lookup key s.cache) s

  abbrev pub save_row : String → String → List Setting → Exec SettingStore (Unit {0})
  save_row key value [] s =
      stored (tbl.create (record { id = 0; key = key; value = value }) s.table) s
  save_row key value (r ∷ _) s = stored (tbl.save (record r { key = key; value = value }) s.table) s

  abbrev pub save_sealed : String → Result String → Exec SettingStore (Unit {0})
  save_sealed key (err e) = raise e
  save_sealed key (ok value) = do
    rows ← get_setting key
    save_row key value rows
    cache_invalidate key

  unfoldable pub save_setting : Env → String → String → String → Exec SettingStore (Unit {0})
  unfolding get_setting sealed
  save_setting env nonce key value = save_sealed key (sealed env nonce key value)

  abbrev pub cache_reset : Exec SettingStore (Unit {0})
  cache_reset s = (ok tt, record s { cache = [] })

  unfoldable pub reset_settings : Exec SettingStore (Unit {0})
  reset_settings = (λ s. stored (tbl.delete (λ _. true) s.table) s) >>= λ _. cache_reset

  abbrev or_invalid : {A : Type 0} → Option A → Exec SettingStore A
  or_invalid none = raise value_invalid
  or_invalid (some a) = pure a

  unfoldable pub get_bool : Env → String → Exec SettingStore Bool
  unfolding get_string parse_bool
  get_bool env key = get_string env key >>= λ s. or_invalid (parse_bool s)

  unfoldable pub set_bool : Env → String → String → Bool → Exec SettingStore (Unit {0})
  unfolding save_setting
  set_bool env nonce key b = save_setting env nonce key (if b then "true" else "false")

  -- The value, or "" where the read fails.
  abbrev pub or_empty : Result String × SettingStore → Result String × SettingStore
  or_empty (ok v, s) = (ok v, s)
  or_empty (err e, s) = (ok "", s)

  abbrev pub or_false : Result Bool × SettingStore → Result Bool × SettingStore
  or_false (ok b, s) = (ok b, s)
  or_false (err e, s) = (ok false, s)

  unfoldable pub get_node_name : Env → Exec SettingStore String
  unfolding get_string
  get_node_name env s = or_empty (get_string env "nodeName" s)

  unfoldable pub get_secure_entry_enabled : Env → Exec SettingStore Bool
  unfolding get_bool
  get_secure_entry_enabled env s = or_false (get_bool env "secureEntryEnabled" s)

  unfoldable pub get_secure_entry_path : Env → Exec SettingStore String
  unfolding get_string
  get_secure_entry_path env s = or_empty (get_string env "secureEntryPath" s)

  unfoldable pub set_secure_entry_path : Env → String → String → Exec SettingStore (Unit {0})
  unfolding save_setting
  set_secure_entry_path env nonce path = save_setting env nonce "secureEntryPath" (trim_space path)

  unfoldable pub get_node_address : Env → Exec SettingStore String
  unfolding get_string
  get_node_address env =
      (λ s. or_empty (get_string env "nodeAddress" s)) >>= λ v. pure (trim_space v)

  unfoldable pub get_cf_api_token : Env → Exec SettingStore String
  unfolding get_string
  get_cf_api_token env =
      (λ s. or_empty (get_string env "cfApiToken" s)) >>= λ v. pure (trim_space v)

  -- A session secret that is still the one of this start is stored, and an error of that is only logged.
  unfoldable pub get_secret : Env → String → Exec SettingStore String
  unfolding get_string save_setting
  get_secret env nonce = get_string env "secret" >>= λ v.
      (if is_default (lookup "secret" env.defaults) v
        then (attempt (save_setting env nonce "secret" v) >>= λ _. pure v)
        else pure v)

  unfoldable pub get_base_path : Env → Exec SettingStore String
  unfolding get_string
  get_base_path env =
      get_string env "webBasePath" >>= λ p. pure (with_slash_last (with_slash_first p))

  -- A token that is there is returned; otherwise the fresh one is stored, and the flag says so.
  abbrev ensured : Env → String → String → String → Exec SettingStore (String × Bool)
  ensured env nonce fresh token =
      if not (str_eq token "")
      then pure (token, false)
      else (save_setting env nonce "apiToken" fresh >>= λ _. pure (fresh, true))

  unfoldable pub ensure_api_token : Env → String → String → Exec SettingStore (String × Bool)
  unfolding get_string save_setting
  ensure_api_token env nonce fresh = get_string env "apiToken" >>= ensured env nonce fresh
