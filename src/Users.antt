-- ===== src/Users.antt =====
-- web/service/user.go and util/crypto/password.go: the panel's login. bcrypt is a parameter: its comparison,
-- its cost of a hash (`none` for an error) and the hash that it generates at a cost (`none` for an error). The
-- comparison with a fixed hash that only spends time is not modelled.
pub mod Checked
use nexcore_x_ui.Prelude.{
  ℕ, String, Bool, true, false, Option, none, some, List, [], ◌∷◌, ◌==◌, str_eq, if◌then◌else◌,
  starts_with, ltb, Memᴰ,
}
use nexcore_x_ui.Exec.{
  Err, database, user_not_found, hash_failed, username_empty, password_empty, Result, ok, err, Exec,
  ◌>>=◌, ◌>>◌, pure, raise,
}
use nexcore_x_ui.Model.{User}
use nexcore_x_ui.Table.{Table}
use nexcore_x_ui.Table.Schemas.{users_schema}

pub record Bcrypt : Type 0 where
  pub compare : String → String → Bool
  pub cost : String → Option ℕ
  pub generate : ℕ → String → Option String

abbrev pub password_cost : ℕ
password_cost = 12

unfoldable pub is_bcrypt_hash : String → Bool
is_bcrypt_hash s = starts_with s "$2"

unfoldable pub hash_password : Bcrypt → String → Option String
hash_password b plain = b.generate password_cost plain

abbrev is_cheap : Option ℕ → Bool
is_cheap none = false
is_cheap (some c) = ltb c password_cost

-- Whether the password is right, and whether it should be hashed anew.
unfoldable pub verify_password : Bcrypt → String → String → Bool × Bool
unfolding is_bcrypt_hash
verify_password b stored plain =
    if str_eq stored ""
    then (false, false)
    else if is_bcrypt_hash stored
    then (if b.compare stored plain then (true, is_cheap (b.cost stored)) else (false, false))
    else if str_eq stored plain
    then (true, true)
    else (false, false)

module _ (users : Table users_schema) (b : Bcrypt) where
  abbrev pub with_password : String → User → User
  with_password h u = record u { password = h }

  -- The row of a user with the new hash, where it could be stored.
  abbrev pub upgraded : User → String → users.Tab → Option (ℕ × users.Tab) → Option User × users.Tab
  upgraded u h t none = (some u, t)
  upgraded u h t (some (n, t')) = (some (with_password h u), t')

  abbrev pub rehash : User → users.Tab → Option String → Option User × users.Tab
  rehash u t none = (some u, t)
  rehash u t (some h) = upgraded u h t (users.update (λ q. q.id == u.id) (with_password h) t)

  abbrev pub verified : User → String → users.Tab → Bool × Bool → Option User × users.Tab
  verified u password t (right, cheap) =
      if right
      then (if cheap then rehash u t (hash_password b password) else (some u, t))
      else (none, t)

  abbrev pub check_rows : String → users.Tab → Option (List User) → Option User × users.Tab
  check_rows password t none = (none, t)
  check_rows password t (some []) = (none, t)
  check_rows password t (some (u ∷ _)) =
      verified u password t (verify_password b u.password password)

  unfoldable pub check_user : String → String → users.Tab → Option User × users.Tab
  unfolding hash_password verify_password
  check_user username password t =
      check_rows password t (users.select (λ u. str_eq u.username username) t)

  abbrev read : Option (List User) → Exec users.Tab (List User)
  read none t = (err database, t)
  read (some rows) t = (ok rows, t)

  abbrev stored : Option (ℕ × users.Tab) → Exec users.Tab (Unit {0})
  stored none t = (err database, t)
  stored (some (n, t')) t = (ok tt, t')

  abbrev first_row : List User → Exec users.Tab User
  first_row [] = raise user_not_found
  first_row (u ∷ _) = pure u

  unfoldable pub get_first_user : Exec users.Tab User
  get_first_user = (λ t. read (users.select (λ _. true) t) t) >>= first_row

  abbrev hashed : Option String → Exec users.Tab String
  hashed none = raise hash_failed
  hashed (some h) = pure h

  -- Two UPDATEs of the row.
  unfoldable pub update_user : ℕ → String → String → Exec users.Tab (Unit {0})
  unfolding hash_password
  update_user id username password = hashed (hash_password b password) >>= λ h.
      ((λ t. stored (users.update (λ u. u.id == id) (λ u. record u { username = username }) t) t)
        >>= λ _. λ t. stored (users.update (λ u. u.id == id) (with_password h) t) t)

  abbrev save_first : String → String → List User → Exec users.Tab (Unit {0})
  save_first username h [] t =
      stored (users.create (record { id = 0; username = username; password = h }) t) t
  save_first username h (u ∷ _) t =
      stored (users.save (record u { username = username; password = h }) t) t

  unfoldable pub update_first_user : String → String → Exec users.Tab (Unit {0})
  unfolding hash_password
  update_first_user username password =
      if str_eq username ""
      then raise username_empty
      else if str_eq password ""
      then raise password_empty
      else (hashed (hash_password b password) >>= λ h.
          ((λ t. read (users.select (λ _. true) t) t) >>= save_first username h))
