-- ===== src/Users/Checked.antt =====
-- Whom CheckUser lets in, and what it writes.
use nexcore_x_ui.Prelude.{
  ℕ, ◌≡◌, ◌⊎◌, refl, sym, ap, ◌∙◌, String, Bool, true, false, Option, none, some, List, [], ◌∷◌,
  ◌==◌, str_eq, inl, inr, Memᴰ, mem_of_select, update_rows,
}
use mathlib.Core.Path.{subst}
use nexcore_x_ui.Model.{User}
use nexcore_x_ui.Table.{Table}
use nexcore_x_ui.Table.Schemas.{users_schema}
use nexcore_x_ui.Users.{
  Bcrypt, hash_password, verify_password, with_password, upgraded, rehash, verified, check_rows,
  check_user,
}

module _ (users : Table users_schema) (b : Bcrypt) where
  -- The table is as it was, or the password of the row is a fresh hash of the text.
  abbrev pub Rehashed : User → String → users.Tab → users.Tab → Type 0
  Rehashed r password t t' =
      (t' ≡ t)
      ⊎ ((h : String) × (hash_password b password ≡ some h)
          × (users.rows t'
              ≡ update_rows (λ q. q.id == r.id) (with_password users b h) (users.rows t)))

  -- A user that is let in for a row.
  abbrev Lets : User → String → users.Tab → Option User × users.Tab → Type 0
  Lets r password t (none, t') = Unit {0}
  Lets r password t (some u, t') =
      (u.id ≡ r.id) × (u.username ≡ r.username) × Rehashed r password t t'

  upgraded-Lets :
      (r : User) (password h : String) (t : users.Tab) (o : Option (ℕ × users.Tab))
      → hash_password b password ≡ some h
      → users.update (λ q. q.id == r.id) (with_password users b h) t ≡ o
      → Lets r password t (upgraded users b r h t o)
  upgraded-Lets r password h t none made wrote = (refl, refl, inl refl)
  upgraded-Lets r password h t (some (n, t')) made wrote = (
    refl,
    refl,
    inr (h, made, users.update-rows (λ q. q.id == r.id) (with_password users b h) t wrote),
  )

  rehash-Lets :
      (r : User) (password : String) (t : users.Tab) (o : Option String)
      → hash_password b password ≡ o
      → Lets r password t (rehash users b r t o)
  rehash-Lets r password t none made = (refl, refl, inl refl)
  rehash-Lets r password t (some h) made =
      upgraded-Lets r password h t (users.update (λ q. q.id == r.id) (with_password users b h) t)
        made refl

  verified-Lets :
      (r : User) (password : String) (t : users.Tab) (v : Bool × Bool) {u : User}
      → (verified users b r password t v).0 ≡ some u
      → (v.0 ≡ true) × Lets r password t (verified users b r password t v)
  verified-Lets r password t (true, true) h =
      (refl, rehash-Lets r password t (hash_password b password) refl)
  verified-Lets r password t (true, false) h = (refl, (refl, refl, inl refl))
  verified-Lets r password t (false, cheap) h = cc

  let_in_row :
      (r : User) (password : String) (t : users.Tab) (o : Option User × users.Tab) {u : User}
      → o.0 ≡ some u
      → Lets r password t o
      → (u.id ≡ r.id) × (u.username ≡ r.username) × Rehashed r password t o.1
  let_in_row r password t (none, t') h l = cc
  let_in_row r password t (some v, t') {u} h (a, c, d) =
      let same : v ≡ u = ap (λ (o : Option User). elim o [ none ↦ v | some x ↦ x ]) h in
      (ap (λ (x : User). x.id) (sym same) ∙ a, ap (λ (x : User). x.username) (sym same) ∙ c, d)

  check_rows-row :
      (username password : String) (t : users.Tab) (o : Option (List User)) {u : User}
      → users.select (λ q. str_eq q.username username) t ≡ o
      → (check_rows users b password t o).0 ≡ some u
      → (r : User) × Memᴰ r (users.rows t)
        × (str_eq r.username username ≡ true)
        × ((verify_password b r.password password).0 ≡ true)
        × (u.id ≡ r.id)
        × (u.username ≡ r.username)
        × Rehashed r password t (check_rows users b password t o).1
  check_rows-row username password t none sel h = cc
  check_rows-row username password t (some []) sel h = cc
  check_rows-row username password t (some (r ∷ rs)) sel h =
      let (here, named) =
        mem_of_select (λ (q : User). str_eq q.username username) (users.rows t)
          (subst (Memᴰ r) (users.select-rows (λ q. str_eq q.username username) t sel)
            (Memᴰ.head refl)) in
      let v = verify_password b r.password password in
      let (right, lets) = verified-Lets r password t v h in
      let (id, name, wrote) = let_in_row r password t (verified users b r password t v) h lets in
      (r, here, named, right, id, name, wrote)

  -- A user that CheckUser returns has a row in the table with the username, whose stored password the
  -- given one verifies; the table is as it was, or only that id's password has become a fresh hash.
  pub check_user-verified :
      (username password : String) (t : users.Tab) {u : User}
      → (check_user users b username password t).0 ≡ some u
      → (r : User) × Memᴰ r (users.rows t)
        × (str_eq r.username username ≡ true)
        × ((verify_password b r.password password).0 ≡ true)
        × (u.id ≡ r.id)
        × (u.username ≡ r.username)
        × Rehashed r password t (check_user users b username password t).1
  unfolding check_user
  check_user-verified username password t h =
      check_rows-row username password t (users.select (λ q. str_eq q.username username) t) refl h
