-- ===== src/Tests/Login.antt =====
-- A login with a password that is still stored as it is.
use nexcore_x_ui.Prelude.{◌≡◌, true, refl, some, [], ◌∷◌, str_eq, Memᴰ}
use nexcore_x_ui.Model.{User}
use nexcore_x_ui.Table.Memory.{memory}
use nexcore_x_ui.Table.Schemas.{users_schema}
use nexcore_x_ui.Users.{Bcrypt, hash_password, verify_password, is_bcrypt_hash, check_user}
use nexcore_x_ui.Users.Checked.{Rehashed, check_user-verified}

abbrev bcrypt : Bcrypt
bcrypt = record {
  compare = λ hash plain. true;
  cost = λ hash. some 12;
  generate = λ cost plain. some "$2a$12$fresh";
}

abbrev table : (memory users_schema).Tab
unfolding memory
table = record {
  content = record { id = 1; username = "admin"; password = "letmein" } ∷ [];
  unique = refl;
  positive = refl;
}

abbrev admin : User
admin = record { id = 1; username = "admin"; password = "$2a$12$fresh" }

check_user-verified_example :
    (r : User) × Memᴰ r ((memory users_schema).rows table)
    × (str_eq r.username "admin" ≡ true)
    × ((verify_password bcrypt r.password "letmein").0 ≡ true)
    × (admin.id ≡ r.id)
    × (admin.username ≡ r.username)
    × Rehashed
        (memory users_schema)
        bcrypt
        r
        "letmein"
        table
        (check_user (memory users_schema) bcrypt "admin" "letmein" table).1
unfolding memory check_user hash_password verify_password is_bcrypt_hash
check_user-verified_example =
    check_user-verified (memory users_schema) bcrypt "admin" "letmein" table {u = admin} refl
