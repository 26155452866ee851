-- ===== src/EmbeddedClients/RoundTrip.antt =====
-- What writeClients stores, readClients reads.
use nexcore_x_ui.Prelude.{
  String, false, ◌≡◌, ◌≢◌, refl, ap, some, List, [], ◌∷◌, map, str_eq, eq_iff, Bool-cases, inl, inr,
}
use nexcore_x_ui.Json.{object, array, Fields, lookup_field, set_field, to_list, from_list}
use nexcore_x_ui.Json.Lookup.{lookup-set_field, lookup-set_other}
use nexcore_x_ui.EmbeddedClients.{objects_of, read_clients, write_clients}

objects-written : (cs : List Fields) → objects_of (to_list (from_list (map object cs))) ≡ cs
objects-written [] = refl
objects-written (c ∷ cs) = ap (◌∷◌ c) (objects-written cs)

str_eq_of_ne : (a b : String) → a ≢ b → str_eq a b ≡ false
str_eq_of_ne a b apart = elim (Bool-cases (str_eq a b)) [
  | inl same ↦ absurd (apart ((eq_iff a b).0 same))
  | inr other ↦ other
]

-- readClients on what writeClients has stored gives the clients that were written and a map that
-- agrees with the old settings on every key but "clients".
pub read-write_clients :
    (fs : Fields) (clients : List Fields) (k : String)
    → "clients" ≢ k
    → (fs' : Fields) × (read_clients (write_clients fs clients) ≡ some (clients, fs'))
      × (lookup_field k fs' ≡ lookup_field k fs)
unfolding read_clients write_clients
read-write_clients fs clients k apart =
    let v = array (from_list (map object clients)) in
    (
      set_field "clients" v fs,
      rw (lookup-set_field "clients" v fs)
          (ap (λ cs. some (cs, set_field "clients" v fs)) (objects-written clients)),
      lookup-set_other "clients" k v fs (str_eq_of_ne "clients" k apart),
    )
