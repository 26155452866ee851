-- ===== src/OnlineWebhook/Difference.antt =====
-- What it means that two snapshots do not differ.
use nexcore_x_ui.Prelude.{
  ◌≡◌, refl, sym, ap, ap₂, ◌∙◌, String, true, false, ◌||◌, Option, none, some, List, [], ◌∷◌,
  str_eq, eq_iff, ==_iff, length, arith, Bool-cases, inl, inr,
}
use nexcore_x_ui.Prelude.Maps.{lookup, has_key, keys_distinct, lookup-same}
use nexcore_x_ui.OnlineWebhook.{
  Online, World, equal_sorted_strings, differs, some_differ, has_diff, snapshot,
}

equal_sorted_strings-eq : (xs ys : List String) → equal_sorted_strings xs ys ≡ true → xs ≡ ys
unfolding equal_sorted_strings
equal_sorted_strings-eq [] [] h = refl
equal_sorted_strings-eq [] (b ∷ bs) h = cc
equal_sorted_strings-eq (a ∷ more) [] h = cc
equal_sorted_strings-eq (a ∷ more) (b ∷ bs) h =
    ap₂ ◌∷◌ ((eq_iff a b).0 (ground arith)) (equal_sorted_strings-eq more bs (ground arith))

differs-lookup :
    (ips : List String) (o : Option (List String)) → differs ips o ≡ false → o ≡ some ips
differs-lookup ips none h = cc
differs-lookup ips (some prev) h = ap some (equal_sorted_strings-eq prev ips (ground arith))

some_differ-held :
    (last current : Online) (k : String) (v : List String)
    → some_differ last current ≡ false
    → lookup k current ≡ some v
    → lookup k last ≡ some v
some_differ-held last [] k v h found = cc
some_differ-held last ((j, ips) ∷ current) k v h found = elim (Bool-cases (str_eq j k)) [
  | inl here ↦
      ap (λ i. lookup i last) (sym ((eq_iff j k).0 here))
      ∙ differs-lookup ips (lookup j last) (ground arith)
      ∙ (rw here at found)
  | inr there ↦ some_differ-held last current k v (ground arith) (rw there at found)
]

-- Without a difference the two maps agree on every email.
pub has_diff-lookup :
    (last current : Online)
    → keys_distinct last ≡ true
    → keys_distinct current ≡ true
    → has_diff last current ≡ false
    → (email : String) → lookup email last ≡ lookup email current
unfolding has_diff
has_diff-lookup last current d e h email =
    lookup-same current last e d (ground (arith, ==_iff (length current) (length last)))
      (λ k v found. some_differ-held last current k v (ground arith) found) email

has_key-snapshot :
    (w : World) (raw : Online) (k : String) → has_key k (snapshot w raw) ≡ has_key k raw
unfolding snapshot
has_key-snapshot w [] k = refl
has_key-snapshot w ((j, ips) ∷ raw) k = ap (λ b. str_eq j k || b) (has_key-snapshot w raw k)

pub snapshot-keys_distinct :
    (w : World) (raw : Online) → keys_distinct raw ≡ true → keys_distinct (snapshot w raw) ≡ true
unfolding snapshot
snapshot-keys_distinct w [] h = refl
snapshot-keys_distinct w ((j, ips) ∷ raw) h =
    ground (arith, has_key-snapshot w raw j, snapshot-keys_distinct w raw)
