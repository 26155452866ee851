-- ===== src/Json/Lookup.antt =====
-- Reading a field that was just written, and any other.
use nexcore_x_ui.Prelude.{
  String, false, ◌≡◌, refl, ◌∙◌, ap, some, List, [], ◌∷◌, str_eq, eq_iff, eq_refl, Bool-cases, inl,
  inr, if◌then◌else◌,
}
use nexcore_x_ui.Json.{Json, Fields, end, field, lookup_field, set_field, to_list, from_list}

pub lookup-set_field :
    (k : String) (v : Json) (fs : Fields) → lookup_field k (set_field k v fs) ≡ some v
lookup-set_field k v end = rw (eq_refl k) refl
lookup-set_field k v (field j w fs) = elim (Bool-cases (str_eq j k)) [
  | inl here ↦ rw here (rw (eq_refl k) refl)
  | inr there ↦ rw there (rw there (lookup-set_field k v fs))
]

pub lookup-set_other :
    (k l : String) (v : Json) (fs : Fields)
    → str_eq k l ≡ false
    → lookup_field l (set_field k v fs) ≡ lookup_field l fs
lookup-set_other k l v end apart = rw apart refl
lookup-set_other k l v (field j w fs) apart = elim (Bool-cases (str_eq j k)) [
  | inl here ↦
      (let name : j ≡ k = (eq_iff j k).0 here in
        let gone : str_eq j l ≡ false = ap (λ s. str_eq s l) name ∙ apart in
        rw here (rw (apart, gone) refl))
  | inr there ↦
      rw there (ap (λ o. if str_eq j l then some w else o) (lookup-set_other k l v fs apart))
]

pub to_list-from_list : (vs : List Json) → to_list (from_list vs) ≡ vs
to_list-from_list [] = refl
to_list-from_list (v ∷ vs) = ap (◌∷◌ v) (to_list-from_list vs)
