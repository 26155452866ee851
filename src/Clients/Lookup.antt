-- ===== src/Clients/Lookup.antt =====
-- The map from emails to loaded rows: what it holds of a table whose emails and ids are unique.
use nexcore_x_ui.Prelude.{
  String, Bool, true, false, ◌≡◌, ◌∙◌, ap, none, some, List, [], ◌∷◌, Memᴰ, arith, ◌==◌, ==_iff,
  str_eq, eq_iff, eq_refl, inl, inr, Option-cases, distinct, select_rows, mem-select, mem_of_select,
  distinct-eq,
}
use nexcore_x_ui.Model.{ClientTraffic}
use nexcore_x_ui.Clients.{row_for}

pub str_eq_comm : (a b : String) → str_eq a b ≡ str_eq b a
str_eq_comm a b = ground (arith, eq_iff a b, eq_iff b a)

row_for-none :
    (e : String) (rs : List ClientTraffic) {r : ClientTraffic}
    → row_for e rs ≡ none
    → Memᴰ r rs
    → str_eq r.email e ≡ false
unfolding row_for
row_for-none e [] h m = elim m [ ]
row_for-none e (q ∷ rs) h (Memᴰ.head same) =
    ap (λ (r : ClientTraffic). str_eq r.email e) same ∙ ground arith
row_for-none e (q ∷ rs) h (Memᴰ.tail m) = row_for-none e rs (ground arith) m

row_for-some :
    (e : String) (rs : List ClientTraffic) {c : ClientTraffic}
    → row_for e rs ≡ some c
    → Memᴰ c rs × (str_eq c.email e ≡ true)
unfolding row_for
row_for-some e [] h = cc
row_for-some e (q ∷ rs) {c} h = elim (Option-cases (row_for e rs)) [
  | inl missed ↦ (Memᴰ.head (ground arith), ground arith)
  | inr (later, found) ↦
      (let (m, e') = row_for-some e rs {c = later} found in
        let same : later ≡ c = ground arith in rw (← same) (Memᴰ.tail m, e'))
]

abbrev pub same_email : ClientTraffic → ClientTraffic → Bool
same_email a b = str_eq a.email b.email

abbrev pub same_id : ClientTraffic → ClientTraffic → Bool
same_id a b = a.id == b.id

pub id_comm : (a b : ClientTraffic) → same_id a b ≡ same_id b a
id_comm a b = ground arith

module _ {rows : List ClientTraffic} (emails : distinct same_email rows ≡ true)
    (ids : distinct same_id rows ≡ true) where
  -- A row of the table is the one loaded for its email, if it was selected.
  pub row_for-select :
      (p : ClientTraffic → Bool) {r : ClientTraffic}
      → Memᴰ r rows
      → p r ≡ true
      → row_for r.email (select_rows p rows) ≡ some r
  row_for-select p {r} m h = elim (Option-cases (row_for r.email (select_rows p rows))) [
    | inl missed ↦
        cc (
          row_for-none r.email (select_rows p rows) missed (mem-select p rows m h),
          eq_refl r.email,
        )
    | inr (c, found) ↦
        (let (n, same) = row_for-some r.email (select_rows p rows) found in
          found
          ∙ ap some (
              distinct-eq same_email (λ a b. str_eq_comm a.email b.email) rows emails m
                (mem_of_select p rows n).0 (str_eq_comm r.email c.email ∙ same)))
  ]

  -- A row with the id of a loaded one is that row, so it has the email asked for.
  pub email_of_id :
      (p : ClientTraffic → Bool) (e : String) {r c : ClientTraffic}
      → Memᴰ r rows
      → row_for e (select_rows p rows) ≡ some c
      → c.id ≡ r.id
      → str_eq r.email e ≡ true
  email_of_id p e {r} {c} m found same =
      let (n, named) = row_for-some e (select_rows p rows) found in
      let one =
        distinct-eq same_id id_comm rows ids (mem_of_select p rows n).0 m
          ((==_iff c.id r.id).1 same) in
      ap (λ (q : ClientTraffic). str_eq q.email e) one ∙ named
