-- ===== src/Clients/Billing.antt =====
-- What AddTrafficByEmail leaves in the table, whatever the order in which the map is visited.
use nexcore_x_ui.Prelude.{
  ℕ, String, Bool, true, false, not, ◌&&◌, ◌||◌, ◌≡◌, refl, sym, ap, Option, none, some, List, [],
  ◌∷◌, arith, ◌==◌, str_eq, eq_iff, eq_refl, ==_iff, if◌then◌else◌, any, add64, IsWord, is_pos64,
  leb64, Bool-cases, inl, inr,
}
use nexcore_x_ui.Model.{ClientTraffic}
use nexcore_x_ui.Clients.{Delta, Deltas, lookup_delta, row_for, should_disable, set_counters}

-- total = 0 is no limit, expiry_time = 0 is no expiry; so are negative ones.
abbrev pub is_over_quota : ClientTraffic → Bool
is_over_quota r = is_pos64 r.total && leb64 r.total (add64 r.up r.down)

abbrev pub is_expired : ℕ → ClientTraffic → Bool
is_expired now r = is_pos64 r.expiry_time && leb64 r.expiry_time now

-- A row with some bytes added, and switched off when that spends it.
abbrev pub bill : ℕ → ℕ → ℕ → ClientTraffic → ClientTraffic
bill now up down r =
    let r' = record r { up = add64 r.up up; down = add64 r.down down } in
    record r' { enable = r.enable && not (is_over_quota r' || is_expired now r') }

abbrev pub bill_delta : ℕ → Option Delta → ClientTraffic → ClientTraffic
bill_delta now none r = r
bill_delta now (some d) r = bill now d.up d.down r

abbrev pub bill_all : ℕ → Deltas → ClientTraffic → ClientTraffic
bill_all now ds r = bill_delta now (lookup_delta r.email ds) r

abbrev pub IsCounted : ClientTraffic → Type 0
IsCounted r = IsWord r.up × IsWord r.down

abbrev pub once : String → Deltas → Bool
once e ds = not (any (λ (kd : String × Delta). str_eq kd.0 e) ds)

abbrev pub distinct_keys : Deltas → Bool
distinct_keys [] = true
distinct_keys ((k, d) ∷ ds) = once k ds && distinct_keys ds

-- The loaded rows are those of the table, for the emails still to be visited.
pub record Tracks (loaded : List ClientTraffic) (ds : Deltas) (r : ClientTraffic) : Type 0 where
  pub own : (d : Delta) → lookup_delta r.email ds ≡ some d → row_for r.email loaded ≡ some r
  pub only :
      (e : String) (d : Delta) (c : ClientTraffic)
      → lookup_delta e ds ≡ some d
      → row_for e loaded ≡ some c
      → c.id ≡ r.id
      → str_eq r.email e ≡ true

pub bill-IsCounted :
    (now : ℕ) (o : Option Delta) (r : ClientTraffic) → IsCounted r → IsCounted (bill_delta now o r)
bill-IsCounted now none r h = h
bill-IsCounted now (some d) r h = omega arith

own_row :
    (e : String) (d : Delta) (ds : Deltas) (loaded : List ClientTraffic) (ct r : ClientTraffic)
    → row_for e loaded ≡ some ct
    → Tracks loaded ((e, d) ∷ ds) r
    → str_eq e r.email ≡ true
    → ct ≡ r
own_row e d ds loaded ct r found tracks same =
    let mine : row_for r.email loaded ≡ some r = tracks.own d (rw same) in
    let name : e ≡ r.email = (eq_iff e r.email).0 same in
    cc (found, mine, ap (λ (k : String). row_for k loaded) name)

-- One visit changes the row of its email, and no other.
pub visit_none :
    (now : ℕ) (e : String) (d : Delta) (ds : Deltas) (loaded : List ClientTraffic)
    (r : ClientTraffic)
    → row_for e loaded ≡ none
    → Tracks loaded ((e, d) ∷ ds) r
    → bill_all now ((e, d) ∷ []) r ≡ r
visit_none now e d ds loaded r missed tracks = elim (Bool-cases (str_eq e r.email)) [
  | inl same ↦
      (let mine : row_for r.email loaded ≡ some r = tracks.own d (rw same) in
        cc (mine, missed, ap (λ (k : String). row_for k loaded) ((eq_iff e r.email).0 same)))
  | inr apart ↦ rw apart
]

bill_nothing :
    (now : ℕ) (r : ClientTraffic)
    → IsCounted r
    → should_disable now r (add64 r.up 0) (add64 r.down 0) ≡ false
    → bill now 0 0 r ≡ r
unfolding should_disable
bill_nothing now r h off = ground arith

pub visit_skipped :
    (now : ℕ) (e : String) (d : Delta) (ds : Deltas) (loaded : List ClientTraffic)
    (ct r : ClientTraffic)
    → row_for e loaded ≡ some ct
    → Tracks loaded ((e, d) ∷ ds) r
    → IsCounted r
    → d.up ≡ 0
    → d.down ≡ 0
    → should_disable now ct (add64 ct.up d.up) (add64 ct.down d.down) ≡ false
    → bill_all now ((e, d) ∷ []) r ≡ r
visit_skipped now e d ds loaded ct r found tracks counted u v off =
    elim (Bool-cases (str_eq e r.email)) [
      | inl same ↦
          (let one = own_row e d ds loaded ct r found tracks same in
            rw (same, u, v) (bill_nothing now r counted (rw (one, u, v) at off)))
      | inr apart ↦ rw apart
    ]

bill_updated :
    (now : ℕ) (d : Delta) (r : ClientTraffic)
    → set_counters
        (add64 r.up d.up)
        (add64 r.down d.down)
        (should_disable now r (add64 r.up d.up) (add64 r.down d.down))
        r
      ≡ bill now d.up d.down r
unfolding should_disable
bill_updated now d r = ground arith

pub visit_updated :
    (now : ℕ) (e : String) (d : Delta) (ds : Deltas) (loaded : List ClientTraffic)
    (ct r : ClientTraffic)
    → row_for e loaded ≡ some ct
    → Tracks loaded ((e, d) ∷ ds) r
    → (if r.id == ct.id
        then set_counters
            (add64 ct.up d.up)
            (add64 ct.down d.down)
            (should_disable now ct (add64 ct.up d.up) (add64 ct.down d.down))
            r
        else r)
      ≡ bill_all now ((e, d) ∷ []) r
visit_updated now e d ds loaded ct r found tracks = elim (Bool-cases (str_eq e r.email)) [
  | inl same ↦
      (let one = own_row e d ds loaded ct r found tracks same in
        rw (one, same, (==_iff r.id r.id).1 refl) (bill_updated now d r))
  | inr apart ↦ elim (Bool-cases (r.id == ct.id)) [
    | inl id ↦
        (let named : str_eq r.email e ≡ true =
            tracks.only e d ct (rw eq_refl) found (sym ((==_iff r.id ct.id).0 id)) in
          cc (apart, eq_refl e, (eq_iff r.email e).0 named))
    | inr other ↦ rw (apart, other)
  ]
]
