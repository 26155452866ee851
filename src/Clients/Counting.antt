-- ===== src/Clients/Counting.antt =====
-- AddTrafficByEmail as a whole: the loop over the map, the transaction, and the sums it stands for.
use nexcore_x_ui.Prelude.{
  ℕ, String, true, false, not, ◌&&◌, ◌≡◌, refl, sym, ◌∙◌, ap, ap₂, none, some, List, [], ◌∷◌, map,
  arith, ◌==◌, str_eq, eq_iff, add64, ◌⊎◌, Bool-cases, Option-cases, inl, inr, All, All-imp,
  All-imp₂, All-map, map_self_of_All, update_rows_eq_map, update_rows,
}
use nexcore_x_ui.Exec.{ok, bind-eq-ok}
use nexcore_x_ui.Model.{ClientTraffic}
use nexcore_x_ui.Table.Schemas.{Tables, Panel}
use nexcore_x_ui.Panel.{update_clients}
use nexcore_x_ui.Panel.Effects.{update_clients-ok}
use nexcore_x_ui.Clients.{
  Delta, Deltas, lookup_delta, row_for, should_disable, apply_loaded, apply_delta, apply_deltas,
  set_counters,
}
use nexcore_x_ui.Clients.Billing.{
  bill_all, IsCounted, once, distinct_keys, Tracks, bill-IsCounted, visit_none, visit_skipped,
  visit_updated,
}

lookup_none_of_once : (e : String) (ds : Deltas) → once e ds ≡ true → lookup_delta e ds ≡ none
lookup_none_of_once e [] h = refl
lookup_none_of_once e ((k, d) ∷ ds) h = ground (arith, lookup_none_of_once e ds)

-- Two visits in a row are one visit by the longer map.
bill_all-cons :
    (now : ℕ) (e : String) (d : Delta) (ds : Deltas) (r : ClientTraffic)
    → once e ds ≡ true
    → bill_all now ds (bill_all now ((e, d) ∷ []) r) ≡ bill_all now ((e, d) ∷ ds) r
bill_all-cons now e d ds r h = elim (Bool-cases (str_eq e r.email)) [
  | inl same ↦
      (let gone = lookup_none_of_once e ds h in rw (same, ← (eq_iff e r.email).0 same, gone))
  | inr apart ↦ rw apart
]

lookup_later :
    (e k : String) (d v : Delta) (ds : Deltas)
    → once e ds ≡ true
    → lookup_delta k ds ≡ some v
    → lookup_delta k ((e, d) ∷ ds) ≡ some v
lookup_later e k d v ds h found = elim (Bool-cases (str_eq e k)) [
  | inl same ↦ cc (
    found,
    lookup_none_of_once e ds h,
    ap (λ (j : String). lookup_delta j ds) ((eq_iff e k).0 same),
  )
  | inr apart ↦ rw apart found
]

-- After a visit the rows still to come are those that were loaded.
Tracks-bill :
    (now : ℕ) (e : String) (d : Delta) (ds : Deltas) (loaded : List ClientTraffic)
    (r : ClientTraffic)
    → once e ds ≡ true
    → Tracks loaded ((e, d) ∷ ds) r
    → Tracks loaded ds (bill_all now ((e, d) ∷ []) r)
Tracks-bill now e d ds loaded r h tracks = elim (Bool-cases (str_eq e r.email)) [
  | inl same ↦ rw same (record {
    own = λ v found. cc (
      found,
      lookup_none_of_once e ds h,
      ap (λ (j : String). lookup_delta j ds) ((eq_iff e r.email).0 same),
    );
    only = λ k v c found. tracks.only k v c (lookup_later e k d v ds h found);
  })
  | inr apart ↦ rw apart (record {
    own = λ v found. tracks.own v (lookup_later e r.email d v ds h found);
    only = λ k v c found. tracks.only k v c (lookup_later e k d v ds h found);
  })
]

map_self : {A : Type 0} (xs : List A) → map (λ x. x) xs ≡ xs
map_self [] = refl
map_self (x ∷ xs) = ap (◌∷◌ x) (map_self xs)

map-map_eq :
    (now : ℕ) (e : String) (d : Delta) (ds : Deltas)
    → once e ds ≡ true
    → (rs : List ClientTraffic)
    → map (bill_all now ds) (map (bill_all now ((e, d) ∷ [])) rs)
      ≡ map (bill_all now ((e, d) ∷ ds)) rs
map-map_eq now e d ds h [] = refl
map-map_eq now e d ds h (r ∷ rs) =
    ap₂ ◌∷◌ (bill_all-cons now e d ds r h) (map-map_eq now e d ds h rs)

module _ (g : Tables) where
  -- Whether the round wrote, and that it wrote what it should.
  apply_loaded-rows :
      (now : ℕ) (e : String) (d : Delta) (ct : ClientTraffic) (disabled : List String) (s : Panel g)
      {out : List String} {t : Panel g}
      → apply_loaded g now e d ct disabled s ≡ (ok out, t)
      → ((t ≡ s)
          × (d.up ≡ 0)
          × (d.down ≡ 0)
          × (should_disable now ct (add64 ct.up d.up) (add64 ct.down d.down) ≡ false))
        ⊎ ((g.clients.rows t.clients
              ≡ update_rows
                  (λ r. r.id == ct.id)
                  (set_counters
                    (add64 ct.up d.up)
                    (add64 ct.down d.down)
                    (should_disable now ct (add64 ct.up d.up) (add64 ct.down d.down)))
                  (g.clients.rows s.clients))
            × (t ≡ record s { clients = t.clients }))
  unfolding apply_loaded
  apply_loaded-rows now e d ct disabled s {out} {t} h =
      let off = should_disable now ct (add64 ct.up d.up) (add64 ct.down d.down) in
      elim (Bool-cases (d.up == 0 && (d.down == 0 && not off))) [
        | inl skip ↦
            (let kept : t ≡ s = cc (rw (skip, apply_loaded) at h) in
              inl (kept, ground arith, ground arith, ground arith))
        | inr write ↦
            (let (n, u, wrote, rest) =
                bind-eq-ok
                  (update_clients g (λ r. r.id == ct.id)
                    (set_counters (add64 ct.up d.up) (add64 ct.down d.down) off))
                  _ s (rw (write) at h) in
              let (rows, count, frame) = update_clients-ok g _ _ s wrote in
              let last : t ≡ u = cc rest in
              inr (ap (λ (q : Panel g). g.clients.rows q.clients) last ∙ rows, rw last frame))
      ]

  -- One round of the loop is the bill of its email.
  visit-rows :
      (now : ℕ) (e : String) (d : Delta) (ds : Deltas) (loaded : List ClientTraffic)
      (disabled : List String) (s : Panel g) {out : List String} {t : Panel g}
      → apply_delta g now e d (row_for e loaded) disabled s ≡ (ok out, t)
      → All (Tracks loaded ((e, d) ∷ ds)) (g.clients.rows s.clients)
      → All IsCounted (g.clients.rows s.clients)
      → (g.clients.rows t.clients ≡ map (bill_all now ((e, d) ∷ [])) (g.clients.rows s.clients))
        × (t ≡ record s { clients = t.clients })
  visit-rows now e d ds loaded disabled s {out} {t} h tracks counted =
      elim (Option-cases (row_for e loaded)) [
        | inl missed ↦
            (let same : t ≡ s = cc (rw missed at h) in
              (
                ap (λ (q : Panel g). g.clients.rows q.clients) same
                    ∙ sym (
                        map_self_of_All _ _
                          (All-imp _ (λ r. visit_none now e d ds loaded r missed) tracks)),
                rw same,
              ))
        | inr (ct, found) ↦ elim (apply_loaded-rows now e d ct disabled s (rw found at h)) [
          | inl (same, u, v, off) ↦ (
            ap (λ (q : Panel g). g.clients.rows q.clients) same
                ∙ sym (
                    map_self_of_All _ _ (
                      All-imp₂ _ (λ r tr c. visit_skipped now e d ds loaded ct r found tr c u v off)
                        tracks counted)),
            rw same,
          )
          | inr (rows, frame) ↦ (
            rows
                ∙ update_rows_eq_map (λ r. r.id == ct.id)
                    (set_counters (add64 ct.up d.up) (add64 ct.down d.down)
                      (should_disable now ct (add64 ct.up d.up) (add64 ct.down d.down)))
                    _ _ (All-imp _ (λ r. visit_updated now e d ds loaded ct r found) tracks),
            frame,
          )
        ]
      ]

  -- The loop bills each row by the entry of its email.
  pub loop-rows :
      (now : ℕ) (loaded : List ClientTraffic) (ds : Deltas) (disabled : List String) (s : Panel g)
      {out : List String} {t : Panel g}
      → apply_deltas g now loaded ds disabled s ≡ (ok out, t)
      → distinct_keys ds ≡ true
      → All (Tracks loaded ds) (g.clients.rows s.clients)
      → All IsCounted (g.clients.rows s.clients)
      → (g.clients.rows t.clients ≡ map (bill_all now ds) (g.clients.rows s.clients))
        × (t ≡ record s { clients = t.clients })
  unfolding apply_deltas
  loop-rows now loaded [] disabled s {out} {t} h keys tracks counted =
      let same : t ≡ s = cc h in
      (ap (λ (q : Panel g). g.clients.rows q.clients) same ∙ sym (map_self _), rw same)
  loop-rows now loaded ((e, d) ∷ ds) disabled s {out} {t} h keys tracks counted =
      let (out', u, first, rest) =
        bind-eq-ok (apply_delta g now e d (row_for e loaded) disabled) _ s h in
      let (rows, frame) = visit-rows now e d ds loaded disabled s first tracks counted in
      let once_e : once e ds ≡ true = ground arith in
      let (rows', frame') =
        loop-rows now loaded ds out' u rest (ground arith)
          (rw rows (All-map _ _ _ (All-imp _ (λ r. Tracks-bill now e d ds loaded r once_e) tracks)))
          (rw rows (
            All-map _ _ _ (
              All-imp _ (λ r. bill-IsCounted now (lookup_delta r.email ((e, d) ∷ [])) r)
                counted))) in
      (
        rows'
            ∙ ap (map (bill_all now ds)) rows
            ∙ map-map_eq now e d ds once_e (g.clients.rows s.clients),
        rw (frame', frame),
      )
