-- ===== src/Clients/Refinement.antt =====
-- AddTrafficByEmail refines a bill by sums: each row of the table is billed once, by the bytes that
-- the statistics report for its email, in whatever order the map is visited.
use nexcore_x_ui.Prelude.{
  ℕ, String, Bool, true, ◌≡◌, sym, ◌∙◌, ap, Option, none, some, List, [], ◌∷◌, map, arith,
  if◌then◌else◌, All, All-of_mem, map_eq_of_All, map_self_of_All, select_rows, add64, word_mod, ◌%◌,
}
use nexcore_x_ui.Exec.{Err, ok, err, bind-eq-ok, transaction-ok, transaction-err}
use nexcore_x_ui.Model.{ClientTraffic, Traffic}
use nexcore_x_ui.Table.Schemas.{Tables, Panel}
use nexcore_x_ui.Panel.{find_clients}
use nexcore_x_ui.Panel.Effects.{find_clients-ok}
use nexcore_x_ui.Clients.{
  Delta, Deltas, lookup_delta, collect_from, is_collected, apply_deltas, add_traffic_by_email,
  bill_collected, bill_loaded,
}
use nexcore_x_ui.Clients.Lookup.{row_for-select, email_of_id}
use nexcore_x_ui.Clients.Collect.{
  reported, up_of, down_of, StandsFor, collect-StandsFor, has_entry_of_lookup,
}
use nexcore_x_ui.Clients.Billing.{bill, bill_delta, bill_all, IsCounted, distinct_keys, Tracks}
use nexcore_x_ui.Clients.Counting.{loop-rows}

-- `visited` lists each entry of the map once: what `range` promises.
pub record IsRange (visited ds : Deltas) : Type 0 where
  pub same : (e : String) → lookup_delta e visited ≡ lookup_delta e ds
  pub once : distinct_keys visited ≡ true

-- A row after the statistics `ts` have come in.
unfoldable pub billed : ℕ → List Traffic → ClientTraffic → ClientTraffic
billed now ts r =
    if reported r.email ts then bill now (up_of r.email ts) (down_of r.email ts) r else r

bill_mod :
    (now : ℕ) (d : Delta) (up down : ℕ) (r : ClientTraffic)
    → d.up % word_mod ≡ up % word_mod
    → d.down % word_mod ≡ down % word_mod
    → bill now d.up d.down r ≡ bill now up down r
bill_mod now d up down r u v =
    let same_up : add64 r.up d.up ≡ add64 r.up up = omega arith in
    let same_down : add64 r.down d.down ≡ add64 r.down down = omega arith in rw (same_up, same_down)

bill_stands :
    (now : ℕ) (o : Option Delta) (found : Bool) (up down : ℕ) (r : ClientTraffic)
    → StandsFor o found up down
    → bill_delta now o r ≡ (if found then bill now up down r else r)
bill_stands now none found up down r h = rw h.0
bill_stands now (some d) found up down r h = rw (h.0) (bill_mod now d up down r h.1 h.2)

bill_all-eq-billed :
    (now : ℕ) (ts : List Traffic) (visited : Deltas) (r : ClientTraffic)
    → IsRange visited (collect_from [] ts)
    → bill_all now visited r ≡ billed now ts r
unfolding billed
bill_all-eq-billed now ts visited r range =
    ap (λ (o : Option Delta). bill_delta now o r) (range.same r.email)
    ∙ bill_stands now _ _ _ _ r (collect-StandsFor r.email ts)

module _ (g : Tables) where
  loaded-Tracks :
      (ds visited : Deltas) (s : Panel g)
      → IsRange visited ds
      → All
          (Tracks (select_rows (is_collected ds) (g.clients.rows s.clients)) visited)
          (g.clients.rows s.clients)
  loaded-Tracks ds visited s range =
      let unique = g.clients.keys_unique s.clients in
      All-of_mem _ λ r m. record {
        own = λ d found.
            row_for-select (ground arith) (ground arith) (is_collected ds) m
              (has_entry_of_lookup r.email ds d (sym (range.same r.email) ∙ found));
        only = λ e d c found row same.
            email_of_id (ground arith) (ground arith) (is_collected ds) e m row same;
      }

  bill_loaded-rows :
      (order : Deltas → Deltas) (now : ℕ) (ds : Deltas) (s : Panel g) {out : List String}
      {t : Panel g}
      → IsRange (order ds) ds
      → All IsCounted (g.clients.rows s.clients)
      → bill_loaded g order now ds s ≡ (ok out, t)
      → (g.clients.rows t.clients ≡ map (bill_all now (order ds)) (g.clients.rows s.clients))
        × (t ≡ record s { clients = t.clients })
  unfolding bill_loaded
  bill_loaded-rows order now ds s {out} {t} range counted h =
      let (loaded, u, found, rest) =
        bind-eq-ok (find_clients g (is_collected ds))
          (λ loaded. apply_deltas g now loaded (order ds) []) s h in
      let (rows, same) = find_clients-ok g (is_collected ds) s found in
      let from_s : apply_deltas g now (select_rows (is_collected ds) (g.clients.rows s.clients))
            (order ds) [] s
          ≡ (ok out, t) =
        cc in
      loop-rows g now _ (order ds) [] s from_s range.once (loaded-Tracks ds (order ds) s range)
        counted

  bill_collected-rows :
      (order : Deltas → Deltas) (now : ℕ) (ds : Deltas) (s : Panel g) {out : List String}
      {t : Panel g}
      → IsRange (order ds) ds
      → All IsCounted (g.clients.rows s.clients)
      → bill_collected g order now ds s ≡ (ok out, t)
      → (g.clients.rows t.clients ≡ map (bill_all now (order ds)) (g.clients.rows s.clients))
        × (t ≡ record s { clients = t.clients })
  unfolding bill_collected
  bill_collected-rows order now [] s {out} {t} range counted h =
      let same : t ≡ s = cc h in
      (
        ap (λ (q : Panel g). g.clients.rows q.clients) same
            ∙ sym (
                map_self_of_All _ _ (
                  All-of_mem _
                    λ r m. ap (λ (o : Option Delta). bill_delta now o r) (range.same r.email))),
        rw same,
      )
  bill_collected-rows order now (first ∷ more) s range counted h =
      bill_loaded-rows order now (first ∷ more) s range counted
        (transaction-ok (bill_loaded g order now (first ∷ more)) s h)

  -- Whatever the order in which the entries of the map are visited, each once, and for rows whose
  -- counters are bit patterns of int64: after a successful call every row of client_traffics is billed
  -- once, with the bytes that the user rows of the statistics report for its email, and nothing else of
  -- the panel's state has changed.
  pub add_traffic_by_email-rows :
      (order : Deltas → Deltas) (ts : List Traffic) (now : ℕ) (s : Panel g) {out : List String}
      {t : Panel g}
      → IsRange (order (collect_from [] ts)) (collect_from [] ts)
      → All IsCounted (g.clients.rows s.clients)
      → add_traffic_by_email g order ts now s ≡ (ok out, t)
      → (g.clients.rows t.clients ≡ map (billed now ts) (g.clients.rows s.clients))
        × (t ≡ record s { clients = t.clients })
  unfolding add_traffic_by_email
  add_traffic_by_email-rows order ts now s range counted h =
      let (rows, frame) = bill_collected-rows order now (collect_from [] ts) s range counted h in
      (
        rows
            ∙ map_eq_of_All _ _ _ (
                All-of_mem _ λ r m. bill_all-eq-billed now ts (order (collect_from [] ts)) r range),
        frame,
      )

  bill_collected_atomic :
      (order : Deltas → Deltas) (now : ℕ) (ds : Deltas) (s : Panel g) {e : Err} {t : Panel g}
      → bill_collected g order now ds s ≡ (err e, t)
      → t ≡ s
  unfolding bill_collected
  bill_collected_atomic order now [] s h = cc
  bill_collected_atomic order now (first ∷ more) s h =
      transaction-err (bill_loaded g order now (first ∷ more)) s h

  -- An AddTrafficByEmail that returns an error has changed nothing.
  pub add_traffic_by_email_atomic :
      (order : Deltas → Deltas) (ts : List Traffic) (now : ℕ) (s : Panel g) {e : Err} {t : Panel g}
      → add_traffic_by_email g order ts now s ≡ (err e, t)
      → t ≡ s
  unfolding add_traffic_by_email
  add_traffic_by_email_atomic order ts now s h =
      bill_collected_atomic order now (collect_from [] ts) s h
