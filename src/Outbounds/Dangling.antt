-- ===== src/Outbounds/Dangling.antt =====
-- DeleteMany leaves no inbound that routes to an outbound that is not there.
use nexcore_x_ui.Prelude.{
  ℕ, String, Bool, true, false, ◌&&◌, ◌||◌, ◌≡◌, refl, sym, ◌∙◌, ap, ap₂, List, [], ◌∷◌, map, arith,
  str_eq, eq_iff, if◌then◌else◌, any, all, select_rows, update_rows, delete_rows, Bool-cases, inl,
  inr,
}
use nexcore_x_ui.Exec.{Exec, Result, ok, ◌>>=◌, ◌>>◌, when, pure, bind-eq-ok, transaction-ok}
use nexcore_x_ui.Model.{Inbound, Outbound}
use nexcore_x_ui.Table.Schemas.{Tables, Panel}
use nexcore_x_ui.Panel.{find_outbounds, delete_outbounds, update_inbounds}
use nexcore_x_ui.Panel.Effects.{to_exec-ok, store_outbounds-ok, update_inbounds-ok}
use nexcore_x_ui.Outbounds.{has_id, bound_to, unbound, delete_bound, delete_many, tag_of}

-- Every inbound goes out directly or to an outbound of the list.
abbrev pub routed : List Outbound → Inbound → Bool
routed os i = str_eq i.outbound_tag "" || any (λ o. str_eq o.tag i.outbound_tag) os

abbrev pub all_routed : List Inbound → List Outbound → Bool
all_routed is os = all (routed os) is

-- An outbound whose tag is not among those of the deleted ones stays.
stays :
    (p : Outbound → Bool) (e : String) (os : List Outbound)
    → any (λ o. str_eq o.tag e) os ≡ true
    → any (λ t. str_eq e t) (map tag_of (select_rows p os)) ≡ false
    → any (λ o. str_eq o.tag e) (delete_rows p os) ≡ true
stays p e [] h k = cc
stays p e (o ∷ os) h k = elim (Bool-cases (p o)) [
  | inl gone ↦
      (let parts : (str_eq e o.tag || any (λ t. str_eq e t) (map tag_of (select_rows p os)))
            ≡ false =
          rw gone at k in
        let other : str_eq o.tag e ≡ false = ground (arith, eq_iff e o.tag, eq_iff o.tag e) in
        rw gone (stays p e os (ground arith) (ground arith)))
  | inr left ↦
      (let none_gone : any (λ t. str_eq e t) (map tag_of (select_rows p os)) ≡ false =
          rw left at k in
        rw left (elim (Bool-cases (str_eq o.tag e)) [
          | inl here ↦ rw here refl
          | inr there ↦ rw there (stays p e os (ground arith) none_gone)
        ]))
]

unbound-routed :
    (p : Outbound → Bool) (os : List Outbound) (i : Inbound)
    → routed os i ≡ true
    → routed
        (delete_rows p os)
        (if bound_to (map tag_of (select_rows p os)) i then unbound i else i)
      ≡ true
unbound-routed p os i h = elim (Bool-cases (bound_to (map tag_of (select_rows p os)) i)) [
  | inl cut ↦ rw cut refl
  | inr free ↦ rw free (elim (Bool-cases (str_eq i.outbound_tag "")) [
    | inl direct ↦ rw direct refl
    | inr relayed ↦ rw relayed (stays p i.outbound_tag os (ground arith) free)
  ])
]

all_routed-delete :
    (p : Outbound → Bool) (os : List Outbound) (is : List Inbound)
    → all_routed is os ≡ true
    → all_routed
        (update_rows (bound_to (map tag_of (select_rows p os))) unbound is)
        (delete_rows p os)
      ≡ true
all_routed-delete p os [] h = refl
all_routed-delete p os (i ∷ is) h =
    ap₂ ◌&&◌ (unbound-routed p os i (ground arith)) (all_routed-delete p os is (ground arith))

update_none : (f : Inbound → Inbound) (is : List Inbound) → update_rows (bound_to []) f is ≡ is
update_none f [] = refl
update_none f (i ∷ is) = ap (◌∷◌ i) (update_none f is)

module _ (g : Tables) where
  -- The update of the inbounds is left out when no outbound was found; it would have changed none.
  unbind-ok :
      (rows : List Outbound) (s : Panel g) {t : Panel g}
      → when
          (any (λ _. true) rows)
          (update_inbounds g (bound_to (map tag_of rows)) unbound >> pure tt)
          s
        ≡ (ok tt, t)
      → (g.inbounds.rows t.inbounds
          ≡ update_rows (bound_to (map tag_of rows)) unbound (g.inbounds.rows s.inbounds))
        × (t.outbounds ≡ s.outbounds)
  unbind-ok [] s h = (
    ap (λ (r : Result (Unit {0}) × Panel g). g.inbounds.rows r.1.inbounds) (sym h)
        ∙ sym (update_none unbound (g.inbounds.rows s.inbounds)),
    ap (λ (r : Result (Unit {0}) × Panel g). r.1.outbounds) (sym h),
  )
  unbind-ok (o ∷ os) s {t} h =
      let (n, u, wrote, last) =
        bind-eq-ok (update_inbounds g (bound_to (map tag_of (o ∷ os))) unbound) (λ _. pure tt) s
          h in
      let (rows, count, frame) =
        update_inbounds-ok g (bound_to (map tag_of (o ∷ os))) unbound s wrote in
      let same : t ≡ u = ap (λ (r : Result (Unit {0}) × Panel g). r.1) (sym last) in
      (
        ap (λ (q : Panel g). g.inbounds.rows q.inbounds) same ∙ rows,
        ap (λ (q : Panel g). q.outbounds) (same ∙ frame),
      )

  delete_bound-rows :
      (ids : List ℕ) (s : Panel g) {n : ℕ} {t : Panel g}
      → delete_bound g ids s ≡ (ok n, t)
      → (g.inbounds.rows t.inbounds
          ≡ update_rows
              (bound_to (map tag_of (select_rows (has_id ids) (g.outbounds.rows s.outbounds))))
              unbound
              (g.inbounds.rows s.inbounds))
        × (g.outbounds.rows t.outbounds ≡ delete_rows (has_id ids) (g.outbounds.rows s.outbounds))
  unfolding delete_bound
  delete_bound-rows ids s {n} {t} h =
      let unbind : List Outbound → Exec (Panel g) (Unit {0}) = λ rows.
        when (any (λ _. true) rows)
          (update_inbounds g (bound_to (map tag_of rows)) unbound >> pure tt) in
      let (rows, u, found, rest) =
        bind-eq-ok (find_outbounds g (has_id ids))
          (λ rows. unbind rows >>= λ _. delete_outbounds g (has_id ids)) s h in
      let (sel, same) = to_exec-ok g (g.outbounds.select (has_id ids) s.outbounds) s found in
      let listed = g.outbounds.select-rows (has_id ids) s.outbounds sel in
      let (_, v, cut, last) =
        bind-eq-ok (unbind rows) (λ _. delete_outbounds g (has_id ids)) u rest in
      let (ins, outs) = unbind-ok rows u cut in
      let (tab, done, end) =
        store_outbounds-ok g (g.outbounds.delete (has_id ids) v.outbounds) v last in
      let gone = g.outbounds.delete-rows (has_id ids) v.outbounds done in
      (
        ap (λ (q : Panel g). g.inbounds.rows q.inbounds) end
            ∙ ins
            ∙ ap
                (λ (l : List Outbound).
                  update_rows (bound_to (map tag_of l)) unbound (g.inbounds.rows u.inbounds))
                listed
            ∙ ap
                (λ (q : Panel g).
                  update_rows
                    (bound_to
                      (map tag_of (select_rows (has_id ids) (g.outbounds.rows s.outbounds))))
                    unbound (g.inbounds.rows q.inbounds))
                same,
        ap (λ (q : Panel g). g.outbounds.rows q.outbounds) end
            ∙ gone
            ∙ ap (λ o. delete_rows (has_id ids) (g.outbounds.rows o))
                (outs ∙ ap (λ (q : Panel g). q.outbounds) same),
      )

  -- If every inbound goes out directly or to an outbound that is there, the same holds after a
  -- successful delete_many of the outbounds with the given ids.
  pub delete_many-routed :
      (ids : List ℕ) (s : Panel g) {n : ℕ} {t : Panel g}
      → all_routed (g.inbounds.rows s.inbounds) (g.outbounds.rows s.outbounds) ≡ true
      → delete_many g ids s ≡ (ok n, t)
      → all_routed (g.inbounds.rows t.inbounds) (g.outbounds.rows t.outbounds) ≡ true
  unfolding delete_many
  delete_many-routed [] s before h =
      ap
        (λ (r : Result ℕ × Panel g).
          all_routed (g.inbounds.rows r.1.inbounds) (g.outbounds.rows r.1.outbounds))
        (sym h)
      ∙ before
  delete_many-routed (id ∷ ids) s before h =
      let (ins, outs) =
        delete_bound-rows (id ∷ ids) s (transaction-ok (delete_bound g (id ∷ ids)) s h) in
      ap₂ all_routed ins outs
      ∙ all_routed-delete (has_id (id ∷ ids)) (g.outbounds.rows s.outbounds)
          (g.inbounds.rows s.inbounds) before
