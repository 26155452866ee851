-- ===== src/Clients/Expiry.antt =====
-- DisableExpired: the scan that needs no traffic.
use nexcore_x_ui.Prelude.{
  ℕ, String, Bool, true, false, ◌&&◌, ◌<◌, ltb, leb, half_mod, ◌≡◌, refl, sym, ◌∙◌, ap, ap₂, List,
  [], ◌∷◌, map, Memᴰ, arith, ◌==◌, ==_iff, if◌then◌else◌, Bool-cases, inl, inr, any, select_rows,
  update_rows, All-of_mem, any_of_mem, mem-select, mem_of_select, update_rows_eq_map, distinct-eq,
}
use mathlib.Core.Path.{subst, fun_ext}
use nexcore_x_ui.Exec.{ok, ◌>>=◌, pure, bind-eq-ok}
use nexcore_x_ui.Model.{ClientTraffic}
use nexcore_x_ui.Table.Schemas.{Tables, Panel}
use nexcore_x_ui.Panel.{find_clients, update_clients}
use nexcore_x_ui.Panel.Effects.{find_clients-ok, update_clients-ok}
use nexcore_x_ui.Clients.{disable_rows, disable_expired, is_due}
use nexcore_x_ui.Clients.Lookup.{same_id, id_comm}

abbrev pub switched_off : ClientTraffic → ClientTraffic
switched_off r = record r { enable = false }

-- An enabled client that has an expiry, which is not in the future. A negative expiry, a bit pattern of
-- 2^63 or more, is later than every clock that is not negative.
abbrev pub expired : ℕ → ClientTraffic → Bool
expired now r = r.enable && (ltb 0 r.expiry_time && leb r.expiry_time now)

is_due-expired : (now : ℕ) (r : ClientTraffic) → now < half_mod → is_due now r ≡ expired now r
is_due-expired now r h = ground arith

abbrev off_by : List ClientTraffic → ClientTraffic → ClientTraffic
off_by rs r = if any (same_id r) rs then switched_off r else r

off_by-cons :
    (x : ClientTraffic) (rs rows : List ClientTraffic)
    → map (off_by rs) (update_rows (λ q. q.id == x.id) switched_off rows)
      ≡ map (off_by (x ∷ rs)) rows
off_by-cons x rs [] = refl
off_by-cons x rs (r ∷ rows) = ap₂ ◌∷◌ first (off_by-cons x rs rows)
  where
    first : off_by rs (if r.id == x.id then switched_off r else r) ≡ off_by (x ∷ rs) r
    first = ground arith

off_by-nil : (rows : List ClientTraffic) → map (off_by []) rows ≡ rows
off_by-nil [] = refl
off_by-nil (r ∷ rows) = ap (◌∷◌ r) (off_by-nil rows)

mem_of_any :
    (p : ClientTraffic → Bool) (rs : List ClientTraffic)
    → any p rs ≡ true
    → (q : ClientTraffic) × Memᴰ q rs × (p q ≡ true)
mem_of_any p [] h = cc
mem_of_any p (x ∷ rs) h = elim (Bool-cases (p x)) [
  | inl here ↦ (x, Memᴰ.head refl, here)
  | inr later ↦ (let (q, m, e) = mem_of_any p rs (ground arith) in (q, Memᴰ.tail m, e))
]

none_due :
    (now : ℕ) (rows : List ClientTraffic)
    → any (is_due now) (update_rows (is_due now) switched_off rows) ≡ false
none_due now [] = refl
none_due now (r ∷ rows) = ground (arith, none_due now rows)

module _ (g : Tables) where
  disable_rows-rows :
      (rs : List ClientTraffic) (s : Panel g) {out : List String} {t : Panel g}
      → disable_rows g rs s ≡ (ok out, t)
      → (g.clients.rows t.clients ≡ map (off_by rs) (g.clients.rows s.clients))
        × (out ≡ map (λ r. r.email) rs)
  unfolding disable_rows
  disable_rows-rows [] s {t = t} h =
      let same : t ≡ s = cc h in
      (ap (λ (q : Panel g). g.clients.rows q.clients) same ∙ sym (off_by-nil _), cc)
  disable_rows-rows (x ∷ rs) s {t = t} h =
      let (n, u, wrote, rest) =
        bind-eq-ok (update_clients g (λ q. q.id == x.id) switched_off)
          (λ _. (disable_rows g rs >>= λ out. pure (x.email ∷ out))) s h in
      let (more, v, went, end) =
        bind-eq-ok (disable_rows g rs) (λ out. pure (x.email ∷ out)) u rest in
      let (rows, emails) = disable_rows-rows rs u went in
      let last : t ≡ v = cc end in
      let (now_off, count, frame) = update_clients-ok g (λ q. q.id == x.id) switched_off s wrote in
      (
        ap (λ (q : Panel g). g.clients.rows q.clients) last
            ∙ rows
            ∙ ap (map (off_by rs)) now_off
            ∙ off_by-cons x rs _,
        rw (← emails) (cc end),
      )

  off_by-due :
      (now : ℕ) (s : Panel g) (r : ClientTraffic)
      → Memᴰ r (g.clients.rows s.clients)
      → (if is_due now r then switched_off r else r)
        ≡ off_by (select_rows (is_due now) (g.clients.rows s.clients)) r
  off_by-due now s r m =
      let rows = g.clients.rows s.clients in
      elim (Bool-cases (is_due now r)) [
        | inl due ↦ rw (
          due,
          any_of_mem (same_id r) (select_rows (is_due now) rows)
              (mem-select (is_due now) rows m due) ((==_iff r.id r.id).1 refl),
        )
        | inr not_due ↦ elim (Bool-cases (any (same_id r) (select_rows (is_due now) rows))) [
          | inl some_one ↦
              (let (q, n, same) = mem_of_any (same_id r) (select_rows (is_due now) rows) some_one in
                let (here, due) = mem_of_select (is_due now) rows n in
                let one : q ≡ r =
                  distinct-eq same_id id_comm rows (ground (arith, g.clients.keys_unique s.clients))
                    m here same in
                cc (due, ap (is_due now) one))
          | inr nobody ↦ rw (not_due, nobody)
        ]
      ]

  -- At a time that is not negative, a successful scan switches off the enabled rows that have an expiry (not 0
  -- and not negative) at or before that time and no others, returns their emails in the order of the table,
  -- and leaves no row for a second scan.
  pub disable_expired-rows :
      (now : ℕ) (s : Panel g) {out : List String} {t : Panel g}
      → now < half_mod
      → disable_expired g now s ≡ (ok out, t)
      → (g.clients.rows t.clients
          ≡ update_rows (expired now) switched_off (g.clients.rows s.clients))
        × (out ≡ map (λ r. r.email) (select_rows (expired now) (g.clients.rows s.clients)))
        × (any (expired now) (g.clients.rows t.clients) ≡ false)
  unfolding disable_expired
  disable_expired-rows now s {out} {t} clock h =
      let (found, u, sel, rest) = bind-eq-ok (find_clients g (is_due now)) (disable_rows g) s h in
      let (rows, same) = find_clients-ok g (is_due now) s sel in
      let from_s : disable_rows g (select_rows (is_due now) (g.clients.rows s.clients)) s
          ≡ (ok out, t) =
        cc in
      let (result, emails) = disable_rows-rows _ s from_s in
      let written =
        result
        ∙ sym
            (update_rows_eq_map (is_due now) switched_off _ _ (All-of_mem _ (off_by-due now s))) in
      let same_test : is_due now ≡ expired now = fun_ext λ r. is_due-expired now r clock in
      subst
        (λ (p : ClientTraffic → Bool).
          (g.clients.rows t.clients ≡ update_rows p switched_off (g.clients.rows s.clients))
          × (out ≡ map (λ r. r.email) (select_rows p (g.clients.rows s.clients)))
          × (any p (g.clients.rows t.clients) ≡ false))
        same_test
        (written, emails, ap (any (is_due now)) written ∙ none_due now (g.clients.rows s.clients))
