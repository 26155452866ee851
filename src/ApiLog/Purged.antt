-- ===== src/ApiLog/Purged.antt =====
-- Purge ends, and leaves no old row.
use nexcore_x_ui.Prelude.{
  ℕ, zero, suc, ◌+◌, ◌≤◌, ◌<◌, ◌≡◌, refl, sym, ap, ◌∙◌, Bool, true, false, ◌||◌, Option, none, some,
  List, [], ◌∷◌, map, ltb, any, take, length, arith, Bool-cases, inl, inr, Memᴰ, ltb→lt,
  select_rows, delete_rows, count_rows, mem_of_select, mem-select, any_of_select, ◌⊎◌,
}
use mathlib.Core.Path.{subst}
use nexcore_x_ui.Exec.{database}
use nexcore_x_ui.Model.{ApiLogRow}
use nexcore_x_ui.Table.{Table}
use nexcore_x_ui.Table.Schemas.{api_logs_schema}
use nexcore_x_ui.ApiLog.Purge.{
  purge_chunk_size, is_old, is_among, Purged, deleted, delete_chunk, pass, purge,
}

module _ {A : Type 0} where
  length-take : (n : ℕ) (xs : List A) → length (take n xs) < n → take n xs ≡ xs
  length-take zero xs h = absurd (omega (arith, h))
  length-take (suc n) [] h = refl
  length-take (suc n) (x ∷ xs) h = ap (◌∷◌ x) (length-take n xs (omega (arith, h)))

  count-le : (p q : A → Bool) (xs : List A) → count_rows p (delete_rows q xs) ≤ count_rows p xs
  count-le p q [] = omega arith
  count-le p q (x ∷ xs) = ground (arith, count-le p q xs)

  count-lt :
      (p q : A → Bool) (xs : List A) {c : A}
      → Memᴰ c xs
      → p c ≡ true
      → q c ≡ true
      → count_rows p (delete_rows q xs) < count_rows p xs
  count-lt p q [] m h k = elim m [ ]
  count-lt p q (x ∷ xs) (Memᴰ.head e) h k =
      ground (arith, count-le p q xs, ap p (sym e) ∙ h, ap q (sym e) ∙ k)
  count-lt p q (x ∷ xs) (Memᴰ.tail m) h k = ground (arith, count-lt p q xs m h k)

  none_left :
      (p q : A → Bool) (xs : List A)
      → ((x : A) → Memᴰ x xs → p x ≡ true → q x ≡ true)
      → any p (delete_rows q xs) ≡ false
  none_left p q [] h = refl
  none_left p q (x ∷ xs) h = elim (Bool-cases (q x)) [
    | inl gone ↦ rw gone (none_left p q xs (λ y m. h y (Memᴰ.tail m)))
    | inr stays ↦ rw stays (
        ap (λ b. b || any p (delete_rows q xs)) (young (Bool-cases (p x)) stays)
        ∙ none_left p q xs (λ y m. h y (Memᴰ.tail m)))
  ]
    where
      young : ((p x ≡ true) ⊎ (p x ≡ false)) → q x ≡ false → p x ≡ false
      young (inl old) stays = cc (h x (Memᴰ.head refl) old, stays)
      young (inr new) stays = new

is_among-mem :
    (rows : List ApiLogRow) (r : ApiLogRow) → Memᴰ r rows → is_among (map (λ q. q.id) rows) r ≡ true
is_among-mem [] r m = elim m [ ]
is_among-mem (q ∷ rows) r (Memᴰ.head e) = ground (arith, ap (λ (x : ApiLogRow). x.id) e)
is_among-mem (q ∷ rows) r (Memᴰ.tail m) = ground (arith, is_among-mem rows r m)

length-map : {A B : Type 0} (f : A → B) (xs : List A) → length (map f xs) ≡ length xs
length-map f [] = refl
length-map f (x ∷ xs) = ap suc (length-map f xs)

mem_of_take : {A : Type 0} (n : ℕ) (xs : List A) {x : A} → Memᴰ x (take n xs) → Memᴰ x xs
mem_of_take zero xs m = elim m [ ]
mem_of_take (suc n) [] m = elim m [ ]
mem_of_take (suc n) (y ∷ xs) (Memᴰ.head e) = Memᴰ.head e
mem_of_take (suc n) (y ∷ xs) (Memᴰ.tail m) = Memᴰ.tail (mem_of_take n xs m)

module _ (logs : Table api_logs_schema) where
  -- The loop ended, by an error of the database or with no old row left.
  abbrev pub Ends : ℕ → Option (Purged logs) → Type 0
  Ends now r =
      (o : Purged logs) × (r ≡ some o)
      × ((o.error ≡ some database) ⊎ (any (is_old now) (logs.rows o.table) ≡ false))

  module _ (now fuel : ℕ)
      (again : (total : ℕ) (t : logs.Tab)
        → count_rows (is_old now) (logs.rows t) < fuel
        → Ends now (purge logs fuel now total t)) where
    deleted-Ends :
        (total : ℕ) (t : logs.Tab) (rows chunk : List ApiLogRow) {c : ApiLogRow}
        (o : Option (ℕ × logs.Tab))
        → count_rows (is_old now) (logs.rows t) < suc fuel
        → rows ≡ select_rows (is_old now) (logs.rows t)
        → take purge_chunk_size rows ≡ chunk
        → Memᴰ c chunk
        → logs.delete (is_among (map (λ r. r.id) chunk)) t ≡ o
        → Ends now (deleted logs (purge logs fuel now) (map (λ r. r.id) chunk) total t o)
    deleted-Ends total t rows chunk none few listed cut m h =
        (record { total_affected = total; error = some database; table = t }, refl, inl refl)
    deleted-Ends total t rows chunk {c} (some (n, t')) few listed cut m h =
        let ids = map (λ (r : ApiLogRow). r.id) chunk in
        let left = logs.delete-rows (is_among ids) t h in
        elim (Bool-cases (ltb (length ids) purge_chunk_size)) [
          | inl last ↦
              (let short : length (take purge_chunk_size rows) < purge_chunk_size =
                  subst (λ k. k < purge_chunk_size)
                    (sym (ap length cut ∙ sym (length-map (λ (r : ApiLogRow). r.id) chunk)))
                    (ltb→lt (length ids) purge_chunk_size last) in
                let whole : chunk ≡ select_rows (is_old now) (logs.rows t) =
                  sym cut ∙ length-take purge_chunk_size rows short ∙ listed in
                rw (last, deleted)
                  (
                    record { total_affected = total + n; error = none; table = t' },
                    refl,
                    inr (
                        ap (any (is_old now)) left
                        ∙ none_left (is_old now) (is_among ids) (logs.rows t) (λ x here old.
                          is_among-mem chunk x (
                            subst (Memᴰ x) (sym whole)
                              (mem-select (is_old now) (logs.rows t) here old)))),
                  ))
          | inr more ↦
              (let (here, old) = mem_of_select (is_old now) (logs.rows t) (
                  subst (Memᴰ c) listed
                    (mem_of_take purge_chunk_size rows (subst (Memᴰ c) (sym cut) m))) in
                let fewer =
                  count-lt (is_old now) (is_among ids) (logs.rows t) here old
                    (is_among-mem chunk c m) in
                rw (more, deleted)
                  (again (total + n) t'
                    (ground (arith, ap (count_rows (is_old now)) left, fewer, few))))
        ]

    chunk-Ends :
        (total : ℕ) (t : logs.Tab) (rows chunk : List ApiLogRow)
        → count_rows (is_old now) (logs.rows t) < suc fuel
        → rows ≡ select_rows (is_old now) (logs.rows t)
        → take purge_chunk_size rows ≡ chunk
        → Ends now (delete_chunk logs (purge logs fuel now) total t (map (λ r. r.id) chunk))
    chunk-Ends total t rows [] few listed cut =
        let empty : rows ≡ [] =
          sym (length-take purge_chunk_size rows (ground (arith, ap length cut))) ∙ cut in
        (
          record { total_affected = total; error = none; table = t },
          refl,
          inr (any_of_select (is_old now) (logs.rows t) (sym listed ∙ empty)),
        )
    chunk-Ends total t rows (c ∷ cs) few listed cut =
        deleted-Ends total t rows (c ∷ cs) {c = c}
          (logs.delete (is_among (map (λ r. r.id) (c ∷ cs))) t) few listed cut (Memᴰ.head refl) refl

    pass-Ends :
        (total : ℕ) (t : logs.Tab) (o : Option (List ApiLogRow))
        → count_rows (is_old now) (logs.rows t) < suc fuel
        → logs.select (is_old now) t ≡ o
        → Ends now (pass logs (purge logs fuel now) total t o)
    pass-Ends total t none few h =
        (record { total_affected = total; error = some database; table = t }, refl, inl refl)
    pass-Ends total t (some rows) few h =
        chunk-Ends total t rows (take purge_chunk_size rows) few (logs.select-rows (is_old now) t h)
          refl

  -- With more fuel than there are old rows the loop ends, and unless a statement failed no old row is left.
  pub purge-Ends :
      (fuel now total : ℕ) (t : logs.Tab)
      → count_rows (is_old now) (logs.rows t) < fuel
      → Ends now (purge logs fuel now total t)
  unfolding purge
  purge-Ends zero now total t few = absurd (omega (arith, few))
  purge-Ends (suc fuel) now total t few =
      pass-Ends now fuel (λ total t few. purge-Ends fuel now total t few) total t
        (logs.select (is_old now) t) few refl
