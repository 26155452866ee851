-- ===== src/Table/Memory.antt =====
-- A table held in memory that meets the laws of `Table`: it shows that they can be met, and the
-- examples run on it. A statement is refused when its result would break a unique index.
use nexcore_x_ui.Prelude.{
  ℕ, suc, ◌≡◌, ◌≢◌, Bool, true, false, ◌⊎◌, inl, inr, Option, none, some, List, [], ◌∷◌, ◌++◌,
  arith, ◌==◌, ==_iff, if◌then◌else◌, leb, ltb, any, all, select_rows, update_rows, delete_rows,
  count_rows, Bool-cases,
}
use nexcore_x_ui.Table.{Schema, has_key, Table}

module _ (sc : Schema) where
  pub record Held : Type 0 where
    pub content : List sc.Row
    pub unique : sc.is_unique content ≡ true
    pub positive : all (λ r. ltb 0 (sc.key r)) content ≡ true

  abbrev commit_if :
      (k : ℕ) (xs : List sc.Row)
      → (sc.is_unique xs ≡ true) ⊎ (sc.is_unique xs ≡ false)
      → (all (λ r. ltb 0 (sc.key r)) xs ≡ true) ⊎ (all (λ r. ltb 0 (sc.key r)) xs ≡ false)
      → Option (ℕ × Held)
  commit_if k xs (inl e) (inl p) = some (k, record { content = xs; unique = e; positive = p })
  commit_if k xs _ _ = none

  commit : ℕ → List sc.Row → Option (ℕ × Held)
  commit k xs =
      commit_if k xs (Bool-cases (sc.is_unique xs)) (Bool-cases (all (λ r. ltb 0 (sc.key r)) xs))

  commit_if-eq :
      (k : ℕ) (xs : List sc.Row) (d : (sc.is_unique xs ≡ true) ⊎ (sc.is_unique xs ≡ false))
      (p : (all (λ r. ltb 0 (sc.key r)) xs ≡ true) ⊎ (all (λ r. ltb 0 (sc.key r)) xs ≡ false))
      {j : ℕ} {t : Held}
      → commit_if k xs d p ≡ some (j, t)
      → (t.content ≡ xs) × (j ≡ k)
  commit_if-eq k xs (inl e) (inl p) h = (ground arith, ground arith)
  commit_if-eq k xs (inl e) (inr p) h = cc
  commit_if-eq k xs (inr e) p h = cc

  commit-eq :
      (k : ℕ) (xs : List sc.Row) {j : ℕ} {t : Held}
      → commit k xs ≡ some (j, t)
      → (t.content ≡ xs) × (j ≡ k)
  unfolding commit
  commit-eq k xs h =
      commit_if-eq k xs (Bool-cases (sc.is_unique xs)) (Bool-cases (all (λ r. ltb 0 (sc.key r)) xs))
        h

  -- A key above all that are taken.
  next_key : List sc.Row → ℕ
  next_key [] = 1
  next_key (r ∷ rs) = let k = next_key rs in if leb k (sc.key r) then suc (sc.key r) else k

  insert : sc.Row → Held → Option (ℕ × Held)
  unfolding commit next_key
  insert r t =
      let k = next_key t.content in commit k (t.content ++ sc.with_key k (sc.stored r) ∷ [])

  insert-rows :
      (r : sc.Row) (t : Held) {k : ℕ} {t' : Held}
      → insert r t ≡ some (k, t')
      → t'.content ≡ t.content ++ sc.with_key k (sc.stored r) ∷ []
  unfolding insert
  insert-rows r t {k} {t'} h =
      let (same, key) =
        commit-eq (next_key t.content)
          (t.content ++ sc.with_key (next_key t.content) (sc.stored r) ∷ []) h in
      rw key same

  overwrite : Bool → sc.Row → Held → Option (ℕ × Held)
  unfolding commit
  overwrite true r t = commit (sc.key r) (update_rows (has_key sc (sc.key r)) (λ _. r) t.content)
  overwrite false r t = commit (sc.key r) (t.content ++ r ∷ [])

  save_row : sc.Row → Held → Option (ℕ × Held)
  unfolding insert overwrite
  save_row r t =
      if sc.key r == 0 then insert r t else overwrite (any (has_key sc (sc.key r)) t.content) r t

  save_row-new :
      (r : sc.Row) (t : Held) {k : ℕ} {t' : Held}
      → sc.key r ≡ 0
      → save_row r t ≡ some (k, t')
      → t'.content ≡ t.content ++ sc.with_key k (sc.stored r) ∷ []
  unfolding save_row
  save_row-new r t {k} {t'} zero_key h =
      insert-rows r t (rw ((==_iff (sc.key r) 0).1 zero_key, save_row) at h)

  save_row-old :
      (r : sc.Row) (t : Held) {k : ℕ} {t' : Held}
      → sc.key r ≢ 0
      → any (has_key sc (sc.key r)) t.content ≡ true
      → save_row r t ≡ some (k, t')
      → t'.content ≡ update_rows (has_key sc (sc.key r)) (λ _. r) t.content
  unfolding save_row
  save_row-old r t {k} {t'} nonzero present h = elim (Bool-cases (sc.key r == 0)) [
    | inl z ↦ absurd (nonzero ((==_iff (sc.key r) 0).0 z))
    | inr z ↦
        (commit-eq (sc.key r) (update_rows (has_key sc (sc.key r)) (λ _. r) t.content)
          (rw present at (rw z at h))).0
  ]

  selected-eq : {xs ys : List sc.Row} → some xs ≡ some ys → ys ≡ xs
  selected-eq h = cc

  unfoldable pub memory : Table sc
  unfolding save_row insert commit insert-rows save_row-new save_row-old commit-eq commit_if-eq
      selected-eq
  memory = record {
    Tab = Held;
    rows = λ t. t.content;
    select = λ p t. some (select_rows p t.content);
    create = λ r t. insert r t;
    save = λ r t. save_row r t;
    update = λ p f t. commit (count_rows p t.content) (update_rows p f t.content);
    delete = λ p t. commit (count_rows p t.content) (delete_rows p t.content);
    select-rows = λ p t h. selected-eq h;
    create-rows = λ r t h. insert-rows r t h;
    save-rows_new = λ r t z h. save_row-new r t z h;
    save-rows_old = λ r t z e h. save_row-old r t z e h;
    update-rows = λ p f t h. (commit-eq (count_rows p t.content) (update_rows p f t.content) h).0;
    update-count = λ p f t h. (commit-eq (count_rows p t.content) (update_rows p f t.content) h).1;
    delete-rows = λ p t h. (commit-eq (count_rows p t.content) (delete_rows p t.content) h).0;
    delete-count = λ p t h. (commit-eq (count_rows p t.content) (delete_rows p t.content) h).1;
    keys_unique = λ t. t.unique;
    keys_positive = λ t. t.positive;
  }
