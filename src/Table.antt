-- ===== src/Table.antt =====
-- What the services rely on of gorm over SQLite, one table at a time: the statements that they send,
-- with `none` for an error that gorm returns, and the documented effect of a statement that succeeds.
-- A statement that fails leaves the table as it was. A WHERE clause is a Boolean function of the row.
pub mod Memory
pub mod Schemas
use nexcore_x_ui.Prelude.{
  ℕ, Bool, true, ◌≡◌, ◌≢◌, ◌==◌, Option, some, List, [], ◌∷◌, ◌++◌, any, all, ltb, select_rows,
  update_rows, delete_rows, count_rows,
}

-- A row type with its primary key, the test of the table's unique indexes, and what Create writes:
-- a field with a `default:` tag that holds its zero value is left out of the INSERT and takes the
-- default.
pub record Schema : Type 1 where
  pub Row : Type 0
  pub key : Row → ℕ
  pub with_key : ℕ → Row → Row
  pub is_unique : List Row → Bool
  pub stored : Row → Row

abbrev pub has_key : (sc : Schema) → ℕ → sc.Row → Bool
has_key sc k r = sc.key r == k

pub record Table (sc : Schema) : Type 1 where
  pub Tab : Type 0
  -- The rows, in the order of the primary key.
  pub rows : Tab → List sc.Row
  -- Where(..).Find
  pub select : (sc.Row → Bool) → Tab → Option (List sc.Row)
  -- Create, with the key that the database assigned
  pub create : sc.Row → Tab → Option (ℕ × Tab)
  -- Save: Create for the key 0, and otherwise an UPDATE of every column (an INSERT if no row has
  -- the key, which no law below speaks of)
  pub save : sc.Row → Tab → Option (ℕ × Tab)
  -- Where(..).Update(s), Where(..).Delete, with the count of the rows affected
  pub update : (sc.Row → Bool) → (sc.Row → sc.Row) → Tab → Option (ℕ × Tab)
  pub delete : (sc.Row → Bool) → Tab → Option (ℕ × Tab)
  pub select-rows :
      (p : sc.Row → Bool) (t : Tab) {rs : List sc.Row}
      → select p t ≡ some rs
      → rs ≡ select_rows p (rows t)
  pub create-rows :
      (r : sc.Row) (t : Tab) {k : ℕ} {t' : Tab}
      → create r t ≡ some (k, t')
      → rows t' ≡ rows t ++ sc.with_key k (sc.stored r) ∷ []
  pub save-rows_new :
      (r : sc.Row) (t : Tab) {k : ℕ} {t' : Tab}
      → sc.key r ≡ 0
      → save r t ≡ some (k, t')
      → rows t' ≡ rows t ++ sc.with_key k (sc.stored r) ∷ []
  pub save-rows_old :
      (r : sc.Row) (t : Tab) {k : ℕ} {t' : Tab}
      → sc.key r ≢ 0
      → any (has_key sc (sc.key r)) (rows t) ≡ true
      → save r t ≡ some (k, t')
      → rows t' ≡ update_rows (has_key sc (sc.key r)) (λ _. r) (rows t)
  pub update-rows :
      (p : sc.Row → Bool) (f : sc.Row → sc.Row) (t : Tab) {n : ℕ} {t' : Tab}
      → update p f t ≡ some (n, t')
      → rows t' ≡ update_rows p f (rows t)
  pub update-count :
      (p : sc.Row → Bool) (f : sc.Row → sc.Row) (t : Tab) {n : ℕ} {t' : Tab}
      → update p f t ≡ some (n, t')
      → n ≡ count_rows p (rows t)
  pub delete-rows :
      (p : sc.Row → Bool) (t : Tab) {n : ℕ} {t' : Tab}
      → delete p t ≡ some (n, t')
      → rows t' ≡ delete_rows p (rows t)
  pub delete-count :
      (p : sc.Row → Bool) (t : Tab) {n : ℕ} {t' : Tab}
      → delete p t ≡ some (n, t')
      → n ≡ count_rows p (rows t)
  pub keys_unique : (t : Tab) → sc.is_unique (rows t) ≡ true
  -- An auto-incremented key starts at 1, and 0 stands for a row that has none yet.
  pub keys_positive : (t : Tab) → all (λ r. ltb 0 (sc.key r)) (rows t) ≡ true
