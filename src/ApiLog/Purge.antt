-- ===== src/ApiLog/Purge.antt =====
-- Purge of web/service/apilog.go: the old rows are deleted in chunks. Its loop runs on fuel, and `none` is
-- the end of the fuel; ApiLog/Purged.antt shows how much is enough. Times are seconds.
use nexcore_x_ui.Prelude.{
  ℕ, zero, suc, ◌+◌, Bool, true, false, Option, none, some, List, [], ◌∷◌, map, ltb, ◌==◌, any,
  take, length,
}
use nexcore_x_ui.Exec.{Err, database}
use nexcore_x_ui.Model.{ApiLogRow}
use nexcore_x_ui.Table.{Table}
use nexcore_x_ui.Table.Schemas.{api_logs_schema}

-- Fourteen days.
abbrev api_log_gc_after : ℕ
api_log_gc_after = 1_209_600

abbrev pub purge_chunk_size : ℕ
purge_chunk_size = 1000

abbrev pub is_old : ℕ → ApiLogRow → Bool
is_old now r = ltb (r.at_time + api_log_gc_after) now

abbrev pub is_among : List ℕ → ApiLogRow → Bool
is_among ids r = any (λ k. r.id == k) ids

module _ (logs : Table api_logs_schema) where
  -- The rows deleted so far, the error that ended the loop, and the table.
  pub record Purged : Type 0 where
    pub total_affected : ℕ
    pub error : Option Err
    pub table : logs.Tab

  abbrev pub ended : ℕ → Option Err → logs.Tab → Option Purged
  ended total e t = some (record { total_affected = total; error = e; table = t })

  abbrev pub deleted :
      (ℕ → logs.Tab → Option Purged) → List ℕ → ℕ → logs.Tab → Option (ℕ × logs.Tab) → Option Purged
  deleted again ids total t none = ended total (some database) t
  deleted again ids total t (some (n, t')) = elim (ltb (length ids) purge_chunk_size) [
    | true ↦ ended (total + n) none t'
    | false ↦ again (total + n) t'
  ]

  abbrev pub delete_chunk : (ℕ → logs.Tab → Option Purged) → ℕ → logs.Tab → List ℕ → Option Purged
  delete_chunk again total t [] = ended total none t
  delete_chunk again total t (i ∷ ids) =
      deleted again (i ∷ ids) total t (logs.delete (is_among (i ∷ ids)) t)

  -- Order("id asc").Limit(..).Pluck("id", ..)
  abbrev pub ids_of : List ApiLogRow → List ℕ
  ids_of rows = map (λ r. r.id) (take purge_chunk_size rows)

  abbrev pub pass :
      (ℕ → logs.Tab → Option Purged) → ℕ → logs.Tab → Option (List ApiLogRow) → Option Purged
  pass again total t none = ended total (some database) t
  pass again total t (some rows) = delete_chunk again total t (ids_of rows)

  unfoldable pub purge : ℕ → ℕ → ℕ → logs.Tab → Option Purged
  purge zero now total t = none
  purge (suc fuel) now total t = pass (purge fuel now) total t (logs.select (is_old now) t)
