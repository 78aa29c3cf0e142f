-- ===== src/Admin/Stats/Totals.antt =====
-- The counts of `get_stats` against the rows.
use adaptive_gateway.Prelude.{
  ℕ, ◌+◌, ◌≡◌, refl, ◌∙◌, none, some, List, [], ◌∷◌, arith, length, default, ◌==◌, if◌then◌else◌,
}
use adaptive_gateway.Prelude.Texts.{Text, text_eq, text_eq_iff}
use adaptive_gateway.Prelude.Dicts.{Dict, lookup, insert, lookup-insert}
use adaptive_gateway.Http.{LogRecord}
use adaptive_gateway.Admin.Stats.{count_by, get_stats}

abbrev pub total : Dict ℕ → ℕ
total [] = 0
total ((_, n) ∷ counts) = n + total counts

-- The rows with a value in a column.
abbrev pub rows_with : {A : Type 0} → (A → Text) → Text → List A → ℕ
rows_with column value [] = 0
rows_with column value (row ∷ rows) =
    (if text_eq (column row) value then 1 else 0) + rows_with column value rows

total-insert :
    (k : Text) (counts : Dict ℕ)
    → total (insert k (default (lookup k counts) 0 + 1) counts) ≡ total counts + 1
unfolding insert lookup
total-insert k [] = omega arith
total-insert k ((j, n) ∷ counts) = ground (arith, total-insert k counts)

module _ {A : Type 0} (column : A → Text) where
  total-count_by : (rows : List A) → total (count_by column rows) ≡ length rows
  unfolding count_by
  total-count_by [] = refl
  total-count_by (row ∷ rows) =
      total-insert (column row) (count_by column rows) ∙ omega (arith, total-count_by rows)

  count_by_lem :
      (value : Text) (rows : List A)
      → lookup value (count_by column rows)
        ≡ (if rows_with column value rows == 0 then none else some (rows_with column value rows))
  unfolding count_by
  count_by_lem value [] = unfold lookup in refl
  count_by_lem value (row ∷ rows) =
      lookup-insert (column row) value _ (count_by column rows)
      ∙ ground (arith, text_eq_iff (column row) value, count_by_lem value rows)

-- While no row is added, the counts by network quality and those by cache status each add up to the
-- total, and each is the number of rows with that value, absent where there is none.
pub get_stats_lem :
    {F : Type 0} (rows : List (LogRecord F)) (value : Text)
    → (total (get_stats rows rows rows).by_network_quality
        ≡ (get_stats rows rows rows).total_requests)
      × (total (get_stats rows rows rows).by_cache_status
          ≡ (get_stats rows rows rows).total_requests)
      × (lookup value (get_stats rows rows rows).by_network_quality ≡ (
          if rows_with (λ row. row.network_quality) value rows == 0
          then none
          else some (rows_with (λ row. row.network_quality) value rows)))
      × (lookup value (get_stats rows rows rows).by_cache_status ≡ (
          if rows_with (λ row. row.cache_status) value rows == 0
          then none
          else some (rows_with (λ row. row.cache_status) value rows)))
unfolding get_stats
get_stats_lem rows value = (
  total-count_by (λ row. row.network_quality) rows,
  total-count_by (λ row. row.cache_status) rows,
  count_by_lem (λ row. row.network_quality) value rows,
  count_by_lem (λ row. row.cache_status) value rows,
)
