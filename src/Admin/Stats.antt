-- ===== src/Admin/Stats.antt =====
-- gateway/routes/admin.py: `get_stats`, the counts over the request log.
pub mod Totals
use adaptive_gateway.Prelude.{
  ℕ, ◌+◌, Bool, true, false, Option, none, some, List, [], ◌∷◌, length, default, if◌then◌else◌,
}
use adaptive_gateway.Prelude.Texts.{Text}
use adaptive_gateway.Prelude.Dicts.{Dict, lookup, insert}
use adaptive_gateway.Http.{LogRecord}

-- select(column, func.count()).group_by(column), as a dictionary
unfoldable pub count_by : {A : Type 0} → (A → Text) → List A → Dict ℕ
count_by column [] = []
count_by column (row ∷ rows) =
    let counts = count_by column rows in
    insert (column row) (default (lookup (column row) counts) 0 + 1) counts

pub record Stats : Type 0 where
  pub total_requests : ℕ
  pub by_network_quality : Dict ℕ
  pub by_cache_status : Dict ℕ

-- The three queries run one after the other, so each reads the log of its own moment.
unfoldable pub get_stats :
    {F : Type 0} → List (LogRecord F) → List (LogRecord F) → List (LogRecord F) → Stats
get_stats first second third = record {
  total_requests = length third;
  by_network_quality = count_by (λ row. row.network_quality) first;
  by_cache_status = count_by (λ row. row.cache_status) second;
}
