-- ===== src/Storage/Migrate/Regenerated.antt =====
-- The keys that migrateV5RegenerateDedupKeys leaves in the table.
use tidewatch.Base.{◌≡◌, some, Text}
use tidewatch.Models.{Metric}
use tidewatch.Storage.Table.{Row}
use tidewatch.Storage.Codec.{Codec, ok}
use tidewatch.Storage.Insert.{generate_dedup_key}
use tidewatch.Storage.Migrate.{legacy_metric, own_type}

-- The row's key is that of the metric that the row holds.
pub record HasOwnKey (c : Codec) (r : Row) : Type 0 where
  pub metric : Metric
  pub holds : legacy_metric c own_type r ≡ ok metric
  pub key : r.dedup_key ≡ some (generate_dedup_key c metric)

keyed : Row → Text → Row
keyed r k = record r { dedup_key = some k }
