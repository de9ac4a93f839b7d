-- ===== src/Pipeline/Background.antt =====
-- The other loops of cmd/tidewatch/main.go: updateStorageHealth, checkClockSkew, the ticks of
-- runMetaMetricsLoop, and normalizeStoragePath.
use tidewatch.Base.{
  Bool, Option, none, some, List, [], ◌∷◌, if◌then◌else◌, Text, codes, has_prefix, drop,
}
use tidewatch.Base.Int.{ℤ, pos}
use tidewatch.Models.{Metric}
use tidewatch.Storage.Table.{Db}
use tidewatch.Storage.Codec.{Codec}
use tidewatch.Storage.Insert.{Faults, store_batch}
use tidewatch.Storage.Select.{get_pending_count}
use tidewatch.Storage.Paths.{without_query}
use tidewatch.Health.Checker.{update_storage_status, update_clock_skew_status}
use tidewatch.Monitoring.Collector.{
  MetricsCollector, Reading, collect_metrics, update_storage_metrics, update_time_skew,
}
use tidewatch.Pipeline.Loops.{System, if_present, pending_or_zero}

-- The sizes that are read, where they can be.
pub record Sizes : Type 0 where
  pub db_size : Option ℤ
  pub wal_size : Option ℤ
  pub count_fails : Bool
  pub now : ℤ

abbrev size_or_zero : Option ℤ → ℤ
size_or_zero none = pos 0
size_or_zero (some n) = n

unfoldable pub update_storage_health : Sizes → System → System
update_storage_health x s =
    let db_size = size_or_zero x.db_size in
    let wal_size = size_or_zero x.wal_size in
    let pending = pos (pending_or_zero (get_pending_count x.count_fails s.db)) in
    record s {
      health = if_present (update_storage_status x.now db_size wal_size pending) s.health;
      meta = if_present (update_storage_metrics db_size wal_size pending) s.meta;
    }

-- One check: the collector's answer, an error by its text, int64 of a float64, what the store meets.
pub record SkewCheck : Type 0 where
  pub answer : Option (List Metric)
  pub collect_error : Text
  pub skew_of : Metric → ℤ
  pub faults : Faults
  pub now : ℤ

abbrev skewed : SkewCheck → ℤ → Db → System → System
skewed x skew db s = record {
  db = db;
  health = if_present (update_clock_skew_status x.now skew none) s.health;
  meta = if_present (update_time_skew skew) s.meta;
}

abbrev pub checked : Codec → Text → SkewCheck → Option (List Metric) → System → System
checked c session_id x none s = record s {
  health = if_present (update_clock_skew_status x.now (pos 0) (some x.collect_error)) s.health;
}
checked c session_id x (some []) s = skewed x (pos 0) s.db s
checked c session_id x (some (m ∷ ms)) s =
    skewed x (x.skew_of m) (store_batch c x.faults session_id (m ∷ ms) s.db).1 s

unfoldable pub check_clock_skew : Codec → Text → SkewCheck → System → System
check_clock_skew c session_id x s = checked c session_id x x.answer s

abbrev pub stored_meta : Codec → Text → Faults → Reading → Option MetricsCollector → Db → Db
stored_meta c session_id f e none db = db
stored_meta c session_id f e (some m) db = (store_batch c f session_id (collect_metrics e m) db).1

unfoldable pub store_meta_metrics : Codec → Text → Faults → Reading → System → System
store_meta_metrics c session_id f e s = record s { db = stored_meta c session_id f e s.meta s.db }

-- `abs` is filepath.Abs, which may fail.
unfoldable pub made_absolute : (Text → Option Text) → Text → Text
made_absolute abs path =
    if has_prefix path (codes "/") then path else elim (abs path) [ none ↦ path | some p ↦ p ]

-- Three slashes stand for one; a host after two slashes keeps them.
abbrev without_authority : Text → Text
without_authority path = if has_prefix path (codes "///") then drop 2 path else path

unfoldable pub normalize_storage_path : (Text → Option Text) → Text → Text
normalize_storage_path abs path =
    if has_prefix path (codes "file:")
    then made_absolute abs (without_authority (without_query (drop 5 path)))
    else made_absolute abs path
