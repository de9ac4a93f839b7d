-- ===== src/Pipeline/Loops.antt =====
-- collectAndStore and the ticks of runUploadLoop, with an HTTPUploader, of cmd/tidewatch/main.go. The
-- health checker and the collector of meta-metrics may be missing.
use tidewatch.Base.{ℕ, Bool, Option, none, some, List, [], ◌∷◌, length, Text, ltb, if◌then◌else◌}
use tidewatch.Base.Int.{ℤ, pos}
use tidewatch.Models.{Float64, Metric}
use tidewatch.Storage.Table.{Db}
use tidewatch.Storage.Codec.{Codec, Result, ok, err, Error}
use tidewatch.Storage.Insert.{Faults, store_batch}
use tidewatch.Storage.Select.{get_pending_count}
use tidewatch.Health.Checker.{Checker, update_collector_status, update_uploader_status}
use tidewatch.Monitoring.Collector.{
  MetricsCollector, record_collection_success, record_collection_failure, record_upload_success,
  record_upload_failure,
}
use tidewatch.Pipeline.Rounds.{Setup, Weather, Round, RoundError, upload_metrics}

-- What the goroutines share.
pub record System : Type 0 where
  pub db : Db
  pub health : Option Checker
  pub meta : Option MetricsCollector

-- `if x != nil { … }`
abbrev pub if_present : {A : Type 0} → (A → A) → Option A → Option A
if_present f none = none
if_present f (some a) = some (f a)

-- One call of collectAndStore: the collector's answer, an error by its text, what the store meets, the
-- times that are read and the total duration in seconds.
pub record Collection : Type 0 where
  pub collector : Text
  pub answer : Option (List Metric)
  pub collect_error : Text
  pub faults : Faults
  pub error_text : Error → Text
  pub now : ℤ
  pub seconds : Float64

abbrev reported : Collection → Option Text → ℕ → Option Checker → Option Checker
reported x e n = if_present (update_collector_status x.now x.collector e (pos n))

unfoldable pub failed_collection : Collection → Text → ℕ → System → System
failed_collection x e n s = record s {
  health = reported x (some e) n s.health;
  meta = if_present (record_collection_failure x.collector) s.meta;
}

unfoldable pub finish_collection :
    Collection → List Metric → System → Result (Unit {0}) × Db → System
unfolding failed_collection
finish_collection x ms s (err e, db) =
    failed_collection x (x.error_text e) (length ms) (record s { db = db })
finish_collection x ms s (ok u, db) = record {
  db = db;
  health = reported x none (length ms) s.health;
  meta = if_present (record_collection_success x.collector (length ms) x.seconds) s.meta;
}

abbrev pub collected : Codec → Text → Collection → Option (List Metric) → System → System
collected c session_id x none s = failed_collection x x.collect_error 0 s
collected c session_id x (some []) s = record s { health = reported x none 0 s.health }
collected c session_id x (some (m ∷ ms)) s =
    finish_collection x (m ∷ ms) s (store_batch c x.faults session_id (m ∷ ms) s.db)

unfoldable pub collect_and_store : Codec → Text → Collection → System → System
unfolding finish_collection
collect_and_store c session_id x s = collected c session_id x x.answer s

-- The variables of runUploadLoop.
pub record LoopState : Type 0 where
  pub system : System
  pub last_upload_time : ℤ
  pub last_upload_err : Option Text

-- One tick: what the round meets, whether the count of pending rows fails, the times that are read, the
-- duration in seconds, and how errors and the last upload time are written.
pub record Tick : Type 0 where
  pub weather : Weather
  pub count_fails : Bool
  pub finished : ℤ
  pub now : ℤ
  pub seconds : Float64
  pub error_text : RoundError → Text
  pub format_time : ℤ → Text

abbrev pub pending_or_zero : Result ℕ → ℕ
pending_or_zero (ok n) = n
pending_or_zero (err e) = 0

abbrev counted : Tick → ℕ → MetricsCollector → MetricsCollector
counted t n m = if ltb 0 n then record_upload_success n t.seconds m else m

-- The variables and meta-metrics after uploadMetrics.
unfoldable pub after_round : Tick → Round → LoopState → LoopState
after_round t r st = elim r.error [
  | none ↦ record {
    system = record st.system { db = r.db; meta = if_present (counted t r.count) st.system.meta };
    last_upload_time = t.finished;
    last_upload_err = none;
  }
  | some e ↦ record st {
    system = record st.system { db = r.db; meta = if_present record_upload_failure st.system.meta };
    last_upload_err = some (t.error_text e);
  }
]

-- The health update that ends a tick.
unfoldable pub report_upload : Tick → LoopState → LoopState
report_upload t st =
    let pending = pending_or_zero (get_pending_count t.count_fails st.system.db) in
    record st {
      system = record st.system {
        health =
            if_present
              (update_uploader_status t.now st.last_upload_time (t.format_time st.last_upload_time)
                st.last_upload_err (pos pending))
              st.system.health;
      };
    }

unfoldable pub upload_tick : Setup → Tick → LoopState → LoopState
unfolding after_round report_upload
upload_tick s t st = report_upload t (after_round t (upload_metrics s t.weather st.system.db) st)
