-- ===== src/Storage/History.antt =====
-- Histories of the calls that write to the metrics table.
use tidewatch.Base.{List, [], ◌∷◌, Text}
use tidewatch.Base.Int.{ℤ}
use tidewatch.Models.{Metric}
use tidewatch.Storage.Table.{Db, empty_db}
use tidewatch.Storage.Codec.{Codec}
use tidewatch.Storage.Insert.{Faults, store, store_batch}
use tidewatch.Storage.Update.{TxFaults, DeleteFaults, mark_uploaded, delete_before}
use tidewatch.Storage.Invariant.{IsWellFormed, empty_db-IsWellFormed, store_batch-IsWellFormed}
use tidewatch.Storage.Invariant.Changes.{mark_uploaded-IsWellFormed, delete_before-IsWellFormed}

pub data Call : Type 0 where
  stores : Faults → Text → Metric → Call
  stores_batch : Faults → Text → List Metric → Call
  marks : TxFaults → List ℤ → Call
  deletes : DeleteFaults → ℤ → Call

pub apply : Codec → Db → Call → Db
apply c db (stores f session_id m) = (store c f session_id m db).1
apply c db (stores_batch f session_id ms) = (store_batch c f session_id ms db).1
apply c db (marks f ids) = (mark_uploaded f ids db).1
apply c db (deletes f t) = (delete_before f t db).1

pub run : Codec → Db → List Call → Db
unfolding apply
run c db [] = db
run c db (call ∷ calls) = run c (apply c db call) calls

apply-IsWellFormed :
    (c : Codec) (db : Db) (call : Call) → IsWellFormed db → IsWellFormed (apply c db call)
unfolding apply store
apply-IsWellFormed c db (stores f session_id m) w =
    store_batch-IsWellFormed c f session_id (m ∷ []) db w
apply-IsWellFormed c db (stores_batch f session_id ms) w =
    store_batch-IsWellFormed c f session_id ms db w
apply-IsWellFormed c db (marks f ids) w = mark_uploaded-IsWellFormed f ids db w
apply-IsWellFormed c db (deletes f t) w = delete_before-IsWellFormed f t db w

pub run_keeps_IsWellFormed :
    (c : Codec) (db : Db) (calls : List Call) → IsWellFormed db → IsWellFormed (run c db calls)
unfolding run
run_keeps_IsWellFormed c db [] w = w
run_keeps_IsWellFormed c db (call ∷ calls) w =
    run_keeps_IsWellFormed c (apply c db call) calls (apply-IsWellFormed c db call w)

-- After any calls of Store, StoreBatch, MarkUploaded and DeleteBefore on the empty table, whichever
-- calls of the driver fail: ids grow along the table up to the sequence number, no two rows share a
-- dedup_key, and `uploaded` is 0 or 1.
pub run-IsWellFormed : (c : Codec) (calls : List Call) → IsWellFormed (run c empty_db calls)
run-IsWellFormed c calls = run_keeps_IsWellFormed c empty_db calls empty_db-IsWellFormed
