-- ===== src/Pipeline/Turns.antt =====
-- The agent's loops in any order, and what a turn of one does to the table.
use tidewatch.Base.{
  Bool, true, false, ◌≡◌, refl, Option, none, some, inl, inr, List, [], ◌∷◌, Text, Option-cases,
}
use tidewatch.Base.Int.{ℤ}
use tidewatch.Models.{Metric}
use tidewatch.Storage.Table.{Db}
use tidewatch.Storage.Codec.{Codec, Result, ok, err}
use tidewatch.Storage.Insert.{Faults, store_batch}
use tidewatch.Storage.Update.{TxFaults, mark_uploaded}
use tidewatch.Monitoring.Collector.{MetricsCollector, Reading, collect_metrics}
use tidewatch.Uploader.Chunks.{Chunk}
use tidewatch.Uploader.Upload.{Failure}
use tidewatch.Pipeline.Rounds.{
  Setup, Weather, Round, mark_ids, finish_round, upload_batch_of, upload_metrics,
}
use tidewatch.Pipeline.Loops.{
  System, Collection, finish_collection, failed_collection, collect_and_store, collected, LoopState,
  Tick, after_round, report_upload, upload_tick,
}
use tidewatch.Pipeline.Background.{
  Sizes, update_storage_health, SkewCheck, check_clock_skew, checked, stored_meta,
  store_meta_metrics,
}

-- A turn of one of the goroutines; the text is the session id that StoreBatch draws.
pub data Turn : Type 0 where
  collects : Text → Collection → Turn
  uploads : Tick → Turn
  measures : Sizes → Turn
  checks_clock : Text → SkewCheck → Turn
  stores_meta : Text → Faults → Reading → Turn

unfoldable pub take_turn : Setup → LoopState → Turn → LoopState
take_turn s st (collects session_id x) = record st {
  system = collect_and_store s.codec session_id x st.system;
}
take_turn s st (uploads t) = upload_tick s t st
take_turn s st (measures x) = record st { system = update_storage_health x st.system }
take_turn s st (checks_clock session_id x) = record st {
  system = check_clock_skew s.codec session_id x st.system;
}
take_turn s st (stores_meta session_id f e) = record st {
  system = store_meta_metrics s.codec session_id f e st.system;
}

unfoldable pub take_turns : Setup → LoopState → List Turn → LoopState
take_turns s st [] = st
take_turns s st (t ∷ ts) = take_turns s (take_turn s st t) ts

-- What a turn of the collecting loops does to the table: nothing, or a batch.
pub data Stored (c : Codec) (db : Db) : Db → Type 0 where
  untouched : Stored c db db
  batched :
      (f : Faults) (session_id : Text) (ms : List Metric)
      → Stored c db (store_batch c f session_id ms db).1

-- What any turn does to the table: that, or a call of MarkUploaded.
pub data Written (c : Codec) (db : Db) : Db → Type 0 where
  stored : {db' : Db} → Stored c db db' → Written c db db'
  marked : (f : TxFaults) (ids : List ℤ) → Written c db (mark_uploaded f ids db).1

mark_ids-Written :
    (c : Codec) (f : TxFaults) (ids : List ℤ) (db : Db) → Written c db (mark_ids f ids db)
unfolding mark_ids
mark_ids-Written c f [] db = stored untouched
mark_ids-Written c f (i ∷ is) db = marked f (i ∷ is)

finish_round-Written :
    (c : Codec) (e : Weather) (db : Db) (o : Option Failure) (ids : List ℤ) (taken : List Chunk)
    → Written c db (finish_round e db o ids taken).db
unfolding finish_round
finish_round-Written c e db (some failure) ids taken = stored untouched
finish_round-Written c e db none ids taken = mark_ids-Written c e.mark ids db

upload_batch_of-Written :
    (s : Setup) (e : Weather) (db : Db) (q : Result (List Metric))
    → Written s.codec db (upload_batch_of s e db q).db
unfolding upload_batch_of
upload_batch_of-Written s e db (err q) = stored untouched
upload_batch_of-Written s e db (ok []) = stored untouched
upload_batch_of-Written s e db (ok (m ∷ ms)) = finish_round-Written s.codec e db _ _ _

after_round-db : (t : Tick) (r : Round) (st : LoopState) → (after_round t r st).system.db ≡ r.db
unfolding after_round
after_round-db t r st = elim (Option-cases r.error) [
  | inl e ↦ rw (after_round, e) refl
  | inr (x, e) ↦ rw (after_round, e) refl
]

finish_collection-db :
    (x : Collection) (ms : List Metric) (s : System) (r : Result (Unit {0}) × Db)
    → (finish_collection x ms s r).db ≡ r.1
unfolding finish_collection failed_collection
finish_collection-db x ms s (err e, db) = refl
finish_collection-db x ms s (ok u, db) = refl

collected-Stored :
    (c : Codec) (session_id : Text) (x : Collection) (answer : Option (List Metric)) (s : System)
    → Stored c s.db (collected c session_id x answer s).db
unfolding failed_collection
collected-Stored c session_id x none s = untouched
collected-Stored c session_id x (some []) s = untouched
collected-Stored c session_id x (some (m ∷ ms)) s =
    rw (finish_collection-db x (m ∷ ms) s (store_batch c x.faults session_id (m ∷ ms) s.db))
      (batched x.faults session_id (m ∷ ms))

checked-Stored :
    (c : Codec) (session_id : Text) (x : SkewCheck) (answer : Option (List Metric)) (s : System)
    → Stored c s.db (checked c session_id x answer s).db
checked-Stored c session_id x none s = untouched
checked-Stored c session_id x (some []) s = untouched
checked-Stored c session_id x (some (m ∷ ms)) s = batched x.faults session_id (m ∷ ms)

stored_meta-Stored :
    (c : Codec) (session_id : Text) (f : Faults) (e : Reading) (o : Option MetricsCollector)
    (db : Db)
    → Stored c db (stored_meta c session_id f e o db)
stored_meta-Stored c session_id f e none db = untouched
stored_meta-Stored c session_id f e (some m) db = batched f session_id (collect_metrics e m)

-- Every turn but that of the upload loop only stores.
abbrev pub is_upload : Turn → Bool
is_upload (uploads t) = true
is_upload t = false

pub take_turn-Stored :
    (s : Setup) (st : LoopState) (t : Turn)
    → is_upload t ≡ false
    → Stored s.codec st.system.db (take_turn s st t).system.db
unfolding take_turn collect_and_store update_storage_health check_clock_skew store_meta_metrics
take_turn-Stored s st (collects session_id x) e =
    collected-Stored s.codec session_id x x.answer st.system
take_turn-Stored s st (uploads t) e = cc
take_turn-Stored s st (measures x) e = untouched
take_turn-Stored s st (checks_clock session_id x) e =
    checked-Stored s.codec session_id x x.answer st.system
take_turn-Stored s st (stores_meta session_id f r) e =
    stored_meta-Stored s.codec session_id f r st.system.meta st.system.db

pub upload_tick-db :
    (s : Setup) (st : LoopState) (t : Tick)
    → (take_turn s st (uploads t)).system.db ≡ (upload_metrics s t.weather st.system.db).db
unfolding take_turn upload_tick report_upload
upload_tick-db s st t = after_round-db t (upload_metrics s t.weather st.system.db) st

pub take_turn-Written :
    (s : Setup) (st : LoopState) (t : Turn)
    → Written s.codec st.system.db (take_turn s st t).system.db
unfolding upload_metrics
take_turn-Written s st (uploads t) =
    rw (upload_tick-db s st t) (upload_batch_of-Written s t.weather st.system.db _)
take_turn-Written s st (collects session_id x) =
    stored (take_turn-Stored s st (collects session_id x) refl)
take_turn-Written s st (measures x) = stored (take_turn-Stored s st (measures x) refl)
take_turn-Written s st (checks_clock session_id x) =
    stored (take_turn-Stored s st (checks_clock session_id x) refl)
take_turn-Written s st (stores_meta session_id f r) =
    stored (take_turn-Stored s st (stores_meta session_id f r) refl)
