-- ===== src/Pipeline/Outcome.antt =====
-- The ways in which uploadMetrics ends.
use tidewatch.Base.{
  ◌≡◌, refl, ◌∙◌, subst, none, some, List, [], ◌∷◌, map, length, Perm, Perm-of_eq, gather, keep,
}
use tidewatch.Base.Int.{ℤ}
use tidewatch.Models.{Metric}
use tidewatch.Storage.Table.{Row, Db}
use tidewatch.Storage.Codec.{Result, ok, err, Error, fail_if, query_failed, rows_failed, >>=-eq-ok}
use tidewatch.Storage.Select.{query_unuploaded, fetch, scan_rows, id_tags}
use tidewatch.Uploader.Chunks.{Chunk, positive_size}
use tidewatch.Uploader.Chunks.Lines.{ids_of}
use tidewatch.Uploader.Chunks.Complete.{Covers, Covers-none, ids_in}
use tidewatch.Uploader.Upload.{Upload, Failure}
use tidewatch.Uploader.Upload.Delivery.{
  Delivered, complete, partial, unsent, upload_and_get_ids-Delivered,
}
use tidewatch.Pipeline.Rounds.{
  Setup, Weather, Round, query_error, upload_error, mark_ids, finish_round, upload_batch_of,
  upload_metrics,
}
use tidewatch.Pipeline.Selected.{row_id, ids_of-scan_rows}
use tidewatch.Pipeline.Marks.{IsUploadable, batch, batch_pending, batch_ids, batch-IsUnreserved}

-- How a round ends, by what it returns and leaves behind.
pub data Outcome (s : Setup) (e : Weather) (db : Db) : Round → Type 0 where
  -- the query failed: the table is as before, and nothing was sent
  not_read :
      (q : Error)
      → Outcome s e db (record { error = some (query_error q); count = 0; db = db; taken = [] })
  -- the upload failed: the table is as before
  not_uploaded :
      (f : Failure) (taken : List Chunk)
      → Outcome s e db (record { error = some (upload_error f); count = 0; db = db; taken = taken })
  -- the server has the metrics of the batch, and the round marks the rows of the batch
  uploaded :
      (ids : List ℤ) (taken : List Chunk) (ms : List Metric)
      → scan_rows s.codec id_tags (batch s db) ≡ ok ms
      → Covers s.uploader.wire (positive_size s.uploader.chunk_size) ms taken
      → Perm ids (map row_id (batch s db))
      → Outcome s e db
          (record { error = none; count = length ids; db = mark_ids e.mark ids db; taken = taken })

fetch-eq-ok :
    (s : Setup) (e : Weather) (rows : List Row) (ms : List Metric)
    → fetch s.codec e.read id_tags rows ≡ ok ms
    → scan_rows s.codec id_tags rows ≡ ok ms
unfolding fetch
fetch-eq-ok s e rows ms h =
    let (_, _, h1) = >>=-eq-ok (fail_if e.read.query query_failed) _ h in
    let (ms', scanned, h2) = >>=-eq-ok (scan_rows s.codec id_tags rows) _ h1 in
    let (_, _, h3) = >>=-eq-ok (fail_if e.read.rows rows_failed) _ h2 in scanned ∙ h3

module _ (s : Setup) (e : Weather) (db : Db) (u : IsUploadable s.codec db) where
  -- The ids on the metrics of the batch are those of its rows.
  scanned_ids :
      (ms : List Metric)
      → scan_rows s.codec id_tags (batch s db) ≡ ok ms
      → ids_of ms ≡ map row_id (batch s db)
  scanned_ids ms h =
      ids_of-scan_rows s.codec (batch s db) ms h (batch-IsUnreserved s db u) (batch_ids s db u)
        (batch_pending s db u)

  finish_round-Outcome :
      (ms : List Metric) (r : Upload (List ℤ))
      → scan_rows s.codec id_tags (batch s db) ≡ ok ms
      → Delivered s.uploader ms r
      → Outcome s e db (finish_round e db r.error r.value r.taken)
  unfolding finish_round
  finish_round-Outcome ms r h (complete taken covers) =
      uploaded (ids_in taken) taken ms h covers
        (subst (Perm (ids_in taken)) (scanned_ids ms h) covers.ids)
  finish_round-Outcome ms r h (partial i bad taken rest covers) = not_uploaded _ taken
  finish_round-Outcome ms r h (unsent bad) = not_uploaded _ []

  nothing_uploaded :
      scan_rows s.codec id_tags (batch s db) ≡ ok []
      → Outcome s e db (record { error = none; count = 0; db = db; taken = [] })
  unfolding mark_ids
  nothing_uploaded h =
      uploaded [] [] [] h (Covers-none _ _ [] (unfold keep in refl))
        (Perm-of_eq (unfold gather keep in scanned_ids [] h))

  upload_batch_of-Outcome :
      (q : Result (List Metric))
      → query_unuploaded s.codec s.by_upload e.read s.batch_size db ≡ q
      → Outcome s e db (upload_batch_of s e db q)
  unfolding upload_batch_of query_unuploaded
  upload_batch_of-Outcome (err q) h = not_read q
  upload_batch_of-Outcome (ok []) h = nothing_uploaded (fetch-eq-ok s e (batch s db) [] h)
  upload_batch_of-Outcome (ok (m ∷ ms)) h =
      finish_round-Outcome (m ∷ ms) _ (fetch-eq-ok s e (batch s db) (m ∷ ms) h)
        (upload_and_get_ids-Delivered s.uploader e.answers (m ∷ ms))

-- uploadMetrics, with an HTTPUploader, on a well-formed table whose tags leave `_storage_id` free: it
-- returns an error, and then the table is as before; or it returns none, and then the server has taken
-- chunks that hold exactly the numeric metrics of the batch, and MarkUploaded was given exactly the ids
-- of the rows of the batch, whose number is the returned count.
pub upload_metrics-Outcome :
    (s : Setup) (e : Weather) (db : Db)
    → IsUploadable s.codec db
    → Outcome s e db (upload_metrics s e db)
unfolding upload_metrics
upload_metrics-Outcome s e db u = upload_batch_of-Outcome s e db u _ refl
