-- ===== src/Pipeline/Rounds.antt =====
-- uploadMetrics of cmd/tidewatch/main.go, for an HTTPUploader and for any other uploader.
use tidewatch.Base.{ℕ, Option, none, some, List, [], ◌∷◌, ◌++◌, length, Sorter, lookup, Text}
use tidewatch.Base.Int.{ℤ}
use tidewatch.Base.Decimal.{scan_dec}
use tidewatch.Models.{Metric}
use tidewatch.Storage.Table.{Db}
use tidewatch.Storage.Codec.{Codec, Result, ok, err, Error}
use tidewatch.Storage.Select.{ReadFaults, upload_le, storage_id_tag, query_unuploaded}
use tidewatch.Storage.Update.{TxFaults, mark_uploaded}
use tidewatch.Uploader.Retry.{Attempt}
use tidewatch.Uploader.Chunks.{Chunk}
use tidewatch.Uploader.Upload.{Uploader, Failure, upload_and_get_ids}

-- What the round works with: the codec and ORDER BY of the store, the uploader, the batch size.
pub record Setup : Type 0 where
  pub codec : Codec
  pub by_upload : Sorter upload_le
  pub uploader : Uploader
  pub batch_size : ℤ

-- What the surroundings do in one round.
pub record Weather : Type 0 where
  pub read : ReadFaults
  pub answers : ℕ → ℕ → Attempt
  pub mark : TxFaults

pub data RoundError : Type 0 where
  query_error : Error → RoundError
  upload_error : Failure → RoundError

-- The returned error, the returned count, the table after the round, the chunks the server took.
pub record Round : Type 0 where
  pub error : Option RoundError
  pub count : ℕ
  pub db : Db
  pub taken : List Chunk

-- `if len(uploadedIDs) > 0 { store.MarkUploaded(…) }`; an error of MarkUploaded is only logged.
unfoldable pub mark_ids : TxFaults → List ℤ → Db → Db
mark_ids f [] db = db
mark_ids f (i ∷ is) db = (mark_uploaded f (i ∷ is) db).1

unfoldable pub finish_round : Weather → Db → Option Failure → List ℤ → List Chunk → Round
unfolding mark_ids
finish_round e db (some failure) ids taken = record {
  error = some (upload_error failure);
  count = 0;
  db = db;
  taken = taken;
}
finish_round e db none ids taken = record {
  error = none;
  count = length ids;
  db = mark_ids e.mark ids db;
  taken = taken;
}

unfoldable pub upload_batch_of : Setup → Weather → Db → Result (List Metric) → Round
unfolding finish_round
upload_batch_of s e db (err q) = record {
  error = some (query_error q);
  count = 0;
  db = db;
  taken = [];
}
upload_batch_of s e db (ok []) = record { error = none; count = 0; db = db; taken = [] }
upload_batch_of s e db (ok (m ∷ ms)) =
    let r = upload_and_get_ids s.uploader e.answers (m ∷ ms) in
    finish_round e db r.error r.value r.taken

-- uploadMetrics with an HTTPUploader
unfoldable pub upload_metrics : Setup → Weather → Db → Round
unfolding upload_batch_of
upload_metrics s e db =
    upload_batch_of s e db (query_unuploaded s.codec s.by_upload e.read s.batch_size db)

abbrev scanned : Option ℤ → List ℤ
scanned none = []
scanned (some i) = i ∷ []

abbrev tag_ids : Option Text → List ℤ
tag_ids none = []
tag_ids (some s) = scanned (scan_dec s)

-- The ids of all metrics whose tag scans, as the other branch collects them.
unfoldable pub extract_ids : List Metric → List ℤ
extract_ids [] = []
extract_ids (m ∷ ms) = tag_ids (lookup storage_id_tag m.tags) ++ extract_ids ms

-- uploadMetrics with another uploader, by the error that its Upload returns
unfoldable pub upload_metrics_with :
    (List Metric → Option Failure) → Setup → Weather → Db → Result (List Metric) → Round
unfolding finish_round extract_ids
upload_metrics_with upload s e db (err q) = record {
  error = some (query_error q);
  count = 0;
  db = db;
  taken = [];
}
upload_metrics_with upload s e db (ok []) = record { error = none; count = 0; db = db; taken = [] }
upload_metrics_with upload s e db (ok (m ∷ ms)) =
    finish_round e db (upload (m ∷ ms)) (extract_ids (m ∷ ms)) []
