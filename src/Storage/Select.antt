-- ===== src/Storage/Select.antt =====
-- Query, QueryUnuploaded and the aggregate queries of internal/storage/storage.go. ORDER BY does not
-- say how ties are ordered, so the sorting is a parameter.
pub mod Answers
use tidewatch.Base.{
  ℕ, zero, suc, ◌+◌, Option, none, some, Bool, true, false, ◌&&◌, ◌||◌, List, [], ◌∷◌, ltb, ◌==◌,
  if◌then◌else◌, length, take, keep, Text, text_eq, codes, Dict, lookup, insert, overlay, Sorter,
}
use tidewatch.Base.Decimal.{format_dec}
use tidewatch.Base.Int.{ℤ, pos, negsuc, ltb_ℤ, leb_ℤ, eqb_ℤ}
use tidewatch.Models.{Metric, Tags}
use tidewatch.Storage.Table.{Row, Db, has_text}
use tidewatch.Storage.Codec.{
  Codec, Result, ok, err, Error, query_failed, scan_failed, unmarshal_failed, rows_failed,
  count_failed, ◌>>=◌, ◌>>◌, fail_if, or_fail,
}

pub record QueryOptions : Type 0 where
  pub start_ms : ℤ
  pub end_ms : ℤ
  pub device_id : Text
  pub metric_name : Text
  pub limit : ℤ

abbrev is_empty : Text → Bool
is_empty [] = true
is_empty (c ∷ s) = false

-- The WHERE clause that Query builds.
unfoldable pub selects : QueryOptions → Row → Bool
selects o r =
    (if ltb_ℤ (pos 0) o.start_ms then leb_ℤ o.start_ms r.timestamp_ms else true)
    && (if ltb_ℤ (pos 0) o.end_ms then leb_ℤ r.timestamp_ms o.end_ms else true)
    && (if is_empty o.device_id then true else has_text o.device_id r.device_id)
    && (if is_empty o.metric_name then true else text_eq r.metric_name o.metric_name)

-- ORDER BY timestamp_ms ASC
abbrev pub time_le : Row → Row → Bool
time_le a b = leb_ℤ a.timestamp_ms b.timestamp_ms

-- ORDER BY priority DESC, timestamp_ms ASC
abbrev pub upload_le : Row → Row → Bool
upload_le a b = ltb b.priority a.priority || (a.priority == b.priority && time_le a b)

-- LIMIT, where it is positive
unfoldable pub limit_to : ℤ → List Row → List Row
limit_to (pos zero) rows = rows
limit_to (pos (suc n)) rows = take (suc n) rows
limit_to (negsuc n) rows = rows

pub record ReadFaults : Type 0 where
  pub query : Bool
  pub rows : Bool

-- NULL and the empty text stand for no tags.
unfoldable pub stored_tags : Codec → Option Text → Result Tags
stored_tags c none = ok []
stored_tags c (some []) = ok []
stored_tags c (some (b ∷ s)) = or_fail (c.unmarshal_tags (b ∷ s)) unmarshal_failed

abbrev text_or_empty : Option Text → Text
text_or_empty none = []
text_or_empty (some s) = s

-- One row of the result, with the tags that the caller puts on it.
unfoldable pub scan_row : Codec → (Row → Tags → Tags) → Row → Result Metric
unfolding stored_tags
scan_row c tagged r = do
  value ← or_fail r.metric_value scan_failed
  device_id ← or_fail r.device_id scan_failed
  tags ← stored_tags c r.tags_json
  ok (record {
    timestamp_ms = r.timestamp_ms;
    name = r.metric_name;
    value = value;
    value_text = text_or_empty r.value_text;
    value_type = r.value_type;
    device_id = device_id;
    tags = tagged r tags;
  })

unfoldable pub scan_rows : Codec → (Row → Tags → Tags) → List Row → Result (List Metric)
unfolding scan_row
scan_rows c tagged [] = ok []
scan_rows c tagged (r ∷ rs) = do m ← scan_row c tagged r; ms ← scan_rows c tagged rs; ok (m ∷ ms)

unfoldable pub fetch : Codec → ReadFaults → (Row → Tags → Tags) → List Row → Result (List Metric)
unfolding scan_rows
fetch c f tagged rows = do
  fail_if f.query query_failed
  ms ← scan_rows c tagged rows
  fail_if f.rows rows_failed
  ok ms

abbrev pub plain_tags : Row → Tags → Tags
plain_tags r tags = tags

unfoldable pub query_rows : Sorter time_le → QueryOptions → Db → List Row
unfolding selects limit_to
query_rows by_time o db = limit_to o.limit (by_time.sort (keep (selects o) db.rows))

unfoldable pub query :
    Codec → Sorter time_le → ReadFaults → QueryOptions → Db → Result (List Metric)
unfolding fetch query_rows
query c by_time f o db = fetch c f plain_tags (query_rows by_time o db)

abbrev pub storage_id_tag : Text
storage_id_tag = codes "_storage_id"

-- The id goes in first, and the stored tags over it.
unfoldable pub id_tags : Row → Tags → Tags
id_tags r tags = overlay (insert storage_id_tag (format_dec r.id) []) tags

-- WHERE uploaded = 0 AND value_type = 0
unfoldable pub is_pending : Row → Bool
is_pending r = r.uploaded == 0 && r.value_type == 0

unfoldable pub unuploaded_rows : Sorter upload_le → ℤ → Db → List Row
unfolding is_pending limit_to
unuploaded_rows by_upload limit db = limit_to limit (by_upload.sort (keep is_pending db.rows))

unfoldable pub query_unuploaded :
    Codec → Sorter upload_le → ReadFaults → ℤ → Db → Result (List Metric)
unfolding fetch unuploaded_rows id_tags
query_unuploaded c by_upload f limit db = fetch c f id_tags (unuploaded_rows by_upload limit db)

unfoldable pub get_pending_count : Bool → Db → Result ℕ
unfolding is_pending
get_pending_count fault db = do fail_if fault count_failed; ok (length (keep is_pending db.rows))

unfoldable pub count : Bool → Db → Result ℕ
count fault db = do fail_if fault count_failed; ok (length db.rows)

-- MIN(timestamp_ms) and MAX(timestamp_ms), NULL on no rows
unfoldable pub min_timestamp : List Row → Option ℤ
min_timestamp [] = none
min_timestamp (r ∷ rs) = elim (min_timestamp rs) [
  | none ↦ some r.timestamp_ms
  | some t ↦ some (if leb_ℤ r.timestamp_ms t then r.timestamp_ms else t)
]

unfoldable pub max_timestamp : List Row → Option ℤ
max_timestamp [] = none
max_timestamp (r ∷ rs) = elim (max_timestamp rs) [
  | none ↦ some r.timestamp_ms
  | some t ↦ some (if leb_ℤ t r.timestamp_ms then r.timestamp_ms else t)
]

abbrev or_zero : Option ℤ → ℤ
or_zero none = pos 0
or_zero (some t) = t

unfoldable pub get_oldest_timestamp : Bool → Db → Result ℤ
unfolding min_timestamp
get_oldest_timestamp fault db = do fail_if fault query_failed; ok (or_zero (min_timestamp db.rows))

unfoldable pub get_newest_timestamp : Bool → Db → Result ℤ
unfolding max_timestamp
get_newest_timestamp fault db = do fail_if fault query_failed; ok (or_zero (max_timestamp db.rows))

-- `none` is the pair of zero times.
unfoldable pub get_time_range : Bool → Bool → Db → Result (Option (ℤ × ℤ))
unfolding get_oldest_timestamp get_newest_timestamp
get_time_range fault fault' db = do
  oldest ← get_oldest_timestamp fault db
  newest ← get_newest_timestamp fault' db
  ok (if eqb_ℤ oldest (pos 0) || eqb_ℤ newest (pos 0) then none else some (oldest, newest))

abbrev count_of : Option ℕ → ℕ
count_of none = 0
count_of (some n) = n

-- GROUP BY metric_name with COUNT(*), into a map
unfoldable pub group_counts : List Row → Dict ℕ → Dict ℕ
group_counts [] stats = stats
group_counts (r ∷ rs) stats =
    group_counts rs (insert r.metric_name (count_of (lookup r.metric_name stats) + 1) stats)

unfoldable pub get_metric_stats : Bool → Db → Result (Dict ℕ)
unfolding group_counts
get_metric_stats fault db = do fail_if fault query_failed; ok (group_counts db.rows [])
