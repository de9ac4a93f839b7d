-- ===== src/Pipeline/Selected.antt =====
-- The metrics of a batch carry the ids of the rows that they were read from.
use tidewatch.Base.{
  ◌^◌, ◌<◌, ◌≡◌, refl, ap₂, ◌∙◌, true, false, none, some, List, [], ◌∷◌, ◌++◌, arith, map, keep,
  All, lookup, insert, lookup-overlay, lookup-insert_self, gather,
}
use tidewatch.Base.Int.{ℤ, pos}
use tidewatch.Base.Decimal.{format_dec, scan_dec-format_dec}
use tidewatch.Models.{Metric, Tags}
use tidewatch.Storage.Table.{Row}
use tidewatch.Storage.Codec.{Codec, ok, or_fail, scan_failed, >>=-eq-ok}
use tidewatch.Storage.Select.{stored_tags, scan_row, scan_rows, id_tags, storage_id_tag, is_pending}
use tidewatch.Uploader.Jsonl.{is_string, id_list, storage_id}
use tidewatch.Uploader.Chunks.Lines.{ids_of}

-- The stored tags of a row do not use the tag that carries the storage id.
abbrev pub IsUnreserved : Codec → Row → Type 0
IsUnreserved c r =
    (tags : Tags) → stored_tags c r.tags_json ≡ ok tags → lookup storage_id_tag tags ≡ none

-- The id of a row, as an int64.
abbrev pub row_id : Row → ℤ
row_id r = pos r.id

-- An id that AUTOINCREMENT can give: from 1 up to the largest int64.
abbrev pub IsRowId : Row → Type 0
IsRowId r = (0 < r.id) × (r.id < 2 ^ 63)

lookup-id_tags :
    (r : Row) (tags : Tags)
    → lookup storage_id_tag tags ≡ none
    → lookup storage_id_tag (id_tags r tags) ≡ some (format_dec r.id)
unfolding id_tags
lookup-id_tags r tags h =
    lookup-overlay storage_id_tag (insert storage_id_tag (format_dec r.id) []) tags h
    ∙ lookup-insert_self storage_id_tag (format_dec r.id) []

scan_row-parts :
    (c : Codec) (r : Row) (m : Metric)
    → scan_row c id_tags r ≡ ok m
    → (tags : Tags) × (stored_tags c r.tags_json ≡ ok tags)
      × (m.tags ≡ id_tags r tags)
      × (m.value_type ≡ r.value_type)
unfolding scan_row
scan_row-parts c r m h =
    let (v, _, h1) = >>=-eq-ok (or_fail r.metric_value scan_failed) _ h in
    let (d, _, h2) = >>=-eq-ok (or_fail r.device_id scan_failed) _ h1 in
    let (tags, e, h3) = >>=-eq-ok (stored_tags c r.tags_json) _ h2 in
    (tags, e, ground arith, ground arith)

storage_id-scan_row :
    (c : Codec) (r : Row) (m : Metric)
    → scan_row c id_tags r ≡ ok m
    → IsUnreserved c r
    → IsRowId r
    → id_list m ≡ row_id r ∷ []
unfolding id_list storage_id
storage_id-scan_row c r m h free (p, b) =
    let (tags, e, t, _) = scan_row-parts c r m h in
    rw (t, lookup-id_tags r tags (free tags e), scan_dec-format_dec r.id b) (ground arith)

scan_rows_cons :
    (c : Codec) (r : Row) (rs : List Row) (ms : List Metric)
    → scan_rows c id_tags (r ∷ rs) ≡ ok ms
    → (m : Metric) × (ms' : List Metric) × (scan_row c id_tags r ≡ ok m)
      × (scan_rows c id_tags rs ≡ ok ms')
      × (ms ≡ m ∷ ms')
unfolding scan_rows
scan_rows_cons c r rs ms h =
    let (m, e, h1) = >>=-eq-ok (scan_row c id_tags r) _ h in
    let (ms', e', h2) = >>=-eq-ok (scan_rows c id_tags rs) _ h1 in (m, ms', e, e', ground arith)

-- The ids that the uploader reads off a batch are those of the rows, in their order.
pub ids_of-scan_rows :
    (c : Codec) (rs : List Row) (ms : List Metric)
    → scan_rows c id_tags rs ≡ ok ms
    → All (IsUnreserved c) rs
    → All IsRowId rs
    → All (λ r. is_pending r ≡ true) rs
    → ids_of ms ≡ map row_id rs
unfolding gather keep is_pending
ids_of-scan_rows c [] ms h free ids pending = rw (← nil) refl
  where
    nil : ◌≡◌ {A = List Metric} [] ms
    nil = unfold scan_rows in ground arith
ids_of-scan_rows c (r ∷ rs) ms h (f, fs) (i, is) (p, ps) =
    let (m, ms', e, e', q) = scan_rows_cons c r rs ms h in
    let (tags, _, _, vt) = scan_row-parts c r m e in
    let is_num : is_string m ≡ false = ground arith in
    rw (q, is_num)
      (ap₂ ◌++◌ (storage_id-scan_row c r m e f i) (ids_of-scan_rows c rs ms' e' fs is ps))
