-- ===== src/Storage/Table.antt =====
-- The metrics table of internal/storage/storage.go, as its migrations leave it: the columns of
-- migrations 1, 2 and 4, AUTOINCREMENT ids, and the unique index on dedup_key of migration 3.
use tidewatch.Base.{ℕ, Option, none, some, Bool, false, ◌||◌, List, [], ◌∷◌, Text, text_eq}
use tidewatch.Base.Int.{ℤ}
use tidewatch.Models.{Float64, ValueType}

-- A column that may be NULL is an `Option`.
pub record Row : Type 0 where
  pub id : ℕ
  pub timestamp_ms : ℤ
  pub metric_name : Text
  pub metric_value : Option Float64
  pub device_id : Option Text
  pub uploaded : ℕ
  pub priority : ℕ
  pub session_id : Option Text
  pub dedup_key : Option Text
  pub tags_json : Option Text
  pub value_text : Option Text
  pub value_type : ValueType

-- The rows in the order of their insertion, and the largest id given so far.
pub record Db : Type 0 where
  pub rows : List Row
  pub seq : ℕ

abbrev pub empty_db : Db
empty_db = record { rows = []; seq = 0 }

-- NULLs are distinct from everything under UNIQUE.
abbrev pub has_text : Text → Option Text → Bool
has_text k o = elim o [ none ↦ false | some j ↦ text_eq j k ]

-- Is there a row with this dedup_key?
unfoldable pub has_key : Text → List Row → Bool
has_key k [] = false
has_key k (r ∷ rs) = has_text k r.dedup_key || has_key k rs
