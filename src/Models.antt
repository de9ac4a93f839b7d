-- ===== src/Models.antt =====
-- internal/models/metric.go
use tidewatch.Base.{ℕ, [], Text, Dict, insert}
use tidewatch.Base.Int.{ℤ}

-- A float64 by its IEEE-754 bit pattern: metric values pass through these components unchanged.
abbrev pub Float64 : Type 0
Float64 = ℕ

-- `type ValueType int` and its two constants.
abbrev pub ValueType : Type 0
ValueType = ℕ

abbrev pub value_type_numeric : ValueType
value_type_numeric = 0

abbrev pub value_type_string : ValueType
value_type_string = 1

abbrev pub Tags : Type 0
Tags = Dict Text

pub record Metric : Type 0 where
  pub timestamp_ms : ℤ
  pub name : Text
  pub value : Float64
  pub value_text : Text
  pub value_type : ValueType
  pub device_id : Text
  pub tags : Tags

-- The current time is an argument.
unfoldable pub new_metric : ℤ → Text → Float64 → Text → Metric
new_metric now name value device_id = record {
  timestamp_ms = now;
  name = name;
  value = value;
  value_text = [];
  value_type = value_type_numeric;
  device_id = device_id;
  tags = [];
}

unfoldable pub new_string_metric : ℤ → Text → Text → Text → Metric
new_string_metric now name value_text device_id = record {
  timestamp_ms = now;
  name = name;
  value = 0;
  value_text = value_text;
  value_type = value_type_string;
  device_id = device_id;
  tags = [];
}

unfoldable pub with_timestamp : Metric → ℤ → Metric
with_timestamp m ts = record m { timestamp_ms = ts }

unfoldable pub with_tag : Metric → Text → Text → Metric
with_tag m key value = record m { tags = insert key value m.tags }
