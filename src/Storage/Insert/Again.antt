-- ===== src/Storage/Insert/Again.antt =====
-- StoreBatch on a batch that the table holds already, and with a driver whose calls all succeed.
use tidewatch.Base.{ℕ, ◌≡◌, some, false, Text}
use tidewatch.Models.{Metric}
use tidewatch.Storage.Codec.{Codec}
use tidewatch.Storage.Insert.{Faults, serialize_tags}

-- No call of the driver fails.
pub record IsQuiet (f : Faults) : Type 0 where
  pub begins : f.begins ≡ false
  pub prepares : f.prepares ≡ false
  pub exec : (i : ℕ) → f.exec i ≡ false
  pub commits : f.commits ≡ false

abbrev pub IsSerializable : Codec → Metric → Type 0
IsSerializable c m = (t : Text) × (serialize_tags c m.tags ≡ some t)
