-- ===== src/Collectors/Disk.antt =====
-- The disk collector of internal/collector/disk.go. The text of /proc/diskstats is an input; the
-- patterns are tests, and `compile` is regexp.Compile.
pub mod Printed
use tidewatch.Base.{
  ℕ, ◌*◌, ◌%◌, ◌^◌, ltb, Bool, Option, none, some, List, [], ◌∷◌, if◌then◌else◌, Text, codes,
  length, get_elem?, gather,
}
use tidewatch.Base.Int.{ℤ}
use tidewatch.Config.Validate.{is_empty}
use tidewatch.Models.{Float64, Metric, new_metric, with_tag}
use tidewatch.Parsing.{split_lines, fields, parse_uint64}

pub record DiskCollector : Type 0 where
  pub device_id : Text
  pub is_allowed : Text → Bool

abbrev or_default : (Text → Bool) → Option (Text → Bool) → Text → Bool
or_default whole none = whole
or_default whole (some allowed) = allowed

-- NewDiskCollectorWithConfig: without a pattern, or with one that does not compile, whole devices are
-- allowed.
unfoldable pub new_disk_collector :
    (Text → Option (Text → Bool)) → (Text → Bool) → Text → Text → DiskCollector
new_disk_collector compile whole device_id pattern = record {
  device_id = device_id;
  is_allowed = or_default whole (if is_empty pattern then none else compile pattern);
}

abbrev text_of : Option Text → Text
text_of none = []
text_of (some w) = w

abbrev pub at : List Text → ℕ → Text
at fs i = text_of (get_elem? fs i)

abbrev pub disk_metric : ℤ → Text → Text → Text → Float64 → Metric
disk_metric now device_id device name x =
    with_tag (new_metric now name x device_id) (codes "device") device

-- The body of the loop for a device that is allowed.
unfoldable pub device_metrics : (ℕ → Float64) → ℤ → Text → List Text → List Metric
unfolding parse_uint64
device_metrics o now device_id fs =
    let metric = disk_metric now device_id (at fs 2) in
    metric (codes "disk.read_ops_total") (o (parse_uint64 (at fs 3)))
    ∷ metric (codes "disk.read_bytes_total") (o (parse_uint64 (at fs 5) * 512 % 2 ^ 64))
    ∷ metric (codes "disk.write_ops_total") (o (parse_uint64 (at fs 7)))
    ∷ metric (codes "disk.write_bytes_total") (o (parse_uint64 (at fs 9) * 512 % 2 ^ 64))
    ∷ metric (codes "disk.read_time_ms_total") (o (parse_uint64 (at fs 6)))
    ∷ metric (codes "disk.write_time_ms_total") (o (parse_uint64 (at fs 10)))
    ∷ metric (codes "disk.io_in_progress") (o (parse_uint64 (at fs 11)))
    ∷ metric (codes "disk.io_time_weighted_ms_total") (o (parse_uint64 (at fs 13)))
    ∷ []

unfoldable pub line_metrics : (ℕ → Float64) → ℤ → DiskCollector → List Text → List Metric
unfolding device_metrics
line_metrics o now c fs =
    if ltb (length fs) 14
    then []
    else if c.is_allowed (at fs 2)
    then device_metrics o now c.device_id fs
    else []

-- Collect, with what the file holds; `none` is an error, and `o` the conversion to float64.
unfoldable pub collect_disk : (ℕ → Float64) → ℤ → DiskCollector → Option Text → Option (List Metric)
unfolding line_metrics fields split_lines
collect_disk o now c none = none
collect_disk o now c (some text) =
    some (gather (λ line. line_metrics o now c (fields line)) (split_lines text))
