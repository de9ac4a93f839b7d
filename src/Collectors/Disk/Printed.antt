-- ===== src/Collectors/Disk/Printed.antt =====
-- What the collector reads from /proc/diskstats as the kernel prints it.
use tidewatch.Base.{ℕ, ◌*◌, ◌%◌, ◌^◌, ◌<◌, ◌≡◌, true, List, [], ◌∷◌, ◌++◌, map, Text, codes, All}
use tidewatch.Base.Int.{ℤ}
use tidewatch.Base.Decimal.{format_dec}
use tidewatch.Models.{Float64, Metric}
use tidewatch.Parsing.{is_space, is_word}
use tidewatch.Parsing.Printed.{blanks, Lacks}
use tidewatch.Collectors.Disk.{disk_metric}

-- A line of the file. Newer kernels print more numbers than the collector reads.
pub record Disk : Type 0 where
  pub padding : ℕ
  pub major : ℕ
  pub minor : ℕ
  pub device : Text
  pub reads : ℕ
  pub reads_merged : ℕ
  pub sectors_read : ℕ
  pub reading_ms : ℕ
  pub writes : ℕ
  pub writes_merged : ℕ
  pub sectors_written : ℕ
  pub writing_ms : ℕ
  pub in_progress : ℕ
  pub io_ms : ℕ
  pub weighted_ms : ℕ
  pub more : List ℕ

abbrev counts : Disk → List ℕ
counts d =
    d.reads ∷ d.reads_merged ∷ d.sectors_read ∷ d.reading_ms ∷ d.writes ∷ d.writes_merged
    ∷ d.sectors_written ∷ d.writing_ms ∷ d.in_progress ∷ d.io_ms ∷ d.weighted_ms ∷ d.more

abbrev words : Disk → List Text
words d = format_dec d.major ∷ format_dec d.minor ∷ d.device ∷ map format_dec (counts d)

-- Each word after one blank and the padding.
abbrev spaced : ℕ → List Text → Text
spaced n [] = []
spaced n (w ∷ ws) = 32 ∷ blanks n (w ++ spaced n ws)

unfoldable pub print_disk : Disk → Text
unfolding format_dec
print_disk d = spaced d.padding (words d)

unfoldable pub print_diskstats : List Disk → Text
unfolding print_disk
print_diskstats [] = []
print_diskstats (d ∷ ds) = print_disk d ++ 10 ∷ print_diskstats ds

abbrev IsWord : Text → Type 0
IsWord w = (is_word w ≡ true) × Lacks is_space w

-- The name is a word, and the numbers fit in a uint64.
abbrev pub IsPrintableDisk : Disk → Type 0
IsPrintableDisk d = IsWord d.device × All (λ n. n < 2 ^ 64) (counts d)

-- The independent description: the eight metrics of a device by the names of its figures.
unfoldable pub figures_of : (ℕ → Float64) → ℤ → Text → Disk → List Metric
figures_of o now device_id d =
    let metric = disk_metric now device_id d.device in
    metric (codes "disk.read_ops_total") (o d.reads)
    ∷ metric (codes "disk.read_bytes_total") (o (d.sectors_read * 512 % 2 ^ 64))
    ∷ metric (codes "disk.write_ops_total") (o d.writes)
    ∷ metric (codes "disk.write_bytes_total") (o (d.sectors_written * 512 % 2 ^ 64))
    ∷ metric (codes "disk.read_time_ms_total") (o d.reading_ms)
    ∷ metric (codes "disk.write_time_ms_total") (o d.writing_ms)
    ∷ metric (codes "disk.io_in_progress") (o d.in_progress)
    ∷ metric (codes "disk.io_time_weighted_ms_total") (o d.weighted_ms)
    ∷ []
