-- ===== src/Collectors/Memory.antt =====
-- The memory collector of internal/collector/memory.go and memory_linux.go. Its uint64 figures wrap
-- around; the text of /proc/meminfo is an input.
pub mod Printed
use tidewatch.Base.{
  ℕ, ◌*◌, ◌%◌, ◌^◌, ◌==◌, Bool, Option, none, some, List, [], ◌∷◌, if◌then◌else◌, Text, codes,
  text_eq,
}
use tidewatch.Base.Int.{ℤ}
use tidewatch.Models.{Float64, Metric, new_metric}
use tidewatch.Collectors.Cpu.{sub_wrapped}
use tidewatch.Parsing.{
  Parsed, number, bad_syntax, out_of_range, split_lines, fields, trim_colon, parse_uint,
}

pub record Meminfo : Type 0 where
  pub mem_total : ℕ
  pub mem_available : ℕ
  pub swap_total : ℕ
  pub swap_free : ℕ

abbrev pub no_meminfo : Meminfo
no_meminfo = record { mem_total = 0; mem_available = 0; swap_total = 0; swap_free = 0 }

-- The switch over the keys, with a value in bytes.
unfoldable pub set_figure : Text → ℕ → Meminfo → Meminfo
set_figure key bytes m =
    if text_eq key (codes "MemTotal")
    then record m { mem_total = bytes }
    else if text_eq key (codes "MemAvailable")
    then record m { mem_available = bytes }
    else if text_eq key (codes "SwapTotal")
    then record m { swap_total = bytes }
    else if text_eq key (codes "SwapFree")
    then record m { swap_free = bytes }
    else m

abbrev pub take_value : Text → Parsed → Meminfo → Meminfo
take_value key (number kb) m = set_figure key (kb * 1024 % 2 ^ 64) m
take_value key bad_syntax m = m
take_value key out_of_range m = m

unfoldable pub take_fields : List Text → Meminfo → Meminfo
unfolding trim_colon parse_uint set_figure
take_fields [] m = m
take_fields (key ∷ []) m = m
take_fields (key ∷ (value ∷ rest)) m = take_value (trim_colon key) (parse_uint value) m

unfoldable pub take_lines : List Text → Meminfo → Meminfo
unfolding take_fields fields
take_lines [] m = m
take_lines (line ∷ lines) m = take_lines lines (take_fields (fields line) m)

abbrev pub checked_meminfo : Meminfo → Option Meminfo
checked_meminfo m = if m.mem_total == 0 then none else some m

-- parseMeminfo, with what the file holds; `none` is an error.
unfoldable pub parse_meminfo : Option Text → Option Meminfo
unfolding take_lines split_lines
parse_meminfo none = none
parse_meminfo (some text) = checked_meminfo (take_lines (split_lines text) no_meminfo)

abbrev pub memory_metrics : (ℕ → Float64) → ℤ → Text → Meminfo → List Metric
memory_metrics o now device m =
    new_metric now (codes "memory.used_bytes") (o (sub_wrapped m.mem_total m.mem_available)) device
    ∷ new_metric now (codes "memory.available_bytes") (o m.mem_available) device
    ∷ new_metric now (codes "memory.total_bytes") (o m.mem_total) device
    ∷ new_metric now (codes "memory.swap_used_bytes") (o (sub_wrapped m.swap_total m.swap_free))
        device
    ∷ new_metric now (codes "memory.swap_total_bytes") (o m.swap_total) device
    ∷ []

abbrev pub measured : (ℕ → Float64) → ℤ → Text → Option Meminfo → Option (List Metric)
measured o now device none = none
measured o now device (some m) = some (memory_metrics o now device m)

-- collect; `o` is the conversion to float64.
unfoldable pub collect_memory : (ℕ → Float64) → ℤ → Text → Option Text → Option (List Metric)
unfolding parse_meminfo
collect_memory o now device text = measured o now device (parse_meminfo text)
