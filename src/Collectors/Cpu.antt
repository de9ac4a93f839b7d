-- ===== src/Collectors/Cpu.antt =====
-- The CPU collector of internal/collector/cpu.go and cpu_linux.go. Its uint64 counters wrap around; the
-- text of /proc/stat is an input.
use tidewatch.Base.{
  ℕ, zero, suc, ◌+◌, ◌-◌, ◌%◌, ◌^◌, Bool, true, false, Option, none, some, List, [], ◌∷◌, ◌++◌, ltb,
  ◌==◌, if◌then◌else◌, length, drop, Text, text_eq, codes, has_prefix, Dict, lookup, insert,
}
use tidewatch.Base.Int.{ℤ}
use tidewatch.Parsing.{fields, split_lines, parse_uint64}
use tidewatch.Models.{Float64, Metric, new_metric, with_tag}

pub record CpuStats : Type 0 where
  pub user : ℕ
  pub nice : ℕ
  pub system : ℕ
  pub idle : ℕ
  pub io_wait : ℕ
  pub irq : ℕ
  pub soft_irq : ℕ
  pub steal : ℕ
  pub guest : ℕ
  pub guest_nice : ℕ

-- a - b on uint64
unfoldable pub sub_wrapped : ℕ → ℕ → ℕ
sub_wrapped a b = (a + 2 ^ 64 - b) % 2 ^ 64

unfoldable pub total : CpuStats → ℕ
total s = (s.user + s.nice + s.system + s.idle + s.io_wait + s.irq + s.soft_irq + s.steal) % 2 ^ 64

unfoldable pub busy : CpuStats → ℕ
unfolding sub_wrapped total
busy s = sub_wrapped (sub_wrapped (total s) s.idle) s.io_wait

pub record CpuCollector : Type 0 where
  pub device_id : Text
  pub previous_cpu : Dict CpuStats
  pub first_sample : Bool

abbrev pub new_cpu_collector : Text → CpuCollector
new_cpu_collector device_id = record {
  device_id = device_id;
  previous_cpu = [];
  first_sample = true;
}

abbrev field : List Text → ℕ → ℕ
field [] n = 0
field (f ∷ fs) zero = parse_uint64 f
field (f ∷ fs) (suc n) = field fs n

-- The fields of a line; the last three are not always there.
unfoldable pub parse_cpu_stats : List Text → CpuStats
unfolding parse_uint64
parse_cpu_stats fs = record {
  user = field fs 1;
  nice = field fs 2;
  system = field fs 3;
  idle = field fs 4;
  io_wait = field fs 5;
  irq = field fs 6;
  soft_irq = field fs 7;
  steal = field fs 8;
  guest = field fs 9;
  guest_nice = field fs 10;
}

abbrev first_field : List Text → Text
first_field [] = []
first_field (f ∷ fs) = f

abbrev with_core : List Text → Dict CpuStats → Dict CpuStats
with_core fs stats =
    if ltb (length fs) 8 then stats else insert (first_field fs) (parse_cpu_stats fs) stats

-- The loop over the lines of /proc/stat.
unfoldable pub read_cpu_lines : List Text → Dict CpuStats → Dict CpuStats
unfolding parse_cpu_stats fields
read_cpu_lines [] stats = stats
read_cpu_lines (line ∷ lines) stats =
    read_cpu_lines lines
      (if has_prefix line (codes "cpu") then with_core (fields line) stats else stats)

-- readCPUStats, with what the file holds; `none` is an error.
unfoldable pub read_cpu_stats : Option Text → Option (Dict CpuStats)
unfolding read_cpu_lines split_lines
read_cpu_stats none = none
read_cpu_stats (some text) = some (read_cpu_lines (split_lines text) [])

-- What a core did between two samples: deltaBusy and deltaTotal.
pub record Delta : Type 0 where
  pub busy : ℕ
  pub total : ℕ

-- The deltas of one core, where the sample is not skipped.
unfoldable pub delta_of : CpuStats → CpuStats → Option Delta
unfolding sub_wrapped total busy
delta_of previous current =
    let delta_total = sub_wrapped (total current) (total previous) in
    let delta_busy = sub_wrapped (busy current) (busy previous) in
    if ltb (total current) (total previous)
    then none
    else if delta_total == 0
    then none
    else some (record { busy = delta_busy; total = delta_total })

-- float64(deltaBusy) / float64(deltaTotal) * 100.0
pub record CpuFloats : Type 0 where
  pub percent : ℕ → ℕ → Float64

abbrev all_cores : Text
all_cores = codes "cpu"

abbrev usage_metric : CpuFloats → ℤ → Text → Text → Delta → Metric
usage_metric o now device core d =
    if text_eq core all_cores
    then new_metric now (codes "cpu.usage_percent") (o.percent d.busy d.total) device
    else with_tag
        (new_metric now (codes "cpu.core_usage_percent") (o.percent d.busy d.total) device)
        (codes "core") (drop 3 core)

abbrev delta_metrics : CpuFloats → ℤ → Text → Text → Option Delta → List Metric
delta_metrics o now device core none = []
delta_metrics o now device core (some d) = usage_metric o now device core d ∷ []

abbrev core_delta : Option CpuStats → CpuStats → Option Delta
core_delta none current = none
core_delta (some previous) current = delta_of previous current

-- The loop over the cores.
unfoldable pub core_metrics : CpuFloats → ℤ → Text → Dict CpuStats → Dict CpuStats → List Metric
unfolding delta_of
core_metrics o now device previous [] = []
core_metrics o now device previous ((core, current) ∷ rest) =
    delta_metrics o now device core (core_delta (lookup core previous) current)
    ++ core_metrics o now device previous rest

abbrev after_sample :
    CpuFloats → ℤ → CpuCollector → Option (Dict CpuStats) → Option (List Metric) × CpuCollector
after_sample o now c none = (none, c)
after_sample o now c (some current) =
    if c.first_sample
    then (some [], record c { previous_cpu = current; first_sample = false })
    else (
      some (core_metrics o now c.device_id c.previous_cpu current),
      record c { previous_cpu = current },
    )

-- collect, with what /proc/stat holds; `none` is an error.
unfoldable pub collect_cpu :
    CpuFloats → ℤ → Option Text → CpuCollector → Option (List Metric) × CpuCollector
unfolding core_metrics read_cpu_stats
collect_cpu o now text c = after_sample o now c (read_cpu_stats text)
