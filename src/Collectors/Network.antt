-- ===== src/Collectors/Network.antt =====
-- The network collector of internal/collector/network.go and network_linux.go. The text of
-- /proc/net/dev is an input; the patterns are tests.
use tidewatch.Base.{
  ℕ, zero, suc, ◌+◌, ◌%◌, ◌^◌, Bool, false, not, ◌||◌, Option, none, some, List, [], ◌∷◌, ◌++◌, ltb,
  leb, if◌then◌else◌, length, Text, codes, Dict, lookup, insert, gather,
}
use tidewatch.Base.Int.{ℤ, pos, negsuc}
use tidewatch.Parsing.{split_by, is_colon, split_lines, fields, trim_space, parse_uint64}
use tidewatch.Models.{Float64, Metric, new_metric, with_tag}

pub record NetworkStats : Type 0 where
  pub rx_bytes : ℕ
  pub rx_packets : ℕ
  pub rx_errors : ℕ
  pub tx_bytes : ℕ
  pub tx_packets : ℕ
  pub tx_errors : ℕ

pub record NetworkCollector : Type 0 where
  pub device_id : Text
  pub is_excluded : Text → Bool
  pub is_included : Text → Bool
  pub max_interfaces : ℕ
  pub previous_stats : Dict NetworkStats
  pub interfaces_dropped_total : ℕ

abbrev max_or_default : ℤ → ℕ
max_or_default (pos zero) = 32
max_or_default (pos (suc n)) = suc n
max_or_default (negsuc n) = 32

-- NewNetworkCollectorWithConfig; a pattern that is not set includes everything.
unfoldable pub new_network_collector : Text → (Text → Bool) → (Text → Bool) → ℤ → NetworkCollector
new_network_collector device_id excluded included max = record {
  device_id = device_id;
  is_excluded = excluded;
  is_included = included;
  max_interfaces = max_or_default max;
  previous_stats = [];
  interfaces_dropped_total = 0;
}

-- A line with a colon: the name before it, and the counters, where there are enough fields.
pub record Line : Type 0 where
  pub iface : Text
  pub counters : Option NetworkStats

abbrev field : List Text → ℕ → ℕ
field [] n = 0
field (f ∷ fs) zero = parse_uint64 f
field (f ∷ fs) (suc n) = field fs n

unfoldable pub parse_counters : List Text → Option NetworkStats
unfolding parse_uint64
parse_counters fs =
    if ltb (length fs) 16
    then none
    else some (record {
      rx_bytes = field fs 0;
      rx_packets = field fs 1;
      rx_errors = field fs 2;
      tx_bytes = field fs 8;
      tx_packets = field fs 9;
      tx_errors = field fs 10;
    })

-- The parts of a line between its colons; a line without one is a header.
abbrev line_of : List Text → Option Line
line_of [] = none
line_of (part ∷ []) = none
line_of (name ∷ (rest ∷ parts)) =
    some (record { iface = trim_space name; counters = parse_counters (fields rest) })

abbrev with_line : Option Line → List Line → List Line
with_line none lines = lines
with_line (some line) lines = line ∷ lines

-- The lines of /proc/net/dev that have a colon.
unfoldable pub device_lines : List Text → List Line
unfolding parse_counters fields trim_space split_by
device_lines [] = []
device_lines (text ∷ texts) = with_line (line_of (split_by is_colon text)) (device_lines texts)

-- One of the six counters went down.
unfoldable pub wrapped_around : NetworkStats → NetworkStats → Bool
wrapped_around previous current =
    ltb current.rx_bytes previous.rx_bytes
    || (ltb current.tx_bytes previous.tx_bytes
        || (ltb current.rx_packets previous.rx_packets
            || (ltb current.tx_packets previous.tx_packets
                || (ltb current.rx_errors previous.rx_errors
                    || ltb current.tx_errors previous.tx_errors))))

unfoldable pub is_wrapped : Option NetworkStats → NetworkStats → Bool
unfolding wrapped_around
is_wrapped none current = false
is_wrapped (some previous) current = wrapped_around previous current

-- The variables of the loop; `samples` are the counters that become metrics, in time.
pub record Scan : Type 0 where
  pub current : Dict NetworkStats
  pub previous : Dict NetworkStats
  pub dropped : ℕ
  pub samples : List (Text × NetworkStats)

unfoldable pub take_counters : Text → Option NetworkStats → Scan → Scan
unfolding is_wrapped
take_counters iface none s = s
take_counters iface (some counters) s =
    let current = insert iface counters s.current in
    if is_wrapped (lookup iface s.previous) counters
    then record s { current = current; previous = insert iface counters s.previous }
    else record s { current = current; samples = s.samples ++ (iface, counters) ∷ [] }

-- The body of the loop, for one line.
unfoldable pub scan_line : NetworkCollector → Line → Scan → Scan
unfolding take_counters
scan_line c line s =
    if c.is_excluded line.iface || not (c.is_included line.iface)
    then s
    else if leb c.max_interfaces (length s.current)
    then record s { dropped = (s.dropped + 1) % 2 ^ 64 }
    else take_counters line.iface line.counters s

unfoldable pub scan_lines : NetworkCollector → List Line → Scan → Scan
unfolding scan_line
scan_lines c [] s = s
scan_lines c (line ∷ lines) s = scan_lines c lines (scan_line c line s)

-- float64(x) for a uint64
abbrev counter_metric : (ℕ → Float64) → ℤ → Text → Text → Text → ℕ → Metric
counter_metric o now device iface name n =
    with_tag (new_metric now name (o n) device) (codes "interface") iface

unfoldable pub sample_metrics : (ℕ → Float64) → ℤ → Text → Text × NetworkStats → List Metric
sample_metrics o now device (iface, s) =
    counter_metric o now device iface (codes "network.rx_bytes_total") s.rx_bytes
    ∷ counter_metric o now device iface (codes "network.tx_bytes_total") s.tx_bytes
    ∷ counter_metric o now device iface (codes "network.rx_packets_total") s.rx_packets
    ∷ counter_metric o now device iface (codes "network.tx_packets_total") s.tx_packets
    ∷ counter_metric o now device iface (codes "network.rx_errors_total") s.rx_errors
    ∷ counter_metric o now device iface (codes "network.tx_errors_total") s.tx_errors
    ∷ []

abbrev pub dropped_metrics : (ℕ → Float64) → ℤ → Text → ℕ → List Metric
dropped_metrics o now device n =
    if ltb 0 n
    then new_metric now (codes "network.interfaces_dropped_total") (o n) device ∷ []
    else []

abbrev pub started : NetworkCollector → Scan
started c = record {
  current = [];
  previous = c.previous_stats;
  dropped = c.interfaces_dropped_total;
  samples = [];
}

-- The rest of collect, with the lines that have a colon.
unfoldable pub collect_lines :
    (ℕ → Float64) → ℤ → List Line → NetworkCollector → Option (List Metric) × NetworkCollector
unfolding scan_lines sample_metrics
collect_lines o now lines c =
    let s = scan_lines c lines (started c) in
    (
      some (
          gather (sample_metrics o now c.device_id) s.samples
          ++ dropped_metrics o now c.device_id s.dropped),
      record c { previous_stats = s.current; interfaces_dropped_total = s.dropped },
    )

-- collect, with what /proc/net/dev holds; `none` is an error.
unfoldable pub collect_network :
    (ℕ → Float64) → ℤ → Option Text → NetworkCollector → Option (List Metric) × NetworkCollector
unfolding collect_lines device_lines split_lines
collect_network o now none c = (none, c)
collect_network o now (some text) c = collect_lines o now (device_lines (split_lines text)) c
