-- ===== src/Witnesses/CollectorExamples.antt =====
-- The theorems on the collectors at concrete inputs.
use tidewatch.Base.{
  Bool, not, ◌&&◌, ltb, Text, ℕ, ◌+◌, ◌^◌, ◌<◌, ◌≤◌, ◌≡◌, ◌↔◌, refl, true, some, List, [], ◌∷◌,
  arith, codes, text_eq,
}
use tidewatch.Parsing.{is_space}
use tidewatch.Collectors.Memory.Printed.{Entry}
use tidewatch.Collectors.Disk.{DiskCollector}
use tidewatch.Collectors.Disk.Printed.{Disk}
use tidewatch.Collectors.Cpu.{CpuStats, Delta, delta_of, sub_wrapped, total, busy}
use tidewatch.Collectors.Usage.{busy_time, idle_time, delta_of_iff}
use tidewatch.Collectors.Network.{NetworkStats, NetworkCollector, Line, scan_lines, started}
use tidewatch.Collectors.Interfaces.{IsGuarded, Distinct, scan_lines_lem}

abbrev stats : ℕ → ℕ → ℕ → CpuStats
stats user idle io_wait = record {
  user = user;
  nice = 0;
  system = 0;
  idle = idle;
  io_wait = io_wait;
  irq = 0;
  soft_irq = 0;
  steal = 0;
  guest = 0;
  guest_nice = 0;
}

-- The I/O wait goes down from 50 to 20 while 10 more are busy and 25 more idle: 10 of 5.
abbrev before : CpuStats
before = stats 100 200 50

abbrev later : CpuStats
later = stats 110 225 20

abbrev delta : Delta
delta = record { busy = 10; total = 5 }

computed : delta_of before later ≡ some delta
unfolding delta_of sub_wrapped total busy
computed = refl

fits : busy_time before + idle_time before < 2 ^ 64
fits = omega arith

later_fits : busy_time later + idle_time later < 2 ^ 64
later_fits = omega arith

delta_of_iff_example :
    (10 ≤ 5) ↔ ((busy_time before ≤ busy_time later) × (idle_time before ≤ idle_time later))
delta_of_iff_example = delta_of_iff before later delta fits later_fits computed

abbrev counters : ℕ → NetworkStats
counters n = record {
  rx_bytes = n;
  rx_packets = n;
  rx_errors = 0;
  tx_bytes = n;
  tx_packets = n;
  tx_errors = 0;
}

abbrev collector : NetworkCollector
collector = record {
  device_id = codes "device-1";
  is_excluded = λ iface. text_eq iface (codes "lo");
  is_included = λ iface. true;
  max_interfaces = 1;
  previous_stats = (codes "eth0", counters 7) ∷ [];
  interfaces_dropped_total = 0;
}

abbrev lines : List Line
lines =
    record { iface = codes "lo"; counters = some (counters 1) }
    ∷ record { iface = codes "eth0"; counters = some (counters 9) }
    ∷ record { iface = codes "eth1"; counters = some (counters 3) }
    ∷ []

distinct : Distinct lines
unfolding text_eq
distinct = ((refl, (refl, tt)), ((refl, tt), (tt, tt)))

scan_lines_lem_example : IsGuarded collector (scan_lines collector lines (started collector))
scan_lines_lem_example = scan_lines_lem collector lines distinct

-- A file with a key that the collector does not read, and without swap.
abbrev entries : List Entry
entries =
    record { key = codes "MemTotal"; padding = 7; kilobytes = 8000 }
    ∷ record { key = codes "MemFree"; padding = 8; kilobytes = 500 }
    ∷ record { key = codes "MemAvailable"; padding = 3; kilobytes = 3000 }
    ∷ []

abbrev has_no_space : Text → Bool
has_no_space [] = true
has_no_space (c ∷ s) = not (is_space c) && has_no_space s

-- A device, its partition, and the four numbers that newer kernels add.
abbrev disk_line : Text → ℕ → Disk
disk_line device minor = record {
  padding = 2;
  major = 8;
  minor = minor;
  device = device;
  reads = 120;
  reads_merged = 4;
  sectors_read = 4096;
  reading_ms = 30;
  writes = 70;
  writes_merged = 9;
  sectors_written = 2048;
  writing_ms = 80;
  in_progress = 1;
  io_ms = 90;
  weighted_ms = 110;
  more = 0 ∷ 0 ∷ 0 ∷ 0 ∷ [];
}

abbrev disks : List Disk
disks = disk_line (codes "sda") 0 ∷ disk_line (codes "sda1") 1 ∷ []

abbrev some_counts : List ℕ
some_counts = 120 ∷ 4 ∷ 4096 ∷ 30 ∷ 70 ∷ 9 ∷ 2048 ∷ 80 ∷ 1 ∷ 90 ∷ 110 ∷ 0 ∷ 0 ∷ 0 ∷ 0 ∷ []

abbrev all_below : List ℕ → Bool
all_below [] = true
all_below (n ∷ ns) = ltb n (2 ^ 64) && all_below ns

abbrev disk_collector : DiskCollector
disk_collector = record {
  device_id = codes "device-1";
  is_allowed = λ device. text_eq device (codes "sda");
}
