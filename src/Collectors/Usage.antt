-- ===== src/Collectors/Usage.antt =====
-- When a CPU usage is a fraction.
use tidewatch.Base.{ℕ, ◌+◌, ◌≤◌, ◌<◌, ◌^◌, ◌≡◌, ◌↔◌, some, arith}
use tidewatch.Collectors.Cpu.{CpuStats, sub_wrapped, total, busy, Delta, delta_of}

-- The sums that the counters stand for, without wrapping.
abbrev pub busy_time : CpuStats → ℕ
busy_time s = s.user + s.nice + s.system + s.irq + s.soft_irq + s.steal

abbrev pub idle_time : CpuStats → ℕ
idle_time s = s.idle + s.io_wait

total_lem :
    (s : CpuStats) → busy_time s + idle_time s < 2 ^ 64 → total s ≡ busy_time s + idle_time s
unfolding total
total_lem s h = omega arith

busy_lem : (s : CpuStats) → busy_time s + idle_time s < 2 ^ 64 → busy s ≡ busy_time s
unfolding busy sub_wrapped
busy_lem s h = omega (arith, total_lem s h)

delta_of-parts :
    (previous current : CpuStats) (d : Delta)
    → delta_of previous current ≡ some d
    → (total previous ≤ total current)
      × (d.busy ≡ sub_wrapped (busy current) (busy previous))
      × (d.total ≡ sub_wrapped (total current) (total previous))
unfolding delta_of
delta_of-parts previous current d e = ground arith

-- a fraction of the times between two samples, on uint64
sub_wrapped_iff :
    (b c i j : ℕ)
    → b + i < 2 ^ 64
    → c + j < 2 ^ 64
    → b + i ≤ c + j
    → (sub_wrapped c b ≤ sub_wrapped (c + j) (b + i)) ↔ ((b ≤ c) × (i ≤ j))
unfolding sub_wrapped
sub_wrapped_iff b c i j h k le = ground arith

-- Of two samples whose sums fit into 64 bits and between which the collector computes a usage, the
-- usage is at most 100 percent exactly when neither the busy time nor the idle time (which has the I/O
-- wait) went down.
pub delta_of_iff :
    (previous current : CpuStats) (d : Delta)
    → busy_time previous + idle_time previous < 2 ^ 64
    → busy_time current + idle_time current < 2 ^ 64
    → delta_of previous current ≡ some d
    → (d.busy ≤ d.total)
      ↔ ((busy_time previous ≤ busy_time current) × (idle_time previous ≤ idle_time current))
delta_of_iff previous current d h k e =
    let (le, b, t) = delta_of-parts previous current d e in
    let fraction =
      sub_wrapped_iff (busy_time previous) (busy_time current) (idle_time previous)
        (idle_time current) h k (omega (arith, le, total_lem previous h, total_lem current k)) in
    rw (b, t, busy_lem previous h, busy_lem current k, total_lem previous h, total_lem current k)
      fraction
