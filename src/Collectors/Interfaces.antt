-- ===== src/Collectors/Interfaces.antt =====
-- The cardinality guard of the network collector, and what it remembers.
use tidewatch.Base.{
  ◌+◌, ◌≤◌, ◌<◌, ◌≡◌, refl, false, not, ◌||◌, Option, none, some, inl, inr, List, [], ◌∷◌, ◌++◌,
  arith, Bool-cases, leb, length, length-append, Text, Dict, text_eq, lookup, insert, lookup-insert,
  All, All-append, ◌∙◌, ap, sym,
}
use tidewatch.Collectors.Network.{
  NetworkStats, NetworkCollector, Line, Scan, started, take_counters, scan_line, scan_lines,
  is_wrapped,
}

-- A name that is not in a map makes it longer by one.
length-insert_new :
    (k : Text) (v : NetworkStats) (m : Dict NetworkStats)
    → lookup k m ≡ none
    → length (insert k v m) ≡ length m + 1
unfolding insert lookup
length-insert_new k v [] h = omega arith
length-insert_new k v ((j, w) ∷ m) h = elim (Bool-cases (text_eq j k)) [
  | inl e ↦ absurd (ground (arith, e, h))
  | inr e ↦ rw e (omega (arith, length-insert_new k v m (ground (arith, e, h))))
]

-- The name has not been met: what the loop knows of it is from the sample before.
abbrev IsNew : NetworkCollector → Scan → Line → Type 0
IsNew c s line =
    (lookup line.iface s.current ≡ none)
    × (lookup line.iface s.previous ≡ lookup line.iface c.previous_stats)

-- No sample is below the one before, there are at most as many samples as names, and at most as many
-- names as allowed.
pub record IsGuarded (c : NetworkCollector) (s : Scan) : Type 0 where
  pub few : length s.current ≤ c.max_interfaces
  pub named : length s.samples ≤ length s.current
  pub growing : All (λ p. is_wrapped (lookup p.0 c.previous_stats) p.1 ≡ false) s.samples

-- No two lines have the same name.
abbrev pub Distinct : List Line → Type 0
Distinct [] = Unit
Distinct (l ∷ ls) = All (λ m. text_eq l.iface m.iface ≡ false) ls × Distinct ls

insert-IsNew :
    (c : NetworkCollector) (s : Scan) (line : Line) (v : NetworkStats)
    (previous : Dict NetworkStats) (ls : List Line)
    → ((m : Line)
        → text_eq line.iface m.iface ≡ false
        → lookup m.iface previous ≡ lookup m.iface s.previous)
    → All (λ m. text_eq line.iface m.iface ≡ false) ls
    → All (IsNew c s) ls
    → (samples : List (Text × NetworkStats))
    → All
        (IsNew c (record {
          current = insert line.iface v s.current;
          previous = previous;
          dropped = s.dropped;
          samples = samples;
        }))
        ls
insert-IsNew c s line v previous [] keeps apart new samples = tt
insert-IsNew c s line v previous (m ∷ ls) keeps (a, apart) (n, new) samples = (
  (ground (arith, lookup-insert line.iface m.iface v s.current, a, n.0), keeps m a ∙ n.1),
  insert-IsNew c s line v previous ls keeps apart new samples,
)

-- What one step keeps: the guard, and that the other lines are new.
abbrev Keeps : NetworkCollector → Scan → List Line → Type 0
Keeps c s ls = IsGuarded c s × All (IsNew c s) ls

take_counters-Keeps :
    (c : NetworkCollector) (line : Line) (o : Option NetworkStats) (s : Scan) (ls : List Line)
    → length s.current < c.max_interfaces
    → IsNew c s line
    → All (λ m. text_eq line.iface m.iface ≡ false) ls
    → Keeps c s ls
    → Keeps c (take_counters line.iface o s) ls
unfolding take_counters
take_counters-Keeps c line none s ls room n apart k = k
take_counters-Keeps c line (some v) s ls room (new, same) apart (g, k) =
    let one_more : length (insert line.iface v s.current) ≡ length s.current + 1 =
      length-insert_new line.iface v s.current new in
    elim (Bool-cases (is_wrapped (lookup line.iface s.previous) v)) [
      | inl e ↦
          rw (take_counters, e)
            (
              record {
                few = omega (arith, one_more, room);
                named = omega (arith, one_more, g.named);
                growing = g.growing;
              },
              insert-IsNew c s line v (insert line.iface v s.previous) ls
                  (λ m a. ground (arith, lookup-insert line.iface m.iface v s.previous, a)) apart k
                  s.samples,
            )
      | inr e ↦
          rw (take_counters, e)
            (
              record {
                few = omega (arith, one_more, room);
                named =
                    omega
                      (arith, one_more, g.named, length-append s.samples ((line.iface, v) ∷ []));
                growing =
                    All-append _ s.samples ((line.iface, v) ∷ []) g.growing
                      ((ap (λ o. is_wrapped o v) (sym same) ∙ e), tt);
              },
              insert-IsNew c s line v s.previous ls (λ m a. refl) apart k
                  (s.samples ++ (line.iface, v) ∷ []),
            )
    ]

scan_line-Keeps :
    (c : NetworkCollector) (line : Line) (s : Scan) (ls : List Line)
    → IsNew c s line
    → All (λ m. text_eq line.iface m.iface ≡ false) ls
    → Keeps c s ls
    → Keeps c (scan_line c line s) ls
unfolding scan_line
scan_line-Keeps c line s ls n apart (g, k) =
    elim (Bool-cases (c.is_excluded line.iface || not (c.is_included line.iface))) [
      | inl e ↦ rw (scan_line, e) (g, k)
      | inr e ↦ elim (Bool-cases (leb c.max_interfaces (length s.current))) [
        | inl full ↦
            rw (scan_line, e, full)
              (record { few = g.few; named = g.named; growing = g.growing }, k)
        | inr room ↦
            rw (scan_line, e, room)
              (take_counters-Keeps c line line.counters s ls (ground (arith, room)) n apart (g, k))
      ]
    ]

scan_lines-IsGuarded :
    (c : NetworkCollector) (ls : List Line) (s : Scan)
    → Distinct ls
    → Keeps c s ls
    → IsGuarded c (scan_lines c ls s)
unfolding scan_lines
scan_lines-IsGuarded c [] s d (g, k) = g
scan_lines-IsGuarded c (line ∷ ls) s (apart, d) (g, (n, k)) =
    scan_lines-IsGuarded c ls (scan_line c line s) d (scan_line-Keeps c line s ls n apart (g, k))

All-IsNew : (c : NetworkCollector) (ls : List Line) → All (IsNew c (started c)) ls
unfolding lookup
All-IsNew c [] = tt
All-IsNew c (line ∷ ls) = ((refl, refl), All-IsNew c ls)

-- The scan of lines with distinct names: it remembers the counters of at most as many interfaces as
-- allowed, reports at most as many as it remembers, and reports no interface of which a counter is below
-- the one that was remembered from the collection before.
pub scan_lines_lem :
    (c : NetworkCollector) (ls : List Line)
    → Distinct ls
    → IsGuarded c (scan_lines c ls (started c))
scan_lines_lem c ls d =
    scan_lines-IsGuarded c ls (started c) d
      (record { few = omega arith; named = omega arith; growing = tt }, All-IsNew c ls)
