-- ===== src/Collectors/Memory/Printed.antt =====
-- What the collector reads from /proc/meminfo as the kernel prints it.
use tidewatch.Base.{ℕ, ◌*◌, ◌%◌, ◌^◌, ◌<◌, if◌then◌else◌, text_eq, List, [], ◌∷◌, ◌++◌, Text, codes}
use tidewatch.Base.Decimal.{format_dec}
use tidewatch.Parsing.{is_space}
use tidewatch.Parsing.Printed.{blanks, Lacks}
use tidewatch.Collectors.Memory.{Meminfo}

-- A line of the file: a key, its number, and how far they are apart.
pub record Entry : Type 0 where
  pub key : Text
  pub padding : ℕ
  pub kilobytes : ℕ

-- "Key:    1024 kB"
unfoldable pub print_line : Entry → Text
unfolding format_dec
print_line e =
    (e.key ++ b':' ∷ []) ++ (32 ∷ blanks e.padding (format_dec e.kilobytes ++ 32 ∷ codes "kB"))

unfoldable pub print_meminfo : List Entry → Text
unfolding print_line
print_meminfo [] = []
print_meminfo (e ∷ es) = print_line e ++ 10 ∷ print_meminfo es

-- No key has a blank, and the numbers fit in a uint64.
abbrev pub IsPrintable : Entry → Type 0
IsPrintable e = Lacks is_space e.key × (e.kilobytes < 2 ^ 64)

-- The last figure with a key, in bytes, or the one before where there is none.
unfoldable pub figure : Text → List Entry → ℕ → ℕ
figure key [] n = n
figure key (e ∷ es) n = figure key es (if text_eq e.key key then e.kilobytes * 1024 % 2 ^ 64 else n)

-- The figures of a file.
pub figures : List Entry → Meminfo → Meminfo
figures es m = record {
  mem_total = figure (codes "MemTotal") es m.mem_total;
  mem_available = figure (codes "MemAvailable") es m.mem_available;
  swap_total = figure (codes "SwapTotal") es m.swap_total;
  swap_free = figure (codes "SwapFree") es m.swap_free;
}
