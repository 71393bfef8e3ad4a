-- ===== src/Metrics.antt =====
-- The runtime counters, `Metrics` of src/rtk_hermes_plus/metrics.py (whole amounts only).
use token_terminator.Common.{
  ℕ, ◌+◌, ◌-◌, String, ◌≡◌, List, [], ◌∷◌, arith, if◌then◌else◌, str_eq, eq_iff,
}

abbrev pub Counts : Type 0
Counts = List (String × ℕ)

-- A `Counter` reads 0 for a key that it lacks.
unfoldable pub reading : String → Counts → ℕ
reading key [] = 0
reading key ((k, n) ∷ rest) = if str_eq k key then n else reading key rest

unfoldable pub add : String → ℕ → Counts → Counts
add key amount [] = (key, amount) ∷ []
add key amount ((k, n) ∷ rest) =
    if str_eq k key then (k, n + amount) ∷ rest else (k, n) ∷ add key amount rest

unfoldable pub reset : Counts → Counts
reset counts = []

-- The characters that `snapshot` reports as saved: max(0, raw - compact).
unfoldable pub native_saved_chars : Counts → ℕ
native_saved_chars counts = reading "native_raw_chars" counts - reading "native_output_chars" counts

pub reading-add :
    (key other : String) (amount : ℕ) (counts : Counts)
    → reading other (add key amount counts)
      ≡ (if str_eq key other then reading other counts + amount else reading other counts)
unfolding reading add
reading-add key other amount [] = ground arith
reading-add key other amount ((k, n) ∷ rest) =
    ground
      (arith, reading-add key other amount rest, eq_iff k key, eq_iff k other, eq_iff key other)
