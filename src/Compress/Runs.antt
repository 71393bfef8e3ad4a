-- ===== src/Compress/Runs.antt =====
-- How `compact_text` collapses lines: each run of equal lines is rendered once.
use token_terminator.Common.{
  ℕ, zero, suc, ◌+◌, ◌≤◌, String, ◌≡◌, refl, ap, false, List, [], ◌∷◌, ◌++◌, map, if◌then◌else◌,
  str_eq, eq_iff, arith, Bool-cases, inl, inr,
}
use token_terminator.Compress.{repeated, collapsed_line, collapse_from, collapse_consecutive}

-- The runs of equal lines: a line, and how often it stands there in a row.
abbrev pub merge : String → ℕ → List (String × ℕ) → List (String × ℕ)
merge line n [] = (line, n) ∷ []
merge line n ((other, m) ∷ rest) =
    if str_eq other line then (line, n + m) ∷ rest else (line, n) ∷ (other, m) ∷ rest

abbrev pub runs : List String → List (String × ℕ)
runs [] = []
runs (line ∷ lines) = merge line 1 (runs lines)

-- The lines that runs stand for.
abbrev pub expand : List (String × ℕ) → List String
expand [] = []
expand ((line, n) ∷ rest) = repeated n line ++ expand rest

abbrev pub render : String × ℕ → String
render (line, n) = collapsed_line line n

-- Neighbouring runs differ.
abbrev pub IsMaximal : List (String × ℕ) → Type 0
IsMaximal [] = Unit
IsMaximal ((line, n) ∷ []) = 1 ≤ n
IsMaximal ((line, n) ∷ (other, m) ∷ rest) =
    (1 ≤ n) × (str_eq other line ≡ false) × IsMaximal ((other, m) ∷ rest)

merge-merge :
    (line : String) (n m : ℕ) (rs : List (String × ℕ))
    → merge line n (merge line m rs) ≡ merge line (n + m) rs
merge-merge line n m [] = ground (arith, eq_iff line line)
merge-merge line n m ((other, k) ∷ rest) = ground (arith, eq_iff line line)

merge_apart :
    (line other : String) (n m : ℕ) (rs : List (String × ℕ))
    → str_eq other line ≡ false
    → merge line n (merge other m rs) ≡ (line, n) ∷ merge other m rs
merge_apart line other n m [] apart = ground arith
merge_apart line other n m ((third, k) ∷ rest) apart = ground arith

collapse_from-runs :
    (line : String) (n : ℕ) (lines : List String)
    → collapse_from line n lines ≡ map render (merge line n (runs lines))
unfolding collapse_from
collapse_from-runs line n [] = refl
collapse_from-runs line n (next ∷ lines) = elim (Bool-cases (str_eq next line)) [
  | inl same ↦ rw same (
      rw ((eq_iff next line).0 same)
        (rw (merge-merge line n 1 (runs lines)) (collapse_from-runs line (n + 1) lines)))
  | inr apart ↦ rw apart (
      rw (merge_apart line next n 1 (runs lines) apart)
        (ap (◌∷◌ (collapsed_line line n)) (collapse_from-runs next 1 lines)))
]

repeated-append :
    (line : String) (n m : ℕ) (rest : List String)
    → repeated (n + m) line ++ rest ≡ repeated n line ++ (repeated m line ++ rest)
unfolding repeated
repeated-append line zero m rest = let start : 0 + m ≡ m = omega arith in rw start refl
repeated-append line (suc n) m rest =
    let next : suc n + m ≡ suc (n + m) = omega arith in
    rw next (ap (◌∷◌ line) (repeated-append line n m rest))

expand-merge :
    (line : String) (n : ℕ) (rs : List (String × ℕ))
    → expand (merge line n rs) ≡ repeated n line ++ expand rs
expand-merge line n [] = refl
expand-merge line n ((other, m) ∷ rest) = elim (Bool-cases (str_eq other line)) [
  | inl same ↦ rw same (rw ((eq_iff other line).0 same) (repeated-append line n m (expand rest)))
  | inr apart ↦ rw apart refl
]

expand-runs : (lines : List String) → expand (runs lines) ≡ lines
unfolding repeated
expand-runs [] = refl
expand-runs (line ∷ lines) =
    rw (expand-merge line 1 (runs lines)) (ap (◌∷◌ line) (expand-runs lines))

merge-IsMaximal :
    (line : String) (n : ℕ) (rs : List (String × ℕ))
    → 1 ≤ n
    → IsMaximal rs
    → IsMaximal (merge line n rs)
merge-IsMaximal line n [] positive h = positive
merge-IsMaximal line n ((other, m) ∷ []) positive h = elim (Bool-cases (str_eq other line)) [
  | inl same ↦ rw same omega arith
  | inr apart ↦ rw apart (positive, apart, h)
]
merge-IsMaximal line n ((other, m) ∷ (third, k) ∷ rest) positive h =
    elim (Bool-cases (str_eq other line)) [
      | inl same ↦ rw same (omega arith, rw (← (eq_iff other line).0 same) h.1, h.2)
      | inr apart ↦ rw apart (positive, apart, h)
    ]

runs-IsMaximal : (lines : List String) → IsMaximal (runs lines)
runs-IsMaximal [] = tt
runs-IsMaximal (line ∷ lines) =
    merge-IsMaximal line 1 (runs lines) (omega arith) (runs-IsMaximal lines)

-- The loop over the lines, with its running count, is a rendering of the maximal runs of equal lines:
-- the runs put back together are the lines, no run is empty, and no two neighbouring runs are of the
-- same line.
pub collapse_consecutive-runs :
    (lines : List String)
    → (collapse_consecutive lines ≡ map render (runs lines))
      × (expand (runs lines) ≡ lines)
      × IsMaximal (runs lines)
unfolding collapse_consecutive
collapse_consecutive-runs [] = (refl, refl, tt)
collapse_consecutive-runs (line ∷ lines) =
    (collapse_from-runs line 1 lines, expand-runs (line ∷ lines), runs-IsMaximal (line ∷ lines))
