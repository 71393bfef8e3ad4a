-- ===== src/Compress/Bounds.antt =====
-- The sizes of what `compact_text` makes.
use Prim.Native.Char.{Char, code}
use Prim.Native.String as Chars
use text.Mathlib.TextLemmas.{length-nil, length-cons}
use token_terminator.Common.{
  ℕ, zero, suc, ◌+◌, ◌≤◌, max, String, ◌+++◌, count, ◌≡◌, List, [], ◌∷◌, leb, leb→le, leb→lt, ◌==◌,
  str_eq, eq_iff, count-take, sum_by, splitlines, cons_head, join, arith, Bool-cases, Option-cases,
  inl, inr, count-append,
}
use token_terminator.Compress.{
  escape, without_ansi, repeated, collapsed_line, collapse_from, collapse_consecutive, cut,
  compact_text, marker,
}

-- The size of lines, each with its newline.
abbrev size : List String → ℕ
size = sum_by (λ s. count s + 1)

count-join : (s : String) (ss : List String) → count (join "\n" (s ∷ ss)) + 1 ≡ size (s ∷ ss)
unfolding join
count-join s [] = omega arith
count-join s (t ∷ ss) = omega (
  arith,
  count-append s ("\n" +++ join "\n" (t ∷ ss)),
  count-append "\n" (join "\n" (t ∷ ss)),
  count-join t ss,
)

collapsed_line-le :
    (line : String) (n : ℕ) → 1 ≤ n → count (collapsed_line line n) + 1 ≤ size (repeated n line)
unfolding collapsed_line repeated
collapsed_line-le line zero positive = absurd (omega arith)
collapsed_line-le line (suc n) positive = ground (arith, count-join line (repeated n line))

size-repeated :
    (line : String) (n : ℕ) → size (repeated (n + 1) line) ≡ size (repeated n line) + count line + 1
unfolding repeated
size-repeated line n = let next : n + 1 ≡ suc n = omega arith in rw next omega arith

size_one : (s : String) → size (repeated 1 s) ≡ count s + 1
unfolding repeated
size_one s = omega arith

collapse_from-le :
    (line : String) (n : ℕ) (lines : List String)
    → 1 ≤ n
    → size (collapse_from line n lines) ≤ size (repeated n line) + size lines
unfolding collapse_from
collapse_from-le line n [] positive = omega (arith, collapsed_line-le line n positive)
collapse_from-le line n (next ∷ lines) positive = elim (Bool-cases (str_eq next line)) [
  | inl same ↦ rw same (
      rw ((eq_iff next line).0 same) omega
        (arith, collapse_from-le line (n + 1) lines, size-repeated line n, positive))
  | inr apart ↦ rw apart omega (
    arith,
    collapsed_line-le line n positive,
    collapse_from-le next 1 lines (omega arith),
    size_one next,
  )
]

size-cons_head : (c : Char) (ls : List String) → size (cons_head c ls) ≤ max 2 (size ls + 1)
size-cons_head c [] = omega (arith, length-cons c Chars.[], length-nil)
size-cons_head c (l ∷ ls) = omega (arith, length-cons c l)

splitlines-le : (s : String) → size (splitlines s) ≤ count s + 1
unfolding splitlines
splitlines-le Chars.[] = omega (arith, length-nil)
splitlines-le (Chars.◌∷◌ c Chars.[]) = ground (arith, length-cons c Chars.[], length-nil)
splitlines-le (Chars.◌∷◌ c (Chars.◌∷◌ d s)) = ground (
  arith,
  length-cons c (Chars.◌∷◌ d s),
  length-cons d s,
  length-nil,
  splitlines-le (Chars.◌∷◌ d s),
  splitlines-le s,
  size-cons_head c (splitlines (Chars.◌∷◌ d s)),
)

without_ansi-le : (skip : ℕ) (s : String) → count (without_ansi skip s) ≤ count s
unfolding without_ansi
without_ansi-le skip Chars.[] = omega (arith, length-nil)
without_ansi-le (suc skip) (Chars.◌∷◌ c s) = omega (arith, length-cons c s, without_ansi-le skip s)
without_ansi-le zero (Chars.◌∷◌ c s) = elim (Bool-cases (code c == 27)) [
  | inr plain ↦
      rw plain omega (arith, length-cons c s, length-cons c (without_ansi 0 s), without_ansi-le 0 s)
  | inl begins ↦ elim (Option-cases (escape 0 s)) [
    | inl unmatched ↦
        rw (begins, unmatched) omega
          (arith, length-cons c s, length-cons c (without_ansi 0 s), without_ansi-le 0 s)
    | inr (n, matched) ↦ rw (begins, matched) omega (arith, length-cons c s, without_ansi-le n s)
  ]
]

join-le : (lines : List String) → count (join "\n" lines) + 1 ≤ max 1 (size lines)
unfolding join
join-le [] = omega (arith, length-nil)
join-le (line ∷ lines) = omega (arith, count-join line lines)

collapse_consecutive-le :
    (lines : List String) → count (join "\n" (collapse_consecutive lines)) + 1 ≤ max 1 (size lines)
unfolding collapse_consecutive join
collapse_consecutive-le [] = omega arith
collapse_consecutive-le (line ∷ lines) = omega (
  arith,
  join-le (collapse_from line 1 lines),
  collapse_from-le line 1 lines (omega arith),
  size_one line,
)

cut-le : (max_chars : ℕ) (collapsed : String) → count (cut max_chars collapsed) ≤ max_chars
unfolding cut
cut-le max_chars collapsed = elim (Bool-cases (leb max_chars (count marker))) [
  | inl short ↦ rw short omega (arith, count-take max_chars marker)
  | inr long ↦ rw long omega (arith, count-take max_chars _)
]

-- The compacted text exceeds neither the text nor the bound (of at least one character).
pub compact_text-le :
    (text : String) (max_chars : ℕ)
    → (count (compact_text text max_chars) ≤ count text)
      × (count (compact_text text max_chars) ≤ max 1 max_chars)
unfolding compact_text
compact_text-le text max_chars =
    let clean = without_ansi 0 text in
    let collapsed = join "\n" (collapse_consecutive (splitlines clean)) in
    let small : count collapsed ≤ count text = omega (
      arith,
      collapse_consecutive-le (splitlines clean),
      splitlines-le clean,
      without_ansi-le 0 text,
    ) in
    elim (Bool-cases (leb (count collapsed) (max 1 max_chars))) [
      | inl fits ↦ rw fits (small, leb→le _ _ fits)
      | inr over ↦ rw over (
        omega (arith, small, leb→lt _ _ over, cut-le (max 1 max_chars) collapsed),
        cut-le (max 1 max_chars) collapsed,
      )
    ]
