-- ===== src/Common/Strings.antt =====
-- The methods of `str` that the source uses, over the native `String`.
use Prim.Native.Nat.{ℕ, zero, suc, ◌/◌, ◌%◌, ◌≤◌}
use Prim.Native.Char.{Char, code}
use Prim.Native.String.{String, [], ◌∷◌, ◌++◌, count}
use mathlib.Core.Bool.{Bool, ◌&&◌, ◌||◌}
use mathlib.Core.List.{List}
use native.Mathlib.Omega.{arith}
use text.Mathlib.Text.{◌==◌ as str_eq}
use text.Mathlib.TextLemmas.{length-nil, length-cons}
use mathlib.Core.Logic.{inl, inr}
use token_terminator.Common.Tests.{leb, ltb, ◌==◌, if◌then◌else◌, Bool-cases}

-- str.isspace of one character
unfoldable pub is_space : Char → Bool
is_space c =
    let n = code c in
    (leb 9 n && leb n 13)
    || (leb 28 n && leb n 32)
    || n == 133
    || n == 160
    || n == 5760
    || (leb 8192 n && leb n 8202)
    || n == 8232
    || n == 8233
    || n == 8239
    || n == 8287
    || n == 12288

-- s.lstrip(chars), for a test of the characters
unfoldable pub lstrip_by : (Char → Bool) → String → String
lstrip_by test [] = []
lstrip_by test (c ∷ s) = if test c then lstrip_by test s else c ∷ s

-- s.rstrip(chars)
unfoldable pub rstrip_by : (Char → Bool) → String → String
rstrip_by test [] = []
rstrip_by test (c ∷ s) =
    let rest = rstrip_by test s in if str_eq rest [] && test c then [] else c ∷ rest

unfoldable pub rstrip : String → String
unfolding rstrip_by is_space
rstrip = rstrip_by is_space

unfoldable pub strip : String → String
unfolding rstrip lstrip_by
strip s = lstrip_by is_space (rstrip s)

pub count-lstrip_by-le : (test : Char → Bool) (s : String) → count (lstrip_by test s) ≤ count s
unfolding lstrip_by
count-lstrip_by-le test [] = omega (arith, length-nil)
count-lstrip_by-le test (c ∷ s) = ground (arith, length-cons c s, count-lstrip_by-le test s)

pub count-rstrip_by-le : (test : Char → Bool) (s : String) → count (rstrip_by test s) ≤ count s
unfolding rstrip_by
count-rstrip_by-le test [] = omega (arith, length-nil)
count-rstrip_by-le test (c ∷ s) = elim (Bool-cases (str_eq (rstrip_by test s) [] && test c)) [
  | inl e ↦ rw e omega (arith, length-nil)
  | inr e ↦
      rw e omega
        (arith, length-cons c s, length-cons c (rstrip_by test s), count-rstrip_by-le test s)
]

-- s.replace("\n", " ")
unfoldable pub one_line : String → String
one_line [] = []
one_line (c ∷ s) = if code c == 10 then " " ++ one_line s else c ∷ one_line s

-- The characters at which `str.splitlines` breaks; "\r\n" is one break.
unfoldable pub is_break : Char → Bool
is_break c =
    let n = code c in
    (leb 10 n && leb n 13) || (leb 28 n && leb n 30) || n == 133 || n == 8232 || n == 8233

abbrev pub cons_head : Char → List String → List String
cons_head c List.[] = List.◌∷◌ (c ∷ []) List.[]
cons_head c (List.◌∷◌ l ls) = List.◌∷◌ (c ∷ l) ls

-- s.splitlines()
unfoldable pub splitlines : String → List String
unfolding is_break
splitlines [] = List.[]
splitlines (c ∷ []) = if is_break c then List.◌∷◌ [] List.[] else List.◌∷◌ (c ∷ []) List.[]
splitlines (c ∷ d ∷ s) =
    let after = splitlines (d ∷ s) in
    let skip = splitlines s in
    if code c == 13 && code d == 10
    then List.◌∷◌ [] skip
    else if is_break c
    then List.◌∷◌ [] after
    else cons_head c after

-- sep.join(parts)
unfoldable pub join : String → List String → String
join sep List.[] = []
join sep (List.◌∷◌ s List.[]) = s
join sep (List.◌∷◌ s (List.◌∷◌ t rest)) = s ++ (sep ++ join sep (List.◌∷◌ t rest))

-- str(n), with fuel for its digits
unfoldable pub print_from : ℕ → ℕ → String → String
print_from zero n acc = acc
print_from (suc fuel) n acc =
    let digit = digit_text (n % 10) in
    let rest = print_from fuel (n / 10) (digit ++ acc) in if ltb n 10 then digit ++ acc else rest
  where
    digit_text : ℕ → String
    digit_text d =
        if d == 0
        then "0"
        else if d == 1
        then "1"
        else if d == 2
        then "2"
        else if d == 3
        then "3"
        else if d == 4
        then "4"
        else if d == 5
        then "5"
        else if d == 6
        then "6"
        else if d == 7
        then "7"
        else if d == 8
        then "8"
        else "9"

unfoldable pub print : ℕ → String
unfolding print_from
print n = print_from (suc n) n []
