-- ===== src/Common/Texts.antt =====
-- Python's `str` as the native `String`, a list of characters: `count` is `len(s)`, and `len` is
-- `len(s.encode("utf-8"))`. Slices are by clauses.
use Prim.Native.Nat.{ℕ, zero, suc, ◌+◌, ◌-◌, ◌≤◌, min}
use Prim.Native.Nat.add
use Prim.Native.String.{String, [], ◌∷◌, ◌++◌, count}
use mathlib.Core.Path.{◌≡◌, refl, sym, ap, ◌∙◌}
use native.Mathlib.Omega.{arith}
use text.Mathlib.TextLemmas.{length-nil, length-cons, nil-append, cons-append}

-- s[:n]
unfoldable pub take : ℕ → String → String
take zero s = []
take (suc n) [] = []
take (suc n) (c ∷ s) = c ∷ take n s

-- s[n:]
unfoldable pub drop : ℕ → String → String
drop zero s = s
drop (suc n) [] = []
drop (suc n) (c ∷ s) = drop n s

pub count-take : (n : ℕ) (s : String) → count (take n s) ≡ min n (count s)
unfolding take
count-take zero s = omega (arith, length-nil)
count-take (suc n) [] = omega (arith, length-nil)
count-take (suc n) (c ∷ s) =
    omega (arith, length-cons c (take n s), length-cons c s, count-take n s)

pub count-drop : (n : ℕ) (s : String) → count (drop n s) ≡ count s - n
unfolding drop
count-drop zero s = omega arith
count-drop (suc n) [] = omega (arith, length-nil)
count-drop (suc n) (c ∷ s) = omega (arith, length-cons c s, count-drop n s)

pub take-append-drop : (n : ℕ) (s : String) → take n s ++ drop n s ≡ s
unfolding take drop
take-append-drop zero s = nil-append s
take-append-drop (suc n) [] = nil-append []
take-append-drop (suc n) (c ∷ s) =
    cons-append c (take n s) (drop n s) ∙ ap (◌∷◌ c) (take-append-drop n s)

drop-nil : (n : ℕ) → drop n [] ≡ []
unfolding drop
drop-nil zero = refl
drop-nil (suc n) = refl

pub drop-drop : (n m : ℕ) (s : String) → drop n (drop m s) ≡ drop (m + n) s
unfolding drop
drop-drop n zero s = rw add.zero
drop-drop n (suc m) [] = drop-nil n ∙ sym (drop-nil (suc m + n))
drop-drop n (suc m) (c ∷ s) = rw add.suc (drop-drop n m s)

pub take_all : (n : ℕ) (s : String) → count s ≤ n → take n s ≡ s
unfolding take
take_all zero [] h = refl
take_all (suc n) [] h = refl
take_all zero (c ∷ s) h = absurd (omega (arith, length-cons c s))
take_all (suc n) (c ∷ s) h = ap (◌∷◌ c) (take_all n s (omega (arith, length-cons c s)))
