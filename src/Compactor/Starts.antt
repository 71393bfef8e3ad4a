-- ===== src/Compactor/Starts.antt =====
-- The indices of the user messages: where they point, and that they grow.
use Prim.Native.Nat.add
use token_terminator.Common.{
  ℕ, zero, suc, ◌+◌, ◌≤◌, ◌≡◌, refl, Bool, true, arith, ok, Bool-cases, inl, inr, ap,
}
use token_terminator.Json.{Value, Items, nil, item}
use token_terminator.Compactor.Turns.{rest_items, append_items, turn_starts, start_at}

pub append_items_nil : (xs : Items) → append_items xs nil ≡ xs
unfolding append_items
append_items_nil nil = refl
append_items_nil (item x xs) = ap (item x) (append_items_nil xs)

pub append_items_assoc :
    (xs ys zs : Items) → append_items (append_items xs ys) zs ≡ append_items xs (append_items ys zs)
unfolding append_items
append_items_assoc nil ys zs = refl
append_items_assoc (item x xs) ys zs = ap (item x) (append_items_assoc xs ys zs)

pub rest_items_nil : (n : ℕ) → rest_items n nil ≡ nil
unfolding rest_items
rest_items_nil zero = refl
rest_items_nil (suc n) = refl

pub rest_items-rest_items :
    (n m : ℕ) (xs : Items) → rest_items n (rest_items m xs) ≡ rest_items (m + n) xs
unfolding rest_items
rest_items-rest_items n zero xs = ground arith
rest_items-rest_items n (suc m) nil = ground (arith, rest_items_nil n, rest_items_nil (suc m + n))
rest_items-rest_items n (suc m) (item x xs) = rw add.suc (rest_items-rest_items n m xs)

-- What stands at an index
pub data Holds (P : Value → Bool) (n : ℕ) (xs : Items) : Type 0 where
  holds : (v : Value) (later : Items) → rest_items n xs ≡ item v later → P v ≡ true → Holds P n xs

module _ (test : Value → Bool) where
  pub start_at-le :
      (k i : ℕ) (xs : Items) (j : ℕ) → start_at k (turn_starts test i xs) ≡ ok j → i ≤ j
  unfolding start_at turn_starts
  start_at-le k i nil j h = absurd (ground arith)
  start_at-le zero i (item x xs) j h = elim (Bool-cases (test x)) [
    | inl here ↦ ground arith
    | inr later ↦ omega (arith, start_at-le zero (suc i) xs j (ground arith))
  ]
  start_at-le (suc k) i (item x xs) j h = elim (Bool-cases (test x)) [
    | inl here ↦ omega (arith, start_at-le k (suc i) xs j (ground arith))
    | inr later ↦ omega (arith, start_at-le (suc k) (suc i) xs j (ground arith))
  ]

  -- A later start is no smaller.
  pub start_at_monotone :
      (k m i : ℕ) (xs : Items) (a b : ℕ)
      → k ≤ m
      → start_at k (turn_starts test i xs) ≡ ok a
      → start_at m (turn_starts test i xs) ≡ ok b
      → a ≤ b
  unfolding start_at turn_starts
  start_at_monotone k m i nil a b le h g = absurd (ground arith)
  start_at_monotone zero m i (item x xs) a b le h g = elim (Bool-cases (test x)) [
    | inl here ↦
        let first : a ≡ i = ground arith in omega (arith, first, start_at-le m i (item x xs) b g)
    | inr later ↦ start_at_monotone zero m (suc i) xs a b le (ground arith) (ground arith)
  ]
  start_at_monotone (suc k) zero i (item x xs) a b le h g = absurd (omega arith)
  start_at_monotone (suc k) (suc m) i (item x xs) a b le h g = elim (Bool-cases (test x)) [
    | inl here ↦ start_at_monotone k m (suc i) xs a b (omega arith) (ground arith) (ground arith)
    | inr later ↦ start_at_monotone (suc k) (suc m) (suc i) xs a b le (ground arith) (ground arith)
  ]

  Holds-next :
      (i j : ℕ) (x : Value) (xs : Items)
      → (d : ℕ) × (j ≡ suc i + d) × Holds test d xs
      → (d : ℕ) × (j ≡ i + d) × Holds test d (item x xs)
  unfolding rest_items
  Holds-next i j x xs (d, e, holds v later at passes) =
      (suc d, omega (arith, e), holds v later at passes)

  -- A start is the index of an item that passes the test.
  pub start_at-Holds :
      (k i : ℕ) (xs : Items) (j : ℕ)
      → start_at k (turn_starts test i xs) ≡ ok j
      → (d : ℕ) × (j ≡ i + d) × Holds test d xs
  unfolding start_at turn_starts rest_items
  start_at-Holds k i nil j h = absurd (ground arith)
  start_at-Holds zero i (item x xs) j h = elim (Bool-cases (test x)) [
    | inl here ↦ (0, ground arith, holds x xs refl here)
    | inr later ↦ Holds-next i j x xs (start_at-Holds zero (suc i) xs j (ground arith))
  ]
  start_at-Holds (suc k) i (item x xs) j h = elim (Bool-cases (test x)) [
    | inl here ↦ Holds-next i j x xs (start_at-Holds k (suc i) xs j (ground arith))
    | inr later ↦ Holds-next i j x xs (start_at-Holds (suc k) (suc i) xs j (ground arith))
  ]
