-- ===== src/Budget/Tail.antt =====
-- What omissions (chat_target.py) leave alone, and how much they save.
use Prim.Native.Char.{Char}
use token_terminator.Common.{
  ℕ, zero, suc, ◌+◌, ◌-◌, ◌≤◌, ◌<◌, String, ◌≡◌, refl, Bool, some, arith, str_eq, eq_refl, Result,
  ok, Bool-cases, Option-cases, inl, inr, ap, ◌∙◌,
}
use token_terminator.Json.{Value, array, object, Items, nil, item, Fields, end, field, get, set}
use token_terminator.Compactor.Turns.{size, rest_items}
use token_terminator.Budget.Omissions.{items_at, set_item, history_key, minimum_omissions}
use token_terminator.Budget.Pressure.{Omits, none_more, omit, minimum_omissions-Omits}

get-set : (key : String) (v : Value) (fs : Fields) → get key (set key v fs) ≡ v
unfolding get set
get-set key v end = ground (arith, eq_refl key)
get-set key v (field k w rest) = elim (Bool-cases (str_eq k key)) [
  | inl here ↦ ground arith
  | inr later ↦ ground (arith, get-set key v rest)
]

set_item-rest :
    (i limit : ℕ) (new : Value) (xs ys : Items)
    → i < limit
    → set_item i new xs ≡ some ys
    → rest_items limit ys ≡ rest_items limit xs
unfolding set_item rest_items
set_item-rest i zero new xs ys below h = absurd (omega arith)
set_item-rest i (suc limit) new nil ys below h = absurd (ground arith)
set_item-rest zero (suc limit) new (item x xs) ys below h = ground arith
set_item-rest (suc i) (suc limit) new (item x xs) ys below h =
    elim (Option-cases (set_item i new xs)) [
      | inl outside ↦ absurd (ground arith)
      | inr (zs, placed) ↦
          let whole : ys ≡ item x zs = ground arith in
          rw whole (set_item-rest i limit new xs zs (omega arith) placed)
    ]

module _ (is_word : Char → Bool) (same_letter : Char → Char → Bool) (lower : String → String)
    (equal : Value → Value → Bool) (encoded : Value → ℕ) (measure : Value → Result ℕ) where
  Omits-tail :
      (key : String) (budget limit : ℕ) (source proposal : Items) {w u : Fields} {n : ℕ}
      → Omits is_word same_letter lower equal encoded measure key budget limit source proposal w u n
      → (rest_items limit (items_at key u) ≡ rest_items limit (items_at key w))
        × (encoded (object u) + n ≤ encoded (object w))
  Omits-tail key budget limit source proposal (none_more w) = (refl, omega arith)
  Omits-tail key budget limit source proposal (omit {w} {t} {u} one more) =
      let (tail, sum) = Omits-tail key budget limit source proposal more in
      let wrote : get key t ≡ array one.rest =
        ap (get key) one.written ∙ get-set key (array one.rest) w in
      let items : items_at key t ≡ one.rest = ap (λ v. elim v [ array xs ↦ xs | _ ↦ nil ]) wrote in
      (
        tail
            ∙ (ap (rest_items limit) items
                ∙ set_item-rest one.index limit one.candidate (items_at key w) one.rest one.below
                    one.placed),
        omega (arith, sum, one.shorter),
      )

  -- Omissions never reach the last messages, whose number the caller protects: where `_minimum_omissions`
  -- returns, those of the working request are as they were, and the encoding of the request is shorter by
  -- at least one for each omission.
  pub minimum_omissions-tail :
      (original working proposal u : Fields) (budget protect_last m : ℕ)
      → minimum_omissions is_word same_letter lower equal encoded measure original working proposal
          budget protect_last
        ≡ ok (u, m)
      → (rest_items
            (size (items_at (history_key original) original) - protect_last)
            (items_at (history_key original) u)
          ≡ rest_items
              (size (items_at (history_key original) original) - protect_last)
              (items_at (history_key original) working))
        × (encoded (object u) + m ≤ encoded (object working))
  minimum_omissions-tail original working proposal u budget protect_last m h =
      let key = history_key original in
      let source = items_at key original in
      Omits-tail key budget (size source - protect_last) source (items_at key proposal) (
        minimum_omissions-Omits is_word same_letter lower equal encoded measure original working
          proposal u budget protect_last m h)
