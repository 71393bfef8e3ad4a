-- ===== src/Budget/Omissions.antt =====
-- The chat target's budget and its omissions (chat_target.py): `input_budget` and `_minimum_omissions`.
use Prim.Native.Char.{Char}
use token_terminator.Common.{
  ℕ, zero, suc, ◌+◌, ◌-◌, String, Bool, true, false, ◌&&◌, ◌||◌, not, Option, none, some, List, [],
  ◌∷◌, ◌++◌, max, min, filter, leb, ltb, ◌==◌, if◌then◌else◌, starts_with, Result, ok, raise,
  value_error, index_error, attribute_error, key_error, type_error, ◌>>=◌, ◌>>◌, raise_if,
}
use token_terminator.Json.{
  Value, null, boolean, number, text, array, object, Items, nil, item, Fields, get, has, set,
}
use token_terminator.Compiler.Slots.{is_text}
use token_terminator.Compactor.Turns.{size}
use token_terminator.Guards.Patterns.{protected_prose}
use token_terminator.Guards.Messages.{plain_message}
use token_terminator.Budget.Measure.{Window}

-- type(value) is int and value > 0
unfoldable pub positive_int : Value → Option ℕ
positive_int (number q) =
    if q.is_float || q.negative || q.numerator == 0 then none else some q.numerator
positive_int null = none
positive_int (boolean b) = none
positive_int (text s) = none
positive_int (array xs) = none
positive_int (object fs) = none

-- The entries that are positive integers
unfoldable pub positive_ints : List Value → List ℕ
positive_ints [] = []
positive_ints (v ∷ vs) = elim (positive_int v) [
  | some n ↦ n ∷ positive_ints vs
  | none ↦ positive_ints vs
]

unfoldable pub minimum : ℕ → List ℕ → ℕ
minimum n [] = n
minimum n (m ∷ ms) = minimum (min n m) ms

unfoldable pub maximum : ℕ → List ℕ → ℕ
maximum n [] = n
maximum n (m ∷ ms) = maximum (max n m) ms

-- The engine's model and context length
pub record Engine : Type 0 where
  pub model : String
  pub context_length : ℕ

unfoldable pub engine_window : Fields → Option Engine → List ℕ
engine_window request none = []
engine_window request (some e) =
    if is_text e.model (get "model" request) then e.context_length ∷ [] else []

-- The windows that are known for the actual target
unfoldable pub windows : Window → Fields → Value → Option Engine → List ℕ
windows w request length engine =
    filter (ltb 0)
      (w.context_limit_tokens ∷ (positive_ints (length ∷ []) ++ engine_window request engine))

unfoldable pub output_reserve : Window → Fields → ℕ
output_reserve w request = maximum w.output_reserve_tokens (
    positive_ints (
      get "max_tokens" request
      ∷ get "max_completion_tokens" request
      ∷ get "max_output_tokens" request
      ∷ []))

-- `input_budget`; `length` is context.get("context_length").
unfoldable pub input_budget : Window → Fields → Value → Option Engine → Option ℕ
input_budget w request length engine = elim (windows w request length engine) [
  | [] ↦ none
  | n ∷ ns ↦ some (minimum n ns - output_reserve w request - w.safety_margin_tokens)
]

abbrev pub items_at : String → Fields → Items
items_at key fs = elim (get key fs) [ array xs ↦ xs | _ ↦ nil ]

abbrev pub history_key : Fields → String
history_key original = if has "messages" original then "messages" else "input"

-- original[key], which the loop takes the length of: a list. Without one the call ends in an exception.
unfoldable pub history_of : String → Fields → Result Items
history_of key fs = elim (get key fs) [
  | array xs ↦ ok xs
  | _ ↦ raise (if has key fs then type_error else key_error)
]

-- xs[i] = new
unfoldable pub set_item : ℕ → Value → Items → Option Items
set_item i new nil = none
set_item zero new (item v vs) = some (item new vs)
set_item (suc i) new (item v vs) = elim (set_item i new vs) [
  | none ↦ none
  | some ws ↦ some (item v ws)
]

-- The rest of the loop, on the trial where one is taken
abbrev pub next_round :
    (Fields → ℕ → Result (Fields × ℕ)) → Fields → ℕ → Option Fields → Result (Fields × ℕ)
next_round rest working omitted none = rest working omitted
next_round rest working omitted (some trial) = rest trial (omitted + 1)

-- The parameters: those of the guards; `==` of values; the length of the canonical `json.dumps`; and the
-- measurement that the caller brings, which may raise.
module _ (is_word : Char → Bool) (same_letter : Char → Char → Bool) (lower : String → String)
    (equal : Value → Value → Bool) (encoded : Value → ℕ) (measure : Value → Result ℕ) where
  -- The tests on the candidate, once the item is a plain message
  unfoldable pub is_receipt : Value → Fields → Value → Bool
  is_receipt (text s) fs candidate =
      (starts_with s "[TT history " || starts_with s "[Token Terminator artifact ")
      && not (equal candidate (object fs))
  is_receipt null fs candidate = false
  is_receipt (boolean b) fs candidate = false
  is_receipt (number q) fs candidate = false
  is_receipt (array xs) fs candidate = false
  is_receipt (object gs) fs candidate = false

  unfoldable pub is_guarded : Value → Bool
  is_guarded (text s) = protected_prose is_word same_letter lower s
  is_guarded null = false
  is_guarded (boolean b) = false
  is_guarded (number q) = false
  is_guarded (array xs) = false
  is_guarded (object fs) = false

  -- The tests on a candidate for an item that is not guarded
  unfoldable pub is_candidate : Fields → Value → Result Bool
  is_candidate fs (object cs) =
      ok (equal (get "role" cs) (get "role" fs) && is_receipt (get "content" cs) fs (object cs))
  is_candidate fs null = raise attribute_error
  is_candidate fs (boolean b) = raise attribute_error
  is_candidate fs (number q) = raise attribute_error
  is_candidate fs (text s) = raise attribute_error
  is_candidate fs (array xs) = raise attribute_error

  unfoldable pub replaces_plain : Bool → Value → Value → Result Bool
  replaces_plain true (object fs) candidate =
      if is_guarded (get "content" fs) then ok false else is_candidate fs candidate
  replaces_plain false it candidate = ok false
  replaces_plain true null candidate = ok false
  replaces_plain true (boolean b) candidate = ok false
  replaces_plain true (number q) candidate = ok false
  replaces_plain true (text s) candidate = ok false
  replaces_plain true (array xs) candidate = ok false

  -- Whether a candidate may stand in for an item: the `if` of the loop
  unfoldable pub may_replace : Value → Value → Result Bool
  may_replace it candidate = do
    plain ← plain_message is_word same_letter lower it
    replaces_plain plain it candidate

  -- The trial, where it is smaller by both measures
  unfoldable pub smaller_trial : Fields → Fields → Result (Option Fields)
  smaller_trial working trial = do
    trial_tokens ← measure (object trial)
    working_tokens ← measure (object working)
    ok (
        if ltb trial_tokens working_tokens
          && ltb (encoded (object trial)) (encoded (object working))
        then some trial
        else none)

  -- trial[key][i] = candidate
  unfoldable pub try_item : String → ℕ → Value → Fields → Result (Option Fields)
  try_item key i candidate working = elim (set_item i candidate (items_at key working)) [
    | none ↦ raise index_error
    | some xs ↦ smaller_trial working (set key (array xs) working)
  ]

  -- One round on an item and its candidate, under pressure: the trial that is taken, if one is
  unfoldable pub omit_item : String → ℕ → Value → Value → Fields → Result (Option Fields)
  omit_item key i it candidate working = do
    allowed ← may_replace it candidate
    if allowed then try_item key i candidate working else ok none

  -- The loop from index i on, for n more items of the source and the proposal
  unfoldable pub omit_loop : String → ℕ → ℕ → ℕ → Items → Items → Fields → ℕ → Result (Fields × ℕ)
  omit_loop key budget zero i source proposal working omitted = ok (working, omitted)
  omit_loop key budget (suc n) i nil proposal working omitted = ok (working, omitted)
  omit_loop key budget (suc n) i (item s ss) nil working omitted = ok (working, omitted)
  omit_loop key budget (suc n) i (item s ss) (item p ps) working omitted =
      let on = λ (next : Option Fields).
        next_round (omit_loop key budget n (suc i) ss ps) working omitted next in
      do
        tokens ← measure (object working)
        if leb tokens budget then ok (working, omitted) else (omit_item key i s p working >>= on)

  -- `_minimum_omissions`
  unfoldable pub minimum_omissions : Fields → Fields → Fields → ℕ → ℕ → Result (Fields × ℕ)
  minimum_omissions original working proposal budget protect_last =
      let key = history_key original in
      do
        source ← history_of key original
        candidates ← history_of key proposal
        raise_if (not (size source == size candidates)) value_error
        omit_loop key budget (size source - protect_last) 0 source candidates working 0
