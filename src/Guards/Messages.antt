-- ===== src/Guards/Messages.antt =====
-- The vetoes of context_safety.py on messages, and the history that they apply to.
use Prim.Native.Char.{Char}
use token_terminator.Common.{
  ℕ, suc, String, Bool, true, false, ◌&&◌, ◌||◌, not, Option, none, some, Result, ok, raise,
  type_error, if◌then◌else◌, str_eq,
}
use token_terminator.Json.{
  Value, null, boolean, number, text, array, object, Items, nil, item, Fields, end, field, get, has,
}
use token_terminator.Compiler.Slots.{is_text}
use token_terminator.Compactor.Turns.{is_user}
use token_terminator.Guards.Patterns.{has_receipt}

-- The parameters of the patterns
module _ (is_word : Char → Bool) (same_letter : Char → Char → Bool) (lower : String → String) where
  -- The keys of a plain message
  unfoldable pub plain_keys : Fields → Bool
  plain_keys end = true
  plain_keys (field k v rest) =
      (str_eq k "role" || str_eq k "content" || str_eq k "name" || str_eq k "type")
      && plain_keys rest

  -- The content of a plain message
  unfoldable pub plain_content : Value → Bool
  plain_content (text s) = not (has_receipt is_word same_letter lower s)
  plain_content null = false
  plain_content (boolean b) = false
  plain_content (number q) = false
  plain_content (array xs) = false
  plain_content (object fs) = false

  unfoldable pub plain_fields : Fields → Bool
  plain_fields fs =
      (is_text "user" (get "role" fs) || is_text "assistant" (get "role" fs))
      && plain_keys fs
      && (if has "type" fs then is_text "message" (get "type" fs) else true)
      && plain_content (get "content" fs)

  -- A list or a dictionary has no hash, so it cannot be looked for in a set.
  unfoldable pub is_hashable : Value → Bool
  is_hashable (array xs) = false
  is_hashable (object fs) = false
  is_hashable null = true
  is_hashable (boolean b) = true
  is_hashable (number q) = true
  is_hashable (text s) = true

  -- `plain_message`
  unfoldable pub plain_message : Value → Result Bool
  plain_message (object fs) =
      if is_hashable (get "role" fs) then ok (plain_fields fs) else raise type_error
  plain_message null = ok false
  plain_message (boolean b) = ok false
  plain_message (number q) = ok false
  plain_message (text s) = ok false
  plain_message (array xs) = ok false

-- The last user message of a list, by its index from a start on
unfoldable pub latest_user : ℕ → Items → Option (ℕ × Value)
latest_user i nil = none
latest_user i (item v vs) = elim (latest_user (suc i) vs) [
  | some found ↦ some found
  | none ↦ if is_user v then some (i, v) else none
]

-- The history under a key, where its last user message has a text
unfoldable pub history_under : String → Items → Option (ℕ × Value) → Option (String × Items × ℕ)
history_under key xs none = none
history_under key xs (some (i, object fs)) = elim (get "content" fs) [
  | text s ↦ some (key, xs, i)
  | _ ↦ none
]
history_under key xs (some (i, other)) = none

unfoldable pub history_in : Value → Value → Option (String × Items × ℕ)
history_in (array xs) (array ys) = none
history_in (array xs) other = history_under "messages" xs (latest_user 0 xs)
history_in other (array ys) = history_under "input" ys (latest_user 0 ys)
history_in other another = none

-- `history_items`: the key, the items and the index of the last user message; `none` is ("", [], -1).
unfoldable pub history_items : Value → Option (String × Items × ℕ)
history_items (object fs) = history_in (get "messages" fs) (get "input" fs)
history_items null = none
history_items (boolean b) = none
history_items (number q) = none
history_items (text s) = none
history_items (array xs) = none
