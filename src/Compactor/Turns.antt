-- ===== src/Compactor/Turns.antt =====
-- Turns of a conversation (context_compactor.py): the indices of the user messages, the calls that a tool
-- result answers, and the receipt that stands in for it.
use Prim.Native.Char.{Char}
use token_terminator.Common.{
  ℕ, zero, suc, String, ◌+++◌, Bool, false, ◌&&◌, Option, none, some, List, [], ◌∷◌, max, ltb,
  if◌then◌else◌, print, take, Result, ok, raise, index_error, ◌>>=◌,
}
use token_terminator.Json.{
  Value, null, boolean, number, text, array, object, Items, nil, item, Fields, get, truthy,
}
use token_terminator.Compiler.Slots.{is_text, calls_of, safe_chars}

pub data Mode : Type 0 where
  messages responses : Mode

-- `_mode`; `none` is "unknown"
unfoldable pub mode_of : Fields → Option Mode
mode_of fs = elim (get "messages" fs) [
  | array xs ↦ some Mode.messages
  | _ ↦ elim (get "input" fs) [ array xs ↦ some Mode.responses | _ ↦ none ]
]

-- len(xs), xs[:n], xs[n:] and xs + ys
unfoldable pub size : Items → ℕ
size nil = 0
size (item v vs) = suc (size vs)

unfoldable pub rest_items : ℕ → Items → Items
rest_items zero xs = xs
rest_items (suc n) nil = nil
rest_items (suc n) (item v vs) = rest_items n vs

unfoldable pub append_items : Items → Items → Items
append_items nil ys = ys
append_items (item v vs) ys = item v (append_items vs ys)

-- isinstance(msg, dict) and msg.get("role") == "user"
unfoldable pub is_user : Value → Bool
is_user (object fs) = is_text "user" (get "role" fs)
is_user null = false
is_user (boolean b) = false
is_user (number q) = false
is_user (text s) = false
is_user (array xs) = false

-- The same in a responses request, where the item is a message
unfoldable pub is_user_item : Value → Bool
is_user_item (object fs) = is_text "message" (get "type" fs) && is_text "user" (get "role" fs)
is_user_item null = false
is_user_item (boolean b) = false
is_user_item (number q) = false
is_user_item (text s) = false
is_user_item (array xs) = false

-- turn_starts, for the items from an index on
unfoldable pub turn_starts : (Value → Bool) → ℕ → Items → List ℕ
turn_starts test i nil = []
turn_starts test i (item v vs) =
    if test v then i ∷ turn_starts test (suc i) vs else turn_starts test (suc i) vs

-- turn_starts[k]
unfoldable pub start_at : ℕ → List ℕ → Result ℕ
start_at k [] = raise index_error
start_at zero (i ∷ is) = ok i
start_at (suc k) (i ∷ is) = start_at k is

-- ContextCompactor, as `__init__` keeps it
pub record Compactor : Type 0 where
  pub min_vault_chars : ℕ
  pub inline_recent_turns : ℕ
  pub collapse_after_turns : ℕ

-- `__init__`, on arguments of zero or more (a negative one acts as zero)
unfoldable pub open_compactor : ℕ → ℕ → ℕ → Compactor
open_compactor chars collapse_after inline_recent = record {
  min_vault_chars = max 500 chars;
  inline_recent_turns = inline_recent;
  collapse_after_turns = if ltb 0 collapse_after then max collapse_after inline_recent else 0;
}

-- `_receipt`; `safe` is the test of a character, `isalnum` or one of "._-/"
unfoldable pub receipt : (Char → Bool) → String → ℕ → String → String
receipt safe artifact_id chars tool_name =
    "[Token Terminator artifact "
    +++ artifact_id
    +++ " | tool="
    +++ take 60 (safe_chars safe tool_name)
    +++ " | chars="
    +++ print chars
    +++ " | recover with token_terminator action=artifact_get]"

-- The parameter is `==` between two JSON values.
module _ (same : Value → Value → Bool) where
  -- The name of the first call with an id, among the calls of a message, if a call has it
  unfoldable pub call_name : Value → Items → Option String
  call_name id nil = none
  call_name id (item c cs) =
      let later = call_name id cs in
      elim c [
        | object call ↦
            if same (get "id" call) id
            then (elim (get "function" call) [
              | object function ↦ elim (get "name" function) [ text name ↦ some name | _ ↦ later ]
              | _ ↦ later
            ])
            else later
        | _ ↦ later
      ]

  -- The loop of `_tool_name_for_tool_message` over messages[:tool_msg_idx]
  unfoldable pub name_among : Value → Items → Result String
  name_among id nil = ok "tool"
  name_among id (item m ms) =
      let later = name_among id ms in
      elim m [
        | object fs ↦
            if is_text "assistant" (get "role" fs)
            then (do
              calls ← calls_of (get "tool_calls" fs)
              elim (call_name id calls) [ some name ↦ ok name | none ↦ later ])
            else later
        | _ ↦ later
      ]

  unfoldable pub tool_message_name : Items → Fields → Result String
  tool_message_name before fs =
      if truthy (get "tool_call_id" fs)
      then name_among (get "tool_call_id" fs) before
      else ok "tool"

  -- The loop of `_tool_name_for_response_item` over items[:output_idx]
  unfoldable pub item_name_among : Value → Items → String
  item_name_among id nil = "tool"
  item_name_among id (item m ms) =
      let later = item_name_among id ms in
      elim m [
        | object fs ↦
            if is_text "function_call" (get "type" fs) && same (get "call_id" fs) id
            then (elim (get "name" fs) [ text name ↦ name | _ ↦ later ])
            else later
        | _ ↦ later
      ]

  unfoldable pub response_item_name : Items → Fields → String
  response_item_name before fs =
      if truthy (get "call_id" fs) then item_name_among (get "call_id" fs) before else "tool"
