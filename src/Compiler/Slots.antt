-- ===== src/Compiler/Slots.antt =====
-- The evidence slots of a request (compiler.py): the tool results that may be replaced by a receipt.
use Prim.Native.Char.{Char}
use Prim.Native.String as Chars
use token_terminator.Common.{
  ℕ, suc, String, ◌+++◌, count, Bool, true, false, ◌||◌, Option, none, some, List, [], ◌∷◌, ltb,
  if◌then◌else◌, str_eq, is_space, join, print, take, Result, ok, raise, type_error, ◌>>=◌,
}
use token_terminator.Json.{
  Value, null, boolean, number, text, array, object, Items, nil, item, Fields, end, get, truthy,
}

-- `_EvidenceSlot`, whose container is the item at `ordinal`
pub record Slot : Type 0 where
  pub content : String
  pub tool_name : String
  pub args : Fields
  pub call_id : String
  pub ordinal : ℕ

-- The two dictionaries on call ids, the last assignment first.
pub record Known : Type 0 where
  pub names : List (String × String)
  pub args : List (String × Fields)

unfoldable pub lookup : {A : Type 0} → String → A → List (String × A) → A
lookup key default [] = default
lookup key default ((k, a) ∷ rest) = if str_eq k key then a else lookup key default rest

-- value == name
unfoldable pub is_text : String → Value → Bool
is_text name (text s) = str_eq s name
is_text name null = false
is_text name (boolean b) = false
is_text name (number q) = false
is_text name (array xs) = false
is_text name (object fs) = false

-- What `for call in message.get("tool_calls") or []` runs over: a text's characters and an object's
-- keys are no objects, and a number cannot be iterated.
unfoldable pub calls_of : Value → Result Items
calls_of v =
    if truthy v
    then (elim v [
      | array xs ↦ ok xs
      | boolean b ↦ raise type_error
      | number q ↦ raise type_error
      | _ ↦ ok nil
    ])
    else ok nil

-- The bounds of the configuration on an artifact.
pub record Bounds : Type 0 where
  pub min_artifact_chars : ℕ
  pub max_artifact_chars : ℕ

unfoldable pub in_bounds : Bounds → String → Bool
in_bounds b s =
    if ltb (count s) b.min_artifact_chars || ltb b.max_artifact_chars (count s) then false else true

-- The parameters: `json.loads` of a text, where it is an object; and `str` of a value.
module _ (loads : String → Option Fields) (shown : Value → String) where
  -- `_tool_args`
  unfoldable pub tool_args : Value → Fields
  tool_args (object fs) = fs
  tool_args (text s) = elim (loads s) [ none ↦ end | some fs ↦ fs ]
  tool_args null = end
  tool_args (boolean b) = end
  tool_args (number q) = end
  tool_args (array xs) = end

  -- str(value or "")
  unfoldable pub call_id_of : Value → String
  call_id_of v = if truthy v then (elim v [ text s ↦ s | other ↦ shown other ]) else ""

  -- One call of an assistant's message
  unfoldable pub learn_call : Value → Known → Known
  learn_call (object call) k = elim (get "id" call) [
    | text id ↦ elim (get "function" call) [
      | object function ↦ record {
        names = elim (get "name" function) [ text name ↦ (id, name) ∷ k.names | _ ↦ k.names ];
        args = (id, tool_args (get "arguments" function)) ∷ k.args;
      }
      | _ ↦ k
    ]
    | _ ↦ k
  ]
  learn_call null k = k
  learn_call (boolean b) k = k
  learn_call (number q) k = k
  learn_call (text s) k = k
  learn_call (array xs) k = k

  unfoldable pub learn_calls : Items → Known → Known
  learn_calls nil k = k
  learn_calls (item c cs) k = learn_calls cs (learn_call c k)

  -- The first loop of `_chat_slots`
  unfoldable pub chat_known : Items → Known → Result Known
  chat_known nil k = ok k
  chat_known (item m ms) k =
      let later = chat_known ms k in
      let after = λ (next : Known). chat_known ms next in
      elim m [
        | object fs ↦
            if is_text "assistant" (get "role" fs)
            then (calls_of (get "tool_calls" fs) >>= λ calls. after (learn_calls calls k))
            else later
        | _ ↦ later
      ]

  -- The first loop of `_responses_slots`
  unfoldable pub response_known : Items → Known → Known
  response_known nil k = k
  response_known (item m ms) k = response_known ms (elim m [
    | object fs ↦
        if is_text "function_call" (get "type" fs)
        then (elim (get "call_id" fs) [
          | text id ↦ elim (get "name" fs) [
            | text name ↦ record {
              names = (id, name) ∷ k.names;
              args = (id, tool_args (get "arguments" fs)) ∷ k.args;
            }
            | _ ↦ k
          ]
          | _ ↦ k
        ])
        else k
    | _ ↦ k
  ])

  -- The slot of one item, under the key and the mark of its mode
  unfoldable pub slot_at :
      Bounds → Known → String → String → String → String → ℕ → Value → Option Slot
  slot_at b k mark_key mark content_key id_key ordinal v = elim v [
    | object fs ↦
        if is_text mark (get mark_key fs)
        then (elim (get content_key fs) [
          | text s ↦
              if in_bounds b s
              then some (record {
                content = s;
                tool_name = lookup (call_id_of (get id_key fs)) "tool" k.names;
                args = lookup (call_id_of (get id_key fs)) end k.args;
                call_id = call_id_of (get id_key fs);
                ordinal = ordinal;
              })
              else none
          | _ ↦ none
        ])
        else none
    | _ ↦ none
  ]

  -- The second loop of either function
  unfoldable pub slots_from :
      Bounds → Known → String → String → String → String → ℕ → Items → List Slot
  slots_from b k mark_key mark content_key id_key ordinal nil = []
  slots_from b k mark_key mark content_key id_key ordinal (item v vs) =
      let rest = slots_from b k mark_key mark content_key id_key (suc ordinal) vs in
      elim (slot_at b k mark_key mark content_key id_key ordinal v) [
        | none ↦ rest
        | some s ↦ s ∷ rest
      ]

  unfoldable pub chat_slots : Bounds → Items → Result (List Slot)
  chat_slots b messages = do
    known ← chat_known messages (record { names = []; args = [] })
    ok (slots_from b known "role" "tool" "content" "tool_call_id" 0 messages)

  unfoldable pub responses_slots : Bounds → Items → List Slot
  responses_slots b items =
      slots_from b (response_known items (record { names = []; args = [] })) "type"
        "function_call_output" "output" "call_id" 0 items

-- s.split(), with the word that is being read
unfoldable pub words : String → String → List String
words word Chars.[] = if str_eq word "" then [] else word ∷ []
words word (Chars.◌∷◌ c s) =
    let next = words "" s in
    let longer = words (word +++ Chars.◌∷◌ c Chars.[]) s in
    if is_space c then if str_eq word "" then next else word ∷ next else longer

unfoldable pub safe_chars : (Char → Bool) → String → String
safe_chars safe Chars.[] = Chars.[]
safe_chars safe (Chars.◌∷◌ c s) =
    if safe c then Chars.◌∷◌ c (safe_chars safe s) else "_" +++ safe_chars safe s

-- `_receipt_tool_name`; `safe` is the test of a character, `isalnum` or one of "._:/-"
unfoldable pub receipt_tool_name : (Char → Bool) → String → String
receipt_tool_name safe value =
    let short =
      take 80 (safe_chars safe (join "_" (words "" (if str_eq value "" then "tool" else value)))) in
    if str_eq short "" then "tool" else short

-- `_receipt`
unfoldable pub receipt : (Char → Bool) → Slot → String → String → String
receipt safe s artifact_id sha256 =
    "[Token Terminator artifact "
    +++ artifact_id
    +++ " | tool="
    +++ receipt_tool_name safe s.tool_name
    +++ " | chars="
    +++ print (count s.content)
    +++ " | sha256="
    +++ take 16 sha256
    +++ "… | recover with token_terminator action=artifact_get]"
