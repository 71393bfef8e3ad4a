-- ===== src/Scope.antt =====
-- The purpose gate, `conversational_request` of src/rtk_hermes_plus/call_scope.py: only a call that is
-- shown to be a conversation may be changed.
pub mod Vetoes
use token_terminator.Common.{
  ℕ, String, Bool, true, false, ◌&&◌, ◌||◌, not, List, [], ◌∷◌, any, all, leb, ◌==◌, if◌then◌else◌,
  str_eq, strip, Result, ok, raise, type_error, ◌>>=◌, ◌>>◌,
}
use token_terminator.Json.{
  Number, Value, null, boolean, number, text, array, object, Items, nil, item, Fields, get, has,
  truthy,
}

-- What the function answers: whether the call may be changed, and the reason.
abbrev pub Answer : Type 0
Answer = Bool × String

abbrev pub among : String → List String → Bool
among s names = any (str_eq s) names

-- [context[k] for k in keys if context.get(k) is not None]
unfoldable pub present : List String → Fields → List Value
present [] fs = []
present (k ∷ ks) fs = elim (get k fs) [ null ↦ present ks fs | _ ↦ get k fs ∷ present ks fs ]

abbrev pub purpose_keys : List String
purpose_keys =
    "request_purpose" ∷ "purpose" ∷ "call_type" ∷ "call_role" ∷ "model_role" ∷ "request_scope" ∷ []

abbrev pub conversation : List String
conversation = "conversation" ∷ "chat" ∷ "main_generation" ∷ "main" ∷ "primary" ∷ []

abbrev pub api_modes : List String
api_modes = "chat_completions" ∷ "anthropic_messages" ∷ "codex_responses" ∷ "responses" ∷ []

abbrev pub generations : List String
generations =
    "chat.completions.create" ∷ "responses.create" ∷ "messages.create" ∷ "/v1/chat/completions"
    ∷ "/v1/responses" ∷ "/v1/messages" ∷ []

abbrev pub service_keys : List String
service_keys =
    "documents" ∷ "query" ∷ "queries" ∷ "questions" ∷ "state" ∷ "texts" ∷ "encoding_format"
    ∷ "dimensions" ∷ []

abbrev pub auxiliary_keys : List String
auxiliary_keys =
    "aux_task" ∷ "auxiliary_task" ∷ "is_internal" ∷ "internal" ∷ "parent_session_id" ∷ []

-- isinstance(value, str) and value in names
unfoldable pub is_named : List String → Value → Bool
is_named names (text s) = among s names
is_named names null = false
is_named names (boolean b) = false
is_named names (number q) = false
is_named names (array xs) = false
is_named names (object fs) = false

-- value in {names}: a value that has no hash raises.
unfoldable pub in_set : List String → Value → Result Bool
in_set names (text s) = ok (among s names)
in_set names null = ok false
in_set names (boolean b) = ok false
in_set names (number q) = ok false
in_set names (array xs) = raise type_error
in_set names (object fs) = raise type_error

unfoldable pub all_objects : Items → Bool
all_objects nil = true
all_objects (item (object fs) rest) = all_objects rest
all_objects (item null rest) = false
all_objects (item (boolean b) rest) = false
all_objects (item (number q) rest) = false
all_objects (item (text s) rest) = false
all_objects (item (array xs) rest) = false

abbrev pub roles : List String
roles = "user" ∷ "assistant" ∷ "system" ∷ "developer" ∷ "tool" ∷ []

abbrev pub call_types : List String
call_types = "function_call" ∷ "function_call_output" ∷ []

-- One message is of a conversation.
unfoldable pub speaks_one : Fields → Result Bool
speaks_one m = do
  role ← in_set roles (get "role" m)
  if role then ok true else in_set call_types (get "type" m)

-- any(…) over the messages, which are objects
unfoldable pub speaks : Items → Result Bool
speaks nil = ok false
speaks (item (object m) rest) = do
  here ← speaks_one m
  let later = speaks rest
  if here then ok true else later
speaks (item null rest) = speaks rest
speaks (item (boolean b) rest) = speaks rest
speaks (item (number q) rest) = speaks rest
speaks (item (text s) rest) = speaks rest
speaks (item (array xs) rest) = speaks rest

-- [request[k] for k in ("messages", "input") if isinstance(request.get(k), list)]
unfoldable pub histories : List String → Fields → List Items
histories [] fs = []
histories (k ∷ ks) fs = elim (get k fs) [ array xs ↦ xs ∷ histories ks fs | _ ↦ histories ks fs ]

-- The single history, if it is one of objects.
unfoldable pub is_history : List Items → Bool
is_history [] = false
is_history (nil ∷ []) = false
is_history (item v vs ∷ []) = all_objects (item v vs)
is_history (xs ∷ ys ∷ rest) = false

abbrev pub first_history : List Items → Items
first_history [] = nil
first_history (xs ∷ rest) = xs

-- isinstance(value, str) and value
unfoldable pub is_given : Value → Bool
is_given (text s) = not (str_eq s "")
is_given null = false
is_given (boolean b) = false
is_given (number q) = false
is_given (array xs) = false
is_given (object fs) = false

-- value is True
unfoldable pub is_true : Value → Bool
is_true (boolean b) = b
is_true null = false
is_true (number q) = false
is_true (text s) = false
is_true (array xs) = false
is_true (object fs) = false

-- type(value) is int and value >= 1
unfoldable pub is_count : Value → Bool
is_count (number q) = not q.is_float && not q.negative && leb 1 q.numerator
is_count null = false
is_count (boolean b) = false
is_count (text s) = false
is_count (array xs) = false
is_count (object fs) = false

-- The contract of the main hook.
unfoldable pub is_main_hook : Fields → Bool
is_main_hook context =
    is_true (get "_tt_hermes_main_hook" context)
    && is_named ("hermes.middleware.v1" ∷ []) (get "middleware_schema_version" context)
    && is_given (get "session_id" context)
    && is_given (get "turn_id" context)
    && is_given (get "api_request_id" context)
    && is_count (get "api_call_count" context)
    && is_named api_modes (get "api_mode" context)

-- api_mode is None, or one of the modes
unfoldable pub mode_allowed : Value → Bool
mode_allowed null = true
mode_allowed (boolean b) = false
mode_allowed (number q) = false
mode_allowed (text s) = among s api_modes
mode_allowed (array xs) = false
mode_allowed (object fs) = false

abbrev pub is_empty : {A : Type 0} → List A → Bool
is_empty [] = true
is_empty (x ∷ xs) = false

-- The parameter is `str.lower`, whose tables are Unicode's.
module _ (lower : String → String) where
  -- isinstance(p, str) and p.lower().strip() in _CONVERSATION
  unfoldable pub is_conversation : Value → Bool
  is_conversation (text s) = among (strip (lower s)) conversation
  is_conversation null = false
  is_conversation (boolean b) = false
  is_conversation (number q) = false
  is_conversation (array xs) = false
  is_conversation (object fs) = false

  -- The tests from the purposes on, for a request that is an object
  unfoldable pub conversational_object : Fields → Fields → Result Answer
  conversational_object request context =
      let purposes = present purpose_keys context in
      let found = histories ("messages" ∷ "input" ∷ []) request in
      if any (λ k. truthy (get k context)) auxiliary_keys
      then ok (false, "auxiliary_call")
      else if not (all is_conversation purposes)
      then ok (false, "non_conversational_or_unknown_purpose")
      else if not (mode_allowed (get "api_mode" context))
      then ok (false, "non_generation_api")
      else if not (all (is_named generations) (present ("operation" ∷ "endpoint" ∷ []) context))
      then ok (false, "non_generation_operation")
      else if any (λ k. has k request) service_keys
      then ok (false, "service_envelope")
      else if has "messages" request && has "input" request
      then ok (false, "ambiguous_service_envelope")
      else if not (is_history found)
      then ok (false, "not_conversation_history")
      else do
        spoken ← speaks (first_history found)
        if not spoken
            then ok (false, "not_conversation_history")
            else if not (is_empty purposes)
            then ok (true, "explicit_conversation")
            else if is_main_hook context
            then ok (true, "hermes_main_turn_hook")
            else ok (false, "unscoped_request")

  -- `conversational_request`: `depth` is the depth of internal calls, and `role` what
  -- `_hermes_internal_role()` reads from the host, or its exception.
  unfoldable pub conversational_request : ℕ → Result Bool → Value → Fields → Result Answer
  conversational_request depth role request context =
      if not (depth == 0) then ok (false, "tt_internal_or_reentrant_call") else elim role [
        | raise e ↦ ok (false, "host_scope_unavailable")
        | ok internal ↦
            if internal then ok (false, "hermes_auxiliary_or_delegated_role") else elim request [
              | object fs ↦ conversational_object fs context
              | _ ↦ ok (false, "unsupported_request")
            ]
      ]
