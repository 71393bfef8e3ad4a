-- ===== src/Compactor/Collapse.antt =====
-- Phase 2 of `ContextCompactor` (context_compactor.py): old turns fold into one line each, which the first
-- retained user message takes.
use token_terminator.Common.{
  ℕ, zero, suc, ◌+◌, String, ◌+++◌, ◌-◌, ◌&&◌, ltb, Option, none, some, List, [], ◌∷◌, ◌++◌, leb,
  length, if◌then◌else◌, str_eq, take, join, print, Result, ok, raise, runtime_error, ◌>>=◌,
}
use token_terminator.Json.{
  Value, null, boolean, number, text, array, object, Items, nil, item, Fields, end, field, get, has,
  set,
}
use token_terminator.Compiler.Slots.{is_text, calls_of}
use token_terminator.Compactor.Turns.{
  Mode, Compactor, size, append_items, is_user, turn_starts, start_at,
}

-- What a turn's loop gathers.
pub record Preview : Type 0 where
  pub user_preview : String
  pub tool_calls : List String
  pub assistant_preview : String

abbrev pub no_preview : Preview
no_preview = record { user_preview = ""; tool_calls = []; assistant_preview = "" }

-- tool_calls[:n]
unfoldable pub first_names : ℕ → List String → List String
first_names zero xs = []
first_names (suc n) [] = []
first_names (suc n) (x ∷ xs) = x ∷ first_names n xs

-- The parts of `_turn_summary`, the empty ones left out
unfoldable pub labelled : String → String → List String
labelled label s = if str_eq s "" then [] else (label +++ s) ∷ []

unfoldable pub tool_part : List String → List String
tool_part [] = []
tool_part (n ∷ ns) = ("tools: " +++ join ", " (first_names 5 (n ∷ ns))) ∷ []

unfoldable pub turn_summary : Preview → String
turn_summary p = take 300 (
    join " | " (
      labelled "user: " (take 120 p.user_preview)
      ++ (tool_part p.tool_calls ++ labelled "assistant: " (take 120 p.assistant_preview))))

-- The names of the calls that are objects with a named function
unfoldable pub call_names : Items → List String
call_names nil = []
call_names (item c cs) =
    let rest = call_names cs in
    elim c [
      | object call ↦ elim (get "function" call) [
        | object function ↦ elim (get "name" function) [ text name ↦ name ∷ rest | _ ↦ rest ]
        | _ ↦ rest
      ]
      | _ ↦ rest
    ]

-- The turn after its user message, up to the next one; and what follows it, from messages[turn_end]
unfoldable pub turn_body : Items → Items
turn_body nil = nil
turn_body (item m ms) = if is_user m then nil else item m (turn_body ms)

unfoldable pub after_turn : Items → Items
after_turn nil = nil
after_turn (item m ms) = if is_user m then item m ms else after_turn ms

-- The variables of the loop over messages; `rest` is messages[i:].
pub record Collapsing : Type 0 where
  pub index : ℕ
  pub rest : Items
  pub new_messages : Items
  pub summaries : List String

-- A round's exception leaves the loop.
abbrev pub resume :
    (Collapsing → Option (Result Collapsing)) → Result Collapsing → Option (Result Collapsing)
resume loop (ok d) = loop d
resume loop (raise e) = some (raise e)

-- The parameter is `str` of a value.
module _ (shown : Value → String) where
  -- str(part.get("text", ""))
  unfoldable pub part_text : Fields → String
  part_text part =
      if has "text" part then (elim (get "text" part) [ text s ↦ s | other ↦ shown other ]) else ""

  -- The first text part of a content that is a list, or the preview so far
  unfoldable pub first_part : String → Items → String
  first_part preview nil = preview
  first_part preview (item p ps) =
      let later = first_part preview ps in
      elim p [
        | object part ↦ if is_text "text" (get "type" part) then part_text part else later
        | _ ↦ later
      ]

  unfoldable pub content_preview : String → Value → String
  content_preview preview (text s) = s
  content_preview preview (array parts) = first_part preview parts
  content_preview preview null = preview
  content_preview preview (boolean b) = preview
  content_preview preview (number q) = preview
  content_preview preview (object fs) = preview

  -- One message of a turn
  unfoldable pub preview_fields : Fields → Preview → Result Preview
  preview_fields fs p =
      if is_text "user" (get "role" fs)
      then ok (record p { user_preview = content_preview p.user_preview (get "content" fs) })
      else if is_text "assistant" (get "role" fs)
      then (do
        calls ← calls_of (get "tool_calls" fs)
        ok (record p {
          assistant_preview = content_preview p.assistant_preview (get "content" fs);
          tool_calls = p.tool_calls ++ call_names calls;
        }))
      else ok p

  -- for j in range(i, turn_end)
  unfoldable pub preview_turn : Items → Preview → Result Preview
  preview_turn nil p = ok p
  preview_turn (item m ms) p = do
    next ← elim m [ object fs ↦ preview_fields fs p | _ ↦ ok p ]
    preview_turn ms next

  unfoldable pub summary_line : ℕ → Preview → String
  summary_line collapsed p =
      "[Collapsed turn " +++ print (collapsed + 1) +++ ": " +++ turn_summary p +++ "]"

  -- The user message at the index, with its turn: a summary in the place of both
  unfoldable pub collapse_turn : Value → Items → Collapsing → Result Collapsing
  collapse_turn m ms c = do
    p ← preview_turn (item m (turn_body ms)) no_preview
    ok (record c {
      index = c.index + 1 + size (turn_body ms);
      rest = after_turn ms;
      summaries = c.summaries ++ summary_line (length c.summaries) p ∷ [];
    })

  -- One round of `while i < len(messages)`, at a message
  unfoldable pub collapse_step : Value → Items → Collapsing → Result Collapsing
  collapse_step m ms c =
      if is_user m
      then collapse_turn m ms c
      else ok (record c {
        index = c.index + 1;
        rest = ms;
        new_messages = append_items c.new_messages (item m nil);
      })

  -- The loop; `none` means that the fuel ran out.
  unfoldable pub collapse_loop : ℕ → ℕ → Collapsing → Option (Result Collapsing)
  collapse_loop zero cutoff c = none
  collapse_loop (suc fuel) cutoff c =
      let next = λ (m : Result Collapsing). resume (collapse_loop fuel cutoff) m in
      if leb cutoff c.index
      then some (ok c)
      else (elim c.rest [ nil ↦ some (ok c) | item m ms ↦ next (collapse_step m ms c) ])

-- The retained user message with the summaries before its content; `none` for a content of another kind
unfoldable pub prefix_content : String → Value → Option Value
prefix_content block (text s) = some (text (if str_eq s "" then block else block +++ "\n\n" +++ s))
prefix_content block (array parts) =
    some (array (item (object (field "type" (text "text") (field "text" (text block) end))) parts))
prefix_content block null = none
prefix_content block (boolean b) = none
prefix_content block (number q) = none
prefix_content block (object fs) = none

-- The retained message with its new content
unfoldable pub place_block : Items → Fields → Items → ℕ → Option Value → Option (Items × ℕ)
place_block before fs later collapsed none = none
place_block before fs later collapsed (some content) =
    some (append_items before (item (object (set "content" content fs)) later), collapsed)

-- The block of summaries on the first retained message, where that is a user message
unfoldable pub retain : String → ℕ → Items → Items → Option (Items × ℕ)
retain block collapsed before nil = none
retain block collapsed before (item (object fs) later) =
    if is_user (object fs)
    then place_block before fs later collapsed (prefix_content block (get "content" fs))
    else none
retain block collapsed before (item null later) = none
retain block collapsed before (item (boolean b) later) = none
retain block collapsed before (item (number q) later) = none
retain block collapsed before (item (text s) later) = none
retain block collapsed before (item (array xs) later) = none

-- The end of `_collapse_old_turns_messages`: the messages and how many turns went, where they change
unfoldable pub fold_onto : List String → Items → Items → Option (Items × ℕ)
fold_onto [] before rest = some (append_items before rest, 0)
fold_onto (s ∷ ss) before rest = retain (join "\n" (s ∷ ss)) (length (s ∷ ss)) before rest

unfoldable pub fold_summaries : Collapsing → Option (Items × ℕ)
fold_summaries c = fold_onto c.summaries c.new_messages c.rest

module _ (shown : Value → String) where
  -- `_collapse_old_turns_messages`: the messages where they change, and the count. The fuel is one more than
  -- the number of messages.
  unfoldable pub collapse_old : ℕ → Items → Result (Items × ℕ)
  collapse_old cutoff xs =
      elim (collapse_loop shown (suc (size xs)) cutoff
        (record { index = 0; rest = xs; new_messages = nil; summaries = [] })) [
          | some (ok c) ↦ elim (fold_summaries c) [ some folded ↦ ok folded | none ↦ ok (xs, 0) ]
          | some (raise e) ↦ raise e
          | none ↦ raise runtime_error
        ]

  -- Phase 2, in the mode of messages alone
  unfoldable pub collapse_phase : Compactor → Mode → Items → Items → Result (Items × ℕ)
  collapse_phase cp Mode.responses xs vaulted = ok (vaulted, 0)
  collapse_phase cp Mode.messages xs vaulted =
      let starts = turn_starts is_user 0 xs in
      if ltb 0 cp.collapse_after_turns && ltb cp.collapse_after_turns (length starts)
      then (do
        cutoff ← start_at (length starts - cp.collapse_after_turns) starts
        collapse_old cutoff vaulted)
      else ok (vaulted, 0)
