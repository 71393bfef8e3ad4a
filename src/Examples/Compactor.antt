-- ===== src/Examples/Compactor.antt =====
-- Tests of the context compactor: old tool results, a vault too small for them, and old turns.
use token_terminator.Common.{
  ℕ, String, ◌+++◌, count, ◌≡◌, refl, Bool, true, false, some, [], Result, ok, raise, key_error,
  arith, inr, take, join, print, print_from, str_eq,
}
use token_terminator.Json.{
  whole, Number, Value, null, number, text, array, object, Items, nil, item, Fields, end, field,
  get, set, has, truthy,
}
use token_terminator.Vault.Tables.{
  Vault, empty, by_sha, by_id, is_pinned, sort, delete_artifact, without as without_row,
}
use token_terminator.Vault.Put.{
  put_artifact, put_body, store_new, prune_for_insert, prune_loop, candidates, evict, book_pruning,
  insert_artifact, attach, observe, fresh_id, short_id, same_observation, get_artifact, is_intact,
}
use token_terminator.Compiler.Slots.{is_text, calls_of, safe_chars}
use token_terminator.Compactor.Turns.{
  Mode, Compactor, mode_of, size, rest_items, append_items, is_user, turn_starts, start_at, receipt,
  call_name, name_among, tool_message_name,
}
use token_terminator.Compactor.Vaulting.{
  Session, is_tool_result, is_vaultable, id_text, store_exact, vault_content, tool_name,
  place_receipt, vault_value, vault_fields, vault_item, vault_items,
}
use token_terminator.Compactor.Collapse.{
  Collapsing, collapse_loop, collapse_step, collapse_turn, turn_body, after_turn, preview_turn,
  preview_fields, content_preview, call_names, summary_line, turn_summary, labelled, tool_part,
  prefix_content, place_block, retain, fold_onto, fold_summaries, collapse_old, collapse_phase,
}
use token_terminator.Compactor.Request.{
  CompactionResult, without, popped, put_counts, pop_counts, items_in, outcome_of, compact_items,
  compact_mode, accept, compact_as, compact_object, untouched, compact_request,
}
use token_terminator.Compactor.Reduction.{IsPlain, IsReduction, compact_request-IsReduction}
use token_terminator.Compactor.Delivery.{Delivered, IsOrdered, compact_request-Delivered}
use token_terminator.Compactor.Exactness.{Vaulted, vault_fields-Vaulted}
use token_terminator.Compactor.Rounds.{collapse_loop_total}
use token_terminator.Compactor.NoTail.{compact_request_no_tail}
use token_terminator.Examples.Compiler.{dumps, safe, shown}

-- A digest that tells the test's contents apart
abbrev digest : String → String
digest s = take 32 s

abbrev pub equal : Value → Value → Bool
equal (text s) (text t) = str_eq s t
equal v w = false

abbrev pub int_of : Value → Result Number
int_of (number q) = ok q
int_of v = ok (whole 0)

abbrev pub message : String → String → Value
message role content = object (field "role" (text role) (field "content" (text content) end))

-- 32 characters ten times
abbrev long : String → String
long s = s +++ s +++ s +++ s +++ s +++ s +++ s +++ s +++ s +++ s

abbrev first_output : String
first_output = long "first output of a terminal call "

abbrev second_output : String
second_output = long "other output of a terminal call "

abbrev pub chat : Items → Fields
chat xs = field "messages" (array xs) end

abbrev pub conversation : Items
conversation = item (message "system" "rules") (
    item (message "user" "one") (
      item (message "tool" first_output)
        (item (message "tool" second_output) (item (message "user" "two") nil))))

abbrev pub roomy : Session
roomy = record {
  limits = record {
    max_artifact_chars = 1000;
    max_vault_bytes = 1000;
    max_page_chars = 100;
    high_water_pct = 90;
    low_water_pct = 70;
  };
  session_id = "s";
  now = "t";
}

abbrev small : Session
small = record roomy { limits = record roomy.limits { max_vault_bytes = 400 } }

abbrev pub compactor : Compactor
compactor = record { min_vault_chars = 100; inline_recent_turns = 1; collapse_after_turns = 0 }

abbrev folding : Compactor
folding = record { min_vault_chars = 100; inline_recent_turns = 1; collapse_after_turns = 1 }

unfoldable run : Compactor → Session → Items → Result CompactionResult × Vault
unfolding compact_request compact_object compact_as compact_mode compact_items accept outcome_of
    put_counts pop_counts popped without items_in mode_of size rest_items append_items is_user
    turn_starts start_at receipt call_name name_among tool_message_name is_tool_result is_vaultable
    id_text store_exact vault_content tool_name place_receipt vault_value vault_fields vault_item
    vault_items collapse_phase collapse_old collapse_loop collapse_step collapse_turn turn_body
    after_turn preview_turn preview_fields content_preview call_names summary_line turn_summary
    labelled tool_part prefix_content place_block retain fold_onto fold_summaries is_text calls_of
    safe_chars get set has truthy take join print print_from put_artifact put_body store_new
    prune_for_insert prune_loop candidates evict book_pruning insert_artifact attach observe
    fresh_id short_id same_observation get_artifact is_intact by_sha by_id is_pinned sort
    delete_artifact without_row
run cp c xs =
    compact_request dumps dumps digest safe equal shown int_of cp c (object (chat xs)) empty

abbrev contents_of : Items → Value
contents_of nil = null
contents_of (item v vs) = v

-- The item at an index of what is delivered
abbrev delivered : ℕ → Result CompactionResult → Value
delivered n (raise e) = null
delivered n (ok r) = elim r.request [
  | object fs ↦ elim (get "messages" fs) [ array xs ↦ contents_of (rest_items n xs) | _ ↦ null ]
  | _ ↦ null
]

abbrev saved : Result CompactionResult → ℕ × Number × Number
saved (raise e) = (0, whole 0, whole 0)
saved (ok r) = (r.saved_chars, r.vaulted_results, r.collapsed_turns)

vaulted_test : (saved (run compactor roomy conversation).0).1 ≡ whole 2
unfolding run
vaulted_test = refl

-- Both receipts are delivered, and the first content is in the vault no more.
dangling_test :
    ((saved (run compactor small conversation).0).1 ≡ whole 2)
    × (get_artifact digest (short_id (digest first_output)) (run compactor small conversation).1
        ≡ raise key_error)
unfolding run get_artifact short_id take
dangling_test = (refl, refl)

-- The first turn and its tool results are one line before the second user message.
folded_test :
    delivered 1 (run folding roomy conversation).0
    ≡ message "user" "[Collapsed turn 1: user: one]\n\ntwo"
unfolding run get rest_items
folded_test = refl

-- What the assistant said in a collapsed turn is in no artifact.
said_test :
    (run folding roomy (
      item
        (message "user" "one")
        (item (message "assistant" first_output) (item (message "user" "two") nil)))).1
    ≡ empty
unfolding run
said_test = refl

pub unchanged_conversation : IsPlain (chat conversation)
unfolding has
unchanged_conversation = record { vaulted = refl; collapsed = refl }

compact_request-IsReduction_example :
    (r : CompactionResult) × ((compact_request dumps dumps digest safe equal shown int_of compactor
        roomy
        (object (chat conversation))
        empty).0
      ≡ ok r)
    × IsReduction dumps dumps digest safe equal shown int_of (object (chat conversation)) r
compact_request-IsReduction_example =
    compact_request-IsReduction dumps dumps digest safe equal shown int_of compactor roomy
      (chat conversation) empty unchanged_conversation

folding-IsOrdered : IsOrdered folding
folding-IsOrdered = inr (omega arith)

compact_request-Delivered_example :
    (r : CompactionResult) × ((compact_request dumps dumps digest safe equal shown int_of folding
        roomy
        (object (chat conversation))
        empty).0
      ≡ ok r)
    × Delivered dumps dumps digest safe equal shown int_of folding roomy Mode.messages
        (chat conversation)
        4
        r
unfolding mode_of items_in turn_starts start_at is_user is_text get
compact_request-Delivered_example =
    compact_request-Delivered dumps dumps digest safe equal shown int_of folding roomy Mode.messages
      (chat conversation) 4 empty folding-IsOrdered unchanged_conversation refl refl

abbrev tool_fields : Fields
tool_fields = field "role" (text "tool") (field "content" (text first_output) end)

unfoldable round : Result (Fields × ℕ) × Vault
unfolding compact_request compact_object compact_as compact_mode compact_items accept outcome_of
    put_counts pop_counts popped without items_in mode_of size rest_items append_items is_user
    turn_starts start_at receipt call_name name_among tool_message_name is_tool_result is_vaultable
    id_text store_exact vault_content tool_name place_receipt vault_value vault_fields vault_item
    vault_items collapse_phase collapse_old collapse_loop collapse_step collapse_turn turn_body
    after_turn preview_turn preview_fields content_preview call_names summary_line turn_summary
    labelled tool_part prefix_content place_block retain fold_onto fold_summaries is_text calls_of
    safe_chars get set has truthy take join print print_from put_artifact put_body store_new
    prune_for_insert prune_loop candidates evict book_pruning insert_artifact attach observe
    fresh_id short_id same_observation get_artifact is_intact by_sha by_id is_pinned sort
    delete_artifact without_row
round =
    vault_fields dumps digest safe equal shown compactor roomy Mode.messages nil tool_fields empty

abbrev filed_fields : Fields
filed_fields = field "role" (text "tool") (
    field "content"
      (text
        "[Token Terminator artifact a_first output of a terminal call  | tool=tool | chars=320 | recover with token_terminator action=artifact_get]")
      end)

round_result :
    vault_fields dumps digest safe equal shown compactor roomy Mode.messages nil tool_fields empty
    ≡ (ok (filed_fields, 1), round.1)
unfolding compact_request compact_object compact_as compact_mode compact_items accept outcome_of
    put_counts pop_counts popped without items_in mode_of size rest_items append_items is_user
    turn_starts start_at receipt call_name name_among tool_message_name is_tool_result is_vaultable
    id_text store_exact vault_content tool_name place_receipt vault_value vault_fields vault_item
    vault_items collapse_phase collapse_old collapse_loop collapse_step collapse_turn turn_body
    after_turn preview_turn preview_fields content_preview call_names summary_line turn_summary
    labelled tool_part prefix_content place_block retain fold_onto fold_summaries is_text calls_of
    safe_chars get set has truthy take join print print_from put_artifact put_body store_new
    prune_for_insert prune_loop candidates evict book_pruning insert_artifact attach observe
    fresh_id short_id same_observation get_artifact is_intact by_sha by_id is_pinned sort
    delete_artifact without_row round
round_result = refl

vault_fields-Vaulted_example :
    Vaulted dumps digest safe equal shown roomy compactor Mode.messages tool_fields filed_fields 1
      round.1
vault_fields-Vaulted_example =
    vault_fields-Vaulted dumps digest safe equal shown roomy compactor Mode.messages nil tool_fields
      filed_fields 1 empty round.1 round_result

abbrev folding_start : Collapsing
folding_start = record { index = 0; rest = conversation; new_messages = nil; summaries = [] }

collapse_loop_total_example :
    (r : Result Collapsing) × (collapse_loop shown 6 4 folding_start ≡ some r)
unfolding size
collapse_loop_total_example = collapse_loop_total shown 6 4 folding_start (omega arith)

abbrev keeping_none : Compactor
keeping_none = record { min_vault_chars = 500; inline_recent_turns = 0; collapse_after_turns = 6 }

compact_request_no_tail_example :
    compact_request dumps dumps digest safe equal shown int_of keeping_none roomy
      (object (chat conversation))
      empty
    ≡ (
      ok (untouched (object (chat conversation)) (count (dumps (object (chat conversation)))) true),
      empty,
    )
unfolding mode_of items_in turn_starts is_user is_text get size
compact_request_no_tail_example =
    compact_request_no_tail dumps dumps digest safe equal shown int_of keeping_none roomy
      Mode.messages (chat conversation) empty refl refl (omega arith) (omega arith)
