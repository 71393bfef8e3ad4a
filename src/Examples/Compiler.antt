-- ===== src/Examples/Compiler.antt =====
-- Tests of the request compiler: a tool result that stands in the request twice.
use Prim.Native.Char.{Char}
use token_terminator.Common.{
  ℕ, String, ◌+++◌, ◌≡◌, refl, Bool, true, false, Option, none, some, [], Result, ok, take, print,
  print_from, is_space, join,
}
use token_terminator.Json.{
  Value, null, boolean, number, text, array, object, Items, nil, item, Fields, end, field, get, set,
  has, truthy,
}
use token_terminator.Vault.Tables.{empty, by_sha, by_id}
use token_terminator.Vault.Put.{
  Limits, put_artifact, put_body, store_new, prune_for_insert, insert_artifact, attach, observe,
  fresh_id, short_id, same_observation,
}
use token_terminator.Vault.Leases.{
  exposure_of, exposure_available, inline_count, claim_exposure, insert_exposure, has_key,
}
use token_terminator.Compiler.Slots.{
  is_text, lookup, calls_of, in_bounds, chat_known, slot_at, slots_from, chat_slots, call_id_of,
  receipt, receipt_tool_name, safe_chars, words, learn_calls,
}
use token_terminator.Compiler.Request.{
  Store, CompileResult, Settings, Call, mode_of, write_item, add_group, serialized_chars,
  store_slots, distinct_ids, group_slots, place_receipt, lease_group, lease_groups, claim_pending,
  inject, with_graph, accept, compile_object, finalize, identified, compile,
}
use token_terminator.Compiler.Reduction.{IsReduction, compile-IsReduction}

-- The contents of the messages, for the text of a request.
abbrev pub contents : Items → String
contents nil = ""
contents (item (object fs) rest) = elim (get "content" fs) [
  | text s ↦ s +++ contents rest
  | _ ↦ contents rest
]
contents (item null rest) = contents rest
contents (item (boolean b) rest) = contents rest
contents (item (number q) rest) = contents rest
contents (item (text s) rest) = contents rest
contents (item (array xs) rest) = contents rest

abbrev pub dumps : Value → String
dumps null = ""
dumps (boolean b) = ""
dumps (number q) = ""
dumps (text s) = s
dumps (array xs) = ""
dumps (object fs) = elim (get "messages" fs) [ array xs ↦ contents xs | _ ↦ "" ]

abbrev pub digest : String → String
digest s = "0000000000000000000000000000000000000000000000000000000000000000"

abbrev pub safe : Char → Bool
safe c = true

abbrev pub loads : String → Option Fields
loads s = none

abbrev pub shown : Value → String
shown v = ""

abbrev pub limits : Limits
limits = record {
  max_artifact_chars = 1000;
  max_vault_bytes = 1000;
  max_page_chars = 100;
  high_water_pct = 90;
  low_water_pct = 70;
}

abbrev pub settings : Settings
settings = record {
  compiler_enabled = true;
  bounds = record { min_artifact_chars = 100; max_artifact_chars = 1000 };
  inline_lease_exposures = 1;
}

abbrev pub call : Call
call = record { session_id = "s"; request_id = "r"; record_metric = false; now = "t" }

abbrev output : String
output =
    "0123456789 0123456789 0123456789 0123456789 0123456789 0123456789 0123456789 0123456789 0123456789 0123456789 0123456789 0123456789 0123456789 0123456789 0123456789 0123456789 0123456789 0123456789 0123456789 0123456789 0123456789 0123456789 0123456789 0123456789 "

abbrev tool_message : String → Value
tool_message id = object (
    field "role" (text "tool") (field "tool_call_id" (text id) (field "content" (text output) end)))

abbrev pub request : Value
request =
    object (field "messages" (array (item (tool_message "a") (item (tool_message "b") nil))) end)

abbrev pub start : Store
start = record { vault = empty; metrics = [] }

abbrev counts_of : Result CompileResult → ℕ × ℕ
counts_of (ok r) = (r.receipts, r.duplicates_collapsed)
counts_of r = (0, 0)

duplicate_test :
    counts_of
      (compile dumps dumps digest safe loads shown settings limits call (some "") request start).0
    ≡ (1, 1)
unfolding compile compile_object identified store_slots distinct_ids group_slots place_receipt
    lease_group lease_groups claim_pending inject with_graph accept finalize serialized_chars
    mode_of write_item add_group is_text lookup calls_of in_bounds chat_known slot_at slots_from
    chat_slots call_id_of receipt receipt_tool_name safe_chars words print print_from is_space join
    take get set has truthy put_artifact put_body store_new prune_for_insert insert_artifact attach
    observe fresh_id short_id same_observation by_sha by_id exposure_of exposure_available
    inline_count claim_exposure insert_exposure has_key learn_calls
duplicate_test = refl

compile-IsReduction_example :
    (r : CompileResult) × ((compile dumps dumps digest safe loads shown settings limits call none
        request start).0
      ≡ ok r)
    × IsReduction dumps dumps digest safe loads shown request r
compile-IsReduction_example =
    compile-IsReduction dumps dumps digest safe loads shown settings limits call none request start
