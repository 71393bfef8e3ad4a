-- ===== src/Examples/Runtime.antt =====
-- Tests of the middleware: a request that repeats a tool result, without the optional reducers.
use Prim.Native.Char.{Char, code}
use token_terminator.Common.{
  ℕ, ◌≡◌, refl, Bool, true, false, ◌&&◌, ◌||◌, Option, none, some, [], ◌∷◌, leb, ltb, ◌==◌, Result,
  ok, arith, subst, take, drop, print, print_from, is_space, join, length,
}
use token_terminator.Json.{whole, null, text, object, end, field, get, set, has, truthy}
use token_terminator.Vault.Tables.{by_sha, by_id}
use token_terminator.Vault.Put.{
  put_artifact, put_body, store_new, prune_for_insert, insert_artifact, attach, observe, fresh_id,
  short_id, same_observation,
}
use token_terminator.Vault.Leases.{
  record_exposure, update_exposure, exposure_of, exposure_available, inline_count, claim_exposure,
  insert_exposure, has_key,
}
use token_terminator.Vault.Savings.{
  record_request_metric, check_metric, compiled_row, same_request, invalidate, update_compiled,
  upsert, set_final, update_final,
}
use token_terminator.Compiler.Slots.{
  is_text, lookup, calls_of, in_bounds, chat_known, slot_at, slots_from, chat_slots, call_id_of,
  receipt, receipt_tool_name, safe_chars, words, learn_calls,
}
use token_terminator.Compiler.Request.{
  Store, mode_of, write_item, add_group, serialized_chars, store_slots, distinct_ids, group_slots,
  place_receipt, lease_group, lease_groups, claim_pending, inject, with_graph, accept,
  compile_object, finalize, identified, compile,
}
use token_terminator.Compactor.Turns as Turns
use token_terminator.Compactor.Turns.{open_compactor, turn_starts, is_user, size}
use token_terminator.Compactor.Request as Compaction
use token_terminator.Compactor.Request.{
  pop_counts, without, compact_request, compact_object, compact_as, compact_mode, compact_items,
  outcome_of, items_in,
}
use token_terminator.Runtime.References.{
  IsClean, strip_internal_metadata, strip_fields, is_internal, artifact_ids_in, sorted_set,
  insert_id, find_ids, id_at, hex_digits, hex_prefix, ends_id, comes_before,
}
use token_terminator.Guards.Patterns.{is_hex}
use token_terminator.Runtime.Middleware.{
  Config, Decision, semantic_off, encode_off, llm_request_middleware, difference, adopt,
  adopt_compaction, adopt_reduction, compactor_of, decide, measured_row, record_metric,
  protect_references, compaction_phase, semantic_phase, measuring_phase, conclude, finish,
  after_compile,
}
use token_terminator.Runtime.Savings.{KeepsClean, Saves, llm_request_middleware-Saves}
use token_terminator.Examples.Compiler.{
  dumps, digest, safe, loads, shown, limits, settings, call, request, start,
}
use token_terminator.Examples.Compactor.{equal, int_of}

abbrev is_word : Char → Bool
is_word c =
    (leb 48 (code c) && leb (code c) 57) || (leb 97 (code c) && leb (code c) 122) || code c == 95

-- A short id and one of 33 digits
references_test :
    artifact_ids_in is_word
      "b a_00000000000000000000000000000002, a_00000000000000000000000000000001 aa_00000000000000000000000000000003 a_000000000000000000000000000000004"
    ≡ "a_00000000000000000000000000000001" ∷ "a_00000000000000000000000000000002" ∷ []
unfolding artifact_ids_in sorted_set insert_id find_ids id_at hex_digits hex_prefix ends_id
    comes_before is_hex drop
references_test = refl

strip_test :
    strip_internal_metadata (object (field "_tt_plan" null (field "model" (text "m") end)))
    ≡ object (field "model" (text "m") end)
unfolding strip_internal_metadata strip_fields is_internal
strip_test = refl

abbrev config : Config
config = record {
  compiler = settings;
  limits = limits;
  context_compaction_enabled = true;
  context_min_vault_chars = 500;
  context_collapse_after_turns = 0;
  context_inline_recent_turns = 1;
}

abbrev outcome : Result (Option Decision) × Store → Bool × ℕ × ℕ × ℕ
outcome (ok (some d), s) =
    (ltb d.final_chars d.raw_chars, d.receipts, length s.metrics, length s.vault.exposures)
outcome (r, s) = (false, 0, length s.metrics, 0)

-- The decision saves, with one receipt, one row, and one exposure of what it refers to.
decision_test :
    outcome (
      llm_request_middleware dumps dumps digest safe loads equal shown int_of is_word semantic_off
        encode_off config false call none request start)
    ≡ (true, 1, 1, 1)
unfolding llm_request_middleware after_compile compaction_phase semantic_phase measuring_phase
    conclude finish decide record_metric measured_row difference adopt adopt_compaction
    adopt_reduction protect_references compactor_of open_compactor compact_request compact_object
    compact_as compact_mode compact_items outcome_of items_in turn_starts is_user size
    strip_internal_metadata strip_fields is_internal artifact_ids_in sorted_set insert_id find_ids
    id_at hex_digits hex_prefix ends_id comes_before is_hex drop record_request_metric check_metric
    compiled_row same_request invalidate update_compiled upsert set_final update_final
    record_exposure exposure_of insert_exposure has_key update_exposure compile compile_object
    identified store_slots distinct_ids group_slots place_receipt lease_group lease_groups
    claim_pending inject with_graph accept finalize serialized_chars mode_of write_item add_group
    is_text lookup calls_of in_bounds chat_known slot_at slots_from chat_slots call_id_of receipt
    receipt_tool_name safe_chars words print print_from is_space join take get set has truthy
    put_artifact put_body store_new prune_for_insert insert_artifact attach observe fresh_id
    short_id same_observation by_sha by_id exposure_available inline_count claim_exposure
    learn_calls Turns.mode_of Compaction.accept pop_counts without
decision_test = refl

encode_off-KeepsClean :
    KeepsClean dumps dumps digest safe loads equal shown int_of is_word semantic_off encode_off
encode_off-KeepsClean c jev v s u r h clean =
    let same : record { request = v; saved_chars = 0; failed_open = false } ≡ r = ground arith in
    subst (λ x. IsClean x.request) same clean

llm_request_middleware-Saves_example :
    (d : Option Decision) × ((llm_request_middleware dumps dumps digest safe loads equal shown
        int_of is_word semantic_off encode_off config false call none request start).0
      ≡ ok d)
    × Saves dumps dumps digest safe loads equal shown int_of is_word semantic_off encode_off request
        d
llm_request_middleware-Saves_example =
    llm_request_middleware-Saves dumps dumps digest safe loads equal shown int_of is_word
      semantic_off encode_off encode_off-KeepsClean config false call none request start

abbrev finished : Result (Option Decision) × Store
finished =
    llm_request_middleware dumps dumps digest safe loads equal shown int_of is_word semantic_off
      encode_off config false call none request start

abbrev nothing : Decision
nothing = record {
  request = null;
  raw_chars = 0;
  compiler_chars = 0;
  final_chars = 0;
  compiler_saved_chars = 0;
  compactor_saved_chars = whole 0;
  jev_saved_chars = 0;
  end_to_end_saved_chars = 0;
  artifacts = 0;
  receipts = 0;
  duplicates_collapsed = 0;
  vaulted_results = whole 0;
  collapsed_turns = whole 0;
}

abbrev decision_of : Result (Option Decision) → Decision
decision_of (ok (some d)) = d
decision_of r = nothing
