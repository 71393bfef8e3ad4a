-- ===== src/Examples/Budget.antt =====
-- Tests of the token budget: names of models, measurements, the gates, and omissions under pressure.
use Prim.Native.Char.{Char, code}
use token_terminator.Common.{
  ℕ, ◌+◌, ◌≤◌, String, count, ◌≡◌, refl, Bool, true, false, ◌&&◌, Option, none, some, [], leb, ◌==◌,
  Result, ok, strip, rstrip, rstrip_by, lstrip_by, is_space, take, drop,
}
use token_terminator.Common.Actions.{Action}
use token_terminator.Json.{Value, null, text, object, nil, item, Fields, end, field, get, has, set}
use token_terminator.Accounting.{TokenMeasurement}
use token_terminator.Compiler.Slots.{is_text}
use token_terminator.Compactor.Turns.{size, rest_items}
use token_terminator.Compiler.Request.{CompileResult, compile}
use token_terminator.Compactor.Request.{CompactionResult, compact_request}
use token_terminator.Guards.Patterns.{
  protected_prose, authority_text, has_words, authority_words, matches_parts, ends_word,
  has_receipt, contains, has_artifact_id, is_artifact_id, hex_run, any_char, is_exact_char,
  has_code_line, opens_code, has_quotation, closes_quote, is_hex, word, words_of,
}
use token_terminator.Guards.Messages.{
  plain_message, plain_fields, plain_keys, plain_content, is_hashable,
}
use token_terminator.Budget.Models.{
  compat_encoding, alias_identity, tokenizer_model_name, split_model, rsplit, ends_with,
  is_compat_namespace, is_context_base, is_snapshot, matches,
}
use token_terminator.Budget.Measure.{
  measure_serialized, measure_text, huggingface, tiktoken_encoding, tiktoken_module, look_up,
  cache_key, cached, active_model, Adapter, Window, usable_context_tokens, measure_request,
}
use token_terminator.Budget.Gates.{gated_compile, gated_compact}
use token_terminator.Budget.Reduction as Compiled
use token_terminator.Budget.Compaction as Compacted
use token_terminator.Budget.Stability.{measure_request_idem}
use token_terminator.Budget.Omissions.{
  input_budget, windows, engine_window, output_reserve, positive_int, positive_ints, minimum,
  maximum, set_item, items_at, history_of, may_replace, replaces_plain, is_candidate, is_receipt,
  is_guarded, omit_item, try_item, smaller_trial, omit_loop, history_key, minimum_omissions,
}
use token_terminator.Budget.Pressure.{Omits, minimum_omissions-Omits}
use token_terminator.Budget.Tail.{minimum_omissions-tail}
use token_terminator.Examples.Compiler.{
  dumps, digest, safe, loads, shown, limits, settings, call, request, start,
}
use token_terminator.Examples.Compactor.{
  equal, int_of, message, chat, conversation, compactor, roomy, unchanged_conversation,
}
use token_terminator.Vault.Tables.{empty}

abbrev lower : String → String
lower s = s

abbrev is_digit : Char → Bool
is_digit c = leb 48 (code c) && leb (code c) 57

alias_test :
    alias_identity lower is_digit " openai/gpt-5.6-sol-2026-01-02-900k "
    ≡ "openai/gpt-5.6-sol-2026-01-02"
unfolding alias_identity split_model rsplit ends_with is_compat_namespace is_context_base
    is_snapshot matches strip rstrip rstrip_by lstrip_by is_space take drop
alias_test = refl

stranger_test : tokenizer_model_name lower is_digit "other/gpt-5.4-900k" ≡ "gpt-5.4-900k"
unfolding tokenizer_model_name alias_identity split_model rsplit ends_with is_compat_namespace
    is_context_base is_snapshot matches strip rstrip rstrip_by lstrip_by is_space take drop
stranger_test = refl

abbrev count_text : Unit {0} → String → Option ℕ
count_text e s = some (count s)

abbrev no_tokenizer : Unit {0} → String → Option ℕ
no_tokenizer h s = none

abbrev serialize : Value → Option String
serialize v = some (dumps v)

abbrev known_model : String → Option (Unit {0})
known_model m = some tt

abbrev no_encoding : String → Option (Unit {0})
no_encoding m = none

abbrev fresh : Adapter (Unit {0}) (Unit {0})
fresh = record {
  enabled = true;
  encoding_name = "";
  hf_attempted = false;
  hf_tokenizer = none;
  tiktoken_attempted = false;
  tiktoken = false;
  encodings = [];
}

abbrev meter : String → Value → Action (Adapter (Unit {0}) (Unit {0})) TokenMeasurement
meter model v a =
    measure_request lower is_digit (ok none) true known_model no_encoding count_text no_tokenizer
      serialize v model a

abbrev measured_of : Result TokenMeasurement → TokenMeasurement
measured_of (ok m) = m
measured_of r = record { tokens = none; backend = ""; model = "" }

returned_test :
    (meter "gpt-5.4" request fresh).0 ≡ ok (measured_of (meter "gpt-5.4" request fresh).0)
unfolding measure_request measure_serialized measure_text huggingface tiktoken_encoding
    tiktoken_module look_up cache_key cached active_model tokenizer_model_name compat_encoding
    alias_identity split_model rsplit ends_with is_compat_namespace is_context_base is_snapshot
    matches strip rstrip rstrip_by lstrip_by is_space take drop get
returned_test = refl

measure_request_idem_example :
    meter "gpt-5.4" request (meter "gpt-5.4" request fresh).1 ≡ meter "gpt-5.4" request fresh
measure_request_idem_example =
    measure_request_idem lower is_digit (ok none) true known_model no_encoding count_text
      no_tokenizer serialize request "gpt-5.4" fresh (measured_of (meter "gpt-5.4" request fresh).0)
      returned_test

gated_compile-Answers_example :
    (r : CompileResult) × ((compile dumps dumps digest safe loads shown settings limits call none
        request start).0
      ≡ ok r)
    × Compiled.Answers
        (meter "gpt-5.4")
        dumps
        dumps
        digest
        safe
        loads
        shown
        request
        r.request
        fresh
        (gated_compile
          (meter "gpt-5.4")
          dumps
          dumps
          digest
          safe
          loads
          shown
          settings
          limits
          call
          none
          request
          (record { inner = start; adapter = fresh })).0
gated_compile-Answers_example =
    Compiled.gated_compile-Answers (meter "gpt-5.4") dumps dumps digest safe loads shown settings
      limits call none request (record { inner = start; adapter = fresh })

gated_compact-Answers_example :
    (r : CompactionResult) × ((compact_request dumps dumps digest safe equal shown int_of compactor
        roomy
        (object (chat conversation))
        empty).0
      ≡ ok r)
    × Compacted.Answers
        (meter "gpt-5.4")
        dumps
        dumps
        digest
        safe
        equal
        shown
        int_of
        (object (chat conversation))
        r.request
        fresh
        (gated_compact
          (meter "gpt-5.4")
          dumps
          dumps
          digest
          safe
          equal
          shown
          int_of
          compactor
          roomy
          (object (chat conversation))
          (record { inner = empty; adapter = fresh })).0
gated_compact-Answers_example =
    Compacted.gated_compact-Answers (meter "gpt-5.4") dumps dumps digest safe equal shown int_of
      compactor roomy (chat conversation) (record { inner = empty; adapter = fresh })
      unchanged_conversation

abbrev window : Window
window = record { context_limit_tokens = 100; output_reserve_tokens = 20; safety_margin_tokens = 5 }

budget_test :
    (usable_context_tokens window ≡ some 75)
    × (input_budget window
          (field "model" (text "m") end)
          null
          (some (record { model = "m"; context_length = 60 }))
        ≡ some 35)
unfolding usable_context_tokens input_budget windows engine_window output_reserve positive_int
    positive_ints minimum maximum is_text get
budget_test = (refl, refl)

abbrev is_word : Char → Bool
is_word c = leb 97 (code c) && leb (code c) 122

abbrev same_letter : Char → Char → Bool
same_letter c d = code c == code d

abbrev encoded : Value → ℕ
encoded v = count (dumps v)

abbrev measure : Value → Result ℕ
measure v = ok (count (dumps v))

abbrev original : Fields
original =
    chat (item (message "user" "the old talk of the morning") (item (message "user" "and now") nil))

abbrev proposal : Fields
proposal =
    chat (item (message "user" "[TT history x]") (item (message "user" "[TT history y]") nil))

abbrev omitted : Fields
omitted = chat (item (message "user" "[TT history x]") (item (message "user" "and now") nil))

omitted_test :
    minimum_omissions is_word same_letter lower equal encoded measure original original proposal 10
      1
    ≡ ok (omitted, 1)
unfolding minimum_omissions history_of omit_loop omit_item try_item smaller_trial set_item
    may_replace replaces_plain is_candidate is_receipt is_guarded plain_message plain_fields
    plain_keys plain_content is_hashable protected_prose authority_text has_words authority_words
    matches_parts ends_word has_receipt contains has_artifact_id is_artifact_id hex_run any_char
    is_exact_char has_code_line opens_code has_quotation closes_quote is_hex word words_of is_text
    is_space get has set size
omitted_test = refl

minimum_omissions-Omits_example :
    Omits is_word same_letter lower equal encoded measure
      (history_key original)
      10
      1
      (items_at (history_key original) original)
      (items_at (history_key original) proposal)
      original
      omitted
      1
unfolding size has get
minimum_omissions-Omits_example =
    minimum_omissions-Omits is_word same_letter lower equal encoded measure original original
      proposal omitted 10 1 1 omitted_test

minimum_omissions-tail_example :
    (rest_items 1 (items_at (history_key original) omitted)
      ≡ rest_items 1 (items_at (history_key original) original))
    × (encoded (object omitted) + 1 ≤ encoded (object original))
unfolding size has get
minimum_omissions-tail_example =
    minimum_omissions-tail is_word same_letter lower equal encoded measure original original
      proposal omitted 10 1 1 omitted_test
