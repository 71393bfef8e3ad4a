-- ===== src/Examples/Accounting.antt =====
-- Tests of the token accounting: one request that a tokenizer measured.
use token_terminator.Common.{ℕ, ◌+◌, ◌*◌, ◌≤◌, ◌≡◌, refl, true, some, [], ◌∷◌}
use token_terminator.Accounting.{
  TokenMeasurement, TokenRow, same_key, record_tokens, round_quarter, summary, is_fallback,
  fallback_chars, source_of,
}
use token_terminator.Vault.Savings.{measured_sum}
use token_terminator.Accounting.Sums.{
  IsTable, Recorded, counted_chars, record_tokens-IsTable, summary_agree,
}
use token_terminator.Examples.Savings.{late_row}

abbrev measured : ℕ → TokenMeasurement
measured n = record { tokens = some n; backend = "tiktoken"; model = "gpt" }

no_rows-IsTable : IsTable []
no_rows-IsTable = record { balanced = tt; single = tt }

record_tokens-IsTable_example :
    let (answer, after) = record_tokens true "t" "s" "r" (measured 30) (measured 20) [] in
    IsTable after × Recorded true "s" "r" (measured 30) (measured 20) [] after answer
record_tokens-IsTable_example =
    record_tokens-IsTable true "t" "s" "r" (measured 30) (measured 20) [] no_rows-IsTable

abbrev row : TokenRow
row = record {
  session_id = "s";
  request_id = "r";
  model = "gpt";
  tokenizer_backend = "tiktoken";
  raw_tokens = 30;
  final_tokens = 20;
  saved_tokens = 10;
  measured_at = "t";
}

row-IsTable : IsTable (row ∷ [])
row-IsTable = record { balanced = (refl, tt); single = (refl, tt) }

round_quarter_test : (round_quarter 2 ≡ 0) × (round_quarter 6 ≡ 2) × (round_quarter 7 ≡ 2)
unfolding round_quarter
round_quarter_test = (refl, refl, refl)

-- Two requests are eligible or measured, but not the same one: the report still says exact.
source_test :
    let s = summary (record row { request_id = "other" } ∷ []) (late_row ∷ []) in
    (s.source ≡ "exact-tokenizer") × (s.fallback_saved_chars ≡ 30)
unfolding summary source_of fallback_chars is_fallback same_key
source_test = (refl, refl)

summary_agree_example :
    let s = summary (row ∷ []) (late_row ∷ []) in
    (s.fallback_saved_chars + counted_chars (row ∷ []) (late_row ∷ [])
      ≡ measured_sum (λ m. m.end_to_end_saved_chars) (late_row ∷ []))
    × (s.measured_final_tokens + s.measured_saved_tokens ≡ s.measured_raw_tokens)
    × (4 * s.fallback_estimated_saved_tokens ≤ s.fallback_saved_chars + 2)
    × (s.fallback_saved_chars ≤ 4 * s.fallback_estimated_saved_tokens + 2)
    × (s.best_available_saved_tokens ≡ s.measured_saved_tokens + s.fallback_estimated_saved_tokens)
summary_agree_example = summary_agree (row ∷ []) (late_row ∷ []) row-IsTable
