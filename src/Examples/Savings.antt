-- ===== src/Examples/Savings.antt =====
-- Tests of the request metrics: one request, compiled early and measured end to end later.
use token_terminator.Common.{◌≡◌, refl, true, false, none, some, [], ◌∷◌, ok, All, arith, ◌+◌}
use token_terminator.Json.{whole}
use token_terminator.Vault.Savings.{
  Metric, Measurement, record_request_metric, IsBalanced, IsSingle, counts, check_metric, upsert,
  update_final, compiled_row, set_final, update_compiled, invalidate, same_request,
}
use token_terminator.Vault.Savings.Balance.{
  record_request_metric-IsBalanced, record_request_metric-compiler_only, counts_agree, metric_of,
}

abbrev early : Measurement
early = record {
  session_id = "s";
  request_id = "r";
  request_mode = "";
  raw_chars = 100;
  compiled_chars = 80;
  saved_chars = none;
  artifact_count = 1;
  receipts = 1;
  duplicates_collapsed = 0;
  tool_schema_chars = 0;
  failed_open = false;
  final_chars = 0;
  vaulted_results = whole 0;
  collapsed_turns = whole 0;
  compactor_failed_open = false;
  end_to_end_measured = false;
}

abbrev late : Measurement
late = record early { final_chars = 70; end_to_end_measured = true; saved_chars = some 20 }

abbrev early_row : Metric
early_row = record {
  session_id = "s";
  request_id = "r";
  request_mode = "unknown";
  raw_chars = 100;
  compiled_chars = 80;
  saved_chars = 20;
  artifact_count = 1;
  receipts = 1;
  duplicates_collapsed = 0;
  tool_schema_chars = 0;
  failed_open = false;
  created_at = "t1";
  final_chars = 0;
  compactor_saved_chars = 0;
  end_to_end_saved_chars = 0;
  vaulted_results = whole 0;
  collapsed_turns = whole 0;
  compactor_failed_open = false;
  end_to_end_measured = false;
}

abbrev pub late_row : Metric
late_row = record early_row {
  created_at = "t2";
  final_chars = 70;
  compactor_saved_chars = 10;
  end_to_end_saved_chars = 30;
  end_to_end_measured = true;
}

recorded_early : record_request_metric "t1" early [] ≡ ok (early_row ∷ [])
unfolding record_request_metric check_metric upsert compiled_row
recorded_early = refl

recorded_late : record_request_metric "t2" late (early_row ∷ []) ≡ ok (late_row ∷ [])
unfolding record_request_metric check_metric upsert compiled_row update_compiled invalidate
    same_request update_final set_final
recorded_late = refl

recorded_again : record_request_metric "t3" early (late_row ∷ []) ≡ ok (late_row ∷ [])
unfolding record_request_metric check_metric upsert compiled_row update_compiled same_request
recorded_again = refl

early_row-IsBalanced : IsBalanced early_row
early_row-IsBalanced = record {
  compiler = refl;
  measured = λ e. absurd (ground arith);
  whole = λ e. absurd (ground arith);
  unmeasured = λ e. (refl, refl, refl);
}

late_row-IsBalanced : IsBalanced late_row
late_row-IsBalanced = record {
  compiler = refl;
  measured = λ e. refl;
  whole = λ e. refl;
  unmeasured = λ e. absurd (ground arith);
}

record_request_metric-IsBalanced_example : All IsBalanced (late_row ∷ []) × IsSingle (late_row ∷ [])
record_request_metric-IsBalanced_example =
    record_request_metric-IsBalanced "t2" late (early_row ∷ []) (late_row ∷ [])
      (early_row-IsBalanced, tt) (refl, tt) recorded_late

late_found : metric_of "s" "r" (late_row ∷ []) ≡ some late_row
unfolding same_request
late_found = refl

record_request_metric-compiler_only_example : late_row ∷ [] ≡ late_row ∷ []
record_request_metric-compiler_only_example =
    record_request_metric-compiler_only "t3" early (late_row ∷ []) (late_row ∷ []) late_row refl
      late_found refl recorded_again

counts_agree_example :
    let c = counts (late_row ∷ early_row ∷ []) in
    (c.end_to_end_saved_chars ≡ c.measured_compiler_saved_chars + c.measured_compactor_saved_chars)
    × (c.measured_final_chars + c.end_to_end_saved_chars ≡ c.measured_raw_chars)
    × (c.end_to_end_requests + c.compiler_only_requests ≡ c.requests)
counts_agree_example =
    counts_agree (late_row ∷ early_row ∷ []) (late_row-IsBalanced, (early_row-IsBalanced, tt))
