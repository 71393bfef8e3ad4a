-- ===== src/Vault/Savings.antt =====
-- Request metrics (storage.py): `record_request_metric`, its trigger, and the sums of `counts`.
pub mod Keys
pub mod Balance
use token_terminator.Common.{
  ℕ, zero, suc, ◌+◌, ◌-◌, ◌≤◌, String, ◌≡◌, refl, Bool, true, false, ◌&&◌, ◌||◌, not, Option, none,
  some, List, [], ◌∷◌, ◌++◌, arith, ltb, ◌==◌, if◌then◌else◌, str_eq, eq_iff, Result, ok, raise,
  value_error, ◌>>=◌, ◌>>◌, raise_if, All, Bool-cases, inl, inr, is_some, any, filter, sum_by,
  length, ◌⊎◌,
}
use token_terminator.Json.{Number, whole}

-- A row of `request_metrics`.
pub record Metric : Type 0 where
  pub session_id : String
  pub request_id : String
  pub request_mode : String
  pub raw_chars : ℕ
  pub compiled_chars : ℕ
  pub saved_chars : ℕ
  pub artifact_count : ℕ
  pub receipts : ℕ
  pub duplicates_collapsed : ℕ
  pub tool_schema_chars : ℕ
  pub failed_open : Bool
  pub created_at : String
  pub final_chars : ℕ
  pub compactor_saved_chars : ℕ
  pub end_to_end_saved_chars : ℕ
  pub vaulted_results : Number
  pub collapsed_turns : Number
  pub compactor_failed_open : Bool
  pub end_to_end_measured : Bool

-- The keyword arguments of a call. The sizes and the compiler's counts are zero or more, as its results
-- have them; the compactor's two counts may be any `int`, and the code does not look at them.
pub record Measurement : Type 0 where
  pub session_id : String
  pub request_id : String
  pub request_mode : String
  pub raw_chars : ℕ
  pub compiled_chars : ℕ
  pub saved_chars : Option ℕ
  pub artifact_count : ℕ
  pub receipts : ℕ
  pub duplicates_collapsed : ℕ
  pub tool_schema_chars : ℕ
  pub failed_open : Bool
  pub final_chars : ℕ
  pub vaulted_results : Number
  pub collapsed_turns : Number
  pub compactor_failed_open : Bool
  pub end_to_end_measured : Bool

abbrev pub saved_of : Measurement → ℕ
saved_of m = elim m.saved_chars [ some n ↦ n | none ↦ m.raw_chars - m.compiled_chars ]

-- The tests before the transaction.
unfoldable pub check_metric : Measurement → Result (Unit {0})
check_metric m = do
  raise_if
      (ltb m.raw_chars m.compiled_chars || not (saved_of m == (m.raw_chars - m.compiled_chars)))
      value_error
  raise_if (m.end_to_end_measured && ltb m.compiled_chars m.final_chars) value_error

-- The row that the `INSERT` writes.
unfoldable pub compiled_row : String → Measurement → Metric
compiled_row now m = record {
  session_id = m.session_id;
  request_id = m.request_id;
  request_mode = if str_eq m.request_mode "" then "unknown" else m.request_mode;
  raw_chars = m.raw_chars;
  compiled_chars = m.compiled_chars;
  saved_chars = saved_of m;
  artifact_count = m.artifact_count;
  receipts = m.receipts;
  duplicates_collapsed = m.duplicates_collapsed;
  tool_schema_chars = m.tool_schema_chars;
  failed_open = m.failed_open;
  created_at = now;
  final_chars = 0;
  compactor_saved_chars = 0;
  end_to_end_saved_chars = 0;
  vaulted_results = whole 0;
  collapsed_turns = whole 0;
  compactor_failed_open = false;
  end_to_end_measured = false;
}

unfoldable pub same_request : String → String → Metric → Bool
same_request session request r = str_eq r.session_id session && str_eq r.request_id request

-- `invalidate_request_metric_end_to_end`, which fires where the old row was measured.
unfoldable pub invalidate : Bool → Metric → Metric
invalidate was_measured r =
    if was_measured
    then record r {
      final_chars = 0;
      compactor_saved_chars = 0;
      end_to_end_saved_chars = 0;
      vaulted_results = whole 0;
      collapsed_turns = whole 0;
      compactor_failed_open = false;
      end_to_end_measured = false;
    }
    else r

-- ON CONFLICT … DO UPDATE SET the compiler's columns WHERE end_to_end_measured = 0 OR ? = 1
unfoldable pub update_compiled : Bool → Metric → Metric → Metric
unfolding invalidate
update_compiled measured new old =
    if not old.end_to_end_measured || measured
    then invalidate old.end_to_end_measured (record old {
      request_mode = new.request_mode;
      raw_chars = new.raw_chars;
      compiled_chars = new.compiled_chars;
      saved_chars = new.saved_chars;
      artifact_count = new.artifact_count;
      receipts = new.receipts;
      duplicates_collapsed = new.duplicates_collapsed;
      tool_schema_chars = new.tool_schema_chars;
      failed_open = new.failed_open;
      created_at = new.created_at;
    })
    else old

unfoldable pub upsert : Bool → Metric → List Metric → List Metric
upsert measured new [] = new ∷ []
upsert measured new (r ∷ rs) =
    if same_request new.session_id new.request_id r
    then update_compiled measured new r ∷ rs
    else r ∷ upsert measured new rs

-- The `UPDATE` of the end-to-end columns.
unfoldable pub set_final : Measurement → Metric → Metric
set_final m r = record r {
  final_chars = m.final_chars;
  compactor_saved_chars = m.compiled_chars - m.final_chars;
  end_to_end_saved_chars = m.raw_chars - m.final_chars;
  vaulted_results = m.vaulted_results;
  collapsed_turns = m.collapsed_turns;
  compactor_failed_open = m.compactor_failed_open;
  end_to_end_measured = true;
}

unfoldable pub update_final : Measurement → List Metric → List Metric
update_final m [] = []
update_final m (r ∷ rs) =
    if same_request m.session_id m.request_id r
    then set_final m r ∷ update_final m rs
    else r ∷ update_final m rs

unfoldable pub record_request_metric : String → Measurement → List Metric → Result (List Metric)
record_request_metric now m rows = do
  check_metric m
  let compiled = upsert m.end_to_end_measured (compiled_row now m) rows
  ok (if m.end_to_end_measured then update_final m compiled else compiled)

-- SELECT COALESCE(SUM(column), 0) FROM request_metrics WHERE end_to_end_measured=1
unfoldable pub measured_sum : (Metric → ℕ) → List Metric → ℕ
measured_sum column rows = sum_by column (filter (λ r. r.end_to_end_measured) rows)

-- The part of `counts` that reads `request_metrics` for the measured savings.
pub record SavingCounts : Type 0 where
  pub requests : ℕ
  pub end_to_end_requests : ℕ
  pub compiler_only_requests : ℕ
  pub measured_raw_chars : ℕ
  pub measured_compiled_chars : ℕ
  pub measured_final_chars : ℕ
  pub measured_compiler_saved_chars : ℕ
  pub measured_compactor_saved_chars : ℕ
  pub end_to_end_saved_chars : ℕ

unfoldable pub counts : List Metric → SavingCounts
unfolding measured_sum
counts rows = record {
  requests = length rows;
  end_to_end_requests = length (filter (λ r. r.end_to_end_measured) rows);
  compiler_only_requests = length (filter (λ r. not r.end_to_end_measured) rows);
  measured_raw_chars = measured_sum (λ r. r.raw_chars) rows;
  measured_compiled_chars = measured_sum (λ r. r.compiled_chars) rows;
  measured_final_chars = measured_sum (λ r. r.final_chars) rows;
  measured_compiler_saved_chars = measured_sum (λ r. r.saved_chars) rows;
  measured_compactor_saved_chars = measured_sum (λ r. r.compactor_saved_chars) rows;
  end_to_end_saved_chars = measured_sum (λ r. r.end_to_end_saved_chars) rows;
}

-- The columns of a row agree: the compiler's savings, and the end-to-end savings where measured.
pub record IsBalanced (r : Metric) : Type 0 where
  pub compiler : r.compiled_chars + r.saved_chars ≡ r.raw_chars
  pub measured :
      r.end_to_end_measured ≡ true → r.final_chars + r.compactor_saved_chars ≡ r.compiled_chars
  pub whole :
      r.end_to_end_measured ≡ true
      → r.end_to_end_saved_chars ≡ r.saved_chars + r.compactor_saved_chars
  pub unmeasured :
      r.end_to_end_measured ≡ false
      → (r.final_chars ≡ 0) × (r.compactor_saved_chars ≡ 0) × (r.end_to_end_saved_chars ≡ 0)

-- No two rows are of one request.
abbrev pub IsSingle : List Metric → Type 0
IsSingle [] = Unit
IsSingle (r ∷ rs) = (any (same_request r.session_id r.request_id) rs ≡ false) × IsSingle rs

pub same_request_iff :
    (s q : String) (r : Metric)
    → same_request s q r ≡ true
    → (r.session_id ≡ s) × (r.request_id ≡ q)
unfolding same_request
same_request_iff s q r h = ground (arith, eq_iff r.session_id s, eq_iff r.request_id q)
