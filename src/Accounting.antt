-- ===== src/Accounting.antt =====
-- Token accounting, `RequestTokenAccounting` of src/rtk_hermes_plus/token_accounting.py, beside the
-- request metrics of the vault.
pub mod Sums
use token_terminator.Common.{
  ℕ, suc, ◌+◌, ◌-◌, ◌/◌, ◌%◌, String, ◌+++◌, Bool, true, false, ◌&&◌, ◌||◌, not, Option, none, some,
  List, [], ◌∷◌, any, filter, length, sum_by, ltb, leb, ◌==◌, if◌then◌else◌, str_eq, is_some,
}
use token_terminator.Vault.Savings.{Metric}

-- `TokenMeasurement`; token counts are zero or more.
pub record TokenMeasurement : Type 0 where
  pub tokens : Option ℕ
  pub backend : String
  pub model : String

-- A row of `request_token_metrics`.
pub record TokenRow : Type 0 where
  pub session_id : String
  pub request_id : String
  pub model : String
  pub tokenizer_backend : String
  pub raw_tokens : ℕ
  pub final_tokens : ℕ
  pub saved_tokens : ℕ
  pub measured_at : String

unfoldable pub same_key : String → String → TokenRow → Bool
same_key session request r = str_eq r.session_id session && str_eq r.request_id request

-- INSERT … ON CONFLICT(session_id, request_id) DO UPDATE SET every other column
unfoldable pub put_row : TokenRow → List TokenRow → List TokenRow
put_row new [] = new ∷ []
put_row new (r ∷ rs) =
    if same_key new.session_id new.request_id r then new ∷ rs else r ∷ put_row new rs

abbrev pub count_of : Option ℕ → ℕ
count_of none = 0
count_of (some n) = n

-- The row that `record` writes.
unfoldable pub measured_row :
    String → String → String → TokenMeasurement → TokenMeasurement → TokenRow
measured_row now session request raw final = record {
  session_id = session;
  request_id = request;
  model = if str_eq final.model "" then raw.model else final.model;
  tokenizer_backend =
      if str_eq raw.backend final.backend
      then raw.backend
      else raw.backend +++ "|" +++ final.backend;
  raw_tokens = count_of raw.tokens;
  final_tokens = count_of final.tokens;
  saved_tokens = count_of raw.tokens - count_of final.tokens;
  measured_at = now;
}

-- `record`, where the table could be created (`available`): the answer, and the table
unfoldable pub record_tokens :
    Bool
    → String
    → String
    → String
    → TokenMeasurement
    → TokenMeasurement
    → List TokenRow
    → Bool × List TokenRow
record_tokens available now session request raw final rows =
    if not available || not (is_some raw.tokens) || not (is_some final.tokens)
    then (false, rows)
    else if ltb (count_of raw.tokens) (count_of final.tokens)
    then (false, rows)
    else (true, put_row (measured_row now session request raw final) rows)

-- round(n / 4), which rounds a half to the even number
unfoldable pub round_quarter : ℕ → ℕ
round_quarter n =
    if ltb (n % 4) 2 then n / 4 else if ltb 2 (n % 4) then n / 4 + 1 else n / 4 + (n / 4) % 2

-- … LEFT JOIN request_token_metrics t … WHERE r.end_to_end_measured=1 AND t.request_id IS NULL
unfoldable pub is_fallback : List TokenRow → Metric → Bool
is_fallback rows m = m.end_to_end_measured && not (any (same_key m.session_id m.request_id) rows)

-- What `summary` reports, where the table is available; the coverage, a rounded percentage, and the
-- names of the backends are left out.
pub record Summary : Type 0 where
  pub measured_requests : ℕ
  pub eligible_requests : ℕ
  pub measured_raw_tokens : ℕ
  pub measured_final_tokens : ℕ
  pub measured_saved_tokens : ℕ
  pub fallback_saved_chars : ℕ
  pub fallback_estimated_saved_tokens : ℕ
  pub best_available_saved_tokens : ℕ
  pub source : String

unfoldable pub source_of : ℕ → ℕ → String
source_of measured eligible =
    if not (eligible == 0) && leb eligible measured
    then "exact-tokenizer"
    else if not (measured == 0)
    then "mixed-exact-and-chars/4-fallback"
    else "chars/4-fallback"

unfoldable pub fallback_chars : List TokenRow → List Metric → ℕ
fallback_chars rows metrics =
    sum_by (λ (m : Metric). m.end_to_end_saved_chars) (filter (is_fallback rows) metrics)

unfoldable pub summary : List TokenRow → List Metric → Summary
summary rows metrics =
    let eligible = length (filter (λ (m : Metric). m.end_to_end_measured) metrics) in
    let saved = sum_by (λ (r : TokenRow). r.saved_tokens) rows in
    record {
      measured_requests = length rows;
      eligible_requests = eligible;
      measured_raw_tokens = sum_by (λ (r : TokenRow). r.raw_tokens) rows;
      measured_final_tokens = sum_by (λ (r : TokenRow). r.final_tokens) rows;
      measured_saved_tokens = saved;
      fallback_saved_chars = fallback_chars rows metrics;
      fallback_estimated_saved_tokens = round_quarter (fallback_chars rows metrics);
      best_available_saved_tokens = saved + round_quarter (fallback_chars rows metrics);
      source = source_of (length rows) eligible;
    }
