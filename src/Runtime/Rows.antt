-- ===== src/Runtime/Rows.antt =====
-- The row of request metrics behind a decision of the middleware (plugin.py).
use Prim.Native.Char.{Char}
use token_terminator.Common.{
  ℕ, ◌-◌, String, ◌≡◌, Bool, true, false, ◌&&◌, Option, List, any, ◌==◌, str_eq, Result,
}
use token_terminator.Common.Actions.{Action}
use token_terminator.Json.{Number, Value, Fields}
use token_terminator.Vault.Savings.{Metric, same_request}
use token_terminator.Compiler.Request.{Store, Call}
use token_terminator.Compiler.Reduction as Compiled
use token_terminator.Runtime.Middleware.{Reduction, Decision}

-- A row of a request, measured end to end, with the sizes before and after and their difference
unfoldable pub is_row : String → String → ℕ → ℕ → Metric → Bool
is_row session request raw final r =
    same_request session request r
    && (r.end_to_end_measured
        && (r.raw_chars == raw
            && (r.final_chars == final && r.end_to_end_saved_chars == (raw - final))))

module _ (dumps compact : Value → String) (digest : String → String) (safe : Char → Bool)
    (loads : String → Option Fields) (equal : Value → Value → Bool) (shown : Value → String)
    (int_of : Value → Result Number) (is_word : Char → Bool)
    (semantic : Call → Value → Store → Reduction × Store)
    (encode : Call → Option Reduction → Value → Action Store Reduction) where
  -- The row of a decision is in the table, under the id of the call where that has one.
  abbrev pub IsRecorded : Call → Decision → List Metric → Type 0
  IsRecorded c d rows =
      (id : String) × (str_eq c.request_id "" ≡ false → id ≡ c.request_id)
      × (any (is_row c.session_id id d.raw_chars d.final_chars) rows ≡ true)
