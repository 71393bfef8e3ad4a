-- ===== src/Budget/Gates.antt =====
-- `TokenAwareRequestCompiler` and `TokenAwareContextCompactor` (enhancements.py): the tokenizer as a second
-- test of what the compiler and the compactor return.
use Prim.Native.Char.{Char}
use token_terminator.Common.{
  ℕ, String, Bool, true, false, ◌||◌, Option, none, some, ltb, ◌==◌, if◌then◌else◌, Result, ok,
  raise,
}
use token_terminator.Common.Actions.{Action, pure, ◌>>=◌}
use token_terminator.Json.{Number, Value, Fields}
use token_terminator.Vault.Tables.{Vault}
use token_terminator.Vault.Put.{Limits}
use token_terminator.Accounting.{TokenMeasurement}
use token_terminator.Compiler.Request as Compiler
use token_terminator.Compiler.Request.{Store, CompileResult, Settings, Call}
use token_terminator.Compactor.Turns.{Compactor}
use token_terminator.Compactor.Vaulting.{Session}
use token_terminator.Compactor.Request as Compaction
use token_terminator.Compactor.Request.{CompactionResult}

-- A state beside the token adapter's
pub record Gated (S A : Type 0) : Type 0 where
  pub inner : S
  pub adapter : A

-- compiled.tokens < raw.tokens, where both are measured; and whether one of them is not
unfoldable pub is_smaller : TokenMeasurement → TokenMeasurement → Bool
is_smaller raw compiled = elim raw.tokens [
  | none ↦ false
  | some n ↦ elim compiled.tokens [ none ↦ false | some m ↦ ltb m n ]
]

unfoldable pub is_available : TokenMeasurement → TokenMeasurement → Bool
is_available raw compiled = elim raw.tokens [
  | none ↦ false
  | some n ↦ elim compiled.tokens [ none ↦ false | some m ↦ true ]
]

-- The tests that both gates make, on the request, the result's request and its savings: whether the result
-- is returned. `measure` is `measure_request` of the adapter, which is called outside every `try`, so that
-- what the loading of a tokenizer raises reaches the host.
module _ {A : Type 0} (measure : Value → Action A TokenMeasurement) where
  unfoldable pub passes : Value → Value → Action A Bool
  passes request reduced = do
    raw ← measure request
    compiled ← measure reduced
    pure (if is_available raw compiled then is_smaller raw compiled else true)

  -- The test, made only on a result that did not fail and saves something
  unfoldable pub admits : Bool → ℕ → Value → Value → Action A Bool
  admits failed saved request reduced =
      if failed || saved == 0 then pure true else passes request reduced

-- The parameters of the compiler
module _ {A : Type 0} (measure : Value → Action A TokenMeasurement) (dumps compact : Value → String)
    (digest : String → String) (safe : Char → Bool) (loads : String → Option Fields)
    (shown : Value → String) where
  -- What is returned for a result, once it is admitted or not: `_record_actual_exposures` fails open.
  abbrev pub settle :
      Call → Value → CompileResult → Result Bool × A → Store → Result CompileResult × Gated Store A
  settle c request r (raise e, a) s = (raise e, record { inner = s; adapter = a })
  settle c request r (ok true, a) s = (ok r, record { inner = s; adapter = a })
  settle c request r (ok false, a) s = (
    ok (
        Compiler.untouched dumps compact digest safe loads shown request r.raw_chars r.artifact_ids
          false r.request_mode r.tool_schema_chars r.request_id),
    record {
      inner =
          (Compiler.expose_all dumps compact digest safe loads shown
            (record c { request_id = r.request_id }) r.artifact_ids s).1;
      adapter = a;
    },
  )

  abbrev pub after_compile :
      Call → Value → Result CompileResult × Store → A → Result CompileResult × Gated Store A
  after_compile c request (raise e, s) a = (raise e, record { inner = s; adapter = a })
  after_compile c request (ok r, s) a =
      settle c request r (admits measure r.failed_open r.saved_chars request r.request a) s

  -- `TokenAwareRequestCompiler.compile`
  unfoldable pub gated_compile :
      Settings → Limits → Call → Option String → Value → Action (Gated Store A) CompileResult
  gated_compile st lim c block request g =
      after_compile c request
        (Compiler.compile dumps compact digest safe loads shown st lim c block request g.inner)
        g.adapter

-- The parameters of the compactor
module _ {A : Type 0} (measure : Value → Action A TokenMeasurement) (dumps compact : Value → String)
    (digest : String → String) (safe : Char → Bool) (equal : Value → Value → Bool)
    (shown : Value → String) (int_of : Value → Result Number) where
  abbrev pub keep_or_drop :
      Value → CompactionResult → Result Bool × A → Vault → Result CompactionResult × Gated Vault A
  keep_or_drop request r (raise e, a) s = (raise e, record { inner = s; adapter = a })
  keep_or_drop request r (ok true, a) s = (ok r, record { inner = s; adapter = a })
  keep_or_drop request r (ok false, a) s =
      (ok (Compaction.untouched request r.raw_chars false), record { inner = s; adapter = a })

  abbrev pub after_compact :
      Value → Result CompactionResult × Vault → A → Result CompactionResult × Gated Vault A
  after_compact request (raise e, s) a = (raise e, record { inner = s; adapter = a })
  after_compact request (ok r, s) a =
      keep_or_drop request r (admits measure r.failed_open r.saved_chars request r.request a) s

  -- `TokenAwareContextCompactor.compact`
  unfoldable pub gated_compact :
      Compactor → Session → Value → Action (Gated Vault A) CompactionResult
  gated_compact cp c request g =
      after_compact request
        (Compaction.compact_request dumps compact digest safe equal shown int_of cp c request
          g.inner)
        g.adapter
