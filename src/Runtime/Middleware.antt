-- ===== src/Runtime/Middleware.antt =====
-- `Runtime.llm_request_middleware` (plugin.py): the compiler, the compactor, the two optional reducers, the
-- metric of the request and the leases of what it refers to, in the code's order.
use Prim.Native.Char.{Char}
use token_terminator.Common.{
  ℕ, ◌-◌, String, count, Bool, true, false, ◌&&◌, ◌||◌, not, Option, none, some, List, [], ◌∷◌,
  length, ltb, leb, ◌==◌, if◌then◌else◌, str_eq, Result, ok, raise,
}
use token_terminator.Common.Actions.{Action, pure, attempt, ◌>>=◌}
use token_terminator.Json.{Number, whole, Value, Fields}
use token_terminator.Vault.Put.{Limits}
use token_terminator.Vault.Leases.{record_exposure}
use token_terminator.Vault.Savings.{Metric, Measurement, record_request_metric}
use token_terminator.Compiler.Request.{Store, on_vault, CompileResult, Settings, Call, compile}
use token_terminator.Compactor.Turns.{Compactor, open_compactor}
use token_terminator.Compactor.Request.{CompactionResult, compact_request}
use token_terminator.Runtime.References.{strip_internal_metadata, artifact_ids_in}

-- The configuration of a runtime whose store has opened.
pub record Config : Type 0 where
  pub compiler : Settings
  pub limits : Limits
  pub context_compaction_enabled : Bool
  pub context_min_vault_chars : ℕ
  pub context_collapse_after_turns : ℕ
  pub context_inline_recent_turns : ℕ

-- self.context_compactor, and the one that takes its place where the context engine sends a plan
unfoldable pub compactor_of : Config → Bool → Option Compactor
compactor_of cfg planned =
    if cfg.context_compaction_enabled
    then some (
        open_compactor cfg.context_min_vault_chars
          (if planned then 0 else cfg.context_collapse_after_turns) cfg.context_inline_recent_turns)
    else none

-- `JevReductionResult` and `ContextIRResult`, as far as the middleware reads them
pub record Reduction : Type 0 where
  pub request : Value
  pub saved_chars : ℕ
  pub failed_open : Bool

-- `JevSemanticReducer.reduce` and `ContextIRCompiler.reduce`, where they are not enabled
abbrev pub semantic_off : Call → Value → Store → Reduction × Store
semantic_off c request s = (record { request = request; saved_chars = 0; failed_open = false }, s)

abbrev pub encode_off : Call → Option Reduction → Value → Action Store Reduction
encode_off c jev request = pure (record { request = request; saved_chars = 0; failed_open = false })

-- if not result.failed_open and result.saved_chars > 0
unfoldable pub adopt : Bool → ℕ → Value → Value → Value
adopt failed saved reduced request = if not failed && ltb 0 saved then reduced else request

unfoldable pub adopt_compaction : Option CompactionResult → Value → Value
unfolding adopt
adopt_compaction none request = request
adopt_compaction (some r) request = adopt r.failed_open r.saved_chars r.request request

unfoldable pub adopt_reduction : Option Reduction → Value → Value
unfolding adopt
adopt_reduction none request = request
adopt_reduction (some r) request = adopt r.failed_open r.saved_chars r.request request

-- a - b, which may be below zero
unfoldable pub difference : ℕ → ℕ → Number
difference a b = record {
  negative = ltb a b;
  numerator = if ltb a b then b - a else a - b;
  denominator = 1;
  is_float = false;
}

-- What is returned, without the fixed texts and the details of each phase
pub record Decision : Type 0 where
  pub request : Value
  pub raw_chars : ℕ
  pub compiler_chars : ℕ
  pub final_chars : ℕ
  pub compiler_saved_chars : ℕ
  pub compactor_saved_chars : Number
  pub jev_saved_chars : ℕ
  pub end_to_end_saved_chars : ℕ
  pub artifacts : ℕ
  pub receipts : ℕ
  pub duplicates_collapsed : ℕ
  pub vaulted_results : Number
  pub collapsed_turns : Number

abbrev vaulted_of : Option CompactionResult → Number
vaulted_of none = whole 0
vaulted_of (some r) = r.vaulted_results

abbrev collapsed_of : Option CompactionResult → Number
collapsed_of none = whole 0
collapsed_of (some r) = r.collapsed_turns

-- bool(compaction and compaction.failed_open)
abbrev failed_compaction : Option CompactionResult → Bool
failed_compaction none = false
failed_compaction (some r) = r.failed_open

-- jev_saved
abbrev jev_saved : Option Reduction → ℕ
jev_saved none = 0
jev_saved (some r) = if r.failed_open then 0 else r.saved_chars

unfoldable pub decide :
    CompileResult → Option CompactionResult → ℕ → Option Reduction → Value → ℕ → Decision
decide compiled compaction post jev request final = record {
  request = request;
  raw_chars = compiled.raw_chars;
  compiler_chars = compiled.compiled_chars;
  final_chars = final;
  compiler_saved_chars = compiled.saved_chars;
  compactor_saved_chars = difference compiled.compiled_chars post;
  jev_saved_chars = jev_saved jev;
  end_to_end_saved_chars = compiled.raw_chars - final;
  artifacts = length compiled.artifact_ids;
  receipts = compiled.receipts;
  duplicates_collapsed = compiled.duplicates_collapsed;
  vaulted_results = vaulted_of compaction;
  collapsed_turns = collapsed_of compaction;
}

unfoldable pub measured_row : Call → CompileResult → ℕ → Option CompactionResult → Measurement
measured_row c compiled final compaction = record {
  session_id = c.session_id;
  request_id = compiled.request_id;
  request_mode = compiled.request_mode;
  raw_chars = compiled.raw_chars;
  compiled_chars = compiled.compiled_chars;
  saved_chars = some compiled.saved_chars;
  artifact_count = length compiled.artifact_ids;
  receipts = compiled.receipts;
  duplicates_collapsed = compiled.duplicates_collapsed;
  tool_schema_chars = compiled.tool_schema_chars;
  failed_open = compiled.failed_open;
  final_chars = final;
  vaulted_results = vaulted_of compaction;
  collapsed_turns = collapsed_of compaction;
  compactor_failed_open = failed_compaction compaction;
  end_to_end_measured = true;
}

-- The rows once a write is over, which has no effect where it fails
abbrev pub rows_or : List Metric → Result (List Metric) → List Metric
rows_or rows (ok after) = after
rows_or rows (raise e) = rows

-- `_record_request_metric`
unfoldable pub record_metric :
    Call → CompileResult → ℕ → Option CompactionResult → List Metric → List Metric
record_metric c compiled final compaction rows =
    rows_or rows (record_request_metric c.now (measured_row c compiled final compaction) rows)

-- The exposures of what the request refers to, each of which fails open
unfoldable pub protect_references : Call → List String → Store → Store
protect_references c [] s = s
protect_references c (id ∷ ids) s =
    protect_references c ids
      (on_vault
        (record_exposure c.now
          (record {
            session_id = c.session_id;
            artifact_id = id;
            request_id = if str_eq c.request_id "" then "provider-request" else c.request_id;
          })
          false)
        s).1

-- The parameters: those of the compiler and of the compactor, `\w`, and the two reducers: the semantic one,
-- which fails open itself, and the encoder, which is also given the semantic result.
module _ (dumps compact : Value → String) (digest : String → String) (safe : Char → Bool)
    (loads : String → Option Fields) (equal : Value → Value → Bool) (shown : Value → String)
    (int_of : Value → Result Number) (is_word : Char → Bool)
    (semantic : Call → Value → Store → Reduction × Store)
    (encode : Call → Option Reduction → Value → Action Store Reduction) where
  -- Phase 2: the compactor gets the compiled request where that saves something.
  unfoldable pub compaction_phase :
      Config → Bool → Call → CompileResult → Value → Action Store (Option CompactionResult)
  compaction_phase cfg planned c compiled request = elim (compactor_of cfg planned) [
    | none ↦ pure none
    | some cp ↦ if compiled.failed_open then pure none else do
      r ← on_vault (
          compact_request dumps compact digest safe equal shown int_of cp
            (record { limits = cfg.limits; session_id = c.session_id; now = c.now })
            (if ltb 0 compiled.saved_chars then compiled.request else request))
      pure (some r)
  ]

  -- Phase 3: the semantic reducer, unless the context engine has chosen already
  unfoldable pub semantic_phase :
      Bool → Call → CompileResult → Value → Store → Option Reduction × Store
  semantic_phase planned c compiled request s =
      if planned || compiled.failed_open
      then (none, s)
      else let (r, t) = semantic c request s in (some r, t)

  -- Phase 4 and the measurement: a failure is `none`.
  unfoldable pub measuring_phase :
      Call → CompileResult → Option Reduction → Value → Action Store (Option (Value × ℕ))
  measuring_phase c compiled jev request =
      let cleaned = strip_internal_metadata request in
      if compiled.failed_open
      then pure (some (cleaned, compiled.raw_chars))
      else attempt
          (do
            r ← encode c jev cleaned
            let final = adopt_reduction (some r) cleaned
            pure (some (final, count (dumps final))))
          (λ e. pure none)

  -- The end of a call: the metric, then the decision
  unfoldable pub conclude :
      Call
      → CompileResult
      → Option CompactionResult
      → ℕ
      → Option Reduction
      → Option (Value × ℕ)
      → Store
      → Option Decision × Store
  conclude c compiled compaction post jev none s = (none, s)
  conclude c compiled compaction post jev (some (request, final)) s =
      let t = record s { metrics = record_metric c compiled final compaction s.metrics } in
      if compiled.failed_open || leb compiled.raw_chars final then (none, t) else (
        some (decide compiled compaction post jev request final),
        protect_references (record c { request_id = compiled.request_id })
            (artifact_ids_in is_word (dumps request)) t,
      )

  -- What follows the compactor
  unfoldable pub finish :
      Bool → Call → CompileResult → Option CompactionResult → Action Store (Option Decision)
  finish planned c compiled compaction s =
      let compacted = adopt_compaction compaction compiled.request in
      let (jev, t) = semantic_phase planned c compiled compacted s in
      (do
        measured ← measuring_phase c compiled jev (adopt_reduction jev compacted)
        (λ u.
            let (decision, v) =
              conclude c compiled compaction (count (dumps compacted)) jev measured u in
            (ok decision, v)))
        t

  -- What follows the compiler
  unfoldable pub after_compile :
      Config → Bool → Call → Value → CompileResult → Action Store (Option Decision)
  after_compile cfg planned c request compiled =
      if compiled.failed_open && compiled.raw_chars == 0 then pure none else (do
        compaction ← compaction_phase cfg planned c compiled request
        finish planned c compiled compaction)

  -- `llm_request_middleware`, with whether the context engine sends a plan, and the block of the graph;
  -- `none` leaves the request to the host as it is.
  unfoldable pub llm_request_middleware :
      Config → Bool → Call → Option String → Value → Action Store (Option Decision)
  llm_request_middleware cfg planned c block request =
      if not cfg.compiler.compiler_enabled then pure none else (do
        compiled ←
            compile dumps compact digest safe loads shown cfg.compiler cfg.limits
              (record c { record_metric = false }) block request
        after_compile cfg planned c request compiled)
