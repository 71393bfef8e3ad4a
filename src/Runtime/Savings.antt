-- ===== src/Runtime/Savings.antt =====
-- What the middleware (plugin.py) promises of every request: no decision, or one that saves.
use Prim.Native.Char.{Char}
use token_terminator.Common.{
  ℕ, ◌+◌, ◌<◌, String, count, ◌≡◌, refl, Bool, true, false, ◌&&◌, ◌||◌, not, Option, none, some,
  arith, ltb, leb, leb→lt, ◌==◌, if◌then◌else◌, Result, ok, Bool-cases, Option-cases, inl, inr, ◌⊎◌,
  ap, subst,
}
use token_terminator.Common.Actions.{
  Action, pure, attempt_returns, continue-ok, continue-returns, ◌>>=◌,
}
use token_terminator.Json.{Number, Value, null, boolean, number, text, array, object, Fields}
use token_terminator.Vault.Tables.{Vault}
use token_terminator.Compiler.Request.{Store, CompileResult, Call, compile}
use token_terminator.Compiler.Reduction as Compiled
use token_terminator.Compactor.Turns.{Compactor}
use token_terminator.Compactor.Vaulting.{Session}
use token_terminator.Compactor.Request.{CompactionResult, compact_request}
use token_terminator.Compactor.Reduction.{compact_request-returns}
use token_terminator.Runtime.References.{
  IsClean, strip_internal_metadata, strip_internal_metadata-IsClean,
}
use token_terminator.Runtime.Middleware.{
  Config, compactor_of, Reduction, adopt, adopt_compaction, adopt_reduction, Decision, decide,
  compaction_phase, semantic_phase, measuring_phase, conclude, finish, after_compile,
  llm_request_middleware,
}

module _ (dumps compact : Value → String) (digest : String → String) (safe : Char → Bool)
    (loads : String → Option Fields) (equal : Value → Value → Bool) (shown : Value → String)
    (int_of : Value → Result Number) (is_word : Char → Bool)
    (semantic : Call → Value → Store → Reduction × Store)
    (encode : Call → Option Reduction → Value → Action Store Reduction) where
  -- An encoder that adds none of the plugin's own keys
  abbrev pub KeepsClean : Type 0
  KeepsClean =
      (c : Call) (jev : Option Reduction) (v : Value) (s t : Store) (r : Reduction)
      → encode c jev v s ≡ (ok r, t)
      → IsClean v
      → IsClean r.request

  -- A decision on a request: the sizes are those of the two requests, the difference is not zero, and the
  -- new one has none of the plugin's own keys.
  pub record IsSaving (request : Value) (d : Decision) : Type 0 where
    pub raw : d.raw_chars ≡ count (dumps request)
    pub final : d.final_chars ≡ count (dumps d.request)
    pub saved : d.final_chars + d.end_to_end_saved_chars ≡ d.raw_chars
    pub less : d.final_chars < d.raw_chars
    pub clean : IsClean d.request

  abbrev pub Saves : Value → Option Decision → Type 0
  Saves request none = Unit
  Saves request (some d) = IsSaving request d

  -- What is measured is the size of what goes out, unless the compiler has failed.
  abbrev IsMeasured : CompileResult → Option (Value × ℕ) → Type 0
  IsMeasured compiled none = Unit
  IsMeasured compiled (some (v, n)) =
      (compiled.failed_open ≡ true) ⊎ ((n ≡ count (dumps v)) × IsClean v)

  adopt_reduction-IsClean :
      (r : Reduction) (v : Value)
      → IsClean v
      → IsClean r.request
      → IsClean (adopt_reduction (some r) v)
  unfolding adopt_reduction adopt
  adopt_reduction-IsClean r v old new =
      elim (Bool-cases (not r.failed_open && ltb 0 r.saved_chars)) [
        | inl adopted ↦ rw adopted new
        | inr kept ↦ rw kept old
      ]

  measuring_phase-IsMeasured :
      KeepsClean
      → (c : Call) (compiled : CompileResult) (jev : Option Reduction) (request : Value) (s : Store)
      → (m : Option (Value × ℕ)) × ((measuring_phase dumps compact digest safe loads equal shown
            int_of is_word semantic encode c compiled jev request s).0
          ≡ ok m)
        × IsMeasured compiled m
  unfolding measuring_phase
  measuring_phase-IsMeasured keeps c compiled jev request s =
      elim (Bool-cases compiled.failed_open) [
        | inl failed ↦
            (some (strip_internal_metadata request, compiled.raw_chars), rw failed refl, inl failed)
        | inr fine ↦
            let cleaned = strip_internal_metadata request in
            let (m, returned, p) =
              attempt_returns (IsMeasured compiled)
                (do
                  r ← encode c jev cleaned
                  let final = adopt_reduction (some r) cleaned
                  pure (some (final, count (dumps final))))
                (λ e. pure none) s
                (λ m t h.
                  let (r, encoded, h1) = continue-ok (encode c jev cleaned s) _ m t h in
                  let final = adopt_reduction (some r) cleaned in
                  let same : some (final, count (dumps final)) ≡ m = ground arith in
                  let clean = strip_internal_metadata-IsClean request in
                  let sent = adopt_reduction-IsClean r cleaned clean (
                    keeps c jev cleaned s (encode c jev cleaned s).1 r
                      (ap (λ x. (x, (encode c jev cleaned s).1)) encoded) clean) in
                  subst (IsMeasured compiled) same (inr (refl, sent)))
                (λ e t. (none, refl, tt)) in
            (m, rw fine returned, p)
      ]

  decide-IsSaving :
      (request : Value) (compiled : CompileResult) (compaction : Option CompactionResult) (post : ℕ)
      (jev : Option Reduction) (v : Value) (n : ℕ)
      → Compiled.IsReduction dumps compact digest safe loads shown request compiled
      → IsMeasured compiled (some (v, n))
      → compiled.failed_open ≡ false
      → n < compiled.raw_chars
      → IsSaving request (decide compiled compaction post jev v n)
  unfolding decide
  decide-IsSaving request compiled compaction post jev v n reduction (inl failed) fine less =
      absurd (ground arith)
  decide-IsSaving request compiled compaction post jev v n reduction (inr (size, clean)) fine less =
      record {
        raw = raw_size reduction;
        final = size;
        saved = omega (arith, less);
        less = less;
        clean = clean;
      }
    where
      raw_size :
          Compiled.IsReduction dumps compact digest safe loads shown request compiled
          → compiled.raw_chars ≡ count (dumps request)
      raw_size (inl (same, chars, saved, inl failed)) = absurd (ground arith)
      raw_size (inl (same, chars, saved, inr raw)) = raw
      raw_size (inr (raw, compiled, less, sum, fine)) = raw

  conclude-Saves :
      (request : Value) (c : Call) (compiled : CompileResult) (compaction : Option CompactionResult)
      (post : ℕ) (jev : Option Reduction) (m : Option (Value × ℕ)) (s : Store)
      → Compiled.IsReduction dumps compact digest safe loads shown request compiled
      → IsMeasured compiled m
      → Saves request
          (conclude dumps compact digest safe loads equal shown int_of is_word semantic encode c
            compiled compaction post jev m s).0
  unfolding conclude
  conclude-Saves request c compiled compaction post jev none s reduction measured = tt
  conclude-Saves request c compiled compaction post jev (some (v, n)) s reduction measured =
      elim (Bool-cases (compiled.failed_open || leb compiled.raw_chars n)) [
        | inl refused ↦ rw refused tt
        | inr saves ↦ rw saves (
            decide-IsSaving request compiled compaction post jev v n reduction measured
              (ground arith) (leb→lt _ _ (ground arith)))
      ]

  compact_request_total :
      (cp : Compactor) (c : Session) (v : Value) (s : Vault)
      → (r : CompactionResult) × ((compact_request dumps compact digest safe equal shown int_of cp c
            v s).0
          ≡ ok r)
  unfolding compact_request
  compact_request_total cp c (object fs) s =
      let (r, returned, p) =
        compact_request-returns dumps compact digest safe equal shown int_of (λ r. Unit {0}) cp c fs
          s (λ failed. tt) (λ mode outcome known made. tt) in
      (r, returned)
  compact_request_total cp c null s = (_, refl)
  compact_request_total cp c (boolean b) s = (_, refl)
  compact_request_total cp c (number q) s = (_, refl)
  compact_request_total cp c (text t) s = (_, refl)
  compact_request_total cp c (array xs) s = (_, refl)

  compaction_phase-returns :
      (cfg : Config) (planned : Bool) (c : Call) (compiled : CompileResult) (request : Value)
      (s : Store)
      → (r : Option CompactionResult) × ((compaction_phase dumps compact digest safe loads equal
            shown int_of is_word semantic encode cfg planned c compiled request s).0
          ≡ ok r)
  unfolding compaction_phase
  compaction_phase-returns cfg planned c compiled request s =
      elim (Option-cases (compactor_of cfg planned)) [
        | inl off ↦ (none, rw (compaction_phase, off) refl)
        | inr (cp, on) ↦ elim (Bool-cases compiled.failed_open) [
          | inl failed ↦ (none, rw (compaction_phase, on, failed) refl)
          | inr fine ↦
              let session : Session = record {
                limits = cfg.limits;
                session_id = c.session_id;
                now = c.now;
              } in
              let given = if ltb 0 compiled.saved_chars then compiled.request else request in
              let (r, returned) = compact_request_total cp session given s.vault in
              (some r, rw (compaction_phase, on, fine, returned) refl)
        ]
      ]

  finish-Saves :
      KeepsClean
      → (request : Value) (planned : Bool) (c : Call) (compiled : CompileResult)
        (compaction : Option CompactionResult) (s : Store)
      → Compiled.IsReduction dumps compact digest safe loads shown request compiled
      → (d : Option Decision) × ((finish dumps compact digest safe loads equal shown int_of is_word
            semantic encode planned c compiled compaction s).0
          ≡ ok d)
        × Saves request d
  unfolding finish
  finish-Saves keeps request planned c compiled compaction s reduction =
      let compacted = adopt_compaction compaction compiled.request in
      let (jev, t) =
        semantic_phase dumps compact digest safe loads equal shown int_of is_word semantic encode
          planned c compiled compacted s in
      let (m, returned, measured) =
        measuring_phase-IsMeasured keeps c compiled jev (adopt_reduction jev compacted) t in
      continue-returns (Saves request)
        (measuring_phase dumps compact digest safe loads equal shown int_of is_word semantic encode
          c compiled jev (adopt_reduction jev compacted) t)
        _ m returned
        (
          _,
          refl,
          conclude-Saves request c compiled compaction (count (dumps compacted)) jev m _ reduction
              measured,
        )

  after_compile-Saves :
      KeepsClean
      → (cfg : Config) (planned : Bool) (c : Call) (request : Value) (compiled : CompileResult)
        (s : Store)
      → Compiled.IsReduction dumps compact digest safe loads shown request compiled
      → (d : Option Decision) × ((after_compile dumps compact digest safe loads equal shown int_of
            is_word semantic encode cfg planned c request compiled s).0
          ≡ ok d)
        × Saves request d
  unfolding after_compile
  after_compile-Saves keeps cfg planned c request compiled s reduction =
      elim (Bool-cases (compiled.failed_open && compiled.raw_chars == 0)) [
        | inl unread ↦ (none, rw unread refl, tt)
        | inr read ↦
            let (compaction, returned) =
              compaction_phase-returns cfg planned c compiled request s in
            let (d, decided, p) =
              continue-returns (Saves request)
                (compaction_phase dumps compact digest safe loads equal shown int_of is_word
                  semantic encode cfg planned c compiled request s)
                (finish dumps compact digest safe loads equal shown int_of is_word semantic encode
                  planned c compiled)
                compaction returned
                (finish-Saves keeps request planned c compiled compaction _ reduction) in
            (d, rw read decided, p)
      ]

  -- Whatever fails on the way, the middleware returns: no decision, or a request that serializes to strictly
  -- fewer characters than the one that came in, with the sizes of the two and their difference as its
  -- metrics, and without a key of the plugin's own. The encoder must not add such a key; nothing is
  -- asked of the semantic reducer.
  pub llm_request_middleware-Saves :
      KeepsClean
      → (cfg : Config) (planned : Bool) (c : Call) (block : Option String) (request : Value)
        (s : Store)
      → (d : Option Decision) × ((llm_request_middleware dumps compact digest safe loads equal shown
            int_of is_word semantic encode cfg planned c block request s).0
          ≡ ok d)
        × Saves request d
  unfolding llm_request_middleware
  llm_request_middleware-Saves keeps cfg planned c block request s =
      elim (Bool-cases (not cfg.compiler.compiler_enabled)) [
        | inl off ↦ (none, rw off refl, tt)
        | inr on ↦
            let quiet : Call = record c { record_metric = false } in
            let (compiled, returned, reduction) =
              Compiled.compile-IsReduction dumps compact digest safe loads shown cfg.compiler
                cfg.limits quiet block request s in
            let (d, decided, p) =
              continue-returns (Saves request)
                (compile dumps compact digest safe loads shown cfg.compiler cfg.limits quiet block
                  request s)
                (after_compile dumps compact digest safe loads equal shown int_of is_word semantic
                  encode cfg planned c request)
                compiled returned
                (after_compile-Saves keeps cfg planned c request compiled _ reduction) in
            (d, rw on decided, p)
      ]
