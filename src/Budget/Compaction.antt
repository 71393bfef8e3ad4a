-- ===== src/Budget/Compaction.antt =====
-- What the compactor's gate (enhancements.py) promises: a result with another request saves characters and
-- tokens.
use Prim.Native.Char.{Char}
use token_terminator.Common.{
  String, ◌≡◌, refl, Bool, true, false, arith, Error, Result, ok, raise, inl, inr, ◌⊎◌, subst, sym,
}
use token_terminator.Common.Actions.{Action}
use token_terminator.Json.{Number, Value, object, Fields}
use token_terminator.Vault.Tables.{Vault}
use token_terminator.Accounting.{TokenMeasurement}
use token_terminator.Compactor.Turns.{Compactor}
use token_terminator.Compactor.Vaulting.{Session}
use token_terminator.Compactor.Request.{CompactionResult, untouched, compact_request}
use token_terminator.Compactor.Reduction.{IsPlain, IsReduction, compact_request-IsReduction}
use token_terminator.Budget.Gates.{Gated, admits, keep_or_drop, after_compact, gated_compact}
use token_terminator.Budget.Reduction.{SavesTokens, Escapes, admits-SavesTokens, admits-Escapes}

module _ {A : Type 0} (measure : Value → Action A TokenMeasurement) (dumps compact : Value → String)
    (digest : String → String) (safe : Char → Bool) (equal : Value → Value → Bool)
    (shown : Value → String) (int_of : Value → Result Number) where
  -- A strict reduction in characters or no change, and in tokens too where both can be measured
  abbrev pub IsSaving : Value → A → CompactionResult → Type 0
  IsSaving request a r =
      IsReduction dumps compact digest safe equal shown int_of request r
      × ((r.request ≡ request) ⊎ SavesTokens measure request r.request a)

  -- The two ends of a gated compaction: a result that saves, or what the measurement of the two requests
  -- raises
  abbrev pub Answers : Value → Value → A → Result CompactionResult → Type 0
  Answers request reduced a x =
      ((q : CompactionResult) × (x ≡ ok q) × IsSaving request a q)
      ⊎ ((e : Error) × (x ≡ raise e) × Escapes measure request reduced a e)

  keep_or_drop-Answers :
      (request : Value) (r : CompactionResult) (x : Result Bool × A) (s : Vault) (a : A)
      → IsReduction dumps compact digest safe equal shown int_of request r
      → (x.0 ≡ ok true → (r.request ≡ request) ⊎ SavesTokens measure request r.request a)
      → ((e : Error) → x.0 ≡ raise e → Escapes measure request r.request a e)
      → Answers request r.request a
          (keep_or_drop measure dumps compact digest safe equal shown int_of request r x s).0
  keep_or_drop-Answers request r (ok true, b) s a reduction saves escapes =
      inl (r, refl, (reduction, saves refl))
  keep_or_drop-Answers request r (ok false, b) s a reduction saves escapes =
      inl (untouched request r.raw_chars false, refl, (inl (refl, refl, refl), inl refl))
  keep_or_drop-Answers request r (raise e, b) s a reduction saves escapes =
      inr (e, refl, escapes e refl)

  admitted-saves :
      (request : Value) (r : CompactionResult) (a : A)
      → IsReduction dumps compact digest safe equal shown int_of request r
      → (admits measure r.failed_open r.saved_chars request r.request a).0 ≡ ok true
      → (r.request ≡ request) ⊎ SavesTokens measure request r.request a
  admitted-saves request r a (inl (same, chars, saved)) h = inl same
  admitted-saves request r a (inr (raw, compacted, less, sum, fine)) h = inr (
      admits-SavesTokens measure r.failed_open r.saved_chars request r.request a fine
        (omega (arith, less, sum)) h)

  after_compact-Answers :
      (request : Value) (x : Result CompactionResult × Vault) (r : CompactionResult) (a : A)
      → x.0 ≡ ok r
      → IsReduction dumps compact digest safe equal shown int_of request r
      → Answers request r.request a
          (after_compact measure dumps compact digest safe equal shown int_of request x a).0
  after_compact-Answers request (raise e, s) r a returned reduction = absurd (ground arith)
  after_compact-Answers request (ok q, s) r a returned reduction =
      let same : r ≡ q = ground arith in
      let again =
        subst (IsReduction dumps compact digest safe equal shown int_of request) same reduction in
      subst
        (λ (y : CompactionResult).
          Answers request y.request a
            (after_compact measure dumps compact digest safe equal shown int_of request (ok q, s)
              a).0)
        (sym same)
        (keep_or_drop-Answers request q
          (admits measure q.failed_open q.saved_chars request q.request a) s a again
          (admitted-saves request q a again)
          (admits-Escapes measure q.failed_open q.saved_chars request q.request a))

  -- Whatever fails in the vault and the compactor, a gated compaction of an object returns, unless the
  -- measurement of the request or of the compactor's result raises, and then it raises that exception. The request
  -- that it returns is the one that it was given, with nothing saved, or one that serializes to strictly
  -- fewer characters and that has strictly fewer tokens, unless the tokenizer cannot measure one of the
  -- two. The request must not bring the keys of the compactor's own counts.
  pub gated_compact-Answers :
      (cp : Compactor) (c : Session) (fs : Fields) (g : Gated Vault A)
      → IsPlain fs
      → (r : CompactionResult) × ((compact_request dumps compact digest safe equal shown int_of cp c
            (object fs)
            g.inner).0
          ≡ ok r)
        × Answers
            (object fs)
            r.request
            g.adapter
            (gated_compact measure dumps compact digest safe equal shown int_of cp c
              (object fs)
              g).0
  unfolding gated_compact
  gated_compact-Answers cp c fs g plain =
      let (r, returned, reduction) =
        compact_request-IsReduction dumps compact digest safe equal shown int_of cp c fs g.inner
          plain in
      (
        r,
        returned,
        after_compact-Answers (object fs)
            (compact_request dumps compact digest safe equal shown int_of cp c (object fs) g.inner)
            r g.adapter returned reduction,
      )
