-- ===== src/Budget/Reduction.antt =====
-- What the gates (enhancements.py) promise: a result with another request saves characters and tokens.
use Prim.Native.Char.{Char}
use token_terminator.Common.{
  ℕ, ◌<◌, String, count, ◌≡◌, refl, Bool, true, false, ◌||◌, Option, none, some, arith, ◌==◌, Error,
  Result, ok, raise, Bool-cases, Option-cases, inl, inr, ◌⊎◌, subst, sym,
}
use token_terminator.Common.Actions.{Action, continue-raise, continue-value}
use token_terminator.Json.{Value, Fields}
use token_terminator.Vault.Put.{Limits}
use token_terminator.Accounting.{TokenMeasurement}
use token_terminator.Compiler.Request.{Store, CompileResult, Settings, Call, compile}
use token_terminator.Compiler.Reduction as Compiled
use token_terminator.Budget.Gates.{
  Gated, is_smaller, is_available, passes, admits, settle, after_compile, gated_compile,
}

module _ {A : Type 0} (measure : Value → Action A TokenMeasurement) where
  -- Of two requests that are measured one after the other, one cannot be measured, or the second has
  -- fewer tokens.
  pub data SavesTokens (request reduced : Value) (a : A) : Type 0 where
    unknown_raw :
        (n : TokenMeasurement)
        → (measure request a).0 ≡ ok n
        → n.tokens ≡ none
        → SavesTokens request reduced a
    unknown_reduced :
        (m : TokenMeasurement)
        → (measure reduced (measure request a).1).0 ≡ ok m
        → m.tokens ≡ none
        → SavesTokens request reduced a
    fewer :
        (n m : TokenMeasurement) (raw fewer_tokens : ℕ)
        → (measure request a).0 ≡ ok n
        → (measure reduced (measure request a).1).0 ≡ ok m
        → n.tokens ≡ some raw
        → m.tokens ≡ some fewer_tokens
        → fewer_tokens < raw
        → SavesTokens request reduced a

  -- What a measurement of the two requests, one after the other, raises
  pub data Escapes (request reduced : Value) (a : A) (e : Error) : Type 0 where
    at_raw : (measure request a).0 ≡ raise e → Escapes request reduced a e
    at_reduced :
        (n : TokenMeasurement)
        → (measure request a).0 ≡ ok n
        → (measure reduced (measure request a).1).0 ≡ raise e
        → Escapes request reduced a e

  passes-SavesTokens :
      (request reduced : Value) (a : A)
      → (passes measure request reduced a).0 ≡ ok true
      → SavesTokens request reduced a
  unfolding passes is_available is_smaller
  passes-SavesTokens request reduced a h =
      let (n, before, h1) = continue-value (measure request a) _ true h in
      let (m, after, h2) = continue-value (measure reduced (measure request a).1) _ true h1 in
      elim (Option-cases n.tokens) [
        | inl missing ↦ unknown_raw n before missing
        | inr (raw, counted) ↦ elim (Option-cases m.tokens) [
          | inl missing ↦ unknown_reduced m after missing
          | inr (less, recounted) ↦ fewer n m raw less before after counted recounted (ground arith)
        ]
      ]

  passes-Escapes :
      (request reduced : Value) (a : A) (e : Error)
      → (passes measure request reduced a).0 ≡ raise e
      → Escapes request reduced a e
  unfolding passes
  passes-Escapes request reduced a e h = elim (continue-raise (measure request a) _ e h) [
    | inl failed ↦ at_raw failed
    | inr (n, before, h1) ↦ elim (continue-raise (measure reduced (measure request a).1) _ e h1) [
      | inl failed ↦ at_reduced n before failed
      | inr (m, after, h2) ↦ absurd (ground arith)
    ]
  ]

  pub admits-SavesTokens :
      (failed : Bool) (saved : ℕ) (request reduced : Value) (a : A)
      → failed ≡ false
      → 0 < saved
      → (admits measure failed saved request reduced a).0 ≡ ok true
      → SavesTokens request reduced a
  unfolding admits
  admits-SavesTokens failed saved request reduced a fine some_saved h =
      let tested : (failed || saved == 0) ≡ false = ground arith in
      passes-SavesTokens request reduced a (rw tested at h)

  pub admits-Escapes :
      (failed : Bool) (saved : ℕ) (request reduced : Value) (a : A) (e : Error)
      → (admits measure failed saved request reduced a).0 ≡ raise e
      → Escapes request reduced a e
  unfolding admits
  admits-Escapes failed saved request reduced a e h = elim (Bool-cases (failed || saved == 0)) [
    | inl untested ↦ absurd (ground arith)
    | inr tested ↦ passes-Escapes request reduced a e (rw tested at h)
  ]

module _ {A : Type 0} (measure : Value → Action A TokenMeasurement) (dumps compact : Value → String)
    (digest : String → String) (safe : Char → Bool) (loads : String → Option Fields)
    (shown : Value → String) where
  -- A strict reduction in characters or no change, and in tokens too where both can be measured
  abbrev pub IsSaving : Value → A → CompileResult → Type 0
  IsSaving request a r =
      Compiled.IsReduction dumps compact digest safe loads shown request r
      × ((r.request ≡ request) ⊎ SavesTokens measure request r.request a)

  -- The two ends of a gated compilation: a result that saves, or what the measurement of the two requests
  -- raises
  abbrev pub Answers : Value → Value → A → Result CompileResult → Type 0
  Answers request reduced a x =
      ((q : CompileResult) × (x ≡ ok q) × IsSaving request a q)
      ⊎ ((e : Error) × (x ≡ raise e) × Escapes measure request reduced a e)

  settle-Answers :
      (c : Call) (request : Value) (r : CompileResult) (x : Result Bool × A) (s : Store) (a : A)
      → Compiled.IsReduction dumps compact digest safe loads shown request r
      → (x.0 ≡ ok true → (r.request ≡ request) ⊎ SavesTokens measure request r.request a)
      → (x.0 ≡ ok false → r.raw_chars ≡ count (dumps request))
      → ((e : Error) → x.0 ≡ raise e → Escapes measure request r.request a e)
      → Answers request r.request a
          (settle measure dumps compact digest safe loads shown c request r x s).0
  settle-Answers c request r (ok true, b) s a reduction saves measured escapes =
      inl (r, refl, (reduction, saves refl))
  settle-Answers c request r (ok false, b) s a reduction saves measured escapes =
      inl (_, refl, (inl (refl, refl, refl, inr (measured refl)), inl refl))
  settle-Answers c request r (raise e, b) s a reduction saves measured escapes =
      inr (e, refl, escapes e refl)

  admitted-saves :
      (request : Value) (r : CompileResult) (a : A)
      → Compiled.IsReduction dumps compact digest safe loads shown request r
      → (admits measure r.failed_open r.saved_chars request r.request a).0 ≡ ok true
      → (r.request ≡ request) ⊎ SavesTokens measure request r.request a
  admitted-saves request r a (inl (same, chars, saved, size)) h = inl same
  admitted-saves request r a (inr (raw, compiled, less, sum, fine)) h = inr (
      admits-SavesTokens measure r.failed_open r.saved_chars request r.request a fine
        (omega (arith, less, sum)) h)

  -- Only a result that saves something is measured and refused.
  refused_size :
      (request : Value) (r : CompileResult) (a : A)
      → Compiled.IsReduction dumps compact digest safe loads shown request r
      → (admits measure r.failed_open r.saved_chars request r.request a).0 ≡ ok false
      → r.raw_chars ≡ count (dumps request)
  unfolding admits
  refused_size request r a (inr (raw, compiled, less, sum, fine)) h = raw
  refused_size request r a (inl (same, chars, saved, size)) h =
      let tested : (r.failed_open || r.saved_chars == 0) ≡ true = ground arith in
      absurd (ground arith)

  after_compile-Answers :
      (c : Call) (request : Value) (x : Result CompileResult × Store) (r : CompileResult) (a : A)
      → x.0 ≡ ok r
      → Compiled.IsReduction dumps compact digest safe loads shown request r
      → Answers request r.request a
          (after_compile measure dumps compact digest safe loads shown c request x a).0
  after_compile-Answers c request (raise e, s) r a returned reduction = absurd (ground arith)
  after_compile-Answers c request (ok q, s) r a returned reduction =
      let same : r ≡ q = ground arith in
      let again =
        subst (Compiled.IsReduction dumps compact digest safe loads shown request) same reduction in
      subst
        (λ (y : CompileResult).
          Answers request y.request a
            (after_compile measure dumps compact digest safe loads shown c request (ok q, s) a).0)
        (sym same)
        (settle-Answers c request q (admits measure q.failed_open q.saved_chars request q.request a)
          s a again (admitted-saves request q a again) (refused_size request q a again)
          (admits-Escapes measure q.failed_open q.saved_chars request q.request a))

  -- Whatever fails in the vault and the compiler, a gated compilation returns, unless the measurement of the
  -- request or of the compiler's result raises, and then it raises that exception. The request that it returns is
  -- the one that it was given, with nothing saved, or one that serializes to strictly fewer characters and
  -- that has strictly fewer tokens, unless the tokenizer cannot measure one of the two.
  pub gated_compile-Answers :
      (st : Settings) (lim : Limits) (c : Call) (block : Option String) (request : Value)
      (g : Gated Store A)
      → (r : CompileResult) × ((compile dumps compact digest safe loads shown st lim c block request
            g.inner).0
          ≡ ok r)
        × Answers request r.request g.adapter
            (gated_compile measure dumps compact digest safe loads shown st lim c block request g).0
  unfolding gated_compile
  gated_compile-Answers st lim c block request g =
      let (r, returned, reduction) =
        Compiled.compile-IsReduction dumps compact digest safe loads shown st lim c block request
          g.inner in
      (
        r,
        returned,
        after_compile-Answers c request
            (compile dumps compact digest safe loads shown st lim c block request g.inner) r
            g.adapter returned reduction,
      )
