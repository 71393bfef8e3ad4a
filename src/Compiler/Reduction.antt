-- ===== src/Compiler/Reduction.antt =====
-- What `compile` promises of every request: a strict reduction, or the request as it was.
use Prim.Native.Char.{Char}
use token_terminator.Common.{
  ℕ, ◌+◌, ◌<◌, String, count, ◌≡◌, refl, Bool, true, false, ◌||◌, not, Option, List, [], arith, ltb,
  leb, leb→lt, ◌==◌, if◌then◌else◌, ok, Bool-cases, inl, inr, ◌⊎◌, ap, subst,
}
use token_terminator.Common.Actions.{continue-ok, attempt_returns, pure, ◌>>=◌}
use token_terminator.Json.{Value, null, boolean, number, text, array, object, Fields}
use token_terminator.Vault.Put.{Limits}
use token_terminator.Compiler.Request.{
  Store, CompileResult, Settings, Call, Work, mode_of, serialized_chars, store_slots, distinct_ids,
  group_slots, lease_groups, claim_pending, with_graph, expose_all, untouched, reduced, accept,
  slots_of, compile_object, finalize, fail_open, identified, tool_chars, compile,
}

module _ (dumps compact : Value → String) (digest : String → String) (safe : Char → Bool)
    (loads : String → Option Fields) (shown : Value → String) where
  -- Either nothing has changed, and the size is the request's unless that is a failure, or the request is
  -- smaller, by what it says it has saved.
  abbrev pub IsReduction : Value → CompileResult → Type 0
  IsReduction request r =
      ((r.request ≡ request)
        × (r.compiled_chars ≡ r.raw_chars)
        × (r.saved_chars ≡ 0)
        × ((r.failed_open ≡ true) ⊎ (r.raw_chars ≡ count (dumps request))))
      ⊎ ((r.raw_chars ≡ count (dumps request))
          × (r.compiled_chars ≡ count (dumps r.request))
          × (r.compiled_chars < r.raw_chars)
          × (r.compiled_chars + r.saved_chars ≡ r.raw_chars)
          × (r.failed_open ≡ false))

  accept-IsReduction :
      (c : Call) (original : Fields) (ids : List String) (mode : String) (tools : ℕ) (w : Work)
      (working : Fields) (injected : Bool) (s s' : Store) (r : CompileResult)
      → accept dumps compact digest safe loads shown c original
          (count (dumps (object original)))
          ids
          mode
          tools
          w
          (working, injected)
          s
        ≡ (ok r, s')
      → IsReduction (object original) r
  unfolding accept serialized_chars
  accept-IsReduction c original ids mode tools w working injected s s' r h =
      let raw = count (dumps (object original)) in
      elim (Bool-cases (leb raw (count (dumps (object working))))) [
        | inl larger ↦
            let (u, exposed, h1) =
              continue-ok (expose_all dumps compact digest safe loads shown c ids s) _ r s'
                (rw larger at h) in
            let same : untouched dumps compact digest safe loads shown (object original) raw ids
                  false mode tools c.request_id
                ≡ r =
              ground arith in
            subst (IsReduction (object original)) same (inl (refl, refl, refl, inr refl))
        | inr smaller ↦
            let same : reduced dumps compact digest safe loads shown raw ids mode tools w working
                  injected c.request_id
                ≡ r =
              ground arith in
            let less : count (dumps (object working)) < raw = leb→lt _ _ smaller in
            subst (IsReduction (object original)) same
              (inr (refl, refl, less, omega (arith, less), refl))
      ]

  compile_object-IsReduction :
      (st : Settings) (lim : Limits) (c : Call) (block : Option String) (original : Fields)
      (mode : String) (tools : ℕ) (s s' : Store) (r : CompileResult)
      → compile_object dumps compact digest safe loads shown st lim c block original
          (count (dumps (object original)))
          mode
          tools
          s
        ≡ (ok r, s')
      → IsReduction (object original) r
  unfolding compile_object
  compile_object-IsReduction st lim c block original mode tools s s' r h =
      let raw = count (dumps (object original)) in
      elim (Bool-cases (not st.compiler_enabled)) [
        | inl off ↦
            let same : untouched dumps compact digest safe loads shown (object original) raw []
                  false mode tools c.request_id
                ≡ r =
              ground arith in
            subst (IsReduction (object original)) same (inl (refl, refl, refl, inr refl))
        | inr on ↦
            let (slots, found, h1) =
              continue-ok (slots_of dumps compact digest safe loads shown st mode original, s) _ r
                s' (rw on at h) in
            let (filed, stored, h2) =
              continue-ok (store_slots dumps compact digest safe loads shown lim c slots s) _ r s'
                h1 in
            let s2 = (store_slots dumps compact digest safe loads shown lim c slots s).1 in
            let leased =
              lease_groups dumps compact digest safe loads shown st mode c s2.vault
                (group_slots dumps compact digest safe loads shown filed [])
                (record { request = original; receipts = 0; duplicates = 0; pending = [] }) in
            let claim =
              if ltb
                  (serialized_chars dumps compact digest safe loads shown (object leased.request))
                  raw
                || leased.receipts == 0
              then claim_pending dumps compact digest safe loads shown st mode c leased.pending
                  leased
              else pure leased in
            let (claimed, answered, h3) = continue-ok (claim s2) _ r s' h2 in
            let graphed =
              with_graph dumps compact digest safe loads shown mode block raw claimed.request in
            accept-IsReduction c original
              (distinct_ids dumps compact digest safe loads shown filed []) mode tools claimed
              graphed.0 graphed.1 (claim s2).1 s' r h3
      ]

  finalize-same :
      (c : Call) (r : CompileResult) (s : Store)
      → (finalize dumps compact digest safe loads shown c r s).0 ≡ ok r
  unfolding finalize
  finalize-same c r s = ground arith

  fail_open-IsReduction :
      (c : Call) (request : Value) (raw : ℕ) (mode : String) (tools : ℕ) (s : Store)
      → (r : CompileResult) × ((fail_open dumps compact digest safe loads shown c request raw mode
            tools s).0
          ≡ ok r)
        × IsReduction request r
  unfolding fail_open
  fail_open-IsReduction c request raw mode tools s =
      let kept =
        untouched dumps compact digest safe loads shown request raw [] true mode tools
          c.request_id in
      (
        kept,
        elim (Bool-cases (raw == 0)) [
          | inl unmeasured ↦ rw (fail_open, unmeasured) refl
          | inr measured ↦ rw (fail_open, measured) (finalize-same c kept s)
        ],
        inl (refl, refl, refl, inl refl),
      )

  finalized-IsReduction :
      (st : Settings) (lim : Limits) (c : Call) (block : Option String) (fs : Fields)
      (mode : String) (tools : ℕ) (s t : Store) (r : CompileResult)
      → (do
        found ←
            compile_object dumps compact digest safe loads shown st lim c block fs
              (count (dumps (object fs)))
              mode
              tools
        finalize dumps compact digest safe loads shown c found)
          s
        ≡ (ok r, t)
      → IsReduction (object fs) r
  finalized-IsReduction st lim c block fs mode tools s t r h =
      let body =
        compile_object dumps compact digest safe loads shown st lim c block fs
          (count (dumps (object fs))) mode tools s in
      let (found, done, h1) =
        continue-ok body (finalize dumps compact digest safe loads shown c) r t h in
      let same : found ≡ r = ground (arith, finalize-same c found body.1, h1) in
      subst (IsReduction (object fs)) same (
        compile_object-IsReduction st lim c block fs mode tools s body.1 found
          (ap (λ x. (x, body.1)) done))

  -- Every call of `compile` returns, whatever fails in it; and the request that it returns is either
  -- exactly the one that it was given, with nothing saved and, where the result is not marked as a failure,
  -- the request's size, or one that serializes to strictly fewer characters, whose counts are the sizes
  -- of the two requests and their difference, and which is not marked as a failure.
  pub compile-IsReduction :
      (st : Settings) (lim : Limits) (c : Call) (block : Option String) (request : Value)
      (s : Store)
      → (r : CompileResult) × ((compile dumps compact digest safe loads shown st lim c block request
            s).0
          ≡ ok r)
        × IsReduction request r
  unfolding compile serialized_chars
  compile-IsReduction st lim c block null s = fail_open-IsReduction c null 0 "unknown" 0 s
  compile-IsReduction st lim c block (boolean b) s =
      fail_open-IsReduction c (boolean b) 0 "unknown" 0 s
  compile-IsReduction st lim c block (number q) s =
      fail_open-IsReduction c (number q) 0 "unknown" 0 s
  compile-IsReduction st lim c block (text t) s = fail_open-IsReduction c (text t) 0 "unknown" 0 s
  compile-IsReduction st lim c block (array xs) s =
      fail_open-IsReduction c (array xs) 0 "unknown" 0 s
  compile-IsReduction st lim c block (object fs) s =
      let known = identified dumps compact digest safe loads shown c fs in
      let tools = tool_chars dumps compact digest safe loads shown fs in
      let raw = count (dumps (object fs)) in
      attempt_returns (IsReduction (object fs))
        (do
          r ←
              compile_object dumps compact digest safe loads shown st lim known block fs raw
                (mode_of fs) tools
          finalize dumps compact digest safe loads shown known r)
        (λ e.
          fail_open dumps compact digest safe loads shown known (object fs) raw (mode_of fs) tools)
        s (λ r t h. finalized-IsReduction st lim known block fs (mode_of fs) tools s t r h)
        (λ e t. fail_open-IsReduction known (object fs) raw (mode_of fs) tools t)
