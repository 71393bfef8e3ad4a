-- ===== src/Compiler/Names.antt =====
-- The id of the request that a compilation (compiler.py) reports: the one that it was given.
use Prim.Native.Char.{Char}
use token_terminator.Common.{
  ℕ, String, ◌≡◌, refl, Bool, true, false, ◌||◌, not, Option, List, [], arith, ltb, leb, ◌==◌,
  if◌then◌else◌, str_eq, ok, Bool-cases, inl, inr, ap, sym, ◌∙◌,
}
use token_terminator.Common.Actions.{attempt_returns, continue-value, pure, ◌>>=◌}
use token_terminator.Json.{Value, null, boolean, number, text, array, object, Fields}
use token_terminator.Vault.Put.{Limits}
use token_terminator.Compiler.Request.{
  Store, CompileResult, Settings, Call, Work, mode_of, serialized_chars, store_slots, group_slots,
  lease_groups, claim_pending, expose_all, accept, untouched, slots_of, compile_object, finalize,
  fail_open, identified, tool_chars, compile,
}

module _ (dumps compact : Value → String) (digest : String → String) (safe : Char → Bool)
    (loads : String → Option Fields) (shown : Value → String) where
  accept-named :
      (c : Call) (original : Fields) (raw : ℕ) (ids : List String) (mode : String) (tools : ℕ)
      (w : Work) (working : Fields) (injected : Bool) (s : Store) (r : CompileResult)
      → (accept dumps compact digest safe loads shown c original raw ids mode tools w
          (working, injected)
          s).0
        ≡ ok r
      → r.request_id ≡ c.request_id
  unfolding accept
  accept-named c original raw ids mode tools w working injected s r h =
      elim (Bool-cases
        (leb raw (serialized_chars dumps compact digest safe loads shown (object working)))) [
          | inl larger ↦
              let (u, exposed, h1) =
                continue-value (expose_all dumps compact digest safe loads shown c ids s) _ r
                  (rw larger at h) in
              ground arith
          | inr smaller ↦ ground arith
        ]

  compile_object-named :
      (st : Settings) (lim : Limits) (c : Call) (block : Option String) (original : Fields)
      (raw : ℕ) (mode : String) (tools : ℕ) (s : Store) (r : CompileResult)
      → (compile_object dumps compact digest safe loads shown st lim c block original raw mode tools
          s).0
        ≡ ok r
      → r.request_id ≡ c.request_id
  unfolding compile_object
  compile_object-named st lim c block original raw mode tools s r h =
      elim (Bool-cases (not st.compiler_enabled)) [
        | inl off ↦ ground arith
        | inr on ↦
            let (slots, found, h1) =
              continue-value (slots_of dumps compact digest safe loads shown st mode original, s) _
                r (rw on at h) in
            let (filed, stored, h2) =
              continue-value (store_slots dumps compact digest safe loads shown lim c slots s) _ r
                h1 in
            let s2 = (store_slots dumps compact digest safe loads shown lim c slots s).1 in
            let leased =
              lease_groups dumps compact digest safe loads shown st mode c s2.vault
                (group_slots dumps compact digest safe loads shown filed [])
                (record { request = original; receipts = 0; duplicates = 0; pending = [] }) in
            let claim =
              if ltb
                  (serialized_chars dumps compact digest safe loads shown (object leased.request))
                  raw
                || leased.receipts == 0
              then claim_pending dumps compact digest safe loads shown st mode c leased.pending
                  leased
              else pure leased in
            let (claimed, answered, h3) = continue-value (claim s2) _ r h2 in
            accept-named c original raw _ mode tools claimed _ _ (claim s2).1 r h3
      ]

  finalize-result :
      (c : Call) (r : CompileResult) (s : Store)
      → (finalize dumps compact digest safe loads shown c r s).0 ≡ ok r
  unfolding finalize
  finalize-result c r s = ground arith

  fail_open-named :
      (c : Call) (request : Value) (raw : ℕ) (mode : String) (tools : ℕ) (s : Store)
      → (r : CompileResult) × ((fail_open dumps compact digest safe loads shown c request raw mode
            tools s).0
          ≡ ok r)
        × (r.request_id ≡ c.request_id)
  unfolding fail_open
  fail_open-named c request raw mode tools s =
      let r =
        untouched dumps compact digest safe loads shown request raw [] true mode tools
          c.request_id in
      elim (Bool-cases (raw == 0)) [
        | inl unmeasured ↦ (r, rw (fail_open, unmeasured) refl, refl)
        | inr measured ↦ (r, rw (fail_open, measured) (finalize-result c r s), refl)
      ]

  identified-named :
      (c : Call) (fs : Fields)
      → str_eq c.request_id "" ≡ false
      → (identified dumps compact digest safe loads shown c fs).request_id ≡ c.request_id
  unfolding identified
  identified-named c fs given = rw given refl

  -- A compilation reports the id that it was given, where it was given one.
  pub compile-named :
      (st : Settings) (lim : Limits) (c : Call) (block : Option String) (request : Value)
      (s : Store)
      → str_eq c.request_id "" ≡ false
      → (r : CompileResult) × ((compile dumps compact digest safe loads shown st lim c block request
            s).0
          ≡ ok r)
        × (r.request_id ≡ c.request_id)
  unfolding compile
  compile-named st lim c block null s given = fail_open-named c null 0 "unknown" 0 s
  compile-named st lim c block (boolean b) s given = fail_open-named c (boolean b) 0 "unknown" 0 s
  compile-named st lim c block (number q) s given = fail_open-named c (number q) 0 "unknown" 0 s
  compile-named st lim c block (text t) s given = fail_open-named c (text t) 0 "unknown" 0 s
  compile-named st lim c block (array xs) s given = fail_open-named c (array xs) 0 "unknown" 0 s
  compile-named st lim c block (object fs) s given =
      let known = identified dumps compact digest safe loads shown c fs in
      let raw = serialized_chars dumps compact digest safe loads shown (object fs) in
      let tools = tool_chars dumps compact digest safe loads shown fs in
      let name = identified-named c fs given in
      attempt_returns (λ r. r.request_id ≡ c.request_id)
        (do
          r ←
              compile_object dumps compact digest safe loads shown st lim known block fs raw
                (mode_of fs) tools
          finalize dumps compact digest safe loads shown known r)
        (λ e.
          fail_open dumps compact digest safe loads shown known (object fs) raw (mode_of fs) tools)
        s
        (λ r t h.
          let body =
            compile_object dumps compact digest safe loads shown st lim known block fs raw
              (mode_of fs) tools s in
          let (found, done, h1) =
            continue-value body (finalize dumps compact digest safe loads shown known) r
              (ap (λ x. x.0) h) in
          let same : found ≡ r = ground (arith, finalize-result known found body.1, h1) in
          ap (λ (x : CompileResult). x.request_id) (sym same)
          ∙ (compile_object-named st lim known block fs raw (mode_of fs) tools s found done ∙ name))
        (λ e t.
          let (r, returned, named) = fail_open-named known (object fs) raw (mode_of fs) tools t in
          (r, returned, named ∙ name))
