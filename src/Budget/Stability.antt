-- ===== src/Budget/Stability.antt =====
-- A measurement (token_budget.py) that is taken again gives the same answer.
use Prim.Native.Char.{Char}
use token_terminator.Common.{
  ℕ, String, ◌≡◌, refl, Bool, true, false, Option, none, some, arith, Result, ok, Result-cases,
  eq_refl, Bool-cases, Option-cases, inl, inr, subst, ap, sym, ◌∙◌,
}
use token_terminator.Common.Actions.{Action}
use token_terminator.Json.{Value}
use token_terminator.Accounting.{TokenMeasurement}
use token_terminator.Budget.Measure.{
  Adapter, answered, cached, huggingface, tiktoken_module, with_module, by_encoding, look_up,
  cache_key, tiktoken_encoding, measure_text, measure_serialized, measure_request, active_model,
}

module _ {E H : Type 0} (lower : String → String) (is_digit : Char → Bool)
    (load_hf : Result (Option H)) (installed : Bool) (for_model get_encoding : String → Option E)
    (encode : E → String → Option ℕ) (hf_encode : H → String → Option ℕ)
    (serialize : Value → Option String) where
  abbrev find : String → Adapter E H → Option (E × String) × Adapter E H
  find =
      tiktoken_encoding lower is_digit load_hf installed for_model get_encoding encode hf_encode
        serialize

  abbrev attempted : Adapter E H → Adapter E H
  attempted a =
      (tiktoken_module lower is_digit load_hf installed for_model get_encoding encode hf_encode
        serialize a).1

  module_idem :
      (a : Adapter E H)
      → tiktoken_module lower is_digit load_hf installed for_model get_encoding encode hf_encode
          serialize
          (attempted a)
        ≡ tiktoken_module lower is_digit load_hf installed for_model get_encoding encode hf_encode
            serialize a
  unfolding tiktoken_module
  module_idem a = ground arith

  attempted-find : (m : String) (a : Adapter E H) → find m (attempted a) ≡ find m a
  unfolding tiktoken_encoding
  attempted-find m a =
      ap
        (with_module lower is_digit load_hf installed for_model get_encoding encode hf_encode
          serialize m)
        (module_idem a)

  attempted-tried : (a : Adapter E H) → (attempted a).tiktoken_attempted ≡ true
  unfolding tiktoken_module
  attempted-tried a = ground arith

  known_idem :
      (m : String) (b : Adapter E H) → b.tiktoken_attempted ≡ true → find m (find m b).1 ≡ find m b
  unfolding tiktoken_encoding tiktoken_module cached
  known_idem m b tried = elim (Bool-cases b.tiktoken) [
    | inr missing ↦ simp (tried, missing)
    | inl there ↦
        elim (Option-cases (
          cached
            (cache_key lower is_digit load_hf installed for_model get_encoding encode hf_encode
              serialize b.encoding_name m)
            b.encodings)) [
              | inr ((e, label), hit) ↦ simp (tried, there, hit)
              | inl miss ↦
                  elim (Option-cases (
                    look_up lower is_digit load_hf installed for_model get_encoding encode hf_encode
                      serialize b.encoding_name m)) [
                        | inl unknown ↦ simp (tried, there, miss, unknown)
                        | inr ((e, label), found) ↦ simp (tried, there, miss, found, eq_refl)
                      ]
            ]
  ]

  find_idem : (m : String) (a : Adapter E H) → find m (find m a).1 ≡ find m a
  find_idem m a =
      subst (λ r. find m r.1 ≡ r) (attempted-find m a)
        (known_idem m (attempted a) (attempted-tried a))

  -- What a lookup leaves alone
  abbrev kept : Adapter E H → Bool × Bool × Option H
  kept a = (a.enabled, a.hf_attempted, a.hf_tokenizer)

  module-kept : (a : Adapter E H) → kept (attempted a) ≡ kept a
  unfolding tiktoken_module
  module-kept a = ground arith

  known-kept :
      (m : String) (b : Adapter E H) → b.tiktoken_attempted ≡ true → kept (find m b).1 ≡ kept b
  unfolding tiktoken_encoding tiktoken_module cached
  known-kept m b tried = elim (Bool-cases b.tiktoken) [
    | inr missing ↦ simp (tried, missing)
    | inl there ↦
        elim (Option-cases (
          cached
            (cache_key lower is_digit load_hf installed for_model get_encoding encode hf_encode
              serialize b.encoding_name m)
            b.encodings)) [
              | inr ((e, label), hit) ↦ simp (tried, there, hit)
              | inl miss ↦
                  elim (Option-cases (
                    look_up lower is_digit load_hf installed for_model get_encoding encode hf_encode
                      serialize b.encoding_name m)) [
                        | inl unknown ↦ simp (tried, there, miss, unknown)
                        | inr ((e, label), found) ↦ simp (tried, there, miss, found)
                      ]
            ]
  ]

  find-kept : (m : String) (a : Adapter E H) → kept (find m a).1 ≡ kept a
  find-kept m a =
      ap (λ r. kept r.1) (sym (attempted-find m a))
      ∙ (known-kept m (attempted a) (attempted-tried a) ∙ module-kept a)

  abbrev measure : String → String → Action (Adapter E H) TokenMeasurement
  measure =
      measure_text lower is_digit load_hf installed for_model get_encoding encode hf_encode
        serialize

  encoding_state :
      (s m : String) (x : Option (E × String) × Adapter E H)
      → (by_encoding lower is_digit load_hf installed for_model get_encoding encode hf_encode
          serialize s m x).1
        ≡ x.1
  encoding_state s m (none, a) = refl
  encoding_state s m (some (e, label), a) = refl

  -- A measurement by tiktoken alone
  abbrev by_tiktoken : String → String → Adapter E H → Result TokenMeasurement × Adapter E H
  by_tiktoken s m b =
      answered lower is_digit load_hf installed for_model get_encoding encode hf_encode serialize (
        by_encoding lower is_digit load_hf installed for_model get_encoding encode hf_encode
          serialize s m (find m b))

  -- With no Hugging Face tokenizer, a measurement is a lookup.
  by_lookup :
      (s m : String) (b : Adapter E H)
      → kept b ≡ (true, true, none)
      → measure s m b ≡ by_tiktoken s m b
  unfolding measure_text huggingface
  by_lookup s m b e =
      let enabled : b.enabled ≡ true = ground arith in
      let tried : b.hf_attempted ≡ true = ground arith in
      let nothing : b.hf_tokenizer ≡ none = ground arith in simp (enabled, tried, nothing)

  lookup_idem :
      (s m : String) (b : Adapter E H)
      → kept b ≡ (true, true, none)
      → measure s m (by_tiktoken s m b).1 ≡ by_tiktoken s m b
  lookup_idem s m b e =
      ap (measure s m) (encoding_state s m (find m b))
      ∙ (by_lookup s m (find m b).1 (find-kept m b ∙ e)
          ∙ ap
              (λ x.
                answered lower is_digit load_hf installed for_model get_encoding encode hf_encode
                  serialize
                  (by_encoding lower is_digit load_hf installed for_model get_encoding encode
                    hf_encode serialize s m x))
              (find_idem m b))

  loaded_idem :
      (s m : String) (b : Adapter E H)
      → b.enabled ≡ true
      → b.hf_attempted ≡ true
      → measure s m (measure s m b).1 ≡ measure s m b
  unfolding measure_text huggingface
  loaded_idem s m b enabled tried = elim (Option-cases b.hf_tokenizer) [
    | inl nothing ↦
        let e : kept b ≡ (true, true, none) = ground arith in
        subst (λ r. measure s m r.1 ≡ r) (sym (by_lookup s m b e)) (lookup_idem s m b e)
    | inr (h, loaded) ↦ elim (Option-cases (hf_encode h s)) [
      | inr (n, counted) ↦ simp (enabled, tried, loaded, counted)
      | inl raised ↦
          let c : Adapter E H = record b { hf_tokenizer = none } in
          let e : kept c ≡ (true, true, none) = ground arith in
          let same : measure s m b ≡ by_tiktoken s m c = simp (enabled, tried, loaded, raised) in
          subst (λ r. measure s m r.1 ≡ r) (sym same) (lookup_idem s m c e)
    ]
  ]

  abbrev loaded_once : Adapter E H → Adapter E H
  loaded_once a =
      (huggingface lower is_digit load_hf installed for_model get_encoding encode hf_encode
        serialize a).1

  loaded_once-tried : (a : Adapter E H) → (loaded_once a).hf_attempted ≡ true
  unfolding huggingface
  loaded_once-tried a = ground arith

  loaded_once-enabled : (a : Adapter E H) → (loaded_once a).enabled ≡ a.enabled
  unfolding huggingface
  loaded_once-enabled a = ground arith

  -- A load that returned is remembered.
  huggingface_idem :
      (a : Adapter E H) (h : Option H)
      → (huggingface lower is_digit load_hf installed for_model get_encoding encode hf_encode
          serialize a).0
        ≡ ok h
      → huggingface lower is_digit load_hf installed for_model get_encoding encode hf_encode
          serialize
          (loaded_once a)
        ≡ huggingface lower is_digit load_hf installed for_model get_encoding encode hf_encode
            serialize a
  unfolding huggingface
  huggingface_idem a h e = ground arith

  measure-loaded_once :
      (s m : String) (a : Adapter E H) (h : Option H)
      → a.enabled ≡ true
      → (huggingface lower is_digit load_hf installed for_model get_encoding encode hf_encode
          serialize a).0
        ≡ ok h
      → measure s m (loaded_once a) ≡ measure s m a
  unfolding measure_text
  measure-loaded_once s m a h enabled e =
      simp (enabled, loaded_once-enabled a ∙ enabled, huggingface_idem a h e)

  measure-disabled :
      (s m : String) (a : Adapter E H)
      → a.enabled ≡ false
      → measure s m (measure s m a).1 ≡ measure s m a
  unfolding measure_text
  measure-disabled s m a off = simp off

  -- A measurement that returned has loaded what it asked for.
  measure-loads :
      (s m : String) (a : Adapter E H) (x : TokenMeasurement)
      → a.enabled ≡ true
      → (measure s m a).0 ≡ ok x
      → (h : Option H) × ((huggingface lower is_digit load_hf installed for_model get_encoding
            encode hf_encode serialize a).0
          ≡ ok h)
  unfolding measure_text
  measure-loads s m a x enabled e =
      elim (Result-cases
        (huggingface lower is_digit load_hf installed for_model get_encoding encode hf_encode
          serialize a).0) [ inl loaded ↦ loaded | inr (error, failed) ↦ absurd (ground arith) ]

  measure_idem :
      (s m : String) (a : Adapter E H) (x : TokenMeasurement)
      → (measure s m a).0 ≡ ok x
      → measure s m (measure s m a).1 ≡ measure s m a
  measure_idem s m a x e = elim (Bool-cases a.enabled) [
    | inr off ↦ measure-disabled s m a off
    | inl enabled ↦
        let (h, loads) = measure-loads s m a x enabled e in
        subst (λ r. measure s m r.1 ≡ r) (measure-loaded_once s m a h enabled loads)
          (loaded_idem s m (loaded_once a) (loaded_once-enabled a ∙ enabled) (loaded_once-tried a))
  ]

  serialized_idem :
      (m : String) (text : Option String) (a : Adapter E H) (x : TokenMeasurement)
      → (measure_serialized lower is_digit load_hf installed for_model get_encoding encode hf_encode
          serialize m text a).0
        ≡ ok x
      → measure_serialized lower is_digit load_hf installed for_model get_encoding encode hf_encode
          serialize m text
          (measure_serialized lower is_digit load_hf installed for_model get_encoding encode
            hf_encode serialize m text a).1
        ≡ measure_serialized lower is_digit load_hf installed for_model get_encoding encode
            hf_encode serialize m text a
  unfolding measure_serialized
  serialized_idem m none a x e = refl
  serialized_idem m (some s) a x e = measure_idem s m a x e

  -- A measurement of a request that has returned gives the same answer when it is repeated, and changes nothing
  -- more: whatever the adapter has loaded and cached, whichever tokenizer can be had, and also where the
  -- tokenizer fails and the answer falls back on another.
  pub measure_request_idem :
      (request : Value) (m : String) (a : Adapter E H) (x : TokenMeasurement)
      → (measure_request lower is_digit load_hf installed for_model get_encoding encode hf_encode
          serialize request m a).0
        ≡ ok x
      → measure_request lower is_digit load_hf installed for_model get_encoding encode hf_encode
          serialize request m
          (measure_request lower is_digit load_hf installed for_model get_encoding encode hf_encode
            serialize request m a).1
        ≡ measure_request lower is_digit load_hf installed for_model get_encoding encode hf_encode
            serialize request m a
  unfolding measure_request
  measure_request_idem request m a x e =
      serialized_idem
        (active_model lower is_digit load_hf installed for_model get_encoding encode hf_encode
          serialize request m)
        (serialize request) a x e
