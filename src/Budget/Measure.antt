-- ===== src/Budget/Measure.antt =====
-- `TokenBudgetAdapter` (token_budget.py): which tokenizer measures a text, and what it remembers.
use Prim.Native.Char.{Char}
use token_terminator.Common.{
  ℕ, ◌-◌, String, ◌+++◌, Bool, true, false, Option, none, some, List, [], ◌∷◌, any, ◌==◌,
  if◌then◌else◌, str_eq, starts_with, strip, Result, ok, raise,
}
use token_terminator.Common.Actions.{Action, ◌>>=◌}
use token_terminator.Json.{Value, null, boolean, number, text, array, object, get}
use token_terminator.Accounting.{TokenMeasurement}
use token_terminator.Budget.Models.{compat_encoding, tokenizer_model_name}

-- The settings of the window
pub record Window : Type 0 where
  pub context_limit_tokens : ℕ
  pub output_reserve_tokens : ℕ
  pub safety_margin_tokens : ℕ

-- `usable_context_tokens`
unfoldable pub usable_context_tokens : Window → Option ℕ
usable_context_tokens w =
    if w.context_limit_tokens == 0
    then none
    else some (w.context_limit_tokens - w.output_reserve_tokens - w.safety_margin_tokens)

-- The attributes that a measurement reads and writes, over the types of tiktoken's and Hugging Face's
-- tokenizers.
pub record Adapter (E H : Type 0) : Type 0 where
  pub enabled : Bool
  pub encoding_name : String
  pub hf_attempted : Bool
  pub hf_tokenizer : Option H
  pub tiktoken_attempted : Bool
  pub tiktoken : Bool
  pub encodings : List (String × E × String)

abbrev pub model_prefixes : List String
model_prefixes = "gpt-4o" ∷ "gpt-4.1" ∷ "gpt-5" ∷ "o1" ∷ "o3" ∷ "o4" ∷ []

unfoldable pub cached : {E : Type 0} → String → List (String × E × String) → Option (E × String)
cached key [] = none
cached key ((k, e, label) ∷ rest) = if str_eq k key then some (e, label) else cached key rest

-- The first of two answers, the second asked for only where there is none yet
abbrev pub or_else : {A : Type 0} → Option A → Option A → Option A
or_else none b = b
or_else (some a) b = some a

abbrev pub labelled : {E : Type 0} → String → Option E → Option (E × String)
labelled label none = none
labelled label (some e) = some (e, label)

abbrev pub only_if : {A : Type 0} → Bool → Option A → Option A
only_if true a = a
only_if false a = none

-- The parameters: `str.lower` and the digits of `\d`; the tokenizer file, where it can be loaded, or what
-- loading it raises past the code's `except`; whether
-- tiktoken can be imported, its lookups, which raise on an unknown name, and the length of an encoding, which
-- may raise; and `json.dumps` of a request, which may raise. They answer for the exceptions that the code
-- catches; one that it lets through makes a measurement raise, as Budget/Gates has it.
module _ {E H : Type 0} (lower : String → String) (is_digit : Char → Bool)
    (load_hf : Result (Option H)) (installed : Bool) (for_model get_encoding : String → Option E)
    (encode : E → String → Option ℕ) (hf_encode : H → String → Option ℕ)
    (serialize : Value → Option String) where
  -- What is kept of a load: the attempt is, whatever comes of it.
  abbrev loaded : Result (Option H) → Action (Adapter E H) (Option H)
  loaded (ok tokenizer) a =
      (ok tokenizer, record a { hf_attempted = true; hf_tokenizer = tokenizer })
  loaded (raise e) a = (raise e, record a { hf_attempted = true })

  -- `_huggingface`
  unfoldable pub huggingface : Action (Adapter E H) (Option H)
  huggingface a = if a.hf_attempted then (ok a.hf_tokenizer, a) else loaded load_hf a

  -- `_tiktoken_module`
  unfoldable pub tiktoken_module : Adapter E H → Bool × Adapter E H
  tiktoken_module a =
      if a.tiktoken_attempted
      then (a.tiktoken, a)
      else (installed, record a { tiktoken_attempted = true; tiktoken = installed })

  -- The lookups of `_tiktoken_encoding`, in their order
  unfoldable pub look_up : String → String → Option (E × String)
  look_up encoding_name model =
      let lookup = tokenizer_model_name lower is_digit model in
      let compat = compat_encoding lower is_digit model in
      or_else
        (only_if (if str_eq lookup "" then false else true)
          (labelled ("tiktoken:model:" +++ lookup) (for_model lookup)))
        (or_else
          (only_if (if str_eq encoding_name "" then false else true)
            (labelled ("tiktoken:encoding:" +++ encoding_name) (get_encoding encoding_name)))
          (or_else
            (only_if (if str_eq compat "" then false else true)
              (labelled ("tiktoken:compat:" +++ lookup +++ ":" +++ compat) (get_encoding compat)))
            (only_if (any (starts_with (lower lookup)) model_prefixes)
              (labelled "tiktoken:encoding:o200k_base" (get_encoding "o200k_base")))))

  unfoldable pub cache_key : String → String → String
  cache_key encoding_name model = if str_eq (strip model) "" then encoding_name else strip model

  -- The encodings with a new answer, where there is one
  abbrev remember : String → Option (E × String) → Adapter E H → Option (E × String) × Adapter E H
  remember key none a = (none, a)
  remember key (some (e, label)) a =
      (some (e, label), record a { encodings = (key, e, label) ∷ a.encodings })

  abbrev look_or : String → Option (E × String) → Adapter E H → Option (E × String) × Adapter E H
  look_or model (some found) a = (some found, a)
  look_or model none a =
      remember (cache_key a.encoding_name model) (look_up a.encoding_name model) a

  abbrev pub with_module : String → Bool × Adapter E H → Option (E × String) × Adapter E H
  with_module model (false, a) = (none, a)
  with_module model (true, a) =
      look_or model (cached (cache_key a.encoding_name model) a.encodings) a

  -- `_tiktoken_encoding`
  unfoldable pub tiktoken_encoding : String → Adapter E H → Option (E × String) × Adapter E H
  tiktoken_encoding model a = with_module model (tiktoken_module a)

  abbrev pub measured : Option ℕ → String → String → TokenMeasurement
  measured tokens backend model = record { tokens = tokens; backend = backend; model = model }

  -- The tiktoken part of `measure_text`, and the fallback
  abbrev pub by_encoding :
      String → String → Option (E × String) × Adapter E H → TokenMeasurement × Adapter E H
  by_encoding s model (none, a) = (measured none "character-fallback" model, a)
  by_encoding s model (some (e, label), a) = (
    elim (encode e s) [
      | some n ↦ measured (some n) label model
      | none ↦ measured none "character-fallback" model
    ],
    a,
  )

  -- The Hugging Face part: a tokenizer that raises is dropped.
  abbrev by_tokenizer : String → String → Option H × Adapter E H → TokenMeasurement × Adapter E H
  by_tokenizer s model (none, a) = by_encoding s model (tiktoken_encoding model a)
  by_tokenizer s model (some h, a) = by_count (hf_encode h s) a
    where
      by_count : Option ℕ → Adapter E H → TokenMeasurement × Adapter E H
      by_count (some n) a = (measured (some n) "huggingface:tokenizer-json" model, a)
      by_count none a =
          by_encoding s model (tiktoken_encoding model (record a { hf_tokenizer = none }))

  -- An answer that raises nothing
  abbrev pub answered : TokenMeasurement × Adapter E H → Result TokenMeasurement × Adapter E H
  answered (m, a) = (ok m, a)

  -- `measure_text`
  unfoldable pub measure_text : String → String → Action (Adapter E H) TokenMeasurement
  measure_text s model a =
      if a.enabled
      then (do tokenizer ← huggingface; (λ b. answered (by_tokenizer s model (tokenizer, b)))) a
      else (ok (measured none "disabled" model), a)

  unfoldable pub active_model : Value → String → String
  active_model (object fs) model = elim (get "model" fs) [
    | text m ↦ if str_eq m "" then model else m
    | _ ↦ model
  ]
  active_model null model = model
  active_model (boolean b) model = model
  active_model (number q) model = model
  active_model (text s) model = model
  active_model (array xs) model = model

  -- The measurement of a serialised request, for a model
  unfoldable pub measure_serialized : String → Option String → Action (Adapter E H) TokenMeasurement
  measure_serialized model (some s) a = measure_text s model a
  measure_serialized model none a = (ok (measured none "character-fallback" model), a)

  -- `measure_request`
  unfoldable pub measure_request : Value → String → Action (Adapter E H) TokenMeasurement
  measure_request request model a =
      measure_serialized (active_model request model) (serialize request) a
