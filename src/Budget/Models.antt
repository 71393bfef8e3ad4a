-- ===== src/Budget/Models.antt =====
-- The names of models and encodings, and the settings from the environment (token_budget.py).
use Prim.Native.Char.{Char, code}
use Prim.Native.String as Chars
use token_terminator.Common.{
  ℕ, ◌+◌, ◌-◌, String, ◌+++◌, count, Bool, true, false, ◌&&◌, ◌||◌, Option, none, some, List, [],
  ◌∷◌, ◌++◌, any, max, leb, ◌==◌, if◌then◌else◌, str_eq, starts_with, strip, take, drop,
}

-- text in names
abbrev one_of : List String → String → Bool
one_of names s = any (str_eq s) names

unfoldable pub is_compat_namespace : String → Bool
is_compat_namespace = one_of ("" ∷ "openai" ∷ "openai-codex" ∷ "openrouter/openai" ∷ [])

abbrev pub snapshot_bases : List String
snapshot_bases = "gpt-5.6-sol" ∷ "gpt-5.6-terra" ∷ "gpt-5.6-luna" ∷ "gpt-6-sol" ∷ "gpt-6-luna" ∷ []

unfoldable pub is_context_base : String → Bool
is_context_base =
    one_of (
      snapshot_bases ++ "gpt-5.4" ∷ "gpt-daybreak-blue-latest" ∷ "gpt-6-astra" ∷ "gpt-6.1-sol" ∷ [])

-- s.rsplit(c, 1), where the character is in the text
unfoldable pub rsplit : ℕ → String → Option (String × String)
rsplit c Chars.[] = none
rsplit c (Chars.◌∷◌ d s) = elim (rsplit c s) [
  | some (a, b) ↦ some (Chars.◌∷◌ d a, b)
  | none ↦ if code d == c then some ("", s) else none
]

-- s.endswith(suffix)
unfoldable pub ends_with : String → String → Bool
ends_with s suffix = leb (count suffix) (count s) && str_eq (drop (count s - count suffix) s) suffix

-- The namespace and the name of a provider-qualified model
unfoldable pub split_model : String → String × String
split_model raw = elim (rsplit b'/' raw) [
  | some (namespace, name) ↦ (namespace, name)
  | none ↦ elim (rsplit b':' raw) [ some (namespace, name) ↦ (namespace, name) | none ↦ ("", raw) ]
]

-- The parameters: `str.lower`, and whether `\d` matches a character.
module _ (lower : String → String) (is_digit : Char → Bool) where
  -- re.fullmatch(r"\d{4}-\d{2}-\d{2}", s), by a shape in which `d` stands for a digit
  unfoldable pub matches : String → String → Bool
  matches Chars.[] Chars.[] = true
  matches Chars.[] (Chars.◌∷◌ c s) = false
  matches (Chars.◌∷◌ p shape) Chars.[] = false
  matches (Chars.◌∷◌ p shape) (Chars.◌∷◌ c s) =
      (if code p == b'd' then is_digit c else code p == code c) && matches shape s

  unfoldable pub is_snapshot : String → Bool
  is_snapshot base =
      any
        (λ prefix.
          starts_with base (prefix +++ "-") && matches "dddd-dd-dd" (drop (count prefix + 1) base))
        snapshot_bases

  -- `_tokenizer_alias_identity`
  unfoldable pub alias_identity : String → String
  alias_identity model =
      let raw = strip model in
      let (namespace, original) = split_model raw in
      let name = lower original in
      if not_alias namespace name
      then raw
      else if is_context_base (base_of name) || is_snapshot (base_of name)
      then take (count raw - 5) raw
      else raw
    where
      base_of : String → String
      base_of name = take (count name - 5) name

      not_alias : String → String → Bool
      not_alias namespace name =
          if is_compat_namespace (lower namespace) && ends_with name "-900k" then false else true

  -- `_compat_encoding`
  unfoldable pub compat_encoding : String → String
  compat_encoding model =
      let (namespace, name) = split_model (lower (alias_identity model)) in
      if is_compat_namespace namespace && str_eq name "gpt-6.1-sol" then "o200k_base" else ""

  -- `_tokenizer_model_name`
  unfoldable pub tokenizer_model_name : String → String
  tokenizer_model_name model =
      let normalized = after_slash (alias_identity model) in
      elim (rsplit b':' normalized) [
        | some (namespace, local_name) ↦
            if is_compat_namespace (lower namespace) then local_name else normalized
        | none ↦ normalized
      ]
    where
      after_slash : String → String
      after_slash s = elim (rsplit b'/' s) [ some (before, after) ↦ after | none ↦ s ]

  -- `_env_bool`, where the variable may be unset
  unfoldable pub env_bool : Option String → Bool → Bool
  env_bool none default = default
  env_bool (some raw) default =
      let normalized = lower (strip raw) in
      if one_of ("1" ∷ "true" ∷ "yes" ∷ "on" ∷ []) normalized
      then true
      else if one_of ("0" ∷ "false" ∷ "no" ∷ "off" ∷ []) normalized
      then false
      else default

-- `_env_int`; `parsed` is `int` of the text, cut off at zero, and fails on a text that is no number.
unfoldable pub env_int : (String → Option ℕ) → Option String → ℕ → ℕ → ℕ
env_int parsed none default minimum = default
env_int parsed (some raw) default minimum = elim (parsed raw) [
  | some n ↦ max minimum n
  | none ↦ default
]
