-- ===== src/Runtime/References.antt =====
-- What the middleware (plugin.py) reads out of a request and takes off it: the ids of artifacts, and the
-- keys that are the plugin's own.
use Prim.Native.Char.{Char, code}
use Prim.Native.String as Chars
use token_terminator.Common.{
  String, count, ◌≡◌, refl, Bool, true, false, ◌||◌, ◌&&◌, not, Option, none, some, List, [], ◌∷◌,
  drop, arith, ltb, ◌==◌, if◌then◌else◌, str_eq, starts_with, Bool-cases, inl, inr,
}
use token_terminator.Json.{
  Value, null, boolean, number, text, array, object, Fields, end, field, all_keys,
}
use token_terminator.Guards.Patterns.{is_hex}

-- isinstance(key, str) and key.startswith("_tt_")
unfoldable pub is_internal : String → Bool
is_internal key = starts_with key "_tt_"

unfoldable pub strip_fields : Fields → Fields
strip_fields end = end
strip_fields (field k v rest) =
    if is_internal k then strip_fields rest else field k v (strip_fields rest)

-- `_strip_internal_metadata`
unfoldable pub strip_internal_metadata : Value → Value
strip_internal_metadata (object fs) = object (strip_fields fs)
strip_internal_metadata null = null
strip_internal_metadata (boolean b) = boolean b
strip_internal_metadata (number q) = number q
strip_internal_metadata (text s) = text s
strip_internal_metadata (array xs) = array xs

-- The order of two texts, by their characters
unfoldable pub comes_before : String → String → Bool
comes_before s Chars.[] = false
comes_before Chars.[] (Chars.◌∷◌ d t) = true
comes_before (Chars.◌∷◌ c s) (Chars.◌∷◌ d t) =
    if code c == code d then comes_before s t else ltb (code c) (code d)

-- sorted(set(ids)), one id at a time
unfoldable pub insert_id : String → List String → List String
insert_id id [] = id ∷ []
insert_id id (i ∷ is) =
    if str_eq i id then i ∷ is else if comes_before i id then i ∷ insert_id id is else id ∷ i ∷ is

unfoldable pub sorted_set : List String → List String
sorted_set [] = []
sorted_set (id ∷ ids) = insert_id id (sorted_set ids)

-- The hexadecimal digits that a text starts with
unfoldable pub hex_prefix : String → String
hex_prefix Chars.[] = Chars.[]
hex_prefix (Chars.◌∷◌ c s) = if is_hex c then Chars.◌∷◌ c (hex_prefix s) else Chars.[]

-- The parameter: `\w`.
module _ (is_word : Char → Bool) where
  unfoldable pub ends_id : String → Bool
  ends_id Chars.[] = true
  ends_id (Chars.◌∷◌ c s) = not (is_word c)

  -- [0-9a-f]{32}(?:[0-9a-f]{32})?\b, at the start of a text: no digit can follow the last, since a digit is
  -- a word character
  unfoldable pub hex_digits : String → Option String
  hex_digits s =
      let run = hex_prefix s in
      if (count run == 32 || count run == 64) && ends_id (drop (count run) s)
      then some run
      else none

  -- `_ARTIFACT_ID_PATTERN`, at the start of a text
  unfoldable pub id_at : String → Option String
  id_at Chars.[] = none
  id_at (Chars.◌∷◌ c Chars.[]) = none
  id_at (Chars.◌∷◌ c (Chars.◌∷◌ d s)) =
      if code c == 97 && code d == 95
      then (elim (hex_digits s) [ none ↦ none | some run ↦ some (Chars.◌∷◌ c (Chars.◌∷◌ d run)) ])
      else none

  -- findall, where `inside` says that the character before is a word character. The characters of a match
  -- are word characters, so none of them starts another.
  unfoldable pub find_ids : Bool → String → List String
  find_ids inside Chars.[] = []
  find_ids inside (Chars.◌∷◌ c s) =
      let later = find_ids (is_word c) s in
      if inside then later else elim (id_at (Chars.◌∷◌ c s)) [ none ↦ later | some id ↦ id ∷ later ]

  -- `_artifact_ids_in_value`, on the text of the value
  unfoldable pub artifact_ids_in : String → List String
  artifact_ids_in s = sorted_set (find_ids false s)

-- A request that goes out without the plugin's own keys
abbrev pub IsClean : Value → Type 0
IsClean v = elim v [ object fs ↦ all_keys (λ k. not (is_internal k)) fs ≡ true | _ ↦ Unit ]

strip_fields-IsClean : (fs : Fields) → all_keys (λ k. not (is_internal k)) (strip_fields fs) ≡ true
unfolding strip_fields all_keys
strip_fields-IsClean end = refl
strip_fields-IsClean (field k v rest) = elim (Bool-cases (is_internal k)) [
  | inl own ↦ rw own (strip_fields-IsClean rest)
  | inr other ↦ ground (arith, strip_fields-IsClean rest)
]

pub strip_internal_metadata-IsClean : (v : Value) → IsClean (strip_internal_metadata v)
unfolding strip_internal_metadata
strip_internal_metadata-IsClean (object fs) = strip_fields-IsClean fs
strip_internal_metadata-IsClean null = tt
strip_internal_metadata-IsClean (boolean b) = tt
strip_internal_metadata-IsClean (number q) = tt
strip_internal_metadata-IsClean (text s) = tt
strip_internal_metadata-IsClean (array xs) = tt
