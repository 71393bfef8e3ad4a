-- ===== src/Views/Peek.antt =====
-- `artifact_peek` (recovery_views.py), a synopsis of one artifact.
use Prim.Native.Char.{Char}
use token_terminator.Common.{
  ℕ, suc, ◌-◌, String, count, Bool, false, Option, none, some, List, [], ◌∷◌, length, filter, any,
  ltb, leb, ◌==◌, min, max, if◌then◌else◌, str_eq, splitlines, Result, ok, ◌>>=◌,
}
use token_terminator.Json.{
  Value, null, boolean, number, text, array, object, Items, nil, item, Fields, end, field,
}
use token_terminator.Vault.Tables.{Artifact, Observation, Vault}
use token_terminator.Vault.Put.{get_artifact}
use token_terminator.Compactor.Turns.{size}
use token_terminator.Guards.Patterns.{Part, words_of, has_words}
use token_terminator.Views.Clip.{clip}
use token_terminator.Views.Find.{first_of}

-- `_SIGNAL`
unfoldable pub signal_words : List (List Part)
unfolding words_of
signal_words =
    words_of ("error" ∷ "warning" ∷ "failed" ∷ "failure" ∷ "exception" ∷ "traceback" ∷ "fatal" ∷ [])

-- What `_json_structure` says of a value
pub data Structure : Type 0 where
  object_of : List String → ℕ → Bool → Structure
  array_of : ℕ → List String → Structure
  scalar : String → Structure

-- type(value).__name__
unfoldable pub type_name : Value → String
type_name null = "NoneType"
type_name (boolean b) = "bool"
type_name (number q) = if q.is_float then "float" else "int"
type_name (text s) = "str"
type_name (array xs) = "list"
type_name (object fs) = "dict"

unfoldable pub type_names : ℕ → Items → List String
type_names n nil = []
type_names n (item v vs) = if n == 0 then [] else type_name v ∷ type_names (n - 1) vs

unfoldable pub keys_of : Fields → List String
keys_of end = []
keys_of (field k v rest) = k ∷ keys_of rest

-- `_json_structure`, whose set of names is sorted
unfoldable pub json_structure : Value → Structure
json_structure (object fs) =
    let keys = first_of 50 (keys_of fs) in
    object_of keys (length (keys_of fs)) (ltb (length keys) (length (keys_of fs)))
json_structure (array xs) = array_of (size xs) (
    filter (λ n. any (str_eq n) (type_names 100 xs))
      ("NoneType" ∷ "bool" ∷ "dict" ∷ "float" ∷ "int" ∷ "list" ∷ "str" ∷ []))
json_structure null = scalar (type_name null)
json_structure (boolean b) = scalar (type_name (boolean b))
json_structure (number q) = scalar (type_name (number q))
json_structure (text s) = scalar (type_name (text s))

pub record Synopsis : Type 0 where
  pub head : List String
  pub tail : List String
  pub signals : List String

pub record Peek : Type 0 where
  pub artifact_id : String
  pub sha256 : String
  pub tool_name : String
  pub total_chars : ℕ
  pub total_bytes : ℕ
  pub line_count : ℕ
  pub observation_count : ℕ
  pub created_at : String
  pub structure : Option Structure
  pub synopsis : Synopsis

-- [_clip(line, n) for line in lines]
unfoldable pub clip_all : ℕ → List String → List String
clip_all n [] = []
clip_all n (l ∷ ls) = clip l n ∷ clip_all n ls

-- The first and the last lines, clipped; the last only where there are more
unfoldable pub last_lines : ℕ → List String → List String
last_lines n [] = []
last_lines n (l ∷ ls) = if leb (suc (length ls)) n then l ∷ ls else last_lines n ls

unfoldable pub synopsis_of : ℕ → ℕ → List String → List String → Synopsis
synopsis_of lines_shown chars lines signals = record {
  head = clip_all chars (first_of lines_shown lines);
  tail =
      if ltb lines_shown (length lines) then clip_all chars (last_lines lines_shown lines) else [];
  signals = signals;
}

unfoldable pub texts : List String → Items
texts [] = nil
texts (s ∷ ss) = item (text s) (texts ss)

unfoldable pub synopsis_value : Synopsis → Value
synopsis_value s = object (
    field "head" (array (texts s.head))
      (field "tail" (array (texts s.tail)) (field "signals" (array (texts s.signals)) end)))

-- The parameters: hashlib's digest; `\w`, and the letters that match in either case; `str.lower`; `json.dumps`
-- and `json.loads`.
module _ (digest : String → String) (is_word : Char → Bool) (same_letter : Char → Char → Bool)
    (lower : String → String) (dumps : Value → String) (loads : String → Option Value) where
  unfoldable pub signal_lines : List String → List String
  signal_lines lines =
      first_of 8 (
        clip_all 500 (filter (λ l. has_words is_word same_letter lower signal_words false l) lines))

  -- The synopsis, in a shorter form where it is over the limit
  unfoldable pub bounded_synopsis : ℕ → List String → Synopsis
  bounded_synopsis limit lines =
      let signals = signal_lines lines in
      let full = synopsis_of 6 500 lines signals in
      if ltb limit (count (dumps (synopsis_value full)))
      then synopsis_of 3 240 lines (clip_all 240 (first_of 3 signals))
      else full

  unfoldable pub structure_of : Artifact → Option Structure
  structure_of artifact =
      if leb artifact.char_count 250000
      then (elim (loads artifact.content) [ some v ↦ some (json_structure v) | none ↦ none ])
      else none

  -- `artifact_peek`, on a limit of zero or more (a negative one acts as zero)
  unfoldable pub artifact_peek : ℕ → String → ℕ → Vault → Result Peek
  artifact_peek max_page_chars artifact_id limit v = do
    artifact ← get_artifact digest artifact_id v
    ok (
        let lines = splitlines artifact.content in
        record {
          artifact_id = artifact.artifact_id;
          sha256 = artifact.sha256;
          tool_name = artifact.tool_name;
          total_chars = artifact.char_count;
          total_bytes = artifact.byte_count;
          line_count = length lines;
          observation_count = length (
              filter (λ (o : Observation). str_eq o.artifact_id artifact.artifact_id)
                v.observations);
          created_at = artifact.created_at;
          structure = structure_of artifact;
          synopsis = bounded_synopsis (max 200 (min limit max_page_chars)) lines;
        })
