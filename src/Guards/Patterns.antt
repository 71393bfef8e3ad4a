-- ===== src/Guards/Patterns.antt =====
-- The vetoes of context_safety.py on texts: the patterns of its regular expressions.
use Prim.Native.Char.{Char, code}
use Prim.Native.String as Chars
use token_terminator.Common.{
  ℕ, suc, String, Bool, true, false, ◌&&◌, ◌||◌, not, List, [], ◌∷◌, any, leb, ◌==◌, if◌then◌else◌,
  str_eq, starts_with, is_space,
}

-- needle in s
unfoldable pub contains : String → String → Bool
contains needle Chars.[] = str_eq needle ""
contains needle (Chars.◌∷◌ c s) = starts_with (Chars.◌∷◌ c s) needle || contains needle s

-- A part of a pattern: a letter, in either case; `\s+`; and `[_ -]?`
pub data Part : Type 0 where
  letter : Char → Part
  spaces : Part
  joint : Part

-- The letters of a word, then the parts after it
unfoldable pub word : String → List Part → List Part
word Chars.[] rest = rest
word (Chars.◌∷◌ c s) rest = letter c ∷ word s rest

unfoldable pub words_of : List String → List (List Part)
words_of [] = []
words_of (w ∷ ws) = word w [] ∷ words_of ws

-- The alternatives of `_AUTHORITY`
unfoldable pub authority_words : List (List Part)
unfolding word words_of
authority_words =
    word "do" (spaces ∷ word "not" [])
    ∷ word "may" (spaces ∷ word "not" [])
    ∷ word "api" (joint ∷ word "key" [])
    ∷ word "tool" (joint ∷ word "call" [])
    ∷ words_of (
        "must" ∷ "shall" ∷ "never" ∷ "always" ∷ "only" ∷ "unless" ∷ "cannot" ∷ "avoid" ∷ "prefer"
        ∷ "preserve" ∷ "retain" ∷ "required" ∷ "requirement" ∷ "constraint" ∷ "instruction"
        ∷ "policy" ∷ "policies" ∷ "system" ∷ "developer" ∷ "override" ∷ "ignore" ∷ "execute"
        ∷ "sudo" ∷ "password" ∷ "secret" ∷ "credential" ∷ "verbatim" ∷ "exactly" ∷ "quotation"
        ∷ "don't" ∷ [])

-- re.search(r"[0-9`\"“”‘’]", s)
unfoldable pub is_exact_char : Char → Bool
is_exact_char c =
    let n = code c in
    (leb 48 n && leb n 57) || n == 96 || n == 34 || n == 8220 || n == 8221 || n == 8216 || n == 8217

unfoldable pub any_char : (Char → Bool) → String → Bool
any_char test Chars.[] = false
any_char test (Chars.◌∷◌ c s) = test c || any_char test s

-- One of the beginnings of a line of code
unfoldable pub opens_code : String → Bool
opens_code s = any (starts_with s) ("def " ∷ "class " ∷ "import " ∷ "#" ∷ "<" ∷ [])

-- re.search(r"(?:^|\n)\s*(?:def |class |import |#|<)", s), where `start` says that only blanks stand before
-- this point since the start of the text or a line
unfoldable pub has_code_line : Bool → String → Bool
unfolding is_space
has_code_line start Chars.[] = false
has_code_line start (Chars.◌∷◌ c s) =
    (start && opens_code (Chars.◌∷◌ c s)) || has_code_line (code c == 10 || (start && is_space c)) s

-- [0-9a-f]
unfoldable pub is_hex : Char → Bool
is_hex c = let n = code c in (leb 48 n && leb n 57) || (leb 97 n && leb n 102)

-- The parameters: `\w`; whether a letter of a pattern matches a character, in either case; and `str.lower`.
module _ (is_word : Char → Bool) (same_letter : Char → Char → Bool) (lower : String → String) where
  -- `\b` after a word character
  unfoldable pub ends_word : String → Bool
  ends_word Chars.[] = true
  ends_word (Chars.◌∷◌ c s) = not (is_word c)

  -- A pattern at the start of a text, followed by `\b`; `blank` says that one blank of `\s+` is read
  unfoldable pub matches_parts : Bool → List Part → String → Bool
  unfolding is_space
  matches_parts blank [] s = ends_word s
  matches_parts blank (letter p ∷ ps) Chars.[] = false
  matches_parts blank (letter p ∷ ps) (Chars.◌∷◌ c s) = same_letter p c && matches_parts false ps s
  matches_parts blank (spaces ∷ ps) Chars.[] = false
  matches_parts blank (spaces ∷ ps) (Chars.◌∷◌ c s) =
      (is_space c && matches_parts true (spaces ∷ ps) s)
      || (blank && matches_parts false ps (Chars.◌∷◌ c s))
  matches_parts blank (joint ∷ ps) Chars.[] = matches_parts false ps Chars.[]
  matches_parts blank (joint ∷ ps) (Chars.◌∷◌ c s) =
      matches_parts false ps (Chars.◌∷◌ c s)
      || ((code c == 95 || code c == 32 || code c == 45) && matches_parts false ps s)

  -- re.search of `\b` and one of the patterns, where `inside` says that the character before is a word
  -- character
  unfoldable pub has_words : List (List Part) → Bool → String → Bool
  has_words patterns inside Chars.[] = false
  has_words patterns inside (Chars.◌∷◌ c s) =
      (not inside && any (λ w. matches_parts false w (Chars.◌∷◌ c s)) patterns)
      || has_words patterns (is_word c) s

  -- [0-9a-f]{32,64}\b, with the hexadecimal digits that are read
  unfoldable pub hex_run : ℕ → String → Bool
  hex_run n Chars.[] = leb 32 n && leb n 64
  hex_run n (Chars.◌∷◌ c s) =
      if is_hex c then hex_run (suc n) s else leb 32 n && leb n 64 && not (is_word c)

  -- a_[0-9a-f]{32,64}\b
  unfoldable pub is_artifact_id : String → Bool
  is_artifact_id Chars.[] = false
  is_artifact_id (Chars.◌∷◌ c Chars.[]) = false
  is_artifact_id (Chars.◌∷◌ c (Chars.◌∷◌ d s)) = code c == 97 && code d == 95 && hex_run 0 s

  unfoldable pub has_artifact_id : Bool → String → Bool
  has_artifact_id inside Chars.[] = false
  has_artifact_id inside (Chars.◌∷◌ c s) =
      (not inside && is_artifact_id (Chars.◌∷◌ c s)) || has_artifact_id (is_word c) s

  -- `_RECEIPT.search`
  unfoldable pub has_receipt : String → Bool
  has_receipt s = contains "TTIR/1" s || contains "[Token Terminator" s || has_artifact_id false s

  -- `authority_text`
  unfoldable pub authority_text : String → Bool
  authority_text s = has_words authority_words false s || has_receipt s || contains "```" s

  -- [^'\n]+'(?!\w), with whether one character is read
  unfoldable pub closes_quote : Bool → String → Bool
  closes_quote some_read Chars.[] = false
  closes_quote some_read (Chars.◌∷◌ c s) =
      let later = closes_quote true s in
      if code c == 39 then some_read && ends_word s else if code c == 10 then false else later

  -- re.search(r"(?<!\w)'[^'\n]+'(?!\w)", s)
  unfoldable pub has_quotation : Bool → String → Bool
  has_quotation inside Chars.[] = false
  has_quotation inside (Chars.◌∷◌ c s) =
      (not inside && (code c == 39 && closes_quote false s)) || has_quotation (is_word c) s

  -- `protected_prose`
  unfoldable pub protected_prose : String → Bool
  protected_prose s =
      authority_text s
      || any_char is_exact_char s
      || has_code_line true s
      || has_quotation false s
      || contains "<memory-context>" (lower s)
