-- ===== src/Views/Find.antt =====
-- `artifact_find` (recovery_views.py), which looks for a text in the lines of one artifact.
use token_terminator.Common.{
  ℕ, zero, suc, ◌+◌, String, Bool, List, [], ◌∷◌, ◌++◌, length, ltb, min, max, if◌then◌else◌,
  str_eq, strip, splitlines, Result, ok, value_error, ◌>>=◌, ◌>>◌, raise_if,
}
use token_terminator.Vault.Tables.{Vault}
use token_terminator.Vault.Put.{get_artifact}
use token_terminator.Guards.Patterns.{contains}
use token_terminator.Views.Clip.{clip}

-- xs[:n]
abbrev pub first_of {ℓ} : {A : Type ℓ} → ℕ → List A → List A
first_of zero xs = []
first_of (suc n) [] = []
first_of (suc n) (x ∷ xs) = x ∷ first_of n xs

pub record Hit : Type 0 where
  pub line : ℕ
  pub text : String

-- The variables of the loop over the lines
pub record Finding : Type 0 where
  pub hits : List Hit
  pub total_matches : ℕ

pub record Found : Type 0 where
  pub artifact_id : String
  pub query : String
  pub matches : List Hit
  pub total_matches : ℕ
  pub truncated : Bool

-- The parameters: hashlib's digest and `str.lower`.
module _ (digest : String → String) (lower : String → String) where
  -- One line, by its number
  unfoldable pub find_line : String → ℕ → ℕ → String → Finding → Finding
  find_line needle max_hits number line f =
      if contains needle (lower line)
      then record {
        hits =
            if ltb (length f.hits) max_hits
            then f.hits ++ record { line = number; text = clip line 1000 } ∷ []
            else f.hits;
        total_matches = f.total_matches + 1;
      }
      else f

  -- for line_number, line in enumerate(lines, start=number)
  unfoldable pub find_lines : String → ℕ → ℕ → List String → Finding → Finding
  find_lines needle max_hits number [] f = f
  find_lines needle max_hits number (l ∷ ls) f =
      find_lines needle max_hits (suc number) ls (find_line needle max_hits number l f)

  abbrev pub needle_of : String → String
  needle_of query = lower (strip query)

  -- `artifact_find`, on a limit of zero or more (a negative one acts as zero)
  unfoldable pub artifact_find : String → String → ℕ → Vault → Result Found
  artifact_find artifact_id query limit v = do
    raise_if (str_eq (needle_of query) "") value_error
    artifact ← get_artifact digest artifact_id v
    ok (
        let found =
          find_lines (needle_of query) (max 1 (min limit 100)) 1 (splitlines artifact.content)
            (record { hits = []; total_matches = 0 }) in
        record {
          artifact_id = artifact_id;
          query = query;
          matches = found.hits;
          total_matches = found.total_matches;
          truncated = ltb (length found.hits) found.total_matches;
        })
