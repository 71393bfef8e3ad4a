-- ===== src/Views/Search.antt =====
-- A search (recovery_views.py) reports exactly the lines that match, in their order, up to its limit.
use mathlib.Core.List.{append-nil, append_assoc}
use token_terminator.Common.{
  ℕ, zero, suc, ltb→lt, ltb→le, ◌+◌, ◌-◌, String, ◌≡◌, refl, true, false, List, [], ◌∷◌, ◌++◌,
  arith, length, length-append, ltb, min, max, if◌then◌else◌, str_eq, splitlines, ok, Bool-cases,
  inl, inr, ap, ◌∙◌,
}
use token_terminator.Vault.Tables.{Artifact, Vault}
use token_terminator.Vault.Put.{get_artifact}
use token_terminator.Guards.Patterns.{contains}
use token_terminator.Views.Clip.{clip}
use token_terminator.Views.Find.{
  first_of, Hit, Finding, find_line, find_lines, needle_of, artifact_find,
}

first_of-nil {ℓ} : {A : Type ℓ} (n : ℕ) → first_of {A = A} n [] ≡ []
first_of-nil zero = refl
first_of-nil (suc n) = refl

length-first_of {ℓ} :
    {A : Type ℓ} (n : ℕ) (xs : List A) → length (first_of n xs) ≡ min n (length xs)
length-first_of zero xs = omega arith
length-first_of (suc n) [] = omega arith
length-first_of (suc n) (x ∷ xs) = omega (arith, length-first_of n xs)

module _ (digest : String → String) (lower : String → String) where
  -- Every line that contains the needle, clipped, with its number
  abbrev pub all_hits : String → ℕ → List String → List Hit
  all_hits needle number [] = []
  all_hits needle number (l ∷ ls) =
      if contains needle (lower l)
      then record { line = number; text = clip l 1000 } ∷ all_hits needle (suc number) ls
      else all_hits needle (suc number) ls

  abbrev hit_of : ℕ → String → Hit
  hit_of number l = record { line = number; text = clip l 1000 }

  find_line-hit :
      (needle : String) (max_hits number : ℕ) (l : String) (f : Finding)
      → contains needle (lower l) ≡ true
      → ltb (length f.hits) max_hits ≡ true
      → find_line digest lower needle max_hits number l f
        ≡ record { hits = f.hits ++ hit_of number l ∷ []; total_matches = f.total_matches + 1 }
  unfolding find_line
  find_line-hit needle max_hits number l f hit room = simp (hit, room)

  find_line-full :
      (needle : String) (max_hits number : ℕ) (l : String) (f : Finding)
      → contains needle (lower l) ≡ true
      → ltb (length f.hits) max_hits ≡ false
      → find_line digest lower needle max_hits number l f
        ≡ record f { total_matches = f.total_matches + 1 }
  unfolding find_line
  find_line-full needle max_hits number l f hit full = simp (hit, full)

  find_line-miss :
      (needle : String) (max_hits number : ℕ) (l : String) (f : Finding)
      → contains needle (lower l) ≡ false
      → find_line digest lower needle max_hits number l f ≡ f
  unfolding find_line
  find_line-miss needle max_hits number l f miss = simp miss

  Finding_eq :
      (hs ks : List Hit) (m n : ℕ)
      → hs ≡ ks
      → m ≡ n
      → ◌≡◌ {A = Finding}
          (record { hits = hs; total_matches = m })
          (record { hits = ks; total_matches = n })
  Finding_eq hs ks m n p q = cc

  -- The loop, from what it has found: it adds all the matches that there is room for, and counts all.
  find_lines-Finding :
      (needle : String) (max_hits number : ℕ) (ls : List String) (f : Finding)
      → find_lines digest lower needle max_hits number ls f ≡ record {
        hits = f.hits ++ first_of (max_hits - length f.hits) (all_hits needle number ls);
        total_matches = f.total_matches + length (all_hits needle number ls);
      }
  unfolding find_lines
  find_lines-Finding needle max_hits number [] f =
      Finding_eq _ _ _ _ (rw (first_of-nil {A = Hit} (max_hits - length f.hits), append-nil) refl)
        (omega arith)
  find_lines-Finding needle max_hits number (l ∷ ls) f =
      elim (Bool-cases (contains needle (lower l))) [
        | inr miss ↦
            rw (miss, find_line-miss needle max_hits number l f miss)
              (find_lines-Finding needle max_hits (suc number) ls f)
        | inl hit ↦ elim (Bool-cases (ltb (length f.hits) max_hits)) [
          | inr full ↦
              let none_left : max_hits - length f.hits ≡ 0 = omega (arith, ltb→le _ _ full) in
              let rest = all_hits needle (suc number) ls in
              rw (hit, find_line-full needle max_hits number l f hit full)
                (find_lines-Finding needle max_hits (suc number) ls
                    (record f { total_matches = f.total_matches + 1 })
                  ∙ Finding_eq _ _ _ _ (rw none_left refl) (omega arith))
          | inl room ↦
              let more = f.hits ++ hit_of number l ∷ [] in
              let rest = all_hits needle (suc number) ls in
              let left : max_hits - length f.hits ≡ suc (max_hits - length more) = omega (
                arith,
                ltb→lt _ _ room,
                length-append {0} {A = Hit} f.hits (hit_of number l ∷ []),
              ) in
              rw (hit, find_line-hit needle max_hits number l f hit room)
                (find_lines-Finding needle max_hits (suc number) ls
                    (record { hits = more; total_matches = f.total_matches + 1 })
                  ∙ Finding_eq _ _ _ _
                      (rw left (
                        append_assoc f.hits (hit_of number l ∷ [])
                          (first_of (max_hits - length more) rest)))
                      (omega arith))
        ]
      ]

  -- A search is the plain one: where the query is not blank and the artifact can be read, the report has all
  -- the lines of its content that contain the query in any case, clipped, with their numbers and in their
  -- order, up to the limit; it counts all of them, and says whether some are left out.
  pub artifact_find-all_hits :
      (id query : String) (limit : ℕ) (v : Vault) (artifact : Artifact)
      → str_eq (needle_of digest lower query) "" ≡ false
      → get_artifact digest id v ≡ ok artifact
      → artifact_find digest lower id query limit v ≡ (
          let all = all_hits (needle_of digest lower query) 1 (splitlines artifact.content) in
          ok (record {
            artifact_id = id;
            query = query;
            matches = first_of (max 1 (min limit 100)) all;
            total_matches = length all;
            truncated = ltb (max 1 (min limit 100)) (length all);
          }))
  unfolding artifact_find
  artifact_find-all_hits id query limit v artifact asked read =
      let needle = needle_of digest lower query in
      let most = max 1 (min limit 100) in
      let lines = splitlines artifact.content in
      let every = all_hits needle 1 lines in
      let start : Finding = record { hits = []; total_matches = 0 } in
      let whole : most - 0 ≡ most = omega arith in
      let found : find_lines digest lower needle most 1 lines start
          ≡ record { hits = first_of most every; total_matches = length every } =
        find_lines-Finding needle most 1 lines start
        ∙ Finding_eq _ _ _ _ (ap (λ (n : ℕ). first_of n every) whole) (omega arith) in
      let cut : ltb (length (first_of most every)) (length every) ≡ ltb most (length every) =
        ground (arith, length-first_of most every) in
      simp (asked, read, found, cut)
