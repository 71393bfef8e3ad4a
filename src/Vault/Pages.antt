-- ===== src/Vault/Pages.antt =====
-- `read_artifact` (storage.py), and that its pages, read one after another, are the whole content.
use token_terminator.Common.{
  ℕ, zero, suc, ◌+◌, ◌-◌, ◌≤◌, ◌<◌, min, String, ◌+++◌, count, ◌≡◌, true, Option, none, some, arith,
  ltb, if◌then◌else◌, take, drop, count-take, count-drop, take-append-drop, drop-drop, take_all,
  Result, ok, raise, value_error, ◌>>=◌, ◌>>◌, raise_if, Bool-cases, inl, inr, ltb→lt, ltb→le,
  Option-cases, subst,
}
use token_terminator.Vault.Tables.{Artifact, Vault, by_id}
use token_terminator.Vault.Put.{Limits, get_artifact, is_intact}

pub record Page : Type 0 where
  pub artifact_id : String
  pub content : String
  pub offset : ℕ
  pub next_offset : Option ℕ
  pub total_chars : ℕ
  pub sha256 : String
  pub tool_name : String

abbrev pub page_of : Artifact → ℕ → ℕ → Page
page_of r offset limit =
    let content = take limit (drop offset r.content) in
    let next = offset + count content in
    record {
      artifact_id = r.artifact_id;
      content = content;
      offset = offset;
      next_offset = if ltb next r.char_count then some next else none;
      total_chars = r.char_count;
      sha256 = r.sha256;
      tool_name = r.tool_name;
    }

module _ (digest : String → String) (lim : Limits) (id : String) (v : Vault) where
  -- The offset and the limit are zero or more; a negative one raises the same `ValueError`.
  unfoldable pub read_artifact : ℕ → ℕ → Result Page
  read_artifact offset limit = do
    raise_if (ltb limit 1) value_error
    artifact ← get_artifact digest id v
    ok (page_of artifact offset (min limit lim.max_page_chars))

  -- A reader that follows `next_offset`, for at most `fuel` pages.
  unfoldable pub read_pages : ℕ → ℕ → ℕ → Result String
  read_pages zero offset limit = raise value_error
  read_pages (suc fuel) offset limit = do
    page ← read_artifact offset limit
    let rest = λ (next : ℕ). read_pages fuel next limit
    elim page.next_offset [
      | none ↦ ok page.content
      | some next ↦ rest next >>= λ tail. ok (page.content +++ tail)
    ]

is_intact-chars :
    (digest : String → String) (id : String) (r : Artifact)
    → is_intact digest id r ≡ true
    → count r.content ≡ r.char_count
unfolding is_intact
is_intact-chars digest id r h = ground arith

get_artifact-chars :
    (digest : String → String) (id : String) (v : Vault) (r : Artifact)
    → get_artifact digest id v ≡ ok r
    → count r.content ≡ r.char_count
unfolding get_artifact
get_artifact-chars digest id v r h = elim (Option-cases (by_id id v.artifacts)) [
  | inl absent ↦ absurd (ground arith)
  | inr (s, found) ↦ elim (Bool-cases (is_intact digest id s)) [
    | inl intact ↦
        let e : s ≡ r = ground arith in
        subst (λ (x : Artifact). count x.content ≡ x.char_count) e
          (is_intact-chars digest id s intact)
    | inr broken ↦ absurd (ground arith)
  ]
]

-- Where the page is not the last, what follows it is the rest of the content.
split_page :
    (n o : ℕ) (s : String) → take n (drop o s) +++ drop (o + count (take n (drop o s))) s ≡ drop o s
split_page n o s = elim (Bool-cases (ltb (count s - o) n)) [
  | inl last ↦ rw (take_all n (drop o s) (omega (arith, ltb→lt _ _ last, count-drop o s))) (
      rw (← drop-drop (count (drop o s)) o s) (
        rw (take_all (count (drop o s)) (drop o s) (omega arith)) at
          (take-append-drop (count (drop o s)) (drop o s))))
  | inr more ↦
      let whole : count (take n (drop o s)) ≡ n =
        omega (arith, ltb→le _ _ more, count-drop o s, count-take n (drop o s)) in
      rw whole (rw (← drop-drop n o s) (take-append-drop n (drop o s)))
]

module _ (digest : String → String) (lim : Limits) (id : String) (v : Vault) (r : Artifact)
    (found : get_artifact digest id v ≡ ok r) (paged : 1 ≤ lim.max_page_chars) where
  -- Pages of any positive size, read from any offset by following `next_offset`, put together are
  -- exactly the content from that offset on; the reader needs no more pages than there are characters
  -- left, and one.
  pub read_pages-content :
      (fuel offset limit : ℕ)
      → 1 ≤ limit
      → offset ≤ count r.content
      → count r.content < offset + fuel
      → read_pages digest lim id v fuel offset limit ≡ ok (drop offset r.content)
  unfolding read_pages read_artifact
  read_pages-content zero offset limit positive start enough = absurd (omega arith)
  read_pages-content (suc fuel) offset limit positive start enough =
      let size = min limit lim.max_page_chars in
      let page = take size (drop offset r.content) in
      let chars = get_artifact-chars digest id v r found in
      let sizes : count page ≡ min size (count r.content - offset) =
        omega (arith, count-take size (drop offset r.content), count-drop offset r.content) in
      elim (Bool-cases (ltb limit 1)) [
        | inl none_left ↦ absurd (omega (arith, ltb→lt _ _ none_left))
        | inr some_left ↦ elim (Bool-cases (ltb (offset + count page) r.char_count)) [
          | inl more ↦
              rw (some_left, found, more)
                (rw
                  (read_pages-content fuel (offset + count page) limit positive
                    (omega (arith, ltb→lt _ _ more, chars))
                    (omega (arith, ltb→lt _ _ more, chars, sizes)))
                  (rw (split_page size offset r.content)))
          | inr last ↦
              rw (some_left, found, last)
                (rw (
                  take_all size (drop offset r.content)
                    (omega (arith, ltb→le _ _ last, chars, sizes, count-drop offset r.content))))
        ]
      ]
