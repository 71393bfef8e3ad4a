-- ===== src/Vault/Reads.antt =====
-- What a successful `get_artifact` says of the vault that it read.
use token_terminator.Common.{
  true, subst, String, ◌≡◌, some, List, [], ◌∷◌, arith, str_eq, eq_iff, ok, Bool-cases,
  Option-cases, inl, inr, ap, sym, ◌∙◌,
}
use token_terminator.Vault.Tables.{Artifact, Vault, by_id, is_pinned}
use token_terminator.Vault.Put.{get_artifact}

by_id-named :
    (id : String) (r : Artifact) (rs : List Artifact) → by_id id rs ≡ some r → r.artifact_id ≡ id
unfolding by_id
by_id-named id r [] found = absurd (ground arith)
by_id-named id r (s ∷ rs) found = elim (Bool-cases (str_eq s.artifact_id id)) [
  | inl here ↦
      let e : s ≡ r = ground arith in
      ap (λ (x : Artifact). x.artifact_id) (sym e) ∙ (eq_iff s.artifact_id id).0 here
  | inr later ↦ by_id-named id r rs (ground arith)
]

module _ (digest : String → String) (id : String) where
  pub get_artifact-row :
      (v : Vault) (r : Artifact) → get_artifact digest id v ≡ ok r → by_id id v.artifacts ≡ some r
  unfolding get_artifact
  get_artifact-row v r h = elim (Option-cases (by_id id v.artifacts)) [
    | inl absent ↦ absurd (ground arith)
    | inr (s, found) ↦ ground arith
  ]

  -- The row that is returned has the id that was asked for.
  pub get_artifact-named :
      (v : Vault) (r : Artifact) → get_artifact digest id v ≡ ok r → r.artifact_id ≡ id
  get_artifact-named v r h = by_id-named id r v.artifacts (get_artifact-row v r h)

  -- A read depends on the row of its id alone.
  pub get_artifact-same :
      (v w : Vault)
      → by_id id w.artifacts ≡ by_id id v.artifacts
      → get_artifact digest id w ≡ get_artifact digest id v
  unfolding get_artifact
  get_artifact-same v w same = rw (same, get_artifact)

-- The exact content is read back, and is pinned against eviction.
pub record IsBacked (digest : String → String) (content : String) (v : Vault) : Type 0 where
  pub artifact : Artifact
  pub read : get_artifact digest artifact.artifact_id v ≡ ok artifact
  pub exact : artifact.content ≡ content
  pub pinned : is_pinned v artifact.artifact_id ≡ true

-- What one vault reads back, another that has the same artifacts and pins the id backs.
pub back_up :
    (digest : String → String) (content id : String) (v w : Vault) (r : Artifact)
    → get_artifact digest id v ≡ ok r
    → r.content ≡ content
    → w.artifacts ≡ v.artifacts
    → is_pinned w id ≡ true
    → (b : IsBacked digest content w) × (b.artifact.artifact_id ≡ id)
back_up digest content id v w r read exact same pinned =
    let named = get_artifact-named digest id v r read in
    (
      record {
        artifact = r;
        read =
            subst (λ x. get_artifact digest x w ≡ ok r) (sym named)
              (get_artifact-same digest id v w (ap (by_id id) same) ∙ read);
        exact = exact;
        pinned = subst (λ x. is_pinned w x ≡ true) (sym named) pinned;
      },
      named,
    )
