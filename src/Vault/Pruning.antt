-- ===== src/Vault/Pruning.antt =====
-- The loop of `_prune_for_insert` (storage.py), and its invariant.
use token_terminator.Common.{
  ℕ, ◌+◌, ◌≤◌, String, ◌≡◌, refl, Bool, true, false, List, [], ◌∷◌, arith, if◌then◌else◌, filter,
  any, eq_iff, All, Bool-cases, inl, inr, ◌⊎◌, leb, leb→le,
}
use token_terminator.Vault.Tables.{
  Artifact, Vault, by_id, is_pinned, delete_artifact, names_artifact,
}
use token_terminator.Vault.Put.{Pruning, evict, prune_loop}
use token_terminator.Vault.Rows.{
  bytes, IsKeyed, Holds, bytes-without, without-IsKeyed, by_id-without, byte_count-le-bytes,
  All-Holds-without,
}

-- The rows are keyed, and `vault_meta` counts their bytes.
pub record IsAccounted (v : Vault) : Type 0 where
  pub keyed : IsKeyed v.artifacts
  pub counted : v.total_artifact_bytes ≡ bytes v.artifacts

-- The invariant of the eviction loop that began at `v`.
pub record IsPruning (v : Vault) (p : Pruning) : Type 0 where
  pub keyed : IsKeyed p.vault.artifacts
  pub current : p.current_bytes ≡ bytes p.vault.artifacts
  pub conserved : p.current_bytes + p.removed_bytes ≡ bytes v.artifacts
  pub untouched : p.removed_artifacts ≡ 0 → p.removed_bytes ≡ 0
  pub total : p.vault.total_artifact_bytes ≡ v.total_artifact_bytes
  pub booked : p.vault.pruned_bytes ≡ v.pruned_bytes
  pub exposures : p.vault.exposures ≡ v.exposures
  pub snapshots : p.vault.snapshots ≡ v.snapshots
  pub pinned :
      (id : String) → is_pinned v id ≡ true → by_id id p.vault.artifacts ≡ by_id id v.artifacts

filter_none {ℓ} :
    {A : Type ℓ} (test : A → Bool) (xs : List A)
    → any test xs ≡ false
    → filter (λ x. if test x then false else true) xs ≡ xs
filter_none test [] h = refl
filter_none test (x ∷ xs) h = ground (arith, filter_none test xs)

abbrev pub IsUnpinned : Vault → Artifact → Type 0
IsUnpinned v r = is_pinned v r.artifact_id ≡ false

no_exposures :
    (v : Vault) (id : String) → is_pinned v id ≡ false → any (names_artifact id) v.exposures ≡ false
unfolding is_pinned
no_exposures v id h = ground arith

module _ (v : Vault) where
  evict-exposures :
      (r : Artifact) (p : Pruning)
      → IsUnpinned v r
      → p.vault.exposures ≡ v.exposures
      → (evict r p).vault.exposures ≡ v.exposures
  unfolding evict delete_artifact
  evict-exposures r p free same =
      rw same
        (filter_none (names_artifact r.artifact_id) v.exposures (no_exposures v r.artifact_id free))

  evict-pinned :
      (r : Artifact) (p : Pruning)
      → IsUnpinned v r
      → (id : String) → is_pinned v id ≡ true
      → by_id id p.vault.artifacts ≡ by_id id v.artifacts
      → by_id id (evict r p).vault.artifacts ≡ by_id id v.artifacts
  unfolding evict delete_artifact
  evict-pinned r p free id held same =
      ground (arith, by_id-without r.artifact_id id p.vault.artifacts, eq_iff r.artifact_id id)

  evict-IsPruning :
      (r : Artifact) (p : Pruning)
      → IsUnpinned v r
      → Holds p.vault.artifacts r
      → IsPruning v p
      → IsPruning v (evict r p)
  evict-IsPruning r p free holds inv = record {
    keyed =
        unfold evict delete_artifact in without-IsKeyed r.artifact_id p.vault.artifacts inv.keyed;
    current =
        unfold evict delete_artifact in
        omega (arith, inv.current, bytes-without r p.vault.artifacts inv.keyed holds);
    conserved =
        unfold evict in
        omega (arith, inv.current, inv.conserved, byte_count-le-bytes r p.vault.artifacts holds);
    untouched = unfold evict in λ h. absurd (omega arith);
    total = unfold evict delete_artifact in inv.total;
    booked = unfold evict delete_artifact in inv.booked;
    exposures = evict-exposures r p free inv.exposures;
    snapshots = unfold evict delete_artifact in inv.snapshots;
    pinned = λ id held. evict-pinned r p free id held (inv.pinned id held);
  }

  pub prune_loop-IsPruning :
      (target : ℕ) (rs : List Artifact) (p : Pruning)
      → IsKeyed rs
      → All (IsUnpinned v) rs
      → All (Holds p.vault.artifacts) rs
      → IsPruning v p
      → IsPruning v (prune_loop target rs p)
  unfolding prune_loop evict delete_artifact
  prune_loop-IsPruning target [] p keyed free holds inv = inv
  prune_loop-IsPruning target (r ∷ rs) p keyed free holds inv =
      let later : IsPruning v (prune_loop target rs (evict r p)) =
        prune_loop-IsPruning target rs (evict r p) keyed.1 free.1
          (All-Holds-without r.artifact_id p.vault.artifacts rs keyed.0 holds.1)
          (evict-IsPruning r p free.0 holds.0 inv) in
      elim (Bool-cases (leb p.current_bytes target)) [
        | inl met ↦ rw met inv
        | inr more ↦ rw more later
      ]

  -- The loop ends at its target, or has evicted every row that it was given.
  pub prune_loop_ends :
      (target : ℕ) (rs : List Artifact) (p : Pruning)
      → IsKeyed rs
      → All (IsUnpinned v) rs
      → All (Holds p.vault.artifacts) rs
      → IsPruning v p
      → ((prune_loop target rs p).current_bytes ≤ target)
        ⊎ ((prune_loop target rs p).current_bytes + bytes rs ≡ p.current_bytes)
  unfolding prune_loop evict delete_artifact
  prune_loop_ends target [] p keyed free holds inv = inr (omega arith)
  prune_loop_ends target (r ∷ rs) p keyed free holds inv =
      let later =
        prune_loop_ends target rs (evict r p) keyed.1 free.1
          (All-Holds-without r.artifact_id p.vault.artifacts rs keyed.0 holds.1)
          (evict-IsPruning r p free.0 holds.0 inv) in
      elim (Bool-cases (leb p.current_bytes target)) [
        | inl met ↦ rw met (inl (leb→le _ _ met))
        | inr more ↦
            rw more
              (omega (arith, later, byte_count-le-bytes r p.vault.artifacts holds.0, inv.current))
      ]
