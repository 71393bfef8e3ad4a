-- ===== src/Vault/Eviction.antt =====
-- What `_prune_for_insert` may do to the vault: it evicts unpinned artifacts only, oldest first,
-- keeps the byte count exact, and stops at its target unless everything left is pinned.
use token_terminator.Common.{
  ℕ, ◌+◌, ◌-◌, ◌*◌, ◌/◌, ◌≤◌, max, String, ◌≡◌, refl, true, false, List, [], ◌∷◌, arith,
  if◌then◌else◌, filter, All, All-filter, Bool-cases, inl, inr, ◌⊎◌, leb, leb→le, ◌==◌, ==→eq, ◌<◌,
}
use token_terminator.Vault.Tables.{
  Artifact, Observation, Vault, by_id, without, observes, is_pinned, delete_artifact,
}
use token_terminator.Vault.Put.{
  Limits, Pruning, evict, prune_loop, candidates, book_pruning, prune_for_insert,
}
use token_terminator.Vault.Rows.{
  bytes, IsKeyed, Holds, IsKeyed-Holds, filter-IsKeyed, sort-IsKeyed, All-sort, bytes-sort,
}
use token_terminator.Vault.Pruning.{
  IsAccounted, IsPruning, IsUnpinned, prune_loop-IsPruning, prune_loop_ends,
}

-- The rows that a snapshot or an exposure names.
abbrev pub pinned_rows : Vault → List Artifact
pinned_rows v = filter (λ r. is_pinned v r.artifact_id) v.artifacts

abbrev free_rows : Vault → List Artifact → List Artifact
free_rows v = filter (λ r. if is_pinned v r.artifact_id then false else true)

free_rows-IsUnpinned : (v : Vault) (rs : List Artifact) → All (IsUnpinned v) (free_rows v rs)
free_rows-IsUnpinned v [] = tt
free_rows-IsUnpinned v (r ∷ rs) = ground (arith, free_rows-IsUnpinned v rs)

bytes_split :
    (v : Vault) (rs : List Artifact)
    → bytes (free_rows v rs) + bytes (filter (λ r. is_pinned v r.artifact_id) rs) ≡ bytes rs
bytes_split v [] = omega arith
bytes_split v (r ∷ rs) = ground (arith, bytes_split v rs)

module _ (v : Vault) (accounted : IsAccounted v) where
  abbrev start : Pruning
  start = record {
    vault = v;
    current_bytes = v.total_artifact_bytes;
    removed_artifacts = 0;
    removed_bytes = 0;
  }

  start-IsPruning : IsPruning v start
  start-IsPruning = record {
    keyed = accounted.keyed;
    current = accounted.counted;
    conserved = omega (arith, accounted.counted);
    untouched = λ _. refl;
    total = refl;
    booked = refl;
    exposures = refl;
    snapshots = refl;
    pinned = λ _ _. refl;
  }

  candidates-IsKeyed : IsKeyed (candidates v)
  unfolding candidates
  candidates-IsKeyed =
      sort-IsKeyed v (free_rows v v.artifacts) (filter-IsKeyed _ v.artifacts accounted.keyed)

  candidates-IsUnpinned : All (IsUnpinned v) (candidates v)
  unfolding candidates
  candidates-IsUnpinned =
      All-sort v (IsUnpinned v) (free_rows v v.artifacts) (free_rows-IsUnpinned v v.artifacts)

  candidates-Holds : All (Holds v.artifacts) (candidates v)
  unfolding candidates
  candidates-Holds =
      All-sort v (Holds v.artifacts) (free_rows v v.artifacts)
        (All-filter (Holds v.artifacts) _ v.artifacts (IsKeyed-Holds v.artifacts accounted.keyed))

  bytes-candidates : bytes (candidates v) + bytes (pinned_rows v) ≡ v.total_artifact_bytes
  unfolding candidates
  bytes-candidates =
      omega (
        arith,
        bytes-sort v (free_rows v v.artifacts),
        bytes_split v v.artifacts,
        accounted.counted,
      )

  pruned-IsPruning : (target : ℕ) → IsPruning v (prune_loop target (candidates v) start)
  pruned-IsPruning target =
      prune_loop-IsPruning v target (candidates v) start candidates-IsKeyed candidates-IsUnpinned
        candidates-Holds start-IsPruning

  pruned_ends :
      (target : ℕ)
      → ((prune_loop target (candidates v) start).current_bytes ≤ target)
        ⊎ ((prune_loop target (candidates v) start).current_bytes ≡ bytes (pinned_rows v))
  pruned_ends target = omega (
    arith,
    bytes-candidates,
    prune_loop_ends v target (candidates v) start candidates-IsKeyed candidates-IsUnpinned
        candidates-Holds start-IsPruning,
  )

-- What an eviction run that began at `v` leaves: `current` bytes in `w`.
pub record IsPruned (v : Vault) (current : ℕ) (w : Vault) : Type 0 where
  pub keyed : IsKeyed w.artifacts
  pub total : w.total_artifact_bytes ≡ current
  pub counted : current ≡ bytes w.artifacts
  pub conserved : current + w.pruned_bytes ≡ bytes v.artifacts + v.pruned_bytes
  pub exposures : w.exposures ≡ v.exposures
  pub snapshots : w.snapshots ≡ v.snapshots
  pub pinned : (id : String) → is_pinned v id ≡ true → by_id id w.artifacts ≡ by_id id v.artifacts

book_pruning-IsPruned :
    (v : Vault) (p : Pruning)
    → IsAccounted v
    → IsPruning v p
    → IsPruned v p.current_bytes (book_pruning p)
unfolding book_pruning
book_pruning-IsPruned v p accounted inv = elim (Bool-cases (p.removed_artifacts == 0)) [
  | inl idle ↦ rw idle (record {
    keyed = inv.keyed;
    total =
        omega (arith, inv.total, inv.conserved, accounted.counted, inv.untouched (==→eq _ _ idle));
    counted = inv.current;
    conserved = omega (arith, inv.conserved, inv.booked, inv.untouched (==→eq _ _ idle));
    exposures = inv.exposures;
    snapshots = inv.snapshots;
    pinned = inv.pinned;
  })
  | inr busy ↦ rw busy (record {
    keyed = inv.keyed;
    total = refl;
    counted = inv.current;
    conserved = omega (arith, inv.conserved, inv.booked);
    exposures = inv.exposures;
    snapshots = inv.snapshots;
    pinned = inv.pinned;
  })
]

-- Eviction keeps the pinned artifacts, the exposures and the snapshots, and accounts for each byte.
pub prune_for_insert-IsPruned :
    (lim : Limits) (incoming : ℕ) (v : Vault)
    → IsAccounted v
    → let (current, w) = prune_for_insert lim v.total_artifact_bytes incoming v in
      IsPruned v current w
unfolding prune_for_insert
prune_for_insert-IsPruned lim incoming v accounted =
    elim (Bool-cases (
      leb (v.total_artifact_bytes + incoming)
        (max 1 (lim.max_vault_bytes * lim.high_water_pct / 100)))) [
          | inl room ↦ rw room (record {
            keyed = accounted.keyed;
            total = refl;
            counted = accounted.counted;
            conserved = omega (arith, accounted.counted);
            exposures = refl;
            snapshots = refl;
            pinned = λ _ _. refl;
          })
          | inr full ↦
              rw full (book_pruning-IsPruned v _ accounted (pruned-IsPruning v accounted _))
        ]

-- What `__init__` guarantees of the limits.
pub record IsBounded (lim : Limits) : Type 0 where
  pub some_bytes : 1 ≤ lim.max_vault_bytes
  pub high : lim.high_water_pct ≤ 100
  pub low : lim.low_water_pct < lim.high_water_pct

pct_le : (n pct : ℕ) → pct ≤ 100 → n * pct / 100 ≤ n
pct_le n pct h = grind arith

-- After eviction an artifact lacks room only if it exceeds the capacity by itself, or beside the
-- artifacts that are pinned.
pub prune_for_insert_short :
    (lim : Limits) (incoming : ℕ) (v : Vault)
    → IsBounded lim
    → IsAccounted v
    → lim.max_vault_bytes < (prune_for_insert lim v.total_artifact_bytes incoming v).0 + incoming
    → lim.max_vault_bytes < bytes (pinned_rows v) + incoming
unfolding prune_for_insert
prune_for_insert_short lim incoming v bounded accounted short =
    elim (Bool-cases (
      leb (v.total_artifact_bytes + incoming)
        (max 1 (lim.max_vault_bytes * lim.high_water_pct / 100)))) [
          | inl room ↦ absurd (
              omega (
                arith,
                leb→le _ _ room,
                pct_le lim.max_vault_bytes lim.high_water_pct bounded.high,
                bounded.some_bytes,
                (rw room at short),
              ))
          | inr full ↦ omega (
            arith,
            (rw full at short),
            pruned_ends v accounted (lim.max_vault_bytes * lim.low_water_pct / 100 - incoming),
            pct_le lim.max_vault_bytes lim.low_water_pct (omega (arith, bounded.high, bounded.low)),
          )
        ]

-- What every deletion keeps of the artifacts and their observations, the eviction keeps.
module _ (P : List Artifact → List Observation → Type 0)
    (keep : (id : String) (rs : List Artifact) (os : List Observation)
      → P rs os
      → P (without id rs) (filter (λ o. if observes id o then false else true) os)) where
  prune_loop_keeps :
      (target : ℕ) (rs : List Artifact) (p : Pruning)
      → P p.vault.artifacts p.vault.observations
      → let w = (prune_loop target rs p).vault in P w.artifacts w.observations
  unfolding prune_loop evict delete_artifact
  prune_loop_keeps target [] p h = h
  prune_loop_keeps target (r ∷ rs) p h =
      let later =
        prune_loop_keeps target rs (evict r p)
          (keep r.artifact_id p.vault.artifacts p.vault.observations h) in
      elim (Bool-cases (leb p.current_bytes target)) [
        | inl met ↦ rw met h
        | inr more ↦ rw more later
      ]

  book_pruning_keeps :
      (p : Pruning)
      → P p.vault.artifacts p.vault.observations
      → P (book_pruning p).artifacts (book_pruning p).observations
  unfolding book_pruning
  book_pruning_keeps p h = elim (Bool-cases (p.removed_artifacts == 0)) [
    | inl idle ↦ rw idle h
    | inr busy ↦ rw busy h
  ]

  pub prune_for_insert_keeps :
      (lim : Limits) (current incoming : ℕ) (v : Vault)
      → P v.artifacts v.observations
      → let w = (prune_for_insert lim current incoming v).1 in P w.artifacts w.observations
  unfolding prune_for_insert
  prune_for_insert_keeps lim current incoming v h =
      elim (Bool-cases
        (leb (current + incoming) (max 1 (lim.max_vault_bytes * lim.high_water_pct / 100)))) [
          | inl room ↦ rw room h
          | inr full ↦ rw full (book_pruning_keeps _ (prune_loop_keeps _ _ _ h))
        ]
