-- ===== src/Vault/Invariant.antt =====
-- The well-formedness of a vault, and that `put_artifact` keeps it.
use token_terminator.Common.{
  ℕ, ◌+◌, String, ◌+++◌, count, len, ◌≡◌, refl, Bool, true, false, none, some, List, [], ◌∷◌, ◌++◌,
  arith, if◌then◌else◌, filter, any, str_eq, eq_iff, All, ◌⊎◌, is_some,
}
use token_terminator.Vault.Tables.{
  Artifact, Observation, Exposure, Snapshot, Vault, by_id, without, observes, is_pinned,
}
use token_terminator.Vault.Put.{Limits, short_id, prune_for_insert}
use token_terminator.Vault.Rows.{bytes, IsKeyed, by_id-without}
use token_terminator.Vault.Pruning.{IsAccounted}
use token_terminator.Vault.Eviction.{IsPruned, prune_for_insert-IsPruned, prune_for_insert_keeps}

-- The id is on file, as a foreign key demands.
abbrev pub OnFile : List Artifact → String → Type 0
OnFile rs id = is_some (by_id id rs) ≡ true

abbrev pub Observed : List Artifact → List Observation → Type 0
Observed rs os = All (λ o. OnFile rs o.artifact_id) os

-- What `get_artifact` checks of a row, as it stands when the row is written.
pub record IsRow (digest : String → String) (r : Artifact) : Type 0 where
  pub sha : r.sha256 ≡ digest r.content
  pub bytes : r.byte_count ≡ len r.content
  pub chars : r.char_count ≡ count r.content
  pub named : (r.artifact_id ≡ short_id r.sha256) ⊎ (r.artifact_id ≡ ("a_" +++ r.sha256))

-- A vault is consistent: its rows are keyed, counted and intact, and no reference dangles.
pub record IsConsistent (digest : String → String) (v : Vault) : Type 0 where
  pub accounted : IsAccounted v
  pub rows : All (IsRow digest) v.artifacts
  pub observed : Observed v.artifacts v.observations
  pub exposed : All (λ (e : Exposure). OnFile v.artifacts e.artifact_id) v.exposures
  pub shown : All (λ (t : Snapshot). OnFile v.artifacts t.artifact_id) v.snapshots

pub bytes-append :
    (rs : List Artifact) (r : Artifact) → bytes (rs ++ r ∷ []) ≡ bytes rs + r.byte_count
bytes-append [] r = omega arith
bytes-append (s ∷ rs) r = omega (arith, bytes-append rs r)

pub by_id-append :
    (id : String) (rs : List Artifact) (r : Artifact)
    → by_id id (rs ++ r ∷ []) ≡ (
        if is_some (by_id id rs)
        then by_id id rs
        else if str_eq r.artifact_id id
        then some r
        else none)
unfolding by_id
by_id-append id [] r = refl
by_id-append id (s ∷ rs) r = ground (arith, by_id-append id rs r)

pub append-IsKeyed :
    (rs : List Artifact) (r : Artifact)
    → IsKeyed rs
    → by_id r.artifact_id rs ≡ none
    → IsKeyed (rs ++ r ∷ [])
unfolding by_id
append-IsKeyed [] r keyed fresh = ground arith
append-IsKeyed (s ∷ rs) r keyed fresh = ground (
  arith,
  append-IsKeyed rs r keyed.1,
  by_id-append s.artifact_id rs r,
  eq_iff s.artifact_id r.artifact_id,
  eq_iff r.artifact_id s.artifact_id,
)

pub OnFile-append :
    (rs : List Artifact) (r : Artifact) (id : String) → OnFile rs id → OnFile (rs ++ r ∷ []) id
OnFile-append rs r id h = ground (arith, by_id-append id rs r)

pub Observed-without :
    (id : String) (rs : List Artifact) (os : List Observation)
    → Observed rs os
    → Observed (without id rs) (filter (λ o. if observes id o then false else true) os)
Observed-without id rs [] h = tt
Observed-without id rs (o ∷ os) h = ground (
  arith,
  Observed-without id rs os h.1,
  by_id-without id o.artifact_id rs,
  eq_iff id o.artifact_id,
  eq_iff o.artifact_id id,
)

pub All-without :
    (P : Artifact → Type 0) (id : String) (rs : List Artifact) → All P rs → All P (without id rs)
unfolding without
All-without P id [] h = tt
All-without P id (r ∷ rs) h = split (str_eq r.artifact_id id) (All-without P id rs h.1)
  where
    split :
        (b : Bool) → All P (without id rs) → All P (if b then without id rs else r ∷ without id rs)
    split true rest = rest
    split false rest = (h.0, rest)

-- References that pin their artifacts stay on file where the pinned rows stay.
module _ {A : Type 0} (key : A → String) (pins : String → Bool) (rs ss : List Artifact)
    (same : (id : String) → pins id ≡ true → by_id id ss ≡ by_id id rs) where
  carry :
      (xs : List A)
      → ((id : String) → any (λ x. str_eq (key x) id) xs ≡ true → pins id ≡ true)
      → All (λ x. OnFile rs (key x)) xs
      → All (λ x. OnFile ss (key x)) xs
  carry [] pinned h = tt
  carry (x ∷ xs) pinned h = (
    ground (arith, same (key x), pinned (key x), eq_iff (key x) (key x), h.0),
    carry xs (λ id held. pinned id (ground arith)) h.1,
  )

-- What `store_new` needs of the vault after an eviction.
pub record IsReady (digest : String → String) (current : ℕ) (w : Vault) : Type 0 where
  pub accounted : IsAccounted w
  pub total : w.total_artifact_bytes ≡ current
  pub rows : All (IsRow digest) w.artifacts
  pub observed : Observed w.artifacts w.observations
  pub exposed : All (λ (e : Exposure). OnFile w.artifacts e.artifact_id) w.exposures
  pub shown : All (λ (t : Snapshot). OnFile w.artifacts t.artifact_id) w.snapshots

module _ (digest : String → String) where
  pub prune-IsReady :
      (lim : Limits) (incoming : ℕ) (v : Vault)
      → IsConsistent digest v
      → let (current, w) = prune_for_insert lim v.total_artifact_bytes incoming v in
        IsReady digest current w
  prune-IsReady lim incoming v c =
      let w = (prune_for_insert lim v.total_artifact_bytes incoming v).1 in
      let pruned : IsPruned v (prune_for_insert lim v.total_artifact_bytes incoming v).0 w =
        prune_for_insert-IsPruned lim incoming v c.accounted in
      record {
        accounted = record {
          keyed = pruned.keyed;
          counted = omega (arith, pruned.total, pruned.counted);
        };
        total = pruned.total;
        rows =
            prune_for_insert_keeps (λ rs os. All (IsRow digest) rs)
              (λ id rs os. All-without (IsRow digest) id rs) lim v.total_artifact_bytes incoming v
              c.rows;
        observed =
            prune_for_insert_keeps Observed Observed-without lim v.total_artifact_bytes incoming v
              c.observed;
        exposed = rw pruned.exposures (
            carry (λ (e : Exposure). e.artifact_id) (is_pinned v) v.artifacts w.artifacts
              pruned.pinned v.exposures (λ id held. unfold is_pinned in ground arith) c.exposed);
        shown = rw pruned.snapshots (
            carry (λ (t : Snapshot). t.artifact_id) (is_pinned v) v.artifacts w.artifacts
              pruned.pinned v.snapshots (λ id held. unfold is_pinned in ground arith) c.shown);
      }
