-- ===== src/Vault/Rows.antt =====
-- Lemmas on the rows of `artifacts`: lookups, deletions, and the order of the eviction query.
use token_terminator.Common.{
  ℕ, ◌+◌, ◌≤◌, String, ◌≡◌, refl, Bool, true, false, none, some, List, [], ◌∷◌, arith,
  if◌then◌else◌, filter, str_eq, eq_iff, All, All-map, sum_by,
}
use token_terminator.Vault.Tables.{
  Artifact, Vault, by_id, without, comes_before, insert_sorted, sort,
}

abbrev pub bytes : List Artifact → ℕ
bytes rs = sum_by (λ r. r.byte_count) rs

-- No two rows share an id: the primary key of `artifacts`.
abbrev pub IsKeyed : List Artifact → Type 0
IsKeyed [] = Unit
IsKeyed (r ∷ rs) = (by_id r.artifact_id rs ≡ none) × IsKeyed rs

-- `rs` holds the row `r` under its id.
abbrev pub Holds : List Artifact → Artifact → Type 0
Holds rs r = by_id r.artifact_id rs ≡ some r

pub by_id-without :
    (id j : String) (rs : List Artifact)
    → by_id j (without id rs) ≡ (if str_eq id j then none else by_id j rs)
unfolding by_id without
by_id-without id j [] = ground arith
by_id-without id j (r ∷ rs) =
    ground
      (arith, by_id-without id j rs, eq_iff r.artifact_id id, eq_iff r.artifact_id j, eq_iff id j)

pub without_absent : (id : String) (rs : List Artifact) → by_id id rs ≡ none → without id rs ≡ rs
unfolding by_id without
without_absent id [] h = refl
without_absent id (r ∷ rs) h = ground (arith, without_absent id rs)

pub without-IsKeyed : (id : String) (rs : List Artifact) → IsKeyed rs → IsKeyed (without id rs)
unfolding without
without-IsKeyed id [] h = tt
without-IsKeyed id (r ∷ rs) h =
    ground (arith, without-IsKeyed id rs h.1, by_id-without id r.artifact_id rs)

pub by_id_head : (r : Artifact) (rs : List Artifact) → by_id r.artifact_id (r ∷ rs) ≡ some r
unfolding by_id
by_id_head r rs = ground (arith, eq_iff r.artifact_id r.artifact_id)

-- Deleting a row takes its bytes off the sum.
pub bytes-without :
    (r : Artifact) (rs : List Artifact)
    → IsKeyed rs
    → Holds rs r
    → bytes (without r.artifact_id rs) + r.byte_count ≡ bytes rs
unfolding by_id without
bytes-without r [] keyed h = ground arith
bytes-without r (s ∷ rs) keyed h = ground (
  arith,
  bytes-without r rs keyed.1,
  without_absent r.artifact_id rs,
  eq_iff s.artifact_id r.artifact_id,
)

Holds-cons :
    (r : Artifact) (rs : List Artifact)
    → by_id r.artifact_id rs ≡ none
    → (s : Artifact) → Holds rs s
    → Holds (r ∷ rs) s
unfolding by_id
Holds-cons r rs fresh s h = ground (arith, eq_iff r.artifact_id s.artifact_id)

-- Each row of a keyed table is what its id finds.
pub IsKeyed-Holds : (rs : List Artifact) → IsKeyed rs → All (Holds rs) rs
IsKeyed-Holds [] keyed = tt
IsKeyed-Holds (r ∷ rs) (fresh, keyed) =
    (by_id_head r rs, All-map (Holds-cons r rs fresh) rs (IsKeyed-Holds rs keyed))

by_id-filter :
    (test : Artifact → Bool) (id : String) (rs : List Artifact)
    → by_id id rs ≡ none
    → by_id id (filter test rs) ≡ none
unfolding by_id
by_id-filter test id [] h = refl
by_id-filter test id (r ∷ rs) h = ground (arith, by_id-filter test id rs)

pub filter-IsKeyed :
    (test : Artifact → Bool) (rs : List Artifact) → IsKeyed rs → IsKeyed (filter test rs)
filter-IsKeyed test [] h = tt
filter-IsKeyed test (r ∷ rs) h =
    ground (arith, filter-IsKeyed test rs h.1, by_id-filter test r.artifact_id rs h.0)

module _ (v : Vault) where
  by_id-insert_sorted :
      (id : String) (a : Artifact) (bs : List Artifact)
      → str_eq a.artifact_id id ≡ false
      → by_id id bs ≡ none
      → by_id id (insert_sorted v a bs) ≡ none
  unfolding by_id insert_sorted
  by_id-insert_sorted id a [] ne h = ground arith
  by_id-insert_sorted id a (b ∷ bs) ne h = ground (arith, by_id-insert_sorted id a bs ne)

  insert_sorted-IsKeyed :
      (a : Artifact) (bs : List Artifact)
      → by_id a.artifact_id bs ≡ none
      → IsKeyed bs
      → IsKeyed (insert_sorted v a bs)
  unfolding by_id insert_sorted
  insert_sorted-IsKeyed a [] h keyed = ground arith
  insert_sorted-IsKeyed a (b ∷ bs) h keyed = ground (
    arith,
    insert_sorted-IsKeyed a bs,
    by_id-insert_sorted b.artifact_id a bs,
    eq_iff a.artifact_id b.artifact_id,
    eq_iff b.artifact_id a.artifact_id,
  )

  by_id-sort : (id : String) (rs : List Artifact) → by_id id rs ≡ none → by_id id (sort v rs) ≡ none
  unfolding by_id sort
  by_id-sort id [] h = refl
  by_id-sort id (r ∷ rs) h = ground (arith, by_id-insert_sorted id r (sort v rs), by_id-sort id rs)

  pub sort-IsKeyed : (rs : List Artifact) → IsKeyed rs → IsKeyed (sort v rs)
  unfolding sort
  sort-IsKeyed [] keyed = tt
  sort-IsKeyed (r ∷ rs) (fresh, keyed) =
      insert_sorted-IsKeyed r (sort v rs) (by_id-sort r.artifact_id rs fresh)
        (sort-IsKeyed rs keyed)

  All-insert_sorted :
      (P : Artifact → Type 0) (a : Artifact) (bs : List Artifact)
      → P a
      → All P bs
      → All P (insert_sorted v a bs)
  unfolding insert_sorted
  All-insert_sorted P a [] p ps = (p, tt)
  All-insert_sorted P a (b ∷ bs) p ps = place (comes_before v b a) (All-insert_sorted P a bs p ps.1)
    where
      place :
          (c : Bool)
          → All P (insert_sorted v a bs)
          → All P (if c then b ∷ insert_sorted v a bs else a ∷ b ∷ bs)
      place true later = (ps.0, later)
      place false later = (p, (ps.0, ps.1))

  pub All-sort : (P : Artifact → Type 0) (rs : List Artifact) → All P rs → All P (sort v rs)
  unfolding sort
  All-sort P [] ps = tt
  All-sort P (r ∷ rs) (p, ps) = All-insert_sorted P r (sort v rs) p (All-sort P rs ps)

  bytes-insert_sorted :
      (a : Artifact) (bs : List Artifact) → bytes (insert_sorted v a bs) ≡ a.byte_count + bytes bs
  unfolding insert_sorted
  bytes-insert_sorted a [] = omega arith
  bytes-insert_sorted a (b ∷ bs) = ground (arith, bytes-insert_sorted a bs)

  pub bytes-sort : (rs : List Artifact) → bytes (sort v rs) ≡ bytes rs
  unfolding sort
  bytes-sort [] = refl
  bytes-sort (r ∷ rs) = omega (arith, bytes-insert_sorted r (sort v rs), bytes-sort rs)

-- What a row holds is part of the sum.
pub byte_count-le-bytes : (r : Artifact) (rs : List Artifact) → Holds rs r → r.byte_count ≤ bytes rs
unfolding by_id
byte_count-le-bytes r [] h = ground arith
byte_count-le-bytes r (s ∷ rs) h = ground (arith, byte_count-le-bytes r rs)

-- Rows with other ids outlive a deletion.
pub All-Holds-without :
    (id : String) (held rs : List Artifact)
    → by_id id rs ≡ none
    → All (Holds held) rs
    → All (Holds (without id held)) rs
unfolding by_id
All-Holds-without id held [] h holds = tt
All-Holds-without id held (r ∷ rs) h holds = (
  ground (
    arith,
    by_id-without id r.artifact_id held,
    eq_iff id r.artifact_id,
    eq_iff r.artifact_id id,
    holds.0,
  ),
  All-Holds-without id held rs (ground arith) holds.1,
)
