-- ===== src/Vault/Refusal.antt =====
-- When `put_artifact` refuses: only for the length of the content, or for want of room beside the
-- artifacts that are pinned. A constraint of the tables is never violated.
use token_terminator.Common.{
  ◌+◌, ◌<◌, String, ◌+++◌, count, len, ◌≡◌, refl, ◌≢◌, false, ◌||◌, none, some, List, [], ◌∷◌,
  arith, str_eq, eq_iff, All, Bool-cases, inl, inr, ◌⊎◌, is_some, Result, ok, raise, Option-cases,
  Result-cases, ◌∙◌, capacity_error, Error, subst, sym, ap, eq_refl, take, count-take, count-append,
}
use text.Mathlib.TextLemmas.{append_cancel_left}
use token_terminator.Vault.Tables.{Artifact, Vault, by_id, by_sha, without}
use token_terminator.Vault.Put.{
  Limits, PutRequest, ArtifactPut, observe, pin, short_id, fresh_id, store_new, attach, put_body,
  put_artifact,
}
use token_terminator.Vault.Rows.{bytes, by_id-without, Holds, IsKeyed-Holds}
use token_terminator.Vault.Eviction.{
  IsBounded, pinned_rows, prune_for_insert_keeps, prune_for_insert_short,
}
use token_terminator.Vault.Invariant.{OnFile, IsRow, IsConsistent, by_id-append}
use token_terminator.Vault.Writes.{evicted, store_new-ok, store_new-raise}
use token_terminator.Vault.Recovery.{
  Outcome, too_long, rolled_back, accepted, put_artifact-Outcome, Reads, Stored-Reads, by_sha-found,
}

by_id-found :
    (P : Artifact → Type 0) (id : String) (r : Artifact) (rs : List Artifact)
    → All P rs
    → by_id id rs ≡ some r
    → P r × (r.artifact_id ≡ id)
unfolding by_id
by_id-found P id r [] h found = absurd (ground arith)
by_id-found P id r (s ∷ rs) h found = elim (Bool-cases (str_eq s.artifact_id id)) [
  | inl here ↦
      let e : s ≡ r = ground arith in
      (
        subst P e h.0,
        ap (λ (x : Artifact). x.artifact_id) (sym e) ∙ (eq_iff s.artifact_id id).0 here,
      )
  | inr later ↦ by_id-found P id r rs h.1 (ground arith)
]

by_sha-absent :
    (sha : String) (rs : List Artifact)
    → by_sha sha rs ≡ none
    → All (λ (r : Artifact). r.sha256 ≢ sha) rs
unfolding by_sha
by_sha-absent sha [] h = tt
by_sha-absent sha (r ∷ rs) h =
    ((λ e. ground (arith, eq_iff r.sha256 sha)), by_sha-absent sha rs (ground arith))

by_sha-without :
    (sha id : String) (rs : List Artifact)
    → by_sha sha rs ≡ none
    → by_sha sha (without id rs) ≡ none
unfolding by_sha without
by_sha-without sha id [] h = refl
by_sha-without sha id (r ∷ rs) h = ground (arith, by_sha-without sha id rs)

-- The whole digest is no short id, and two whole digests that agree are one.
long_id :
    (sha other : String) (id : String)
    → count sha ≡ 64
    → (id ≡ short_id other) ⊎ (id ≡ ("a_" +++ other))
    → id ≡ ("a_" +++ sha)
    → other ≡ sha
unfolding short_id
long_id sha other id long (inl e) f = absurd (
    omega (
      arith,
      ap count (sym e ∙ f),
      count-append "a_" sha,
      count-append "a_" (take 32 other),
      count-take 32 other,
    ))
long_id sha other id long (inr e) f = append_cancel_left "a_" other sha (sym e ∙ f)

module _ (digest : String → String) where
  fresh_id-absent :
      (sha : String) (v : Vault)
      → count sha ≡ 64
      → All (IsRow digest) v.artifacts
      → by_sha sha v.artifacts ≡ none
      → by_id (fresh_id sha v) v.artifacts ≡ none
  unfolding fresh_id
  fresh_id-absent sha v long rows absent = elim (Option-cases (by_id (short_id sha) v.artifacts)) [
    | inl free ↦ rw (free, fresh_id) free
    | inr (r, taken) ↦
        let (other, _) =
          by_id-found (λ (x : Artifact). x.sha256 ≢ sha) _ r v.artifacts
            (by_sha-absent sha v.artifacts absent) taken in
        let whole : by_id ("a_" +++ sha) v.artifacts ≡ none =
          elim (Option-cases (by_id ("a_" +++ sha) v.artifacts)) [
            | inl free ↦ free
            | inr (s, clash) ↦
                let (row, named) = by_id-found (IsRow digest) _ s v.artifacts rows clash in
                let (differs, _) =
                  by_id-found (λ (x : Artifact). x.sha256 ≢ sha) _ s v.artifacts
                    (by_sha-absent sha v.artifacts absent) clash in
                absurd (differs (long_id sha s.sha256 s.artifact_id long row.named named))
          ] in
        ground (arith, eq_iff r.sha256 sha)
  ]

-- On a row that is on file, neither the observation nor the pin can raise.
attach-total :
    (now : String) (req : PutRequest) (id : String) (v : Vault)
    → OnFile v.artifacts id
    → (w : Vault) × (attach now req id v ≡ ok w)
unfolding attach observe pin
attach-total now req id v filed = elim (Result-cases (attach now req id v)) [
  | inl done ↦ done
  | inr (e, failed) ↦ absurd (ground arith)
]

found_OnFile :
    (digest : String → String) (v : Vault)
    → IsConsistent digest v
    → (r : Artifact) (sha : String) → by_sha sha v.artifacts ≡ some r
    → OnFile v.artifacts r.artifact_id
found_OnFile digest v c r sha found =
    let (held, _) =
      by_sha-found digest (Holds v.artifacts) sha r v.artifacts
        (IsKeyed-Holds v.artifacts c.accounted.keyed) found in
    rw held

module _ (digest : String → String) (lim : Limits) (now : String) (req : PutRequest) (v : Vault)
    (long : count (digest req.content) ≡ 64) (c : IsConsistent digest v) where
  abbrev sha : String
  sha = digest req.content

  -- The keys of a new row are free, in what the eviction leaves too.
  keys_free :
      by_sha sha v.artifacts ≡ none
      → (is_some (by_id (fresh_id sha v) (evicted lim now req (fresh_id sha v) sha v).artifacts)
          || is_some (by_sha sha (evicted lim now req (fresh_id sha v) sha v).artifacts))
        ≡ false
  keys_free absent =
      let id_free =
        prune_for_insert_keeps (λ rs os. by_id (fresh_id sha v) rs ≡ none)
          (λ id rs os h. ground (arith, by_id-without id (fresh_id sha v) rs)) lim
          v.total_artifact_bytes (len req.content) v
          (fresh_id-absent digest sha v long c.rows absent) in
      let sha_free =
        prune_for_insert_keeps (λ rs os. by_sha sha rs ≡ none)
          (λ id rs os. by_sha-without sha id rs) lim v.total_artifact_bytes (len req.content) v
          absent in
      ground (arith, id_free, sha_free)

  store_new-refusal :
      (e : Error)
      → IsBounded lim
      → by_sha sha v.artifacts ≡ none
      → store_new lim now req (fresh_id sha v) sha v ≡ raise e
      → (e ≡ capacity_error) × (lim.max_vault_bytes < bytes (pinned_rows v) + len req.content)
  store_new-refusal e bounded absent failed = elim (store_new-raise lim now req _ sha v e failed) [
    | inl (what, short) ↦
        (what, prune_for_insert_short lim (len req.content) v bounded c.accounted short)
    | inr taken ↦ absurd (ground (arith, keys_free absent))
  ]

  store_new-filed :
      (s : Vault)
      → store_new lim now req (fresh_id sha v) sha v ≡ ok s
      → OnFile s.artifacts (fresh_id sha v)
  store_new-filed s stored =
      let (fits, fresh, same) = store_new-ok lim now req _ sha v s stored in
      rw same (rw by_id-append (rw fresh (rw eq_refl)))

  put_body-refusal :
      (e : Error)
      → IsBounded lim
      → put_body digest lim now req v ≡ raise e
      → (e ≡ capacity_error) × (lim.max_vault_bytes < bytes (pinned_rows v) + len req.content)
  unfolding put_body
  put_body-refusal e bounded failed = elim (Option-cases (by_sha sha v.artifacts)) [
    | inl absent ↦ elim (Result-cases (store_new lim now req (fresh_id sha v) sha v)) [
      | inr (e', refused) ↦ store_new-refusal e bounded absent (ground arith)
      | inl (s, stored) ↦
          let (w, attached) = attach-total now req (fresh_id sha v) s (store_new-filed s stored) in
          absurd (ground arith)
    ]
    | inr (r, found) ↦
        let (w, attached) =
          attach-total now req r.artifact_id v (found_OnFile digest v c r sha found) in
        absurd (ground arith)
  ]

  -- The ways in which a call of `put_artifact` may end.
  abbrev pub IsAnswer : Result ArtifactPut × Vault → Type 0
  IsAnswer (ok p, w) = Reads digest req p.artifact_id w
  IsAnswer (raise e, w) =
      (e ≡ capacity_error)
      × (w ≡ v)
      × ((lim.max_artifact_chars < count req.content)
          ⊎ (lim.max_vault_bytes < bytes (pinned_rows v) + len req.content))

  Outcome-IsAnswer :
      (result : Result ArtifactPut × Vault)
      → IsBounded lim
      → ((x : String) → digest x ≡ digest req.content → x ≡ req.content)
      → Outcome digest lim now req v result
      → IsAnswer result
  Outcome-IsAnswer result bounded unique (too_long over same) = rw same (refl, refl, inl over)
  Outcome-IsAnswer result bounded unique (rolled_back e failed same) =
      let (what, short) = put_body-refusal e bounded failed in rw same (what, refl, inr short)
  Outcome-IsAnswer result bounded unique (accepted p w stored same) =
      rw same (Stored-Reads digest lim now req v w p unique c stored)

  -- On a consistent vault, with limits as `__init__` leaves them, a digest of 64 characters and no other
  -- content of the same digest, `put_artifact` either returns an id under which `get_artifact` reads back
  -- exactly the content that was put, or raises a capacity error and leaves the vault as it was; it
  -- raises only if the content has too many characters, or if the pinned artifacts and it exceed the
  -- vault's capacity in bytes.
  pub put_artifact-IsAnswer :
      IsBounded lim
      → ((x : String) → digest x ≡ digest req.content → x ≡ req.content)
      → IsAnswer (put_artifact digest lim now req v)
  put_artifact-IsAnswer bounded unique =
      Outcome-IsAnswer _ bounded unique (put_artifact-Outcome digest lim now req v)
