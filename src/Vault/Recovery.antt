-- ===== src/Vault/Recovery.antt =====
-- The contract of `put_artifact`: the vault stays consistent and within its capacity, and what was
-- stored is read back exactly.
use token_terminator.Common.{
  ◌≤◌, ◌<◌, String, ◌+++◌, count, ◌≡◌, refl, true, none, some, List, [], ◌∷◌, arith, str_eq, eq_iff,
  All, Bool-cases, inl, inr, ltb, ltb→lt, Result, ok, raise, Option-cases, Result-cases, ◌∙◌,
  capacity_error, Error, subst, sym, ap, eq_refl,
}
use token_terminator.Vault.Tables.{Artifact, Vault, by_sha}
use token_terminator.Vault.Put.{
  Limits, PutRequest, ArtifactPut, short_id, fresh_id, store_new, attach, put_body, put_artifact,
  get_artifact, is_intact,
}
use token_terminator.Vault.Rows.{bytes, Holds, IsKeyed-Holds}
use token_terminator.Vault.Invariant.{IsRow, IsConsistent, by_id-append}
use token_terminator.Vault.Writes.{
  new_row, store_new-ok, store_new-IsConsistent, fresh_id_named, attach-IsAttached,
}

module _ (digest : String → String) where
  -- A call that stored a new row, or found the content's row.
  pub data Stored (lim : Limits) (now : String) (req : PutRequest) (v : Vault) (p : ArtifactPut)
      (w : Vault) : Type 0 where
    created :
        (s : Vault)
        → by_sha (digest req.content) v.artifacts ≡ none
        → store_new lim now req (fresh_id (digest req.content) v) (digest req.content) v ≡ ok s
        → attach now req (fresh_id (digest req.content) v) s ≡ ok w
        → p.artifact_id ≡ fresh_id (digest req.content) v
        → Stored lim now req v p w
    reused :
        (r : Artifact)
        → by_sha (digest req.content) v.artifacts ≡ some r
        → attach now req r.artifact_id v ≡ ok w
        → p.artifact_id ≡ r.artifact_id
        → Stored lim now req v p w

  put_body-Stored :
      (lim : Limits) (now : String) (req : PutRequest) (v w : Vault) (p : ArtifactPut)
      → put_body digest lim now req v ≡ ok (p, w)
      → Stored lim now req v p w
  unfolding put_body
  put_body-Stored lim now req v w p h =
      let sha = digest req.content in
      elim (Option-cases (by_sha sha v.artifacts)) [
        | inl absent ↦ elim (Result-cases (store_new lim now req (fresh_id sha v) sha v)) [
          | inr (e, failed) ↦ absurd (ground arith)
          | inl (s, stored) ↦ elim (Result-cases (attach now req (fresh_id sha v) s)) [
            | inr (e, failed) ↦ absurd (ground arith)
            | inl (u, attached) ↦ created s absent stored (ground arith) (ground arith)
          ]
        ]
        | inr (r, found) ↦ elim (Result-cases (attach now req r.artifact_id v)) [
          | inr (e, failed) ↦ absurd (ground arith)
          | inl (u, attached) ↦ reused r found (ground arith) (ground arith)
        ]
      ]

  -- Either the call is refused for its length, or the body ran: it failed and was rolled back, or it
  -- has stored.
  pub data Outcome (lim : Limits) (now : String) (req : PutRequest) (v : Vault)
      (result : Result ArtifactPut × Vault) : Type 0 where
    too_long :
        lim.max_artifact_chars < count req.content
        → result ≡ (raise capacity_error, v)
        → Outcome lim now req v result
    rolled_back :
        (e : Error)
        → put_body digest lim now req v ≡ raise e
        → result ≡ (raise e, v)
        → Outcome lim now req v result
    accepted :
        (p : ArtifactPut) (w : Vault)
        → Stored lim now req v p w
        → result ≡ (ok p, w)
        → Outcome lim now req v result

  pub put_artifact-Outcome :
      (lim : Limits) (now : String) (req : PutRequest) (v : Vault)
      → Outcome lim now req v (put_artifact digest lim now req v)
  unfolding put_artifact
  put_artifact-Outcome lim now req v =
      elim (Bool-cases (ltb lim.max_artifact_chars (count req.content))) [
        | inl long ↦ too_long (ltb→lt _ _ long) (rw long)
        | inr fits ↦ elim (Result-cases (put_body digest lim now req v)) [
          | inr (e, failed) ↦ rolled_back e failed (rw (fits, failed))
          | inl ((p, w), done) ↦
              accepted p w (put_body-Stored lim now req v w p done) (rw (fits, done))
        ]
      ]

  Stored-IsConsistent :
      (lim : Limits) (now : String) (req : PutRequest) (v w : Vault) (p : ArtifactPut)
      → Stored lim now req v p w
      → IsConsistent digest v
      → IsConsistent digest w
  Stored-IsConsistent lim now req v w p (created s absent stored attached named) c =
      (attach-IsAttached digest now req _ s w
        (store_new-IsConsistent digest lim now req _ v s c (fresh_id_named digest _ v) stored)
        attached).consistent
  Stored-IsConsistent lim now req v w p (reused r found attached named) c =
      (attach-IsAttached digest now req r.artifact_id v w c attached).consistent

  Outcome-IsConsistent :
      (lim : Limits) (now : String) (req : PutRequest) (v : Vault)
      (result : Result ArtifactPut × Vault)
      → Outcome lim now req v result
      → IsConsistent digest v
      → IsConsistent digest result.1
  Outcome-IsConsistent lim now req v result (too_long _ e) c = rw e c
  Outcome-IsConsistent lim now req v result (rolled_back _ _ e) c = rw e c
  Outcome-IsConsistent lim now req v result (accepted p w s e) c =
      rw e (Stored-IsConsistent lim now req v w p s c)

  -- A consistent vault is consistent after every call of `put_artifact`, whether it raises or not: the
  -- ids stay unique, the byte counter exact, each row as `get_artifact` checks it, and no observation,
  -- exposure or snapshot dangles.
  pub put_artifact-IsConsistent :
      (lim : Limits) (now : String) (req : PutRequest) (v : Vault)
      → IsConsistent digest v
      → IsConsistent digest (put_artifact digest lim now req v).1
  put_artifact-IsConsistent lim now req v c =
      Outcome-IsConsistent lim now req v _ (put_artifact-Outcome lim now req v) c

  store_new-total :
      (lim : Limits) (now : String) (req : PutRequest) (id sha : String) (v s : Vault)
      → store_new lim now req id sha v ≡ ok s
      → s.total_artifact_bytes ≤ lim.max_vault_bytes
  store_new-total lim now req id sha v s stored =
      let (fits, fresh, same) = store_new-ok lim now req id sha v s stored in rw same fits

  Stored-total :
      (lim : Limits) (now : String) (req : PutRequest) (v w : Vault) (p : ArtifactPut)
      → Stored lim now req v p w
      → IsConsistent digest v
      → v.total_artifact_bytes ≤ lim.max_vault_bytes
      → w.total_artifact_bytes ≤ lim.max_vault_bytes
  Stored-total lim now req v w p (created s absent stored attached named) c h = omega (
    arith,
    store_new-total lim now req _ _ v s stored,
    (attach-IsAttached digest now req _ s w
        (store_new-IsConsistent digest lim now req _ v s c (fresh_id_named digest _ v) stored)
        attached).total,
  )
  Stored-total lim now req v w p (reused r found attached named) c h =
      omega (arith, h, (attach-IsAttached digest now req r.artifact_id v w c attached).total)

  Outcome-total :
      (lim : Limits) (now : String) (req : PutRequest) (v : Vault)
      (result : Result ArtifactPut × Vault)
      → Outcome lim now req v result
      → IsConsistent digest v
      → v.total_artifact_bytes ≤ lim.max_vault_bytes
      → result.1.total_artifact_bytes ≤ lim.max_vault_bytes
  Outcome-total lim now req v result (too_long _ e) c h = rw e h
  Outcome-total lim now req v result (rolled_back _ _ e) c h = rw e h
  Outcome-total lim now req v result (accepted p w s e) c h =
      rw e (Stored-total lim now req v w p s c h)

  -- No call of `put_artifact` takes the artifacts of a consistent vault past its capacity in bytes.
  pub put_artifact_capacity :
      (lim : Limits) (now : String) (req : PutRequest) (v : Vault)
      → IsConsistent digest v
      → bytes v.artifacts ≤ lim.max_vault_bytes
      → bytes (put_artifact digest lim now req v).1.artifacts ≤ lim.max_vault_bytes
  put_artifact_capacity lim now req v c h =
      let after : IsConsistent digest (put_artifact digest lim now req v).1 =
        put_artifact-IsConsistent lim now req v c in
      omega (
        arith,
        after.accounted.counted,
        Outcome-total lim now req v _ (put_artifact-Outcome lim now req v) c
            (omega (arith, c.accounted.counted)),
      )

  -- A row on file under its id, whose content is intact, is what `get_artifact` returns.
  IsRow-intact : (r : Artifact) → IsRow digest r → is_intact digest r.artifact_id r ≡ true
  unfolding is_intact
  IsRow-intact r h = ground (
    arith,
    eq_iff (digest r.content) r.sha256,
    eq_iff r.artifact_id (short_id (digest r.content)),
    eq_iff r.artifact_id ("a_" +++ digest r.content),
  )

  pub get_held :
      (r : Artifact) (v : Vault)
      → IsRow digest r
      → Holds v.artifacts r
      → get_artifact digest r.artifact_id v ≡ ok r
  unfolding get_artifact
  get_held r v intact held = ground (arith, held, IsRow-intact r intact)

  -- A row found by its digest is a row of the table.
  pub by_sha-found :
      (P : Artifact → Type 0) (sha : String) (r : Artifact) (rs : List Artifact)
      → All P rs
      → by_sha sha rs ≡ some r
      → P r × (r.sha256 ≡ sha)
  unfolding by_sha
  by_sha-found P sha r [] h found = absurd (ground arith)
  by_sha-found P sha r (s ∷ rs) h found = elim (Bool-cases (str_eq s.sha256 sha)) [
    | inl here ↦
        let e : s ≡ r = ground arith in
        (subst P e h.0, ap (λ (x : Artifact). x.sha256) (sym e) ∙ (eq_iff s.sha256 sha).0 here)
    | inr later ↦ by_sha-found P sha r rs h.1 (ground arith)
  ]

  -- The content is read back from `w` under the id `id`.
  abbrev pub Reads : PutRequest → String → Vault → Type 0
  Reads req id w = (r : Artifact) × (get_artifact digest id w ≡ ok r) × (r.content ≡ req.content)

  pub Stored-Reads :
      (lim : Limits) (now : String) (req : PutRequest) (v w : Vault) (p : ArtifactPut)
      → ((x : String) → digest x ≡ digest req.content → x ≡ req.content)
      → IsConsistent digest v
      → Stored lim now req v p w
      → Reads req p.artifact_id w
  Stored-Reads lim now req v w p unique c (created s absent stored attached named) =
      let row = new_row now req (fresh_id (digest req.content) v) (digest req.content) in
      let (fits, fresh, same) = store_new-ok lim now req _ _ v s stored in
      let kept =
        (attach-IsAttached digest now req _ s w
          (store_new-IsConsistent digest lim now req _ v s c (fresh_id_named digest _ v) stored)
          attached).artifacts in
      (
        row,
        rw named (
            get_held row w
              (record {
                sha = refl;
                bytes = refl;
                chars = refl;
                named = fresh_id_named digest (digest req.content) v;
              })
              (rw kept (rw same (rw by_id-append (rw fresh (rw eq_refl)))))),
        refl,
      )
  Stored-Reads lim now req v w p unique c (reused r found attached named) =
      let kept = (attach-IsAttached digest now req r.artifact_id v w c attached).artifacts in
      let (held, digested) =
        by_sha-found (Holds v.artifacts) _ r v.artifacts
          (IsKeyed-Holds v.artifacts c.accounted.keyed) found in
      let (intact, _) = by_sha-found (IsRow digest) _ r v.artifacts c.rows found in
      (
        r,
        rw named (get_held r w intact (rw kept held)),
        unique r.content (sym intact.sha ∙ digested),
      )
