-- ===== src/Vault/Leases/Bounds.antt =====
-- What a lease promises: no artifact is claimed inline more often than its limit, an answer stays,
-- and the read-only preflight is never too strict.
use token_terminator.Common.{
  ℕ, ◌+◌, ◌≤◌, String, ◌≡◌, refl, Bool, true, false, ◌&&◌, ◌||◌, none, some, List, [], ◌∷◌, ◌++◌,
  arith, ltb, if◌then◌else◌, str_eq, eq_iff, is_some, ok, Option-cases, Bool-cases, inl, inr, ◌⊎◌,
}
use token_terminator.Vault.Tables.{Exposure, Vault, by_id}
use token_terminator.Vault.Put.{same_exposure}
use token_terminator.Vault.Leases.{
  Key, has_key, exposure_of, inline_count, exposure_available, insert_exposure, exposure,
  claim_exposure, update_exposure, record_exposure,
}

inline_count-append :
    (s a : String) (es : List Exposure) (e : Exposure)
    → inline_count s a (es ++ e ∷ [])
      ≡ inline_count s a es
        + (if str_eq e.session_id s && str_eq e.artifact_id a && e.inline then 1 else 0)
unfolding inline_count
inline_count-append s a [] e = ground arith
inline_count-append s a (f ∷ es) e = ground (arith, inline_count-append s a es e)

exposure_of-append :
    (k : Key) (es : List Exposure) (e : Exposure)
    → exposure_of k (es ++ e ∷ []) ≡ (
        if is_some (exposure_of k es)
        then exposure_of k es
        else if has_key k e
        then some e
        else none)
unfolding exposure_of
exposure_of-append k [] e = refl
exposure_of-append k (f ∷ es) e = ground (arith, exposure_of-append k es e)

-- No claim takes a pair of session and artifact past the limit.
claim_exposure-limit :
    (limit : ℕ) (now : String) (k : Key) (v : Vault) (s a : String)
    → inline_count s a v.exposures ≤ limit
    → inline_count s a (claim_exposure limit now k v).1.exposures ≤ limit
unfolding claim_exposure insert_exposure
claim_exposure-limit limit now k v s a h = ground (
  arith,
  inline_count-append s a v.exposures (exposure k true now),
  eq_iff k.session_id s,
  eq_iff k.artifact_id a,
)

-- A claim whose preflight is refused is answered so, and leaves the vault alone.
claim_denied :
    (limit : ℕ) (now : String) (k : Key) (v : Vault)
    → exposure_available limit k v ≡ false
    → claim_exposure limit now k v ≡ (ok false, v)
unfolding claim_exposure exposure_available
claim_denied limit now k v h = ground arith

-- Another claim does not turn a refusal into a grant.
denied_stays :
    (limit : ℕ) (now : String) (k j : Key) (v : Vault)
    → exposure_available limit k v ≡ false
    → exposure_available limit k (claim_exposure limit now j v).1 ≡ false
unfolding claim_exposure exposure_available insert_exposure has_key same_exposure
denied_stays limit now k j v h = ground (
  arith,
  exposure_of-append k v.exposures (exposure j true now),
  inline_count-append k.session_id k.artifact_id v.exposures (exposure j true now),
  eq_iff j.session_id k.session_id,
  eq_iff j.artifact_id k.artifact_id,
  eq_iff j.request_id k.request_id,
)

-- The row of a key stays through claims.
exposed_stays :
    (limit : ℕ) (now : String) (k j : Key) (v : Vault) (e : Exposure)
    → exposure_of k v.exposures ≡ some e
    → exposure_of k (claim_exposure limit now j v).1.exposures ≡ some e
unfolding claim_exposure insert_exposure
exposed_stays limit now k j v e h =
    ground (arith, exposure_of-append k v.exposures (exposure j true now))

-- Claims of other requests, in the order in which their transactions commit.
abbrev pub claim_all : ℕ → List (String × Key) → Vault → Vault
claim_all limit [] v = v
claim_all limit ((now, k) ∷ rest) v = claim_all limit rest (claim_exposure limit now k v).1

denied_stays_all :
    (limit : ℕ) (k : Key) (claims : List (String × Key)) (v : Vault)
    → exposure_available limit k v ≡ false
    → exposure_available limit k (claim_all limit claims v) ≡ false
denied_stays_all limit k [] v h = h
denied_stays_all limit k ((now, j) ∷ rest) v h =
    denied_stays_all limit k rest (claim_exposure limit now j v).1 (denied_stays limit now k j v h)

exposed_stays_all :
    (limit : ℕ) (k : Key) (claims : List (String × Key)) (v : Vault) (e : Exposure)
    → exposure_of k v.exposures ≡ some e
    → exposure_of k (claim_all limit claims v).exposures ≡ some e
exposed_stays_all limit k [] v e h = h
exposed_stays_all limit k ((now, j) ∷ rest) v e h =
    exposed_stays_all limit k rest (claim_exposure limit now j v).1 e
      (exposed_stays limit now k j v e h)

-- However many claims commit, in whatever order and for whatever requests, a session is shown an
-- artifact inline at most `limit` times, if it was so before.
pub claim_all-limit :
    (limit : ℕ) (claims : List (String × Key)) (v : Vault) (session artifact : String)
    → inline_count session artifact v.exposures ≤ limit
    → inline_count session artifact (claim_all limit claims v).exposures ≤ limit
claim_all-limit limit [] v s a h = h
claim_all-limit limit ((now, k) ∷ rest) v s a h =
    claim_all-limit limit rest (claim_exposure limit now k v).1 s a
      (claim_exposure-limit limit now k v s a h)

-- What a claim has answered: a row that says so, or a refused preflight.
claim_answered :
    (limit : ℕ) (now : String) (k : Key) (v : Vault) (b : Bool)
    → (claim_exposure limit now k v).0 ≡ ok b
    → ((e : Exposure) × (exposure_of k (claim_exposure limit now k v).1.exposures ≡ some e)
        × (e.inline ≡ b))
      ⊎ ((b ≡ false) × (exposure_available limit k (claim_exposure limit now k v).1 ≡ false))
claim_answered limit now k v b h = elim (Option-cases (exposure_of k v.exposures)) [
  | inr (e, found) ↦
      inl (e, exposed_stays limit now k k v e found, unfold claim_exposure in ground arith)
  | inl absent ↦
      elim (Bool-cases (ltb (inline_count k.session_id k.artifact_id v.exposures) limit)) [
        | inr used ↦
            let refused : exposure_available limit k v ≡ false =
              unfold exposure_available in ground arith in
            inr (unfold claim_exposure in ground arith, denied_stays limit now k k v refused)
        | inl room ↦ inl (
          exposure k true now,
          unfold claim_exposure insert_exposure has_key same_exposure in
              ground (
                arith,
                exposure_of-append k v.exposures (exposure k true now),
                eq_iff k.session_id k.session_id,
                eq_iff k.artifact_id k.artifact_id,
                eq_iff k.request_id k.request_id,
              ),
          unfold claim_exposure insert_exposure in ground arith,
        )
      ]
]

claim_exposed :
    (limit : ℕ) (now : String) (k : Key) (v : Vault) (e : Exposure)
    → exposure_of k v.exposures ≡ some e
    → (claim_exposure limit now k v).0 ≡ ok e.inline
unfolding claim_exposure
claim_exposed limit now k v e h = ground arith

-- A claim is idempotent: once a request has its answer, a retry of the same request gets the same one,
-- whatever claims commit in between.
pub claim_exposure_idem :
    (limit : ℕ) (now later : String) (k : Key) (claims : List (String × Key)) (v : Vault) (b : Bool)
    → (claim_exposure limit now k v).0 ≡ ok b
    → (claim_exposure limit later k (claim_all limit claims (claim_exposure limit now k v).1)).0
      ≡ ok b
claim_exposure_idem limit now later k claims v b h =
    let w = (claim_exposure limit now k v).1 in
    elim (claim_answered limit now k v b h) [
      | inl (e, row, answer) ↦
          rw
            (claim_exposed limit later k (claim_all limit claims w) e
              (exposed_stays_all limit k claims w e row))
            (rw answer)
      | inr (answer, refused) ↦
          rw
            (claim_denied limit later k (claim_all limit claims w)
              (denied_stays_all limit k claims w refused))
            (rw answer)
    ]

-- The preflight is the answer that an immediate claim would get for an artifact on file.
pub exposure_available-claim :
    (limit : ℕ) (now : String) (k : Key) (v : Vault)
    → is_some (by_id k.artifact_id v.artifacts) ≡ true
    → (claim_exposure limit now k v).0 ≡ ok (exposure_available limit k v)
unfolding claim_exposure exposure_available insert_exposure
exposure_available-claim limit now k v filed = ground arith

-- Where the preflight of a request says no, no claim that commits in between, of any request, lets a later
-- claim of the request say yes.
claim_refused :
    (limit : ℕ) (now : String) (k : Key) (claims : List (String × Key)) (v : Vault)
    → exposure_available limit k v ≡ false
    → (claim_exposure limit now k (claim_all limit claims v)).0 ≡ ok false
claim_refused limit now k claims v refused = rw (
    claim_denied limit now k (claim_all limit claims v) (denied_stays_all limit k claims v refused))

exposure_of-update :
    (new : Exposure) (k : Key) (es : List Exposure) (e : Exposure)
    → exposure_of k es ≡ some e
    → exposure_of k (update_exposure new k es)
      ≡ some (record e { inline = e.inline || new.inline; exposed_at = new.exposed_at })
unfolding exposure_of update_exposure has_key same_exposure
exposure_of-update new k [] e h = absurd (ground arith)
exposure_of-update new k (f ∷ es) e h = ground (arith, exposure_of-update new k es e)

recorded_row :
    (now : String) (k : Key) (v : Vault)
    → is_some (by_id k.artifact_id v.artifacts) ≡ true
    → (e : Exposure) × (exposure_of k (record_exposure now k true v).1.exposures ≡ some e)
      × (e.inline ≡ true)
recorded_row now k v filed = elim (Option-cases (exposure_of k v.exposures)) [
  | inr (e, found) ↦ (
    record e { inline = e.inline || true; exposed_at = now },
    unfold record_exposure in
        ground (arith, exposure_of-update (exposure k true now) k v.exposures e),
    ground arith,
  )
  | inl absent ↦ (
    exposure k true now,
    unfold record_exposure insert_exposure has_key same_exposure in
        ground (
          arith,
          exposure_of-append k v.exposures (exposure k true now),
          eq_iff k.session_id k.session_id,
          eq_iff k.artifact_id k.artifact_id,
          eq_iff k.request_id k.request_id,
        ),
    refl,
  )
]

recorded_stays :
    (limit : ℕ) (now : String) (k : Key) (v : Vault) (e : Exposure)
    → exposure_of k v.exposures ≡ some e
    → e.inline ≡ true
    → exposure_available limit k (record_exposure now k false v).1 ≡ true
unfolding exposure_available record_exposure
recorded_stays limit now k v e found shown =
    ground (arith, exposure_of-update (exposure k false now) k v.exposures e)

-- A recorded inline exposure is final: after it every preflight of the request says inline, and so it
-- does where a later record says otherwise.
record_exposure-inline :
    (limit : ℕ) (now later : String) (k : Key) (v : Vault)
    → is_some (by_id k.artifact_id v.artifacts) ≡ true
    → let w = (record_exposure now k true v).1 in
      (exposure_available limit k w ≡ true)
      × (exposure_available limit k (record_exposure later k false w).1 ≡ true)
record_exposure-inline limit now later k v filed =
    let w = (record_exposure now k true v).1 in
    let (e, found, shown) = recorded_row now k v filed in
    (unfold exposure_available in ground arith, recorded_stays limit later k w e found shown)
