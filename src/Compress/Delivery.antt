-- ===== src/Compress/Delivery.antt =====
-- What stands behind a compressed result: it is shorter than the result that it replaces, and the
-- exact result is in the vault, pinned there.
use token_terminator.Common.{
  ℕ, ◌<◌, String, count, ◌≡◌, refl, Bool, true, false, ◌||◌, not, Option, none, some, List, [], ◌∷◌,
  ◌++◌, arith, leb, leb→lt, is_some, any, str_eq, eq_iff, Error, ok, raise, ◌⊎◌, Bool-cases,
  Result-cases, inl, inr, subst,
}
use token_terminator.Common.Actions.{continue-ok}
use token_terminator.Vault.Tables.{Artifact, Exposure, Vault, is_pinned, names_artifact}
use token_terminator.Vault.Put.{Limits, PutRequest, put_artifact, get_artifact, same_exposure}
use token_terminator.Vault.Reads.{IsBacked, back_up}
use token_terminator.Vault.Leases.{
  Key, record_exposure, insert_exposure, exposure, exposure_of, update_exposure, has_key,
}
use token_terminator.Host.{Host, on_vault, tally}
use token_terminator.Compress.{
  Call, Settings, whole, eligible, exposure_key, with_note, recover, write, expose, deliver,
  finalize, transform, longest_id, proposed,
}

any-update_exposure :
    (new : Exposure) (k : Key) (es : List Exposure)
    → is_some (exposure_of k es) ≡ true
    → any (names_artifact k.artifact_id) (update_exposure new k es) ≡ true
unfolding exposure_of update_exposure has_key same_exposure
any-update_exposure new k [] h = absurd (ground arith)
any-update_exposure new k (e ∷ es) h = ground (arith, any-update_exposure new k es)

update_exposure-filed :
    (new : Exposure) (k : Key) (es : List Exposure)
    → is_some (exposure_of k es) ≡ true
    → is_some (exposure_of k (update_exposure new k es)) ≡ true
unfolding exposure_of update_exposure has_key same_exposure
update_exposure-filed new k [] h = h
update_exposure-filed new k (e ∷ es) h = ground (arith, update_exposure-filed new k es)

append-filed :
    (k : Key) (e : Exposure) (es : List Exposure)
    → has_key k e ≡ true
    → is_some (exposure_of k (es ++ e ∷ [])) ≡ true
unfolding exposure_of
append-filed k e [] h = rw h refl
append-filed k e (d ∷ es) h = ground (arith, append-filed k e es h)

exposure-has_key :
    (k : Key) (inline : Bool) (now : String) → has_key k (exposure k inline now) ≡ true
unfolding has_key same_exposure
exposure-has_key k inline now = ground (
  arith,
  eq_iff k.session_id k.session_id,
  eq_iff k.artifact_id k.artifact_id,
  eq_iff k.request_id k.request_id,
)

any-append {ℓ} :
    {A : Type ℓ} (test : A → Bool) (xs : List A) (x : A)
    → any test (xs ++ x ∷ []) ≡ any test xs || test x
any-append test [] x = ground arith
any-append test (y ∷ ys) x = ground (arith, any-append test ys x)

record_exposure-pins :
    (now : String) (k : Key) (inline : Bool) (v : Vault)
    → (record_exposure now k inline v).0 ≡ ok tt
    → ((record_exposure now k inline v).1.artifacts ≡ v.artifacts)
      × (is_pinned (record_exposure now k inline v).1 k.artifact_id ≡ true)
      × (is_some (exposure_of k (record_exposure now k inline v).1.exposures) ≡ true)
unfolding record_exposure insert_exposure is_pinned
record_exposure-pins now k inline v h = (
  ground arith,
  ground (
    arith,
    any-update_exposure (exposure k inline now) k v.exposures,
    any-append (names_artifact k.artifact_id) v.exposures (exposure k inline now),
    eq_iff k.artifact_id k.artifact_id,
  ),
  ground (
    arith,
    update_exposure-filed (exposure k inline now) k v.exposures,
    append-filed k (exposure k inline now) v.exposures (exposure-has_key k inline now),
  ),
)

module _ (digest : String → String) (percent : ℕ → ℕ → String) where
  -- An id that `write` returns reads back the exact content.
  recover-some :
      (lim : Limits) (now : String) (req : PutRequest) (h h' : Host) (id : String)
      → recover digest percent lim now req h ≡ (ok (some id), h')
      → (r : Artifact) × (get_artifact digest id h'.vault ≡ ok r) × (r.content ≡ req.content)
  unfolding recover
  recover-some lim now req h h' id e =
      let (stored, put, e1) =
        continue-ok (on_vault (put_artifact digest lim now req) h) _ (some id) h' e in
      let mid = (on_vault (put_artifact digest lim now req) h).1 in
      let (r, read, e2) =
        continue-ok (get_artifact digest stored.artifact_id mid.vault, mid) _ (some id) h' e1 in
      elim (Bool-cases
        (not (str_eq r.content req.content) || not (str_eq r.sha256 stored.sha256))) [
          | inl differs ↦ absurd (ground arith)
          | inr exact ↦
              let named : stored.artifact_id ≡ id = ground arith in
              let kept : mid.vault ≡ h'.vault = ground arith in
              (
                r,
                subst (λ x. get_artifact digest x h'.vault ≡ ok r) named
                    (subst (λ v. get_artifact digest stored.artifact_id v ≡ ok r) kept read),
                ground (arith, eq_iff r.content req.content),
              )
        ]

  write-some :
      (available : Bool) (lim : Limits) (now : String) (req : PutRequest) (h h' : Host)
      (id : String)
      → write digest percent available lim now req h ≡ (ok (some id), h')
      → (r : Artifact) × (get_artifact digest id h'.vault ≡ ok r) × (r.content ≡ req.content)
  unfolding write
  write-some available lim now req h h' id e = elim (Bool-cases available) [
    | inr closed ↦ absurd (ground arith)
    | inl open_vault ↦ elim (Result-cases (recover digest percent lim now req h).0) [
      | inr (x, failed) ↦ absurd (ground arith)
      | inl (answer, done) ↦ recover-some lim now req h h' id (ground arith)
    ]
  ]

  expose-some :
      (now : String) (c : Call) (transformed id text : String) (h h' : Host)
      → expose digest percent now c transformed id h ≡ (ok (some text), h')
      → (text ≡ transformed)
        × (h'.vault.artifacts ≡ h.vault.artifacts)
        × (is_pinned h'.vault id ≡ true)
        × (is_some (exposure_of (exposure_key c id) h'.vault.exposures) ≡ true)
  unfolding expose
  expose-some now c transformed id text h h' e =
      let exposed = on_vault (record_exposure now (exposure_key c id) false) h in
      let (u, done, e1) = continue-ok exposed _ (some text) h' e in
      let (artifacts, pinned, filed) =
        record_exposure-pins now (exposure_key c id) false h.vault done in
      let kept : exposed.1.vault ≡ h'.vault = ground arith in
      (
        ground arith,
        subst (λ (v : Vault). v.artifacts ≡ h.vault.artifacts) kept artifacts,
        subst (λ (v : Vault). is_pinned v id ≡ true) kept pinned,
        subst (λ (v : Vault). is_some (exposure_of (exposure_key c id) v.exposures) ≡ true) kept
            filed,
      )

  deliver-some :
      (now : String) (c : Call) (compact text : String) (id : Option String) (h h' : Host)
      → deliver digest percent now c compact id h ≡ (ok (some text), h')
      → (i : String) × (id ≡ some i)
        × (text ≡ with_note digest percent c.result compact i)
        × (count text < count c.result)
        × (h'.vault.artifacts ≡ h.vault.artifacts)
        × (is_pinned h'.vault i ≡ true)
        × (is_some (exposure_of (exposure_key c i) h'.vault.exposures) ≡ true)
  unfolding deliver
  deliver-some now c compact text none h h' e = absurd (ground arith)
  deliver-some now c compact text (some i) h h' e =
      let transformed = with_note digest percent c.result compact i in
      elim (Bool-cases (leb (count c.result) (count transformed))) [
        | inl longer ↦ absurd (ground arith)
        | inr shorter ↦ elim (Result-cases (expose digest percent now c transformed i h).0) [
          | inr (x, failed) ↦ absurd (ground arith)
          | inl (answer, done) ↦
              let (same, artifacts, pinned, filed) =
                expose-some now c transformed i text h h' (ground arith) in
              (i, refl, same, rw same (leb→lt _ _ shorter), artifacts, pinned, filed)
        ]
      ]

  -- A delivered text and what stands behind it: the text is some shorter one with a note that names
  -- an artifact, which is the exact result, and the exposure of this call is on file for it.
  pub record IsDelivered (c : Call) (text : String) (v : Vault) : Type 0 where
    pub compact : String
    pub backed : IsBacked digest c.result v
    pub noted : text ≡ with_note digest percent c.result compact backed.artifact.artifact_id
    pub shorter : count text < count c.result
    pub exposed :
        is_some (exposure_of (exposure_key c backed.artifact.artifact_id) v.exposures) ≡ true

  finalize-IsDelivered :
      (available : Bool) (lim : Limits) (now : String) (c : Call) (compact text : String)
      (h h' : Host)
      → finalize digest percent available lim now c compact h ≡ (ok (some text), h')
      → IsDelivered c text h'.vault
  unfolding finalize
  finalize-IsDelivered available lim now c compact text h h' e =
      elim (Bool-cases (str_eq compact "" || leb (count c.result) (count compact))) [
        | inl idle ↦ absurd (ground arith)
        | inr smaller ↦
            elim (Bool-cases (
              leb (count c.result)
                (count (with_note digest percent c.result compact longest_id)))) [
                  | inl bloated ↦ absurd (ground arith)
                  | inr fits ↦
                      let written = write digest percent available lim now (whole c) h in
                      let (id, wrote, e1) =
                        continue-ok written (deliver digest percent now c compact) (some text) h'
                          (ground arith) in
                      let (i, known, noted, shorter, artifacts, pinned, filed) =
                        deliver-some now c compact text id written.1 h' e1 in
                      let (r, read, exact) =
                        write-some available lim now (whole c) h written.1 i (ground arith) in
                      let (backed, named) =
                        back_up digest c.result i written.1.vault h'.vault r read exact artifacts
                          pinned in
                      record {
                        compact = compact;
                        backed = backed;
                        noted = rw named noted;
                        shorter = shorter;
                        exposed = rw named filed;
                      }
                ]
      ]

  eligible-ok :
      (settings : Settings) (c : Call) (h : Host) → (b : Bool) × ((eligible settings c h).0 ≡ ok b)
  unfolding eligible
  eligible-ok settings c h = elim (Result-cases (eligible settings c h).0) [
    | inl done ↦ done
    | inr (e, failed) ↦ absurd (ground arith)
  ]

  -- A compressed tool result is shorter than the result that it replaces, it ends with the note of the
  -- artifact that recovers it, and after the call the vault reads back, under that artifact's id, exactly
  -- the result; the artifact is pinned against eviction, and the exposure of this session and tool call
  -- is on file for it.
  pub compress-IsDelivered :
      (settings : Settings) (available : Bool) (lim : Limits) (now : String) (c : Call)
      (text : String) (h h' : Host)
      → transform digest percent settings available lim now c h ≡ (ok (some text), h')
      → IsDelivered c text h'.vault
  unfolding transform
  compress-IsDelivered settings available lim now c text h h' e =
      let (allowed, known, e1) = continue-ok (eligible settings c h) _ (some text) h' e in
      elim (Bool-cases allowed) [
        | inr refused ↦ absurd (ground arith)
        | inl granted ↦
            let tried = (tally "native_attempted" 1 (eligible settings c h).1).1 in
            let (compact, offered, e2) =
              continue-ok (proposed settings c, tried) (finalize digest percent available lim now c)
                (some text) h' (ground arith) in
            finalize-IsDelivered available lim now c compact text tried h' e2
      ]

  proposed-raise :
      (settings : Settings) (c : Call) (e : Error)
      → proposed settings c ≡ raise e
      → (str_eq c.tool_name "read_file" ≡ true) × (c.rtk_read ≡ raise e)
  unfolding proposed
  proposed-raise settings c e h = elim (Bool-cases (str_eq c.tool_name "read_file")) [
    | inr other ↦ absurd (ground arith)
    | inl file ↦ elim (Result-cases c.rtk_read) [
      | inr (x, failed) ↦ ground arith
      | inl (none, read) ↦ absurd (ground arith)
      | inl (some text, read) ↦ absurd (ground arith)
    ]
  ]

  -- Whatever goes wrong, in the vault or its absence, a call returns, and raises nothing to the host, but for
  -- one exception: what the external read of a file raises past the code's own handler.
  pub compress-total :
      (settings : Settings) (available : Bool) (lim : Limits) (now : String) (c : Call) (h : Host)
      → ((text : Option String) × ((transform digest percent settings available lim now c h).0
            ≡ ok text))
        ⊎ ((e : Error) × ((transform digest percent settings available lim now c h).0 ≡ raise e)
            × (str_eq c.tool_name "read_file" ≡ true)
            × (c.rtk_read ≡ raise e))
  unfolding transform eligible finalize write deliver
  compress-total settings available lim now c h =
      elim (Result-cases (transform digest percent settings available lim now c h).0) [
        | inl done ↦ inl done
        | inr (e, failed) ↦ elim (Result-cases (proposed settings c)) [
          | inl (text, offered) ↦ absurd (ground arith)
          | inr (x, broken) ↦
              let same : proposed settings c ≡ raise e = ground arith in
              let (file, raised) = proposed-raise settings c e same in inr (e, failed, file, raised)
        ]
      ]
