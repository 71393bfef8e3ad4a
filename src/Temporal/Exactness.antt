-- ===== src/Temporal/Exactness.antt =====
-- What stands behind a delivered delta: it is shorter than the result that it replaces, and the
-- exact result is in the vault, pinned there.
use token_terminator.Common.{
  ◌<◌, String, count, ◌≡◌, refl, Bool, true, false, ◌||◌, not, Option, none, some, List, [], ◌∷◌,
  arith, ltb, leb, if◌then◌else◌, any, str_eq, eq_iff, ok, Bool-cases, Option-cases, Result-cases,
  inl, inr, ◌∙◌, ap, sym,
}
use token_terminator.Common.Actions.{continue-ok, pure, ◌>>◌}
use token_terminator.Vault.Tables.{Artifact, Snapshot, Vault, is_pinned, snapshot_of}
use token_terminator.Vault.Put.{Limits, PutRequest, put_artifact, get_artifact}
use token_terminator.Vault.Reads.{IsBacked, back_up, get_artifact-named}
use token_terminator.Vault.Leases.{Key, record_exposure, insert_exposure}
use token_terminator.Host.{Host, on_vault, tally}
use token_terminator.Temporal.{
  Reducer, Observed, Identity, snapshot_at, put_snapshot, remember, exposure_key, identity,
  compare_previous, deliver, observe_again, reduce, transform,
}

-- The row that `observe_again` remembers, and the request that `reduce` stores.
abbrev shown : String → Identity → Artifact → Snapshot
shown now i current = record {
  state_key = i.state_key;
  artifact_id = current.artifact_id;
  command = i.command;
  cwd = i.cwd;
  backend = i.backend;
  session_scope = i.session_scope;
  updated_at = now;
}

abbrev whole : Observed → PutRequest
whole o = record {
  content = o.result;
  tool_name = "terminal";
  args_json = o.args_json;
  session_id = o.session_id;
  tool_call_id = o.tool_call_id;
  pin_request_id = "";
}

-- A vault that keeps the artifacts and the snapshots of another.
record IsKept (v w : Vault) : Type 0 where
  artifacts : w.artifacts ≡ v.artifacts
  snapshots : w.snapshots ≡ v.snapshots

record_exposure-IsKept :
    (now : String) (k : Key) (inline : Bool) (v : Vault)
    → IsKept v (record_exposure now k inline v).1
unfolding record_exposure insert_exposure
record_exposure-IsKept now k inline v = record {
  artifacts = ground arith;
  snapshots = ground arith;
}

snapshots_name :
    (s : Snapshot) (ss : List Snapshot) → any (snapshot_of s.artifact_id) (put_snapshot s ss) ≡ true
unfolding put_snapshot
snapshots_name s [] = ground (arith, eq_iff s.artifact_id s.artifact_id)
snapshots_name s (t ∷ ts) = ground (arith, eq_iff s.artifact_id s.artifact_id, snapshots_name s ts)

put_snapshot-at :
    (s : Snapshot) (ss : List Snapshot)
    → snapshot_at s.state_key (put_snapshot s ss) ≡ some s.artifact_id
unfolding put_snapshot snapshot_at
put_snapshot-at s [] = ground (arith, eq_iff s.state_key s.state_key)
put_snapshot-at s (t ∷ ts) =
    ground
      (arith, eq_iff s.state_key s.state_key, eq_iff t.state_key s.state_key, put_snapshot-at s ts)

remember-pins :
    (s : Snapshot) (v : Vault)
    → (remember s v).0 ≡ ok tt
    → ((remember s v).1.artifacts ≡ v.artifacts)
      × (any (snapshot_of s.artifact_id) (remember s v).1.snapshots ≡ true)
      × (snapshot_at s.state_key (remember s v).1.snapshots ≡ some s.artifact_id)
unfolding remember
remember-pins s v h = ground (arith, snapshots_name s v.snapshots, put_snapshot-at s v.snapshots)

module _ (digest : String → String) (dumps : String → String → String → String → String)
    (diff : String → String → String → String → String) where
  -- A delivery that replaced the result: it is shorter, and the vault kept its artifacts and snapshots.
  deliver-some :
      (o : Observed) (i : Identity) (current : Artifact) (c : Option (String × Option String))
      (now : String) (h h' : Host) (text : String)
      → deliver digest dumps diff o i current c now h ≡ (ok (some text), h')
      → (count text < count o.result) × IsKept h.vault h'.vault
  unfolding deliver
  deliver-some o i current none now h h' text e = absurd (ground arith)
  deliver-some o i current (some (previous, none)) now h h' text e = absurd (ground arith)
  deliver-some o i current (some (previous, some candidate)) now h h' text e =
      let first = record_exposure now (exposure_key o i previous current.artifact_id) false in
      let second =
        record_exposure now (exposure_key o i current.artifact_id current.artifact_id) false in
      let kept : IsKept h.vault (first h.vault).1 =
        record_exposure-IsKept now (exposure_key o i previous current.artifact_id) false h.vault in
      let kept_again : IsKept (first h.vault).1 (second (first h.vault).1).1 =
        record_exposure-IsKept now (exposure_key o i current.artifact_id current.artifact_id) false
          (first h.vault).1 in
      elim (Bool-cases (str_eq candidate "" || leb (count o.result) (count candidate))) [
        | inl idle ↦ absurd (ground arith)
        | inr smaller ↦ elim (Result-cases (first h.vault).0) [
          | inr (x, failed) ↦ absurd (ground arith)
          | inl (_, done) ↦ elim (Result-cases (second (first h.vault).1).0) [
            | inr (x, failed) ↦ absurd (ground arith)
            | inl (_, done_again) ↦
                (ground arith, record { artifacts = ground arith; snapshots = ground arith })
          ]
        ]
      ]

  compare_previous-state :
      (o : Observed) (i : Identity) (current : Artifact) (previous : Option String) (h : Host)
      → (compare_previous digest dumps diff o i current previous h).1 ≡ h
  unfolding compare_previous
  compare_previous-state o i current none h = refl
  compare_previous-state o i current (some previous) h = ground arith

  observe_again-some :
      (now : String) (o : Observed) (i : Identity) (current : Artifact) (h h' : Host)
      (text : String)
      → observe_again digest dumps diff now o i current h ≡ (ok (some text), h')
      → (count text < count o.result)
        × (h'.vault.artifacts ≡ h.vault.artifacts)
        × (is_pinned h'.vault current.artifact_id ≡ true)
        × (snapshot_at i.state_key h'.vault.snapshots ≡ some current.artifact_id)
  unfolding observe_again
  observe_again-some now o i current h h' text e =
      let (c, compared, e1) =
        continue-ok
          (compare_previous digest dumps diff o i current
            (snapshot_at i.state_key h.vault.snapshots) h)
          _ (some text) h' e in
      let mid =
        (compare_previous digest dumps diff o i current (snapshot_at i.state_key h.vault.snapshots)
          h).1 in
      let same : mid ≡ h =
        compare_previous-state o i current (snapshot_at i.state_key h.vault.snapshots) h in
      let (u, remembered, e2) =
        continue-ok (on_vault (remember (shown now i current)) mid) _ (some text) h' e1 in
      let (artifacts, pinned, latest) = remember-pins (shown now i current) mid.vault remembered in
      let (shorter, kept) =
        deliver-some o i current c now (on_vault (remember (shown now i current)) mid).1 h' text
          e2 in
      (
        shorter,
        kept.artifacts ∙ artifacts ∙ ap (λ (x : Host). x.vault.artifacts) same,
        unfold is_pinned in rw kept.snapshots (rw pinned),
        rw kept.snapshots latest,
      )

  -- The exact result is backed by the artifact that the snapshot of the identity names.
  abbrev pub IsLatest : Observed → Identity → Vault → Type 0
  IsLatest o i v =
      (b : IsBacked digest o.result v) × (snapshot_at i.state_key v.snapshots
        ≡ some b.artifact.artifact_id)

  -- From the exact read on.
  read_again-some :
      (now : String) (o : Observed) (i : Identity) (id sha : String) (current : Artifact)
      (h h' : Host) (text : String)
      → get_artifact digest id h.vault ≡ ok current
      → (if not (str_eq current.content o.result) || not (str_eq current.sha256 sha)
            then (do tally "temporal_errors" 1; pure none)
            else observe_again digest dumps diff now o i current)
          h
        ≡ (ok (some text), h')
      → (count text < count o.result) × IsLatest o i h'.vault
  read_again-some now o i id sha current h h' text read e =
      elim (Bool-cases (not (str_eq current.content o.result) || not (str_eq current.sha256 sha))) [
        | inl differs ↦ absurd (ground arith)
        | inr exact ↦
            let (shorter, artifacts, pinned, latest) =
              observe_again-some now o i current h h' text (ground arith) in
            let (backed, named) =
              back_up digest o.result id h.vault h'.vault current read
                (ground (arith, eq_iff current.content o.result)) artifacts
                (rw (get_artifact-named digest id h.vault current read) at pinned) in
            (
              shorter,
              (backed, rw (named ∙ sym (get_artifact-named digest id h.vault current read)) latest),
            )
      ]

  -- A reduction that replaced the result.
  reduce-some :
      (lim : Limits) (now : String) (o : Observed) (i : Identity) (h h' : Host) (text : String)
      → reduce digest dumps diff lim now o i h ≡ (ok (some text), h')
      → (count text < count o.result) × IsLatest o i h'.vault
  unfolding reduce
  reduce-some lim now o i h h' text e =
      let (stored, put, e1) =
        continue-ok (on_vault (put_artifact digest lim now (whole o)) h) _ (some text) h' e in
      let mid = (on_vault (put_artifact digest lim now (whole o)) h).1 in
      let (current, read, e2) =
        continue-ok (get_artifact digest stored.artifact_id mid.vault, mid) _ (some text) h' e1 in
      read_again-some now o i stored.artifact_id stored.sha256 current mid h' text read e2

  -- A terminal result that a delta replaces is never lost: the delta is shorter than the result, the call has
  -- an identity, and after the call the snapshot of that identity names an artifact, pinned against
  -- eviction, that the vault reads back with exactly the result as its content.
  pub transform-IsBacked :
      (red : Reducer) (lim : Limits) (now : String) (o : Observed) (h h' : Host) (text : String)
      → transform digest dumps diff red lim now o h ≡ (ok (some text), h')
      → (count text < count o.result)
        × ((i : Identity) × (identity digest dumps diff red o ≡ some i) × IsLatest o i h'.vault)
  unfolding transform
  transform-IsBacked red lim now o h h' text e =
      elim (Bool-cases (
        not red.available
        || not (str_eq o.tool_name "terminal")
        || ltb (count o.result) red.min_chars)) [
          | inl idle ↦ absurd (ground arith)
          | inr eligible ↦ elim (Option-cases (identity digest dumps diff red o)) [
            | inl unknown ↦ absurd (ground arith)
            | inr (i, known) ↦
                let h1 = (tally "temporal_attempted" 1 h).1 in
                elim (Result-cases (reduce digest dumps diff lim now o i h1).0) [
                  | inr (x, failed) ↦ absurd (ground arith)
                  | inl (answer, done) ↦
                      let (shorter, latest) = reduce-some lim now o i h1 h' text (ground arith) in
                      (shorter, (i, known, latest))
                ]
          ]
        ]

  -- Whatever goes wrong, a call returns, and raises nothing to the host.
  transform-total :
      (red : Reducer) (lim : Limits) (now : String) (o : Observed) (h : Host)
      → (text : Option String) × ((transform digest dumps diff red lim now o h).0 ≡ ok text)
  unfolding transform
  transform-total red lim now o h =
      elim (Result-cases (transform digest dumps diff red lim now o h).0) [
        | inl done ↦ done
        | inr (e, failed) ↦ absurd (ground arith)
      ]
