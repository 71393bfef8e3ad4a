-- ===== src/Vault/Writes.antt =====
-- `put_artifact` keeps the vault consistent and within its capacity, and what it wrote is read back.
use token_terminator.Common.{
  ℕ, ◌+◌, ◌≤◌, ◌<◌, String, ◌+++◌, count, len, ◌≡◌, refl, true, false, ◌||◌, none, [], ◌∷◌, ◌++◌,
  arith, All-map, All-append, inl, inr, ◌⊎◌, is_some, ok, raise, Result-cases, ◌∙◌, capacity_error,
  Error,
}
use token_terminator.Vault.Tables.{Artifact, Observation, Exposure, Snapshot, Vault, by_id, by_sha}
use token_terminator.Vault.Put.{
  Limits, PutRequest, insert_artifact, observe, pin, short_id, fresh_id, store_new, attach,
  prune_for_insert,
}
use token_terminator.Vault.Invariant.{
  OnFile, IsRow, IsConsistent, IsReady, prune-IsReady, bytes-append, append-IsKeyed, OnFile-append,
}

-- The row that `store_new` writes.
abbrev pub new_row : String → PutRequest → String → String → Artifact
new_row now req id sha = record {
  artifact_id = id;
  sha256 = sha;
  content = req.content;
  char_count = count req.content;
  byte_count = len req.content;
  tool_name = req.tool_name;
  args_json = req.args_json;
  created_at = now;
}

module _ (lim : Limits) (now : String) (req : PutRequest) (id sha : String) (v : Vault) where
  abbrev pub evicted : Vault
  evicted = (prune_for_insert lim v.total_artifact_bytes (len req.content) v).1

  abbrev pub left : ℕ
  left = (prune_for_insert lim v.total_artifact_bytes (len req.content) v).0

  pub store_new-ok :
      (w : Vault)
      → store_new lim now req id sha v ≡ ok w
      → (left + len req.content ≤ lim.max_vault_bytes)
        × (by_id id evicted.artifacts ≡ none)
        × (w ≡ record evicted {
          artifacts = evicted.artifacts ++ new_row now req id sha ∷ [];
          total_artifact_bytes = left + len req.content;
        })
  unfolding store_new insert_artifact
  store_new-ok w h = ground arith

  -- `store_new` fails for lack of room, or because a key is taken.
  pub store_new-raise :
      (e : Error)
      → store_new lim now req id sha v ≡ raise e
      → ((e ≡ capacity_error) × (lim.max_vault_bytes < left + len req.content))
        ⊎ ((is_some (by_id id evicted.artifacts) || is_some (by_sha sha evicted.artifacts)) ≡ true)
  unfolding store_new insert_artifact
  store_new-raise e h = ground arith

observe-ok :
    (o : Observation) (v w : Vault)
    → observe o v ≡ ok w
    → (w ≡ v)
      ⊎ (OnFile v.artifacts o.artifact_id
          × (w ≡ record v { observations = v.observations ++ o ∷ [] }))
unfolding observe
observe-ok o v w h = ground arith

pin-ok :
    (e : Exposure) (v w : Vault)
    → pin e v ≡ ok w
    → (w ≡ v)
      ⊎ (OnFile v.artifacts e.artifact_id × (w ≡ record v { exposures = v.exposures ++ e ∷ [] }))
unfolding pin
pin-ok e v w h = ground arith

abbrev pub observation : String → PutRequest → String → Observation
observation now req id = record {
  artifact_id = id;
  session_id = req.session_id;
  tool_call_id = req.tool_call_id;
  tool_name = req.tool_name;
  args_json = req.args_json;
  observed_at = now;
}

abbrev pub pinning : String → PutRequest → String → Exposure
pinning now req id = record {
  session_id = req.session_id;
  artifact_id = id;
  request_id = req.pin_request_id;
  inline = false;
  exposed_at = now;
}

pub attach-ok :
    (now : String) (req : PutRequest) (id : String) (v w : Vault)
    → attach now req id v ≡ ok w
    → (u : Vault) × (observe (observation now req id) v ≡ ok u)
      × ((w ≡ u) ⊎ (pin (pinning now req id) u ≡ ok w))
unfolding attach
attach-ok now req id v w h = elim (Result-cases (observe (observation now req id) v)) [
  | inl (u, observed) ↦ (u, observed, ground arith)
  | inr (e, failed) ↦ absurd (ground arith)
]

module _ (digest : String → String) where
  pub store_new-IsConsistent :
      (lim : Limits) (now : String) (req : PutRequest) (id : String) (v w : Vault)
      → IsConsistent digest v
      → (id ≡ short_id (digest req.content)) ⊎ (id ≡ ("a_" +++ digest req.content))
      → store_new lim now req id (digest req.content) v ≡ ok w
      → IsConsistent digest w
  store_new-IsConsistent lim now req id v w c named h =
      let row = new_row now req id (digest req.content) in
      let pruned = evicted lim now req id (digest req.content) v in
      let ready : IsReady digest _ pruned = prune-IsReady digest lim (len req.content) v c in
      let (fits, fresh, same) = store_new-ok lim now req id (digest req.content) v w h in
      rw same (record {
        accounted = record {
          keyed = append-IsKeyed pruned.artifacts row ready.accounted.keyed fresh;
          counted =
              omega
                (arith, bytes-append pruned.artifacts row, ready.accounted.counted, ready.total);
        };
        rows =
            All-append (IsRow digest) pruned.artifacts (row ∷ []) ready.rows
              (record { sha = refl; bytes = refl; chars = refl; named = named }, tt);
        observed =
            All-map (λ o. OnFile-append pruned.artifacts row o.artifact_id) pruned.observations
              ready.observed;
        exposed =
            All-map (λ (e : Exposure). OnFile-append pruned.artifacts row e.artifact_id)
              pruned.exposures ready.exposed;
        shown =
            All-map (λ (t : Snapshot). OnFile-append pruned.artifacts row t.artifact_id)
              pruned.snapshots ready.shown;
      })

  pub fresh_id_named :
      (sha : String) (v : Vault)
      → (fresh_id sha v ≡ short_id sha) ⊎ (fresh_id sha v ≡ ("a_" +++ sha))
  unfolding fresh_id
  fresh_id_named sha v = ground arith

  -- What `attach` may change: it adds observations and exposures, of rows on file.
  pub record IsAttached (v w : Vault) : Type 0 where
    pub consistent : IsConsistent digest w
    pub artifacts : w.artifacts ≡ v.artifacts
    pub total : w.total_artifact_bytes ≡ v.total_artifact_bytes
    pub snapshots : w.snapshots ≡ v.snapshots

  observe-IsAttached :
      (o : Observation) (v w : Vault) → IsConsistent digest v → observe o v ≡ ok w → IsAttached v w
  observe-IsAttached o v w c h = elim (observe-ok o v w h) [
    | inl same ↦
        rw same (record { consistent = c; artifacts = refl; total = refl; snapshots = refl })
    | inr (filed, added) ↦ rw added (record {
      consistent = record {
        accounted = record { keyed = c.accounted.keyed; counted = c.accounted.counted };
        rows = c.rows;
        observed =
            All-append (λ (p : Observation). OnFile v.artifacts p.artifact_id) v.observations
              (o ∷ []) c.observed (filed, tt);
        exposed = c.exposed;
        shown = c.shown;
      };
      artifacts = refl;
      total = refl;
      snapshots = refl;
    })
  ]

  pin-IsAttached :
      (e : Exposure) (v w : Vault) → IsConsistent digest v → pin e v ≡ ok w → IsAttached v w
  pin-IsAttached e v w c h = elim (pin-ok e v w h) [
    | inl same ↦
        rw same (record { consistent = c; artifacts = refl; total = refl; snapshots = refl })
    | inr (filed, added) ↦ rw added (record {
      consistent = record {
        accounted = record { keyed = c.accounted.keyed; counted = c.accounted.counted };
        rows = c.rows;
        observed = c.observed;
        exposed =
            All-append (λ (f : Exposure). OnFile v.artifacts f.artifact_id) v.exposures (e ∷ [])
              c.exposed (filed, tt);
        shown = c.shown;
      };
      artifacts = refl;
      total = refl;
      snapshots = refl;
    })
  ]

  pub attach-IsAttached :
      (now : String) (req : PutRequest) (id : String) (v w : Vault)
      → IsConsistent digest v
      → attach now req id v ≡ ok w
      → IsAttached v w
  attach-IsAttached now req id v w c h =
      let (u, observed, rest) = attach-ok now req id v w h in
      let first : IsAttached v u = observe-IsAttached _ v u c observed in
      elim rest [
        | inl same ↦ rw same first
        | inr pinned ↦
            let second : IsAttached u w = pin-IsAttached _ u w first.consistent pinned in
            record {
              consistent = second.consistent;
              artifacts = second.artifacts ∙ first.artifacts;
              total = second.total ∙ first.total;
              snapshots = second.snapshots ∙ first.snapshots;
            }
      ]
