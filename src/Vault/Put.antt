-- ===== src/Vault/Put.antt =====
-- Writing and reading artifacts (storage.py): eviction, `put_artifact`, `get_artifact` and
-- `read_artifact`. A write runs in one transaction: an exception rolls every statement back.
use token_terminator.Common.{
  ℕ, ◌+◌, ◌-◌, ◌*◌, ◌/◌, min, max, String, ◌+++◌, count, len, Bool, true, false, ◌&&◌, ◌||◌, none,
  some, List, [], ◌∷◌, ◌++◌, ltb, leb, ◌==◌, if◌then◌else◌, is_some, any, filter, str_eq, take,
  Result, ok, raise, capacity_error, key_error, value_error, integrity_error, ◌>>=◌, ◌>>◌, raise_if,
}
use token_terminator.Vault.Tables.{
  Artifact, Observation, Exposure, Vault, by_id, by_sha, delete_artifact, is_pinned, sort,
}

-- The bounds that `TokenTerminatorStore.__init__` keeps.
pub record Limits : Type 0 where
  pub max_artifact_chars : ℕ
  pub max_vault_bytes : ℕ
  pub max_page_chars : ℕ
  pub high_water_pct : ℕ
  pub low_water_pct : ℕ

-- `TokenTerminatorStore.__init__` on arguments of zero or more (a negative one acts as zero).
unfoldable pub open_limits : ℕ → ℕ → ℕ → ℕ → ℕ → Limits
open_limits artifact_chars vault_bytes page_chars high low = record {
  max_artifact_chars = max 1 artifact_chars;
  max_vault_bytes = max 1 vault_bytes;
  max_page_chars = max 1 page_chars;
  high_water_pct = min 100 (max 1 high);
  low_water_pct = min (min 100 (max 1 high) - 1) low;
}

-- The variables of the eviction loop.
pub record Pruning : Type 0 where
  pub vault : Vault
  pub current_bytes : ℕ
  pub removed_artifacts : ℕ
  pub removed_bytes : ℕ

unfoldable pub evict : Artifact → Pruning → Pruning
evict r p = record {
  vault = delete_artifact r.artifact_id p.vault;
  current_bytes = p.current_bytes - r.byte_count;
  removed_artifacts = p.removed_artifacts + 1;
  removed_bytes = p.removed_bytes + r.byte_count;
}

-- `for row in rows`, which breaks once the target is met.
unfoldable pub prune_loop : ℕ → List Artifact → Pruning → Pruning
prune_loop target [] p = p
prune_loop target (r ∷ rs) p =
    if leb p.current_bytes target then p else prune_loop target rs (evict r p)

-- The rows of the eviction query.
unfoldable pub candidates : Vault → List Artifact
candidates v = sort v (filter (λ r. if is_pinned v r.artifact_id then false else true) v.artifacts)

-- The `_set_meta_int` calls after the loop.
unfoldable pub book_pruning : Pruning → Vault
book_pruning p = if p.removed_artifacts == 0 then p.vault else record p.vault {
  total_artifact_bytes = p.current_bytes;
  pruned_artifacts = p.vault.pruned_artifacts + p.removed_artifacts;
  pruned_bytes = p.vault.pruned_bytes + p.removed_bytes;
}

-- `_prune_for_insert`, which returns the bytes that are left.
unfoldable pub prune_for_insert : Limits → ℕ → ℕ → Vault → ℕ × Vault
unfolding candidates
prune_for_insert lim current incoming v =
    if leb (current + incoming) (max 1 (lim.max_vault_bytes * lim.high_water_pct / 100))
    then (current, v)
    else (let p =
          prune_loop (lim.max_vault_bytes * lim.low_water_pct / 100 - incoming) (candidates v)
            (record {
              vault = v;
              current_bytes = current;
              removed_artifacts = 0;
              removed_bytes = 0;
            }) in
        (p.current_bytes, book_pruning p))

-- The arguments of `put_artifact`; an empty `pin_request_id` pins nothing.
pub record PutRequest : Type 0 where
  pub content : String
  pub tool_name : String
  pub args_json : String
  pub session_id : String
  pub tool_call_id : String
  pub pin_request_id : String

pub record ArtifactPut : Type 0 where
  pub artifact_id : String
  pub created : Bool
  pub sha256 : String

-- INSERT INTO artifacts, whose id and digest are unique.
unfoldable pub insert_artifact : Artifact → Vault → Result Vault
insert_artifact r v =
    if is_some (by_id r.artifact_id v.artifacts) || is_some (by_sha r.sha256 v.artifacts)
    then raise integrity_error
    else ok (record v { artifacts = v.artifacts ++ r ∷ [] })

unfoldable pub same_observation : Observation → Observation → Bool
same_observation o p =
    str_eq o.artifact_id p.artifact_id
    && str_eq o.session_id p.session_id
    && str_eq o.tool_call_id p.tool_call_id
    && str_eq o.tool_name p.tool_name
    && str_eq o.args_json p.args_json

-- INSERT OR IGNORE INTO artifact_observations, under its foreign key.
unfoldable pub observe : Observation → Vault → Result Vault
observe o v =
    if any (same_observation o) v.observations
    then ok v
    else if is_some (by_id o.artifact_id v.artifacts)
    then ok (record v { observations = v.observations ++ o ∷ [] })
    else raise integrity_error

-- The primary key of `artifact_exposures`.
unfoldable pub same_exposure : String → String → String → Exposure → Bool
same_exposure session artifact request e =
    str_eq e.session_id session && str_eq e.artifact_id artifact && str_eq e.request_id request

-- INSERT INTO artifact_exposures … ON CONFLICT DO NOTHING
unfoldable pub pin : Exposure → Vault → Result Vault
unfolding same_exposure
pin e v =
    if any (same_exposure e.session_id e.artifact_id e.request_id) v.exposures
    then ok v
    else if is_some (by_id e.artifact_id v.artifacts)
    then ok (record v { exposures = v.exposures ++ e ∷ [] })
    else raise integrity_error

-- `with self.connection(write=True)`: commit on success, roll back on an exception.
abbrev pub commit {ℓ} : {A : Type ℓ} → Vault → Result (A × Vault) → Result A × Vault
commit v (ok (a, v')) = (ok a, v')
commit v (raise e) = (raise e, v)

-- `_artifact_id`
unfoldable pub short_id : String → String
short_id sha = "a_" +++ take 32 sha

-- The id for a new row: the whole digest where another content holds the short one.
unfoldable pub fresh_id : String → Vault → String
fresh_id sha v = elim (by_id (short_id sha) v.artifacts) [
  | none ↦ short_id sha
  | some r ↦ if str_eq r.sha256 sha then short_id sha else "a_" +++ sha
]

-- The branch of `put_artifact` for a content that has no row yet.
unfoldable pub store_new : Limits → String → PutRequest → String → String → Vault → Result Vault
store_new lim now req id sha v =
    let (current, pruned) = prune_for_insert lim v.total_artifact_bytes (len req.content) v in
    do
      raise_if (ltb lim.max_vault_bytes (current + len req.content)) capacity_error
      stored ←
          insert_artifact
            (record {
              artifact_id = id;
              sha256 = sha;
              content = req.content;
              char_count = count req.content;
              byte_count = len req.content;
              tool_name = req.tool_name;
              args_json = req.args_json;
              created_at = now;
            })
            pruned
      ok (record stored { total_artifact_bytes = current + len req.content })

-- The observation and the pin, which follow either branch.
unfoldable pub attach : String → PutRequest → String → Vault → Result Vault
attach now req id v = do
  observed ←
      observe
        (record {
          artifact_id = id;
          session_id = req.session_id;
          tool_call_id = req.tool_call_id;
          tool_name = req.tool_name;
          args_json = req.args_json;
          observed_at = now;
        })
        v
  if str_eq req.pin_request_id ""
      then ok observed
      else pin
          (record {
            session_id = req.session_id;
            artifact_id = id;
            request_id = req.pin_request_id;
            inline = false;
            exposed_at = now;
          })
          observed

-- The digest is hashlib's; a hexadecimal text.
module _ (digest : String → String) where
  unfoldable pub put_body : Limits → String → PutRequest → Vault → Result (ArtifactPut × Vault)
  put_body lim now req v =
      let sha = digest req.content in
      elim (by_sha sha v.artifacts) [
        | none ↦ do
          stored ← store_new lim now req (fresh_id sha v) sha v
          attached ← attach now req (fresh_id sha v) stored
          ok (record { artifact_id = fresh_id sha v; created = true; sha256 = sha }, attached)
        | some r ↦ do
          attached ← attach now req r.artifact_id v
          ok (record { artifact_id = r.artifact_id; created = false; sha256 = sha }, attached)
      ]

  -- `now` is `_utc_now()` at the call.
  unfoldable pub put_artifact : Limits → String → PutRequest → Vault → Result ArtifactPut × Vault
  put_artifact lim now req v =
      if ltb lim.max_artifact_chars (count req.content)
      then (raise capacity_error, v)
      else commit v (put_body lim now req v)

  -- The integrity test of `get_artifact`.
  unfoldable pub is_intact : String → Artifact → Bool
  is_intact id r =
      str_eq (digest r.content) r.sha256
      && (str_eq id (short_id (digest r.content)) || str_eq id ("a_" +++ digest r.content))
      && len r.content == r.byte_count
      && count r.content == r.char_count

  unfoldable pub get_artifact : String → Vault → Result Artifact
  get_artifact id v = elim (by_id id v.artifacts) [
    | none ↦ raise key_error
    | some r ↦ if is_intact id r then ok r else raise value_error
  ]
