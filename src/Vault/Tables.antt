-- ===== src/Vault/Tables.antt =====
-- The tables of the private SQLite vault (storage.py): rows as records, a table as a list of rows
-- in insertion order, and the statements that the store runs on them.
use Prim.Native.String.{compare}
use Prim.Native.Nat.{Ordering}
use token_terminator.Common.{
  ℕ, String, Bool, true, false, ◌||◌, Option, none, some, List, [], ◌∷◌, str_eq, if◌then◌else◌, any,
  filter,
}

-- A row of `artifacts`. `args_json` is the text that `_json(args or {})` wrote.
pub record Artifact : Type 0 where
  pub artifact_id : String
  pub sha256 : String
  pub content : String
  pub char_count : ℕ
  pub byte_count : ℕ
  pub tool_name : String
  pub args_json : String
  pub created_at : String

-- A row of `artifact_observations`.
pub record Observation : Type 0 where
  pub artifact_id : String
  pub session_id : String
  pub tool_call_id : String
  pub tool_name : String
  pub args_json : String
  pub observed_at : String

-- A row of `artifact_exposures`.
pub record Exposure : Type 0 where
  pub session_id : String
  pub artifact_id : String
  pub request_id : String
  pub inline : Bool
  pub exposed_at : String

-- A row of `terminal_snapshots`.
pub record Snapshot : Type 0 where
  pub state_key : String
  pub artifact_id : String
  pub command : String
  pub cwd : String
  pub backend : String
  pub session_scope : String
  pub updated_at : String

-- The tables of the vault that concern artifacts, with the three counters of `vault_meta`.
pub record Vault : Type 0 where
  pub artifacts : List Artifact
  pub observations : List Observation
  pub exposures : List Exposure
  pub snapshots : List Snapshot
  pub total_artifact_bytes : ℕ
  pub pruned_artifacts : ℕ
  pub pruned_bytes : ℕ

abbrev pub empty : Vault
empty = record {
  artifacts = [];
  observations = [];
  exposures = [];
  snapshots = [];
  total_artifact_bytes = 0;
  pruned_artifacts = 0;
  pruned_bytes = 0;
}

-- SELECT … FROM artifacts WHERE artifact_id=?
unfoldable pub by_id : String → List Artifact → Option Artifact
by_id id [] = none
by_id id (r ∷ rs) = if str_eq r.artifact_id id then some r else by_id id rs

-- SELECT … FROM artifacts WHERE sha256=?
unfoldable pub by_sha : String → List Artifact → Option Artifact
by_sha sha [] = none
by_sha sha (r ∷ rs) = if str_eq r.sha256 sha then some r else by_sha sha rs

-- DELETE FROM artifacts WHERE artifact_id=?
unfoldable pub without : String → List Artifact → List Artifact
without id [] = []
without id (r ∷ rs) = if str_eq r.artifact_id id then without id rs else r ∷ without id rs

abbrev pub names_artifact : String → Exposure → Bool
names_artifact id e = str_eq e.artifact_id id

abbrev pub observes : String → Observation → Bool
observes id o = str_eq o.artifact_id id

abbrev pub snapshot_of : String → Snapshot → Bool
snapshot_of id t = str_eq t.artifact_id id

-- The two `NOT EXISTS` of the eviction query, negated.
unfoldable pub is_pinned : Vault → String → Bool
is_pinned v id = any (snapshot_of id) v.snapshots || any (names_artifact id) v.exposures

-- The three `DELETE` statements of one eviction.
unfoldable pub delete_artifact : String → Vault → Vault
delete_artifact id v = record v {
  exposures = filter (λ e. if names_artifact id e then false else true) v.exposures;
  observations = filter (λ o. if observes id o then false else true) v.observations;
  artifacts = without id v.artifacts;
}

-- ORDER BY compares text by its code points.
abbrev pub text_lt : String → String → Bool
text_lt s t = elim (compare s t) [ Ordering.lt ↦ true | _ ↦ false ]

-- COALESCE(MAX(o.observed_at), a.created_at)
unfoldable pub latest : String → String → List Observation → Option String → Option String
latest id created [] found = found
latest id created (o ∷ os) found = latest id created os (
    if observes id o
    then some (elim found [
      | none ↦ o.observed_at
      | some t ↦ if text_lt t o.observed_at then o.observed_at else t
    ])
    else found)

unfoldable pub last_observed : Vault → Artifact → String
unfolding latest
last_observed v r = elim (latest r.artifact_id r.created_at v.observations none) [
  | none ↦ r.created_at
  | some t ↦ t
]

-- ORDER BY last_observed ASC, a.created_at ASC, a.artifact_id ASC
unfoldable pub comes_before : Vault → Artifact → Artifact → Bool
unfolding last_observed
comes_before v a b =
    if text_lt (last_observed v a) (last_observed v b)
    then true
    else if text_lt (last_observed v b) (last_observed v a)
    then false
    else if text_lt a.created_at b.created_at
    then true
    else if text_lt b.created_at a.created_at
    then false
    else text_lt a.artifact_id b.artifact_id

unfoldable pub insert_sorted : Vault → Artifact → List Artifact → List Artifact
insert_sorted v a [] = a ∷ []
insert_sorted v a (b ∷ bs) = if comes_before v b a then b ∷ insert_sorted v a bs else a ∷ b ∷ bs

unfoldable pub sort : Vault → List Artifact → List Artifact
unfolding insert_sorted comes_before
sort v [] = []
sort v (a ∷ rest) = insert_sorted v a (sort v rest)
