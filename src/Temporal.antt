-- ===== src/Temporal.antt =====
-- Temporal deltas, `TemporalDeltaReducer` of src/rtk_hermes_plus/temporal.py: a repeated terminal
-- result is replaced by its difference from the last one, once the new one is in the vault.
pub mod Exactness
use token_terminator.Common.{
  ℕ, ◌+◌, String, ◌+++◌, count, Bool, true, false, ◌&&◌, ◌||◌, not, Option, none, some, List, [],
  ◌∷◌, ◌++◌, ltb, leb, if◌then◌else◌, is_some, str_eq, take, Error, Result, ok, raise, key_error,
  integrity_error, strip, one_line,
}
use token_terminator.Common.Actions.{Action, pure, throw, gets, attempt, ◌>>=◌, ◌>>◌}
use token_terminator.Host.{Host, on_vault, tally}
use token_terminator.Vault.Tables.{Artifact, Snapshot, Vault, by_id}
use token_terminator.Vault.Put.{Limits, PutRequest, ArtifactPut, put_artifact, get_artifact}
use token_terminator.Vault.Leases.{Key, record_exposure}

-- The reducer's fields.
pub record Reducer : Type 0 where
  pub available : Bool
  pub min_chars : ℕ
  pub session_scoped : Bool

-- What a call brings: the `command` argument where it is a text, and the workspace and backend that
-- `command_workdir(args)` and `terminal_backend(args)` give. `args_json` is the arguments as stored.
pub record Observed : Type 0 where
  pub tool_name : String
  pub command : Option String
  pub cwd : String
  pub backend : String
  pub args_json : String
  pub result : String
  pub session_id : String
  pub tool_call_id : String

pub record Identity : Type 0 where
  pub state_key : String
  pub command : String
  pub cwd : String
  pub backend : String
  pub session_scope : String

-- SELECT artifact_id FROM terminal_snapshots WHERE state_key=?
unfoldable pub snapshot_at : String → List Snapshot → Option String
snapshot_at key [] = none
snapshot_at key (s ∷ ss) = if str_eq s.state_key key then some s.artifact_id else snapshot_at key ss

-- INSERT … ON CONFLICT(state_key) DO UPDATE SET every other column
unfoldable pub put_snapshot : Snapshot → List Snapshot → List Snapshot
put_snapshot s [] = s ∷ []
put_snapshot s (t ∷ ts) = if str_eq t.state_key s.state_key then s ∷ ts else t ∷ put_snapshot s ts

-- `_remember`, under the foreign key of `terminal_snapshots`.
unfoldable pub remember : Snapshot → Vault → Result (Unit {0}) × Vault
remember s v =
    if is_some (by_id s.artifact_id v.artifacts)
    then (ok tt, record v { snapshots = put_snapshot s v.snapshots })
    else (raise integrity_error, v)

abbrev pub exposure_key : Observed → Identity → String → String → Key
exposure_key o i artifact current = record {
  session_id = o.session_id;
  artifact_id = artifact;
  request_id = "temporal:" +++ i.state_key +++ ":" +++ current;
}

-- The parameters: the digest, `json.dumps` of the four identity fields, and the text of `difflib.unified_diff` between the two labels.
module _ (digest : String → String) (dumps : String → String → String → String → String)
    (diff : String → String → String → String → String) where
  unfoldable pub identity : Reducer → Observed → Option Identity
  identity red o = elim o.command [
    | none ↦ none
    | some text ↦
        if str_eq (strip text) ""
        then none
        else (let scope = if red.session_scoped then o.session_id else "" in
            some (record {
              state_key = digest (dumps (strip text) o.cwd o.backend scope);
              command = strip text;
              cwd = o.cwd;
              backend = o.backend;
              session_scope = scope;
            }))
  ]

  -- `_delta`
  unfoldable pub delta : String → String → String → String → String → String
  delta previous current previous_id current_id command =
      if str_eq previous current
      then "[Token Terminator temporal delta: no output changes since the previous execution | current="
        +++ current_id +++ " | previous=" +++ previous_id
        +++ " | recover exact current output with token_terminator action=artifact_get]"
      else (let short = take 80 (one_line command) in
          let label = if str_eq short "" then "terminal" else short in
          let text =
            diff previous current (label +++ " :: " +++ previous_id)
              (label +++ " :: " +++ current_id) in
          let header =
            "[Token Terminator temporal delta | current=" +++ current_id +++ " | previous="
            +++ previous_id +++ " | exact current output: token_terminator action=artifact_get]" in
          if str_eq text "" then header else header +++ "\n" +++ text)

  -- The inner `try`, whose `except KeyError` forgets the previous observation. The result is the
  -- previous id, where one is left, with the candidate.
  unfoldable pub compare_previous :
      Observed → Identity → Artifact → Option String → Action Host (Option (String × Option String))
  compare_previous o i current none = pure none
  compare_previous o i current (some previous_id) =
      if str_eq previous_id "" then pure (some (previous_id, none)) else (λ h.
        elim (get_artifact digest previous_id h.vault) [
          | ok previous ↦ (
            ok (
                some (
                  previous_id,
                  some (
                      delta previous.content o.result previous.artifact_id current.artifact_id
                        i.command),
                )),
            h,
          )
          | raise key_error ↦ (ok none, h)
          | raise e ↦ (raise e, h)
        ])

  unfoldable pub deliver :
      Observed
      → Identity
      → Artifact
      → Option (String × Option String)
      → String
      → Action Host (Option String)
  deliver o i current none now = do tally "temporal_baselines" 1; pure none
  deliver o i current (some (previous_id, none)) now = do tally "temporal_not_smaller" 1; pure none
  deliver o i current (some (previous_id, some candidate)) now =
      if str_eq candidate "" || leb (count o.result) (count candidate)
      then (do tally "temporal_not_smaller" 1; pure none)
      else do
        on_vault (record_exposure now (exposure_key o i previous_id current.artifact_id) false)
        on_vault
            (record_exposure now (exposure_key o i current.artifact_id current.artifact_id) false)
        tally "temporal_reduced" 1
        tally "temporal_raw_chars" (count o.result)
        tally "temporal_output_chars" (count candidate)
        pure (some candidate)

  unfoldable pub observe_again :
      String → Observed → Identity → Artifact → Action Host (Option String)
  observe_again now o i current = do
    previous_id ← gets (λ h. snapshot_at i.state_key h.vault.snapshots)
    candidate ← compare_previous o i current previous_id
    on_vault (
        remember (record {
          state_key = i.state_key;
          artifact_id = current.artifact_id;
          command = i.command;
          cwd = i.cwd;
          backend = i.backend;
          session_scope = i.session_scope;
          updated_at = now;
        }))
    deliver o i current candidate now

  unfoldable pub reduce : Limits → String → Observed → Identity → Action Host (Option String)
  reduce lim now o i = do
    stored ← on_vault (
        put_artifact digest lim now (record {
          content = o.result;
          tool_name = "terminal";
          args_json = o.args_json;
          session_id = o.session_id;
          tool_call_id = o.tool_call_id;
          pin_request_id = "";
        }))
    current ← on_vault (λ v. (get_artifact digest stored.artifact_id v, v))
    if not (str_eq current.content o.result) || not (str_eq current.sha256 stored.sha256)
        then (do tally "temporal_errors" 1; pure none)
        else observe_again now o i current

  unfoldable pub transform : Reducer → Limits → String → Observed → Action Host (Option String)
  transform red lim now o =
      if not red.available
        || not (str_eq o.tool_name "terminal")
        || ltb (count o.result) red.min_chars
      then pure none
      else elim (identity red o) [
        | none ↦ pure none
        | some i ↦ do
          tally "temporal_attempted" 1
          attempt (reduce lim now o i) (λ e. do tally "temporal_errors" 1; pure none)
      ]
