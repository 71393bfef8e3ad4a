-- ===== src/Compress.antt =====
-- Native compression (src/rtk_hermes_plus/compress.py): `RecoveryStore.write`, `compact_text`, and
-- the acceptance of a compacted result, `NativeCompressor._finalize_transform`.
pub mod Runs
pub mod Bounds
pub mod Delivery
use Prim.Native.Char.{Char, code}
use Prim.Native.String as Chars
use token_terminator.Common.{
  ℕ, zero, suc, ◌+◌, ◌-◌, ◌*◌, ◌/◌, max, String, ◌+++◌, count, Bool, true, false, ◌&&◌, ◌||◌, not,
  Option, none, some, List, [], ◌∷◌, ◌++◌, ltb, leb, ◌==◌, if◌then◌else◌, str_eq, take, drop,
  splitlines, join, print, rstrip, lstrip_by, rstrip_by, Error, Result, ok, raise, runtime_error,
}
use token_terminator.Common.Actions.{Action, pure, throw, attempt, ◌>>=◌, ◌>>◌}
use token_terminator.Host.{Host, on_vault, tally}
use token_terminator.Vault.Put.{Limits, PutRequest, ArtifactPut, put_artifact, get_artifact}
use token_terminator.Vault.Leases.{Key, record_exposure}

abbrev escape_rest : Option ℕ → Option ℕ
escape_rest none = none
escape_rest (some n) = some (suc n)

-- The characters that "\[[0-?]*[ -/]*[@-~]" matches at the front: before the bracket (phase 0), in
-- its parameters (1), in its intermediates (2). The classes are disjoint, so it never backtracks.
unfoldable pub escape : ℕ → String → Option ℕ
escape phase Chars.[] = none
escape phase (Chars.◌∷◌ c s) =
    let n = code c in
    let in_parameters = escape_rest (escape 1 s) in
    let in_intermediates = escape_rest (escape 2 s) in
    if phase == 0
    then (if n == 91 then in_parameters else none)
    else if phase == 1 && leb 48 n && leb n 63
    then in_parameters
    else if leb 32 n && leb n 47
    then in_intermediates
    else if leb 64 n && leb n 126
    then some 1
    else none

-- ANSI.sub("", s), with the characters of a match that are still to be dropped
unfoldable pub without_ansi : ℕ → String → String
without_ansi skip Chars.[] = Chars.[]
without_ansi (suc skip) (Chars.◌∷◌ c s) = without_ansi skip s
without_ansi zero (Chars.◌∷◌ c s) =
    let kept = Chars.◌∷◌ c (without_ansi 0 s) in
    let skipping = λ (n : ℕ). without_ansi n s in
    if code c == 27 then (elim (escape 0 s) [ none ↦ kept | some n ↦ skipping n ]) else kept

-- [line] * count
unfoldable pub repeated : ℕ → String → List String
repeated zero line = []
repeated (suc n) line = line ∷ repeated n line

-- `_collapsed_line`
unfoldable pub collapsed_line : String → ℕ → String
collapsed_line line n =
    let original = join "\n" (repeated n line) in
    let collapsed = line +++ "  [repeated ×" +++ print n +++ "]" in
    if leb n 2
    then original
    else if ltb (count collapsed) (count original)
    then collapsed
    else original

-- The loop of `_collapse_consecutive`
unfoldable pub collapse_from : String → ℕ → List String → List String
collapse_from previous n [] = collapsed_line previous n ∷ []
collapse_from previous n (line ∷ lines) =
    let same = collapse_from previous (n + 1) lines in
    let other = collapse_from line 1 lines in
    if str_eq line previous then same else collapsed_line previous n ∷ other

unfoldable pub collapse_consecutive : List String → List String
collapse_consecutive [] = []
collapse_consecutive (line ∷ lines) = collapse_from line 1 lines

abbrev is_newline : Char → Bool
is_newline c = code c == 10

-- part for part in parts if part
unfoldable pub nonempty : List String → List String
nonempty [] = []
nonempty (s ∷ ss) = if str_eq s "" then nonempty ss else s ∷ nonempty ss

abbrev pub marker : String
marker = "… lines omitted …"

-- `int(n * 0.72)`: for the sizes of texts the double product rounds to the exact one where that is
-- whole, and is elsewhere too near to it to cross a whole number.
unfoldable pub head_share : ℕ → ℕ
head_share n = n * 72 / 100

-- The cut of a text that is longer than the bound: its head and tail around the marker. Where the
-- bound leaves room for one character beside the marker, the budget is -1 and so is `tail_chars`,
-- and `collapsed[-tail_chars:]` is `collapsed[1:]`.
unfoldable pub cut : ℕ → String → String
cut max_chars collapsed =
    if leb max_chars (count marker)
    then take max_chars marker
    else (let budget = max_chars - count marker - 2 in
        let head_chars = head_share budget in
        let tail_chars = budget - head_chars in
        let head = rstrip_by is_newline (take head_chars collapsed) in
        let tail =
          if max_chars == count marker + 1
          then lstrip_by is_newline (drop 1 collapsed)
          else if tail_chars == 0
          then ""
          else lstrip_by is_newline (drop (count collapsed - tail_chars) collapsed) in
        take max_chars (join "\n" (nonempty (head ∷ marker ∷ tail ∷ []))))

-- `compact_text`, for a bound of zero or more
unfoldable pub compact_text : String → ℕ → String
compact_text text max_chars =
    let bound = max 1 max_chars in
    let collapsed = join "\n" (collapse_consecutive (splitlines (without_ansi 0 text))) in
    if leb (count collapsed) bound then collapsed else cut bound collapsed

unfoldable pub note_text : String → String → String
note_text savings artifact_id =
    "[Token Terminator: " +++ savings +++ "% fewer characters; full artifact=" +++ artifact_id
    +++ "; recover with token_terminator action=artifact_get]"

-- The configuration that a compressor reads.
pub record Settings : Type 0 where
  pub native_enabled : Bool
  pub aggressive : Bool
  pub native_min_chars : ℕ
  pub native_max_chars : ℕ

-- A tool's result, and where it came from: `backend_on` is `backend_enabled(terminal_backend(args))`,
-- and `rtk_read` is what the external `rtk read` printed, where it succeeded, or what its
-- call raised past the code's `except`.
pub record Call : Type 0 where
  pub tool_name : String
  pub args_json : String
  pub result : String
  pub session_id : String
  pub tool_call_id : String
  pub backend_on : Bool
  pub rtk_read : Result (Option String)

abbrev pub whole : Call → PutRequest
whole c = record {
  content = c.result;
  tool_name = c.tool_name;
  args_json = c.args_json;
  session_id = c.session_id;
  tool_call_id = c.tool_call_id;
  pin_request_id = "";
}

unfoldable pub is_allowed : Settings → String → Bool
is_allowed settings tool =
    str_eq tool "search_files"
    || str_eq tool "process"
    || (settings.aggressive && str_eq tool "read_file")

unfoldable pub eligible : Settings → Call → Action Host Bool
eligible settings c =
    if not settings.native_enabled
      || not (is_allowed settings c.tool_name)
      || ltb (count c.result) settings.native_min_chars
    then pure false
    else if not c.backend_on
    then (do tally "native_skipped_backend" 1; pure false)
    else pure true

abbrev pub exposure_key : Call → String → Key
exposure_key c id = record {
  session_id = c.session_id;
  artifact_id = id;
  request_id = "tool:" +++ (if str_eq c.tool_call_id "" then id else c.tool_call_id);
}

-- The longest id that a content can have: "a_" + "0" * 64
abbrev pub longest_id : String
longest_id = "a_0000000000000000000000000000000000000000000000000000000000000000"

-- compact = self._rtk_read(args) for a file
abbrev pub read_first : Call → Result (Option String)
read_first c = if str_eq c.tool_name "read_file" then c.rtk_read else ok none

abbrev pub or_compact : Settings → Call → Result (Option String) → Result String
or_compact settings c (ok (some text)) = ok text
or_compact settings c (ok none) = ok (compact_text c.result settings.native_max_chars)
or_compact settings c (raise e) = raise e

-- The compacted text that `transform` proposes
unfoldable pub proposed : Settings → Call → Result String
proposed settings c = or_compact settings c (read_first c)

-- The parameters: the digest of the vault, and the text of Python's
-- `round((raw - delivered) / raw * 100, 1)`, a floating-point number.
module _ (digest : String → String) (percent : ℕ → ℕ → String) where
  -- One round of the loop of `_recovery_note`
  unfoldable pub savings_text : ℕ → ℕ → String → String → String
  savings_text raw compact id savings =
      if raw == 0 then "0.0" else percent raw (compact + 2 + count (note_text savings id))

  unfoldable pub recovery_note : ℕ → ℕ → String → String
  recovery_note raw compact id =
      let round = savings_text raw compact id in note_text (round (round (round "0.0"))) id

  unfoldable pub with_note : String → String → String → String
  with_note result compact id =
      rstrip compact +++ "\n\n" +++ recovery_note (count result) (count compact) id

  -- The `try` block of `write`
  unfoldable pub recover : Limits → String → PutRequest → Action Host (Option String)
  recover lim now req = do
    stored ← on_vault (put_artifact digest lim now req)
    recovered ← on_vault (λ v. (get_artifact digest stored.artifact_id v, v))
    if not (str_eq recovered.content req.content) || not (str_eq recovered.sha256 stored.sha256)
        then (do tally "recovery_errors" 1; pure none)
        else do
          tally
              (if stored.created then "recovery_artifacts_written" else "recovery_artifacts_reused")
              1
          pure (some stored.artifact_id)

  -- `RecoveryStore.write`, where the vault could be opened or not
  unfoldable pub write : Bool → Limits → String → PutRequest → Action Host (Option String)
  write available lim now req =
      if not available
      then (do tally "recovery_errors" 1; pure none)
      else attempt (recover lim now req) (λ e. do tally "recovery_errors" 1; pure none)

  -- The last steps of `_finalize_transform`: the exposure, whose exception leaves the result as it
  -- is, and the counters.
  unfoldable pub expose : String → Call → String → String → Action Host (Option String)
  expose now c transformed id = do
    on_vault (record_exposure now (exposure_key c id) false)
    tally "native_compressed" 1
    tally "native_raw_chars" (count c.result)
    tally "native_output_chars" (count transformed)
    pure (some transformed)

  -- From the artifact id on
  unfoldable pub deliver : String → Call → String → Option String → Action Host (Option String)
  deliver now c compact none = do tally "native_recovery_unavailable" 1; pure none
  deliver now c compact (some id) =
      let transformed = with_note c.result compact id in
      if leb (count c.result) (count transformed)
      then (do tally "native_not_smaller" 1; pure none)
      else attempt (expose now c transformed id)
          (λ e. do tally "native_recovery_unavailable" 1; pure none)

  -- `_finalize_transform`
  unfoldable pub finalize : Bool → Limits → String → Call → String → Action Host (Option String)
  finalize available lim now c compact =
      if str_eq compact "" || leb (count c.result) (count compact)
      then (do tally "native_not_smaller" 1; pure none)
      else if leb (count c.result) (count (with_note c.result compact longest_id))
      then (do tally "native_not_smaller" 1; pure none)
      else do id ← write available lim now (whole c); deliver now c compact id

  -- `NativeCompressor.transform`
  unfoldable pub transform : Settings → Bool → Limits → String → Call → Action Host (Option String)
  transform settings available lim now c = do
    allowed ← eligible settings c
    if not allowed then pure none else do
      tally "native_attempted" 1
      compact ← (λ h. (proposed settings c, h))
      finalize available lim now c compact
