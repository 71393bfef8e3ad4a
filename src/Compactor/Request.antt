-- ===== src/Compactor/Request.antt =====
-- `ContextCompactor.compact` (context_compactor.py): the two modes, the strict reduction and the failure
-- that leaves the request as it was.
use Prim.Native.Char.{Char}
use token_terminator.Common.{
  ℕ, ◌-◌, String, count, Bool, true, false, ◌||◌, Option, none, some, length, ltb, leb,
  if◌then◌else◌, str_eq, Result, ok, raise,
}
use token_terminator.Common.Actions.{Action, pure, attempt, ◌>>=◌}
use token_terminator.Json.{
  Number, whole, Value, null, boolean, number, text, array, object, Items, nil, Fields, end, field,
  get, has, set,
}
use token_terminator.Vault.Tables.{Vault}
use token_terminator.Compactor.Turns.{
  Mode, Compactor, mode_of, size, is_user, is_user_item, turn_starts, start_at,
}
use token_terminator.Compactor.Vaulting.{Session, vault_items}
use token_terminator.Compactor.Collapse.{collapse_phase}

-- `CompactionResult`, without the text of the error
pub record CompactionResult : Type 0 where
  pub request : Value
  pub raw_chars : ℕ
  pub compacted_chars : ℕ
  pub saved_chars : ℕ
  pub vaulted_results : Number
  pub collapsed_turns : Number
  pub failed_open : Bool

-- value.pop(key), for the dictionary that stays (its keys are distinct)
unfoldable pub without : String → Fields → Fields
without key end = end
without key (field k v rest) =
    if str_eq k key then without key rest else field k v (without key rest)

-- value.pop(key, 0)
unfoldable pub popped : String → Fields → Value
popped key fs = if has key fs then get key fs else number (whole 0)

-- The two internal counts, on a request and off it
unfoldable pub put_counts : ℕ → ℕ → Fields → Fields
put_counts vaulted collapsed fs =
    set "_tt_collapsed" (number (whole collapsed)) (set "_tt_vaulted" (number (whole vaulted)) fs)

unfoldable pub pop_counts : Fields → Fields
pop_counts fs = without "_tt_collapsed" (without "_tt_vaulted" fs)

-- What a mode returns: the request that it was given, or a copy of it that it changed.
pub data Outcome : Type 0 where
  same : Outcome
  changed : Fields → Outcome

-- The items of a mode, its key, and its test of a user message
unfoldable pub items_in : Mode → Fields → Items
items_in Mode.messages fs = elim (get "messages" fs) [ array xs ↦ xs | _ ↦ nil ]
items_in Mode.responses fs = elim (get "input" fs) [ array xs ↦ xs | _ ↦ nil ]

abbrev pub items_key : Mode → String
items_key Mode.messages = "messages"
items_key Mode.responses = "input"

abbrev pub starts_turn : Mode → Value → Bool
starts_turn Mode.messages = is_user
starts_turn Mode.responses = is_user_item

-- The request with its new items and the two counts
unfoldable pub outcome_of : Mode → Fields → Option (Items × ℕ × ℕ) → Outcome
outcome_of mode fs none = Outcome.same
outcome_of mode fs (some (xs, vaulted, collapsed)) =
    Outcome.changed (put_counts vaulted collapsed (set (items_key mode) (array xs) fs))

-- The result that leaves the request as it was, and whether that is a failure
abbrev pub untouched : Value → ℕ → Bool → CompactionResult
untouched request raw failed = record {
  request = request;
  raw_chars = raw;
  compacted_chars = raw;
  saved_chars = 0;
  vaulted_results = whole 0;
  collapsed_turns = whole 0;
  failed_open = failed;
}

abbrev pub working_of : Fields → Outcome → Fields
working_of fs Outcome.same = fs
working_of fs (Outcome.changed working) = working

-- The original once the counts are popped: they go from it where the mode returned it itself.
abbrev pub original_of : Fields → Outcome → Fields
original_of fs Outcome.same = pop_counts fs
original_of fs (Outcome.changed working) = fs

abbrev pub reduced : Value → ℕ → ℕ → Result Number → Result Number → Value → CompactionResult
reduced request raw compacted (ok vaulted) (ok collapsed) original = record {
  request = request;
  raw_chars = raw;
  compacted_chars = compacted;
  saved_chars = raw - compacted;
  vaulted_results = vaulted;
  collapsed_turns = collapsed;
  failed_open = false;
}
reduced request raw compacted (ok vaulted) (raise e) original = untouched original raw true
reduced request raw compacted (raise e) collapsed original = untouched original raw true

-- The parameters: `json.dumps` with spaces and without, hashlib's digest, the character test of a tool's
-- name, `==` of values, `str` of a value, and `int` of a value.
module _ (dumps compact : Value → String) (digest : String → String) (safe : Char → Bool)
    (equal : Value → Value → Bool) (shown : Value → String) (int_of : Value → Result Number) where
  -- `_compact_messages` and `_compact_responses`, on the items of the request
  unfoldable pub compact_items :
      Compactor → Session → Mode → Items → Action Vault (Option (Items × ℕ × ℕ))
  compact_items cp c mode xs =
      let starts = turn_starts (starts_turn mode) 0 xs in
      if ltb (size xs) 2 || leb (length starts) cp.inline_recent_turns then pure none else (do
        cutoff ← (λ v. (start_at (length starts - cp.inline_recent_turns) starts, v))
        vaulted ← vault_items compact digest safe equal shown cp c mode cutoff nil xs
        folded ← (λ v. (collapse_phase shown cp mode xs vaulted.0, v))
        pure (some (folded.0, vaulted.1, folded.1)))

  unfoldable pub compact_mode : Compactor → Session → Mode → Fields → Action Vault Outcome
  compact_mode cp c mode fs = do
    compacted ← compact_items cp c mode (items_in mode fs)
    pure (outcome_of mode fs compacted)

  -- The counts come off, and only a strict reduction is returned.
  unfoldable pub accept : Fields → ℕ → Outcome → CompactionResult
  accept fs raw outcome =
      let working = working_of fs outcome in
      let request = object (pop_counts working) in
      let original = object (original_of fs outcome) in
      if leb raw (count (dumps request))
      then untouched original raw false
      else reduced request raw (count (dumps request)) (int_of (popped "_tt_vaulted" working))
          (int_of (popped "_tt_collapsed" working)) original

  -- The branches on the mode
  unfoldable pub compact_as :
      Compactor → Session → Fields → Option Mode → Action Vault CompactionResult
  compact_as cp c fs none = pure (untouched (object fs) (count (dumps (object fs))) false)
  compact_as cp c fs (some mode) = do
    outcome ← compact_mode cp c mode fs
    pure (accept fs (count (dumps (object fs))) outcome)

  -- The `try` block, for an object
  unfoldable pub compact_object : Compactor → Session → Fields → Action Vault CompactionResult
  compact_object cp c fs = compact_as cp c fs (mode_of fs)

  -- `compact`
  unfoldable pub compact_request : Compactor → Session → Value → Action Vault CompactionResult
  compact_request cp c (object fs) =
      attempt (compact_object cp c fs)
        (λ e. pure (untouched (object fs) (count (dumps (object fs))) true))
  compact_request cp c null = pure (untouched null 0 true)
  compact_request cp c (boolean b) = pure (untouched (boolean b) 0 true)
  compact_request cp c (number q) = pure (untouched (number q) 0 true)
  compact_request cp c (text s) = pure (untouched (text s) 0 true)
  compact_request cp c (array xs) = pure (untouched (array xs) 0 true)
