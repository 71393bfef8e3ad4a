-- ===== src/Compiler/Request.antt =====
-- `RequestCompiler.compile` (compiler.py): receipts for old and leased evidence, the working-state
-- block, and the acceptance of the compiled request.
use Prim.Native.Char.{Char}
use token_terminator.Common.{
  ℕ, zero, suc, ◌+◌, ◌-◌, String, ◌+++◌, count, Bool, true, false, ◌||◌, not, Option, none, some,
  List, [], ◌∷◌, ◌++◌, ltb, leb, ◌==◌, any, length, if◌then◌else◌, str_eq, take, Result, ok, raise,
}
use token_terminator.Common.Actions.{Action, pure, gets, attempt, ◌>>=◌, ◌>>◌}
use token_terminator.Json.{
  whole, Value, null, boolean, number, text, array, object, Items, nil, item, Fields, end, field,
  get, set,
}
use token_terminator.Vault.Tables.{Vault}
use token_terminator.Vault.Put.{Limits, put_artifact}
use token_terminator.Vault.Leases.{Key, exposure_available, claim_exposure, record_exposure}
use token_terminator.Vault.Savings.{Metric, record_request_metric}
use token_terminator.Compiler.Slots.{Slot, Bounds, is_text, chat_slots, responses_slots, receipt}

-- The tables of the store that a compilation writes.
pub record Store : Type 0 where
  pub vault : Vault
  pub metrics : List Metric

abbrev pub on_vault : {A : Type 0} → (Vault → Result A × Vault) → Action Store A
on_vault f s = let (r, v) = f s.vault in (r, record s { vault = v })

-- `CompileResult`, without the text of the error
pub record CompileResult : Type 0 where
  pub request : Value
  pub raw_chars : ℕ
  pub compiled_chars : ℕ
  pub saved_chars : ℕ
  pub artifact_ids : List String
  pub receipts : ℕ
  pub duplicates_collapsed : ℕ
  pub graph_context_injected : Bool
  pub failed_open : Bool
  pub request_mode : String
  pub tool_schema_chars : ℕ
  pub request_id : String

-- The configuration that a compiler reads.
pub record Settings : Type 0 where
  pub compiler_enabled : Bool
  pub bounds : Bounds
  pub inline_lease_exposures : ℕ

-- A slot whose content is in the vault.
pub record Filed : Type 0 where
  pub slot : Slot
  pub artifact_id : String
  pub sha256 : String

-- The arguments of one call, with the clock.
pub record Call : Type 0 where
  pub session_id : String
  pub request_id : String
  pub record_metric : Bool
  pub now : String

-- `_mode`
unfoldable pub mode_of : Fields → String
mode_of fs = elim (get "messages" fs) [
  | array xs ↦ "messages"
  | _ ↦ elim (get "input" fs) [ array xs ↦ "responses" | _ ↦ "unknown" ]
]

abbrev pub items_of : Value → Items
items_of v = elim v [ array xs ↦ xs | _ ↦ nil ]

-- slot.container[slot.field] = …, where the container is the item at an index
unfoldable pub write_item : ℕ → String → Value → Items → Items
write_item n key new nil = nil
write_item zero key new (item v vs) =
    item (elim v [ object fs ↦ object (set key new fs) | other ↦ other ]) vs
write_item (suc n) key new (item v vs) = item v (write_item n key new vs)

-- grouped.setdefault(artifact_id, []).append(slot)
unfoldable pub add_group : Filed → List (String × List Filed) → List (String × List Filed)
add_group f [] = (f.artifact_id, f ∷ []) ∷ []
add_group f ((id, fs) ∷ rest) =
    if str_eq id f.artifact_id then (id, fs ++ f ∷ []) ∷ rest else (id, fs) ∷ add_group f rest

-- The request as it is worked on, and the counts of the loops.
pub record Work : Type 0 where
  pub request : Fields
  pub receipts : ℕ
  pub duplicates : ℕ
  pub pending : List Filed

-- The keys of a mode: of its items, and of an item's content.
abbrev pub items_key : String → String
items_key mode = if str_eq mode "messages" then "messages" else "input"

abbrev pub content_key : String → String
content_key mode = if str_eq mode "messages" then "content" else "output"

-- One item that takes the working-state block
unfoldable pub inject_item : String → String → Value → Option Value
inject_item mode block v = elim v [
  | object fs ↦
      if is_text "user" (get "role" fs)
      then (elim (get "content" fs) [
        | text s ↦ some (
            object
              (set "content" (text (if str_eq s "" then block else s +++ "\n\n" +++ block)) fs))
        | array parts ↦ some (object (set "content" (array (append_part mode block parts)) fs))
        | _ ↦ none
      ])
      else none
  | _ ↦ none
]
  where
    append_part : String → String → Items → Items
    append_part mode block nil =
        item
          (object (
            field "type" (text (if str_eq mode "messages" then "text" else "input_text"))
              (field "text" (text block) end)))
          nil
    append_part mode block (item p ps) = item p (append_part mode block ps)

-- for item in reversed(items)
unfoldable pub inject_items : String → String → Items → Option Items
inject_items mode block nil = none
inject_items mode block (item v vs) = elim (inject_items mode block vs) [
  | some rest ↦ some (item v rest)
  | none ↦ elim (inject_item mode block v) [ some w ↦ some (item w vs) | none ↦ none ]
]

-- The parameters: `json.dumps` with spaces and without, hashlib's digest, the character test of a tool's
-- name, `json.loads` of an object, and `str`.
module _ (dumps compact : Value → String) (digest : String → String) (safe : Char → Bool)
    (loads : String → Option Fields) (shown : Value → String) where
  -- `_serialized_chars`
  unfoldable pub serialized_chars : Value → ℕ
  serialized_chars v = count (dumps v)

  abbrev pub receipt_of : Filed → String
  receipt_of f = receipt safe f.slot f.artifact_id f.sha256

  -- `put_artifact` for every slot
  unfoldable pub store_slots : Limits → Call → List Slot → Action Store (List Filed)
  store_slots lim c [] = pure []
  store_slots lim c (s ∷ ss) = do
    stored ← on_vault (
        put_artifact digest lim c.now (record {
          content = s.content;
          tool_name = s.tool_name;
          args_json = compact (object s.args);
          session_id = c.session_id;
          tool_call_id = s.call_id;
          pin_request_id = "";
        }))
    rest ← store_slots lim c ss
    pure (record { slot = s; artifact_id = stored.artifact_id; sha256 = stored.sha256 } ∷ rest)

  -- The distinct ids, in order of their first use
  unfoldable pub distinct_ids : List Filed → List String → List String
  distinct_ids [] ids = ids
  distinct_ids (f ∷ fs) ids =
      distinct_ids fs (if any (str_eq f.artifact_id) ids then ids else ids ++ f.artifact_id ∷ [])

  unfoldable pub group_slots : List Filed → List (String × List Filed) → List (String × List Filed)
  group_slots [] groups = groups
  group_slots (f ∷ fs) groups = group_slots fs (
      if ltb (serialized_chars (text (receipt_of f))) (serialized_chars (text f.slot.content))
      then add_group f groups
      else groups)

  -- The receipt in the place of a slot's content
  unfoldable pub place_receipt : String → Filed → Work → Work
  place_receipt mode f w = record w {
    request =
        set (items_key mode)
          (array (
            write_item f.slot.ordinal (content_key mode) (text (receipt_of f))
              (items_of (get (items_key mode) w.request))))
          w.request;
    receipts = w.receipts + 1;
  }

  abbrev lease_key : Call → Filed → Key
  lease_key c f = record {
    session_id = c.session_id;
    artifact_id = f.artifact_id;
    request_id = c.request_id;
  }

  -- One group: a receipt for all but its last slot, and for the last where its lease is used up. The
  -- slots are in the order of their ordinals already.
  unfoldable pub lease_group : Settings → String → Call → Vault → List Filed → Work → Work
  lease_group st mode c v [] w = w
  lease_group st mode c v (f ∷ []) w =
      if exposure_available st.inline_lease_exposures (lease_key c f) v
      then record w { pending = w.pending ++ f ∷ [] }
      else place_receipt mode f w
  lease_group st mode c v (f ∷ g ∷ rest) w =
      let placed = place_receipt mode f w in
      lease_group st mode c v (g ∷ rest) (record placed { duplicates = placed.duplicates + 1 })

  unfoldable pub lease_groups :
      Settings → String → Call → Vault → List (String × List Filed) → Work → Work
  lease_groups st mode c v [] w = w
  lease_groups st mode c v ((id, fs) ∷ rest) w =
      lease_groups st mode c v rest (lease_group st mode c v fs w)

  -- The claims, each of which fails open
  unfoldable pub claim_pending : Settings → String → Call → List Filed → Work → Action Store Work
  claim_pending st mode c [] w = pure w
  claim_pending st mode c (f ∷ fs) w = do
    claimed ←
        attempt (on_vault (claim_exposure st.inline_lease_exposures c.now (lease_key c f)))
          (λ e. pure true)
    claim_pending st mode c fs (if claimed then w else place_receipt mode f w)

  -- `_inject_graph_context`, on the block that the graph renders
  unfoldable pub inject : String → String → Fields → Fields × Bool
  inject mode block fs =
      if str_eq block ""
      then (fs, false)
      else elim (inject_items mode block (items_of (get (items_key mode) fs))) [
        | none ↦ (fs, false)
        | some items ↦ (set (items_key mode) (array items) fs, true)
      ]

  -- The block is kept where the request stays below its raw size; a graph that fails (`none`) adds none.
  unfoldable pub with_graph : String → Option String → ℕ → Fields → Fields × Bool
  with_graph mode block raw fs = if str_eq mode "unknown" then (fs, false) else elim block [
    | none ↦ (fs, false)
    | some b ↦
        let (injected, used) = inject mode b fs in
        if leb raw (serialized_chars (object injected)) then (fs, false) else (injected, used)
  ]

  -- record_exposure of every artifact, each of which fails open
  unfoldable pub expose_all : Call → List String → Action Store (Unit {0})
  expose_all c [] = pure tt
  expose_all c (id ∷ ids) = do
    attempt
        (on_vault (
          record_exposure c.now
            (record { session_id = c.session_id; artifact_id = id; request_id = c.request_id })
            true))
        (λ e. pure tt)
    expose_all c ids

  -- The result that leaves the request as it was.
  abbrev pub untouched : Value → ℕ → List String → Bool → String → ℕ → String → CompileResult
  untouched request raw ids failed mode tools request_id = record {
    request = request;
    raw_chars = raw;
    compiled_chars = raw;
    saved_chars = 0;
    artifact_ids = ids;
    receipts = 0;
    duplicates_collapsed = 0;
    graph_context_injected = false;
    failed_open = failed;
    request_mode = mode;
    tool_schema_chars = tools;
    request_id = request_id;
  }

  -- The result that carries the compiled request.
  abbrev pub reduced : ℕ → List String → String → ℕ → Work → Fields → Bool → String → CompileResult
  reduced raw ids mode tools w working injected request_id = record {
    request = object working;
    raw_chars = raw;
    compiled_chars = count (dumps (object working));
    saved_chars = raw - count (dumps (object working));
    artifact_ids = ids;
    receipts = w.receipts;
    duplicates_collapsed = w.duplicates;
    graph_context_injected = injected;
    failed_open = false;
    request_mode = mode;
    tool_schema_chars = tools;
    request_id = request_id;
  }

  -- The acceptance: only a strict reduction is delivered.
  unfoldable pub accept :
      Call
      → Fields
      → ℕ
      → List String
      → String
      → ℕ
      → Work
      → Fields × Bool
      → Action Store CompileResult
  accept c original raw ids mode tools w (working, injected) =
      if leb raw (serialized_chars (object working))
      then (do
        expose_all c ids
        pure (untouched (object original) raw ids false mode tools c.request_id))
      else pure (reduced raw ids mode tools w working injected c.request_id)

  abbrev pub slots_of : Settings → String → Fields → Result (List Slot)
  slots_of st mode fs =
      if str_eq mode "messages"
      then chat_slots loads shown st.bounds (items_of (get "messages" fs))
      else if str_eq mode "responses"
      then ok (responses_slots loads shown st.bounds (items_of (get "input" fs)))
      else ok []

  -- The `try` block, for an object, once its size, mode and id are known
  unfoldable pub compile_object :
      Settings
      → Limits
      → Call
      → Option String
      → Fields
      → ℕ
      → String
      → ℕ
      → Action Store CompileResult
  compile_object st lim c block original raw mode tools =
      if not st.compiler_enabled
      then pure (untouched (object original) raw [] false mode tools c.request_id)
      else do
        slots ← (λ s. (slots_of st mode original, s))
        filed ← store_slots lim c slots
        leased ← gets (λ s.
            lease_groups st mode c s.vault (group_slots filed [])
              (record { request = original; receipts = 0; duplicates = 0; pending = [] }))
        claimed ←
            if ltb (serialized_chars (object leased.request)) raw || leased.receipts == 0
            then claim_pending st mode c leased.pending leased
            else pure leased
        accept c original raw (distinct_ids filed []) mode tools claimed
            (with_graph mode block raw claimed.request)

  -- `_finalize`: the compiler-only row, whose failure is swallowed
  unfoldable pub finalize : Call → CompileResult → Action Store CompileResult
  finalize c r s =
      if not c.record_metric
      then (ok r, s)
      else elim (record_request_metric c.now
          (record {
            session_id = c.session_id;
            request_id = r.request_id;
            request_mode = r.request_mode;
            raw_chars = r.raw_chars;
            compiled_chars = r.compiled_chars;
            saved_chars = some r.saved_chars;
            artifact_count = length r.artifact_ids;
            receipts = r.receipts;
            duplicates_collapsed = r.duplicates_collapsed;
            tool_schema_chars = r.tool_schema_chars;
            failed_open = r.failed_open;
            final_chars = 0;
            vaulted_results = whole 0;
            collapsed_turns = whole 0;
            compactor_failed_open = false;
            end_to_end_measured = false;
          })
          s.metrics) [ ok rows ↦ (ok r, record s { metrics = rows }) | raise e ↦ (ok r, s) ]

  -- The result of an exception, which is recorded only where the request was measured
  unfoldable pub fail_open : Call → Value → ℕ → String → ℕ → Action Store CompileResult
  fail_open c original raw mode tools =
      let r = untouched original raw [] true mode tools c.request_id in
      if raw == 0 then pure r else finalize c r

  -- `_request_key`, where the call brings no id
  unfoldable pub identified : Call → Fields → Call
  identified c fs = record c {
    request_id =
        if str_eq c.request_id ""
        then "req_" +++ take 32 (digest (compact (object fs)))
        else c.request_id;
  }

  abbrev pub tool_chars : Fields → ℕ
  tool_chars fs = elim (get "tools" fs) [ array xs ↦ serialized_chars (array xs) | _ ↦ 0 ]

  -- `compile`
  unfoldable pub compile :
      Settings → Limits → Call → Option String → Value → Action Store CompileResult
  compile st lim c block (object fs) =
      let known = identified c fs in
      let raw = serialized_chars (object fs) in
      attempt
        (do
          r ← compile_object st lim known block fs raw (mode_of fs) (tool_chars fs)
          finalize known r)
        (λ e. fail_open known (object fs) raw (mode_of fs) (tool_chars fs))
  compile st lim c block null = fail_open c null 0 "unknown" 0
  compile st lim c block (boolean b) = fail_open c (boolean b) 0 "unknown" 0
  compile st lim c block (number q) = fail_open c (number q) 0 "unknown" 0
  compile st lim c block (text s) = fail_open c (text s) 0 "unknown" 0
  compile st lim c block (array xs) = fail_open c (array xs) 0 "unknown" 0
