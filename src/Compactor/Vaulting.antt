-- ===== src/Compactor/Vaulting.antt =====
-- Phase 1 of `ContextCompactor` (context_compactor.py): the large tool results of old turns go to the
-- vault, and receipts take their places.
use Prim.Native.Char.{Char}
use token_terminator.Common.{
  ℕ, zero, suc, ◌+◌, String, count, Bool, true, false, ◌||◌, Option, none, some, ltb, if◌then◌else◌,
  str_eq, starts_with, Result, ok,
}
use token_terminator.Common.Actions.{Action, pure, attempt, ◌>>=◌}
use token_terminator.Json.{
  Value, null, boolean, number, text, array, object, Items, nil, item, Fields, end, get, set,
  truthy,
}
use token_terminator.Vault.Tables.{Vault}
use token_terminator.Vault.Put.{Limits, put_artifact, get_artifact}
use token_terminator.Compiler.Slots.{is_text}
use token_terminator.Compactor.Turns.{
  Mode, Compactor, append_items, receipt, tool_message_name, response_item_name,
}

-- The store's bounds, the session of the call, and the clock.
pub record Session : Type 0 where
  pub limits : Limits
  pub session_id : String
  pub now : String

-- The mark of a tool result in a mode, and the key of its content
unfoldable pub is_tool_result : Mode → Fields → Bool
is_tool_result Mode.messages fs = is_text "tool" (get "role" fs)
is_tool_result Mode.responses fs = is_text "function_call_output" (get "type" fs)

abbrev pub result_key : Mode → String
result_key Mode.messages = "content"
result_key Mode.responses = "output"

-- The guards on a content: long enough, and no receipt yet
unfoldable pub is_vaultable : Compactor → String → Bool
is_vaultable cp s =
    if ltb (count s) cp.min_vault_chars || starts_with s "[Token Terminator artifact "
    then false
    else true

-- The parameters: `json.dumps` without spaces, hashlib's digest, the character test of a tool's name, `==`
-- of values, and `str` of a value.
module _ (compact : Value → String) (digest : String → String) (safe : Char → Bool)
    (same : Value → Value → Bool) (shown : Value → String) where
  -- str(value or "")
  unfoldable pub id_text : Value → String
  id_text v = if truthy v then (elim v [ text s ↦ s | other ↦ shown other ]) else ""

  -- The `try` block of `_vault`
  unfoldable pub store_exact : Session → String → Fields → Action Vault (Option String)
  store_exact c content msg = do
    stored ← put_artifact digest c.limits c.now (record {
      content = content;
      tool_name = "";
      args_json = compact (object end);
      session_id = c.session_id;
      tool_call_id = id_text (get "tool_call_id" msg);
      pin_request_id = "";
    })
    recovered ← (λ v. (get_artifact digest stored.artifact_id v, v))
    pure (if str_eq recovered.content content then some stored.artifact_id else none)

  -- `_vault`
  unfoldable pub vault_content : Session → String → Fields → Action Vault (Option String)
  vault_content c content msg = attempt (store_exact c content msg) (λ e. pure none)

  unfoldable pub tool_name : Mode → Items → Fields → Result String
  tool_name Mode.messages before fs = tool_message_name same before fs
  tool_name Mode.responses before fs = ok (response_item_name same before fs)

  -- The receipt in the place of a content, once it is stored
  unfoldable pub place_receipt :
      Mode → Items → Fields → String → Option String → Action Vault (Fields × ℕ)
  place_receipt mode before fs content none = pure (fs, 0)
  place_receipt mode before fs content (some artifact_id) = do
    name ← (λ v. (tool_name mode before fs, v))
    pure (set (result_key mode) (text (receipt safe artifact_id (count content) name)) fs, 1)

  -- The content of a tool result, where it is a text
  unfoldable pub vault_value :
      Compactor → Session → Mode → Items → Fields → Value → Action Vault (Fields × ℕ)
  vault_value cp c mode before fs (text content) =
      if is_vaultable cp content
      then (do stored ← vault_content c content fs; place_receipt mode before fs content stored)
      else pure (fs, 0)
  vault_value cp c mode before fs null = pure (fs, 0)
  vault_value cp c mode before fs (boolean b) = pure (fs, 0)
  vault_value cp c mode before fs (number q) = pure (fs, 0)
  vault_value cp c mode before fs (array xs) = pure (fs, 0)
  vault_value cp c mode before fs (object gs) = pure (fs, 0)

  -- One round of the loop: the item, and how many results it vaulted
  unfoldable pub vault_fields :
      Compactor → Session → Mode → Items → Fields → Action Vault (Fields × ℕ)
  vault_fields cp c mode before fs =
      if is_tool_result mode fs
      then vault_value cp c mode before fs (get (result_key mode) fs)
      else pure (fs, 0)

  unfoldable pub vault_item : Compactor → Session → Mode → Items → Value → Action Vault (Value × ℕ)
  vault_item cp c mode before (object fs) = do
    placed ← vault_fields cp c mode before fs
    pure (object placed.0, placed.1)
  vault_item cp c mode before null = pure (null, 0)
  vault_item cp c mode before (boolean b) = pure (boolean b, 0)
  vault_item cp c mode before (number q) = pure (number q, 0)
  vault_item cp c mode before (text s) = pure (text s, 0)
  vault_item cp c mode before (array xs) = pure (array xs, 0)

  -- for i in range(cutoff), where `before` holds the items of smaller index
  unfoldable pub vault_items :
      Compactor → Session → Mode → ℕ → Items → Items → Action Vault (Items × ℕ)
  vault_items cp c mode zero before xs = pure (xs, 0)
  vault_items cp c mode (suc n) before nil = pure (nil, 0)
  vault_items cp c mode (suc n) before (item x xs) = do
    done ← vault_item cp c mode before x
    rest ← vault_items cp c mode n (append_items before (item done.0 nil)) xs
    pure (item done.0 rest.0, done.1 + rest.1)
