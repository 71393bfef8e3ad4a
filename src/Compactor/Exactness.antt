-- ===== src/Compactor/Exactness.antt =====
-- A receipt is placed only for a content that the vault reads back exactly.
use Prim.Native.Char.{Char}
use token_terminator.Common.{
  ℕ, ◌≤◌, String, count, ◌≡◌, refl, Bool, Option, none, some, arith, eq_iff, ok, Bool-cases, inl,
  inr, subst,
}
use token_terminator.Common.Actions.{continue-ok, attempt-ok, pure}
use token_terminator.Json.{
  Value, null, boolean, number, text, array, object, Items, Fields, end, get, set,
}
use token_terminator.Vault.Tables.{Artifact, Vault}
use token_terminator.Vault.Put.{put_artifact, get_artifact}
use token_terminator.Compactor.Turns.{Mode, Compactor, receipt}
use token_terminator.Compactor.Vaulting.{
  Session, is_tool_result, result_key, is_vaultable, id_text, store_exact, vault_content, tool_name,
  place_receipt, vault_value, vault_fields,
}

module _ (compact : Value → String) (digest : String → String) (safe : Char → Bool)
    (same : Value → Value → Bool) (shown : Value → String) (c : Session) where
  -- The vault reads a content back under an id.
  pub data Reads (id content : String) (v : Vault) : Type 0 where
    reads :
        (artifact : Artifact)
        → get_artifact digest id v ≡ ok artifact
        → artifact.content ≡ content
        → Reads id content v

  store_exact-Reads :
      (content id : String) (msg : Fields) (v w : Vault)
      → store_exact compact digest safe same shown c content msg v ≡ (ok (some id), w)
      → Reads id content w
  unfolding store_exact
  store_exact-Reads content id msg v w h =
      let put =
        put_artifact digest c.limits c.now
          (record {
            content = content;
            tool_name = "";
            args_json = compact (object end);
            session_id = c.session_id;
            tool_call_id = id_text compact digest safe same shown (get "tool_call_id" msg);
            pin_request_id = "";
          })
          v in
      let (stored, filed, h1) = continue-ok put _ (some id) w h in
      let (artifact, found, h2) =
        continue-ok (get_artifact digest stored.artifact_id put.1, put.1) _ (some id) w h1 in
      reads artifact (ground (arith, eq_iff artifact.content content))
        (ground (arith, eq_iff artifact.content content))

  vault_content-Reads :
      (content id : String) (msg : Fields) (v w : Vault)
      → vault_content compact digest safe same shown c content msg v ≡ (ok (some id), w)
      → Reads id content w
  unfolding vault_content
  vault_content-Reads content id msg v w h = store_exact-Reads content id msg v w (
      attempt-ok (store_exact compact digest safe same shown c content msg) (λ e. pure none)
        (some id) v w (λ e u. cc) h)

  -- One item and its vault after a round of the loop: the same, or a receipt for a content that is read back
  pub data Vaulted (cp : Compactor) (mode : Mode) (fs gs : Fields) (n : ℕ) (w : Vault)
      : Type 0 where
    kept : gs ≡ fs → n ≡ 0 → Vaulted cp mode fs gs n w
    filed :
        (id content name : String)
        → get (result_key mode) fs ≡ text content
        → cp.min_vault_chars ≤ count content
        → gs ≡ set (result_key mode) (text (receipt safe id (count content) name)) fs
        → n ≡ 1
        → Reads id content w
        → Vaulted cp mode fs gs n w

  place_receipt-Vaulted :
      (cp : Compactor) (mode : Mode) (before : Items) (fs gs : Fields) (content : String)
      (stored : Option String) (n : ℕ) (v w : Vault)
      → get (result_key mode) fs ≡ text content
      → cp.min_vault_chars ≤ count content
      → ((id : String) → stored ≡ some id → Reads id content v)
      → place_receipt compact digest safe same shown mode before fs content stored v
        ≡ (ok (gs, n), w)
      → Vaulted cp mode fs gs n w
  unfolding place_receipt
  place_receipt-Vaulted cp mode before fs gs content none n v w found long read h =
      kept (ground arith) (ground arith)
  place_receipt-Vaulted cp mode before fs gs content (some id) n v w found long read h =
      let (name, named, h1) =
        continue-ok (tool_name compact digest safe same shown mode before fs, v) _ (gs, n) w h in
      let same_vault : v ≡ w = ground arith in
      filed id content name found long (ground arith) (ground arith)
        (subst (Reads id content) same_vault (read id refl))

  vault_value-Vaulted :
      (cp : Compactor) (mode : Mode) (before : Items) (fs gs : Fields) (x : Value) (n : ℕ)
      (v w : Vault)
      → get (result_key mode) fs ≡ x
      → vault_value compact digest safe same shown cp c mode before fs x v ≡ (ok (gs, n), w)
      → Vaulted cp mode fs gs n w
  unfolding vault_value is_vaultable
  vault_value-Vaulted cp mode before fs gs (text content) n v w found h =
      elim (Bool-cases (is_vaultable cp content)) [
        | inr other ↦ kept (ground arith) (ground arith)
        | inl fit ↦
            let stored = vault_content compact digest safe same shown c content fs v in
            let (id, vaulted, h1) = continue-ok stored _ (gs, n) w (rw fit at h) in
            place_receipt-Vaulted cp mode before fs gs content id n stored.1 w found (ground arith)
              (λ one e. vault_content-Reads content one fs v stored.1 (ground arith)) h1
      ]
  vault_value-Vaulted cp mode before fs gs null n v w found h = kept (ground arith) (ground arith)
  vault_value-Vaulted cp mode before fs gs (boolean b) n v w found h =
      kept (ground arith) (ground arith)
  vault_value-Vaulted cp mode before fs gs (number q) n v w found h =
      kept (ground arith) (ground arith)
  vault_value-Vaulted cp mode before fs gs (array xs) n v w found h =
      kept (ground arith) (ground arith)
  vault_value-Vaulted cp mode before fs gs (object os) n v w found h =
      kept (ground arith) (ground arith)

  -- A round of the vaulting loop leaves the item as it was, or puts a receipt in the place of its content;
  -- then the content is at least as long as the bound, and the vault that the round leaves reads back,
  -- under the id that the receipt names, exactly that content.
  pub vault_fields-Vaulted :
      (cp : Compactor) (mode : Mode) (before : Items) (fs gs : Fields) (n : ℕ) (v w : Vault)
      → vault_fields compact digest safe same shown cp c mode before fs v ≡ (ok (gs, n), w)
      → Vaulted cp mode fs gs n w
  unfolding vault_fields
  vault_fields-Vaulted cp mode before fs gs n v w h = elim (Bool-cases (is_tool_result mode fs)) [
    | inr other ↦ kept (ground arith) (ground arith)
    | inl result ↦
        vault_value-Vaulted cp mode before fs gs (get (result_key mode) fs) n v w refl
          (rw result at h)
  ]
