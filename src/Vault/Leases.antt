-- ===== src/Vault/Leases.antt =====
-- Evidence leases (storage.py): `record_exposure`, `claim_exposure`, `exposure_available`. Each
-- runs in one transaction, so concurrent calls are interleaved whole.
pub mod Bounds
use token_terminator.Common.{
  ℕ, zero, suc, ◌+◌, String, Bool, true, false, ◌&&◌, ◌||◌, Option, none, some, List, [], ◌∷◌, ◌++◌,
  ltb, if◌then◌else◌, str_eq, is_some, Result, ok, raise, integrity_error,
}
use token_terminator.Vault.Tables.{Exposure, Vault, by_id}
use token_terminator.Vault.Put.{same_exposure}

-- The primary key of `artifact_exposures`, as the arguments of a call give it.
pub record Key : Type 0 where
  pub session_id : String
  pub artifact_id : String
  pub request_id : String

unfoldable pub has_key : Key → Exposure → Bool
unfolding same_exposure
has_key k e = same_exposure k.session_id k.artifact_id k.request_id e

-- SELECT inline FROM artifact_exposures WHERE session_id=? AND artifact_id=? AND request_id=?
unfoldable pub exposure_of : Key → List Exposure → Option Exposure
exposure_of k [] = none
exposure_of k (e ∷ es) = if has_key k e then some e else exposure_of k es

-- SELECT COUNT(*) … WHERE session_id=? AND artifact_id=? AND inline=1
unfoldable pub inline_count : String → String → List Exposure → ℕ
inline_count session artifact [] = 0
inline_count session artifact (e ∷ es) =
    if str_eq e.session_id session && str_eq e.artifact_id artifact && e.inline
    then suc (inline_count session artifact es)
    else inline_count session artifact es

unfoldable pub exposure_available : ℕ → Key → Vault → Bool
exposure_available limit k v = elim (exposure_of k v.exposures) [
  | some e ↦ e.inline
  | none ↦ ltb (inline_count k.session_id k.artifact_id v.exposures) limit
]

-- INSERT INTO artifact_exposures, under its foreign key; the primary key was just looked up.
unfoldable pub insert_exposure : Exposure → Vault → Result Vault
insert_exposure e v =
    if is_some (by_id e.artifact_id v.artifacts)
    then ok (record v { exposures = v.exposures ++ e ∷ [] })
    else raise integrity_error

abbrev pub exposure : Key → Bool → String → Exposure
exposure k inline now = record {
  session_id = k.session_id;
  artifact_id = k.artifact_id;
  request_id = k.request_id;
  inline = inline;
  exposed_at = now;
}

-- The rest of a claim once the row is written, or could not be.
abbrev pub granted : Vault → Result Vault → Result Bool × Vault
granted v (ok w) = (ok true, w)
granted v (raise e) = (raise e, v)

unfoldable pub claim_exposure : ℕ → String → Key → Vault → Result Bool × Vault
claim_exposure limit now k v = elim (exposure_of k v.exposures) [
  | some e ↦ (ok e.inline, v)
  | none ↦
      if ltb (inline_count k.session_id k.artifact_id v.exposures) limit
      then granted v (insert_exposure (exposure k true now) v)
      else (ok false, v)
]

-- ON CONFLICT(session_id, artifact_id, request_id) DO UPDATE SET inline=MAX(…), exposed_at=…
unfoldable pub update_exposure : Exposure → Key → List Exposure → List Exposure
update_exposure new k [] = []
update_exposure new k (e ∷ es) =
    if has_key k e
    then record e { inline = e.inline || new.inline; exposed_at = new.exposed_at } ∷ es
    else e ∷ update_exposure new k es

abbrev pub recorded : Vault → Result Vault → Result (Unit {0}) × Vault
recorded v (ok w) = (ok tt, w)
recorded v (raise e) = (raise e, v)

unfoldable pub record_exposure : String → Key → Bool → Vault → Result (Unit {0}) × Vault
record_exposure now k inline v =
    if is_some (exposure_of k v.exposures)
    then (ok tt, record v { exposures = update_exposure (exposure k inline now) k v.exposures })
    else recorded v (insert_exposure (exposure k inline now) v)
