-- ===== src/Examples/Vault.antt =====
-- Tests of the vault, on one stored content, and its theorems there.
use token_terminator.Common.{
  String, ◌≡◌, refl, true, [], ◌∷◌, arith, if◌then◌else◌, str_eq, eq_iff, ok, inl, inr, is_some,
  take, drop, ◌≤◌, Bool-cases,
}
use token_terminator.Vault.Tables.{Artifact, Vault, empty, by_id}
use token_terminator.Vault.Put.{
  Limits, open_limits, PutRequest, put_artifact, get_artifact, is_intact, short_id,
}
use token_terminator.Vault.Rows.{bytes}
use token_terminator.Vault.Eviction.{IsBounded}
use token_terminator.Vault.Invariant.{IsConsistent}
use token_terminator.Vault.Recovery.{put_artifact-IsConsistent, put_artifact_capacity}
use token_terminator.Vault.Refusal.{IsAnswer, put_artifact-IsAnswer}
use token_terminator.Vault.Leases.{
  Key, claim_exposure, exposure_available, inline_count, exposure_of, insert_exposure,
}
use token_terminator.Vault.Leases.Bounds.{
  claim_all, claim_all-limit, claim_exposure_idem, exposure_available-claim,
}
use token_terminator.Vault.Pages.{read_pages, read_pages-content}

-- A digest that tells the test's content from every other.
abbrev hello_sha : String
hello_sha = "2cf24dba5fb0a30e26e83b2ac5b9e29e1b161e5c1fa7425e73043362938b9824"

abbrev other_sha : String
other_sha = "0000000000000000000000000000000000000000000000000000000000000000"

abbrev sample : String → String
sample s = if str_eq s "hello" then hello_sha else other_sha

abbrev limits : Limits
limits = record {
  max_artifact_chars = 100;
  max_vault_bytes = 8;
  max_page_chars = 2;
  high_water_pct = 90;
  low_water_pct = 70;
}

abbrev hello_row : Artifact
hello_row = record {
  artifact_id = "a_2cf24dba5fb0a30e26e83b2ac5b9e29e";
  sha256 = hello_sha;
  content = "hello";
  char_count = 5;
  byte_count = 5;
  tool_name = "terminal";
  args_json = "{}";
  created_at = "t1";
}

abbrev one_row : Vault
one_row = record empty { artifacts = hello_row ∷ []; total_artifact_bytes = 5 }

abbrev hello : PutRequest
hello = record {
  content = "hello";
  tool_name = "terminal";
  args_json = "{}";
  session_id = "s";
  tool_call_id = "c";
  pin_request_id = "r";
}

empty-IsConsistent : IsConsistent sample empty
empty-IsConsistent = record {
  accounted = record { keyed = tt; counted = refl };
  rows = tt;
  observed = tt;
  exposed = tt;
  shown = tt;
}

one_row-IsConsistent : IsConsistent sample one_row
unfolding by_id short_id take
one_row-IsConsistent = record {
  accounted = record { keyed = ground arith; counted = refl };
  rows = (record { sha = refl; bytes = refl; chars = refl; named = inl refl }, tt);
  observed = tt;
  exposed = tt;
  shown = tt;
}

limits-IsBounded : IsBounded limits
limits-IsBounded = record { some_bytes = omega arith; high = omega arith; low = omega arith }

sample_unique : (x : String) → sample x ≡ sample "hello" → x ≡ "hello"
sample_unique x h = elim (Bool-cases (str_eq x "hello")) [
  | inl same ↦ (eq_iff x "hello").0 same
  | inr other ↦ absurd (apart (rw other at h))
]
  where
    apart : other_sha ≡ hello_sha → ⊥
    apart e = absurd (ground (arith, eq_iff other_sha hello_sha, eq_iff hello_sha other_sha))

open_limits_test : open_limits 0 5 0 200 100 ≡ record {
  max_artifact_chars = 1;
  max_vault_bytes = 5;
  max_page_chars = 1;
  high_water_pct = 100;
  low_water_pct = 99;
}
unfolding open_limits
open_limits_test = refl

put_artifact-IsConsistent_example :
    IsConsistent sample (put_artifact sample limits "t2" hello one_row).1
put_artifact-IsConsistent_example =
    put_artifact-IsConsistent sample limits "t2" hello one_row one_row-IsConsistent

put_artifact_capacity_example :
    bytes (put_artifact sample limits "t2" hello one_row).1.artifacts ≤ 8
put_artifact_capacity_example =
    put_artifact_capacity sample limits "t2" hello one_row one_row-IsConsistent (omega arith)

put_artifact-IsAnswer_example :
    IsAnswer sample limits "t2" hello empty refl empty-IsConsistent
      (put_artifact sample limits "t2" hello empty)
put_artifact-IsAnswer_example =
    put_artifact-IsAnswer sample limits "t2" hello empty refl empty-IsConsistent limits-IsBounded
      sample_unique

hello_read : get_artifact sample "a_2cf24dba5fb0a30e26e83b2ac5b9e29e" one_row ≡ ok hello_row
unfolding get_artifact by_id is_intact short_id take
hello_read = refl

read_pages-content_example :
    read_pages sample limits "a_2cf24dba5fb0a30e26e83b2ac5b9e29e" one_row 6 1 3 ≡ ok "ello"
unfolding drop
read_pages-content_example =
    read_pages-content sample limits "a_2cf24dba5fb0a30e26e83b2ac5b9e29e" one_row hello_row
      hello_read (omega arith) 6 1 3 (omega arith) (omega arith) (omega arith)

abbrev key : String → Key
key request = record {
  session_id = "s";
  artifact_id = "a_2cf24dba5fb0a30e26e83b2ac5b9e29e";
  request_id = request;
}

claim_all-limit_example :
    inline_count "s" "a_2cf24dba5fb0a30e26e83b2ac5b9e29e"
      (claim_all 1 (("t1", key "q1") ∷ ("t2", key "q2") ∷ []) one_row).exposures
    ≤ 1
claim_all-limit_example =
    claim_all-limit 1 (("t1", key "q1") ∷ ("t2", key "q2") ∷ []) one_row "s"
      "a_2cf24dba5fb0a30e26e83b2ac5b9e29e" (unfold inline_count in omega arith)

first_claim : (claim_exposure 1 "t1" (key "q1") one_row).0 ≡ ok true
unfolding claim_exposure inline_count insert_exposure by_id exposure_of
first_claim = refl

claim_exposure_idem_example :
    (claim_exposure 1 "t9"
      (key "q1")
      (claim_all 1 (("t2", key "q2") ∷ []) (claim_exposure 1 "t1" (key "q1") one_row).1)).0
    ≡ ok true
claim_exposure_idem_example =
    claim_exposure_idem 1 "t1" "t9" (key "q1") (("t2", key "q2") ∷ []) one_row true first_claim

hello_filed : is_some (by_id "a_2cf24dba5fb0a30e26e83b2ac5b9e29e" (hello_row ∷ [])) ≡ true
unfolding by_id
hello_filed = refl

exposure_available-claim_example :
    (claim_exposure 1 "t1" (key "q1") one_row).0 ≡ ok (exposure_available 1 (key "q1") one_row)
exposure_available-claim_example = exposure_available-claim 1 "t1" (key "q1") one_row hello_filed
