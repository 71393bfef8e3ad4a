-- ===== src/Examples/Views.antt =====
-- Tests of the views of one artifact.
use token_terminator.Common.{
  String, ◌≡◌, refl, true, [], ◌∷◌, length, ltb, ok, splitlines, is_break, strip, rstrip, rstrip_by,
  lstrip_by, is_space, take,
}
use token_terminator.Vault.Tables.{Artifact, Vault, empty, by_id}
use token_terminator.Vault.Put.{get_artifact, is_intact, short_id}
use token_terminator.Guards.Patterns.{contains}
use token_terminator.Views.Clip.{clip}
use token_terminator.Views.Find.{first_of, find_line, find_lines, artifact_find}
use token_terminator.Views.Search.{all_hits, artifact_find-all_hits}

abbrev digest : String → String
digest s = "d"

abbrev lower : String → String
lower s = s

abbrev artifact : Artifact
artifact = record {
  artifact_id = "a_d";
  sha256 = "d";
  content = "one error\ntwo\nerror three";
  char_count = 25;
  byte_count = 25;
  tool_name = "terminal";
  args_json = "{}";
  created_at = "t";
}

abbrev vault : Vault
vault = record empty { artifacts = artifact ∷ [] }

artifact-read : get_artifact digest "a_d" vault ≡ ok artifact
unfolding get_artifact by_id is_intact short_id take
artifact-read = refl

found_test :
    artifact_find digest lower "a_d" " error " 1 vault
    ≡ ok (record {
      artifact_id = "a_d";
      query = " error ";
      matches = record { line = 1; text = "one error" } ∷ [];
      total_matches = 2;
      truncated = true;
    })
unfolding artifact_find find_lines find_line get_artifact by_id is_intact short_id take contains
    clip splitlines is_break strip rstrip rstrip_by lstrip_by is_space
found_test = refl

artifact_find-all_hits_example : artifact_find digest lower "a_d" " error " 1 vault ≡ (
    let all = all_hits digest lower "error" 1 (splitlines artifact.content) in
    ok (record {
      artifact_id = "a_d";
      query = " error ";
      matches = first_of 1 all;
      total_matches = length all;
      truncated = ltb 1 (length all);
    }))
unfolding strip rstrip rstrip_by lstrip_by is_space
artifact_find-all_hits_example =
    artifact_find-all_hits digest lower "a_d" " error " 1 vault artifact refl artifact-read
