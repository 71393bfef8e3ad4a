-- ===== src/Examples/Compress.antt =====
-- Tests of native compression: a result of forty equal lines.
use token_terminator.Common.{
  Error, ok, raise, ◌⊎◌, str_eq, ℕ, String, ◌≡◌, refl, true, false, Option, none, some, [], ◌∷◌, ok,
  ◌≤◌, count, map, is_space, lstrip_by, rstrip, rstrip_by, take, drop, splitlines, join, print,
  print_from, is_break,
}
use token_terminator.Vault.Tables.{empty, by_sha, by_id}
use token_terminator.Vault.Put.{
  Limits, put_artifact, put_body, store_new, prune_for_insert, insert_artifact, attach, observe,
  fresh_id, short_id, get_artifact, is_intact,
}
use token_terminator.Vault.Leases.{exposure_of, insert_exposure, record_exposure}
use token_terminator.Metrics.{add}
use token_terminator.Host.{Host}
use token_terminator.Compress.{
  Call, Settings, transform, eligible, is_allowed, finalize, write, recover, deliver, expose,
  with_note, recovery_note, note_text, savings_text, compact_text, without_ansi, escape,
  collapse_consecutive, collapse_from, collapsed_line, repeated, cut, head_share, nonempty,
  proposed,
}
use token_terminator.Compress.Runs.{collapse_consecutive-runs, expand, render, IsMaximal}
use token_terminator.Compress.Bounds.{compact_text-le}
use token_terminator.Compress.Delivery.{IsDelivered, compress-IsDelivered, compress-total}

without_ansi_test : without_ansi 0 "a\u{1b}[31;1mred\u{1b}[0m \u{1b}x" ≡ "ared \u{1b}x"
unfolding without_ansi escape
without_ansi_test = refl

collapsed_test :
    compact_text "x\nx\ny y y y y y y y\ny y y y y y y y\ny y y y y y y y" 200
    ≡ "x\nx\ny y y y y y y y  [repeated ×3]"
unfolding compact_text without_ansi collapse_consecutive collapse_from collapsed_line repeated
    splitlines is_break join print print_from
collapsed_test = refl

-- The bound leaves room for the marker and one more character.
narrow_test : cut 18 "0123456789012345678901234567890" ≡ "… lines omitted …\n"
unfolding cut head_share nonempty join rstrip_by lstrip_by take drop
narrow_test = refl

cut_test : cut 24 "0123456789012345678901234567890" ≡ "012\n… lines omitted …\n90"
unfolding cut head_share nonempty join rstrip_by lstrip_by take drop
cut_test = refl

collapse_consecutive-runs_example :
    (collapse_consecutive ("x" ∷ "x" ∷ "y" ∷ []) ≡ map render (("x", 2) ∷ ("y", 1) ∷ []))
    × (expand (("x", 2) ∷ ("y", 1) ∷ []) ≡ "x" ∷ "x" ∷ "y" ∷ [])
    × IsMaximal (("x", 2) ∷ ("y", 1) ∷ [])
collapse_consecutive-runs_example = collapse_consecutive-runs ("x" ∷ "x" ∷ "y" ∷ [])

compact_text-le_example :
    (count (compact_text "one\ntwo" 4) ≤ 7) × (count (compact_text "one\ntwo" 4) ≤ 4)
compact_text-le_example = compact_text-le "one\ntwo" 4

abbrev digest : String → String
digest s = "0000000000000000000000000000000000000000000000000000000000000000"

abbrev percent : ℕ → ℕ → String
percent raw delivered = "57.8"

abbrev limits : Limits
limits = record {
  max_artifact_chars = 1000;
  max_vault_bytes = 1000;
  max_page_chars = 100;
  high_water_pct = 90;
  low_water_pct = 70;
}

abbrev settings : Settings
settings = record {
  native_enabled = true;
  aggressive = false;
  native_min_chars = 100;
  native_max_chars = 200;
}

abbrev call : Call
call = record {
  tool_name = "process";
  args_json = "{}";
  result =
      "same line\nsame line\nsame line\nsame line\nsame line\nsame line\nsame line\nsame line\nsame line\nsame line\nsame line\nsame line\nsame line\nsame line\nsame line\nsame line\nsame line\nsame line\nsame line\nsame line\nsame line\nsame line\nsame line\nsame line\nsame line\nsame line\nsame line\nsame line\nsame line\nsame line\nsame line\nsame line\nsame line\nsame line\nsame line\nsame line\nsame line\nsame line\nsame line\nsame line\n";
  session_id = "s";
  tool_call_id = "";
  backend_on = true;
  rtk_read = ok none;
}

abbrev start : Host
start = record { vault = empty; metrics = [] }

abbrev after : Host
after = (transform digest percent settings true limits "t1" call start).1

abbrev delivered : String
delivered =
    "same line  [repeated ×40]\n\n[Token Terminator: 57.8% fewer characters; full artifact=a_00000000000000000000000000000000; recover with token_terminator action=artifact_get]"

call_compressed :
    transform digest percent settings true limits "t1" call start ≡ (ok (some delivered), after)
unfolding transform eligible is_allowed finalize write recover deliver expose with_note
    recovery_note note_text savings_text proposed compact_text without_ansi escape
    collapse_consecutive collapse_from collapsed_line repeated splitlines is_break join print
    print_from rstrip rstrip_by is_space add exposure_of insert_exposure record_exposure by_sha
    by_id put_artifact put_body store_new prune_for_insert insert_artifact attach observe fresh_id
    short_id get_artifact is_intact take
call_compressed = refl

compress-IsDelivered_example : IsDelivered digest percent call delivered after.vault
compress-IsDelivered_example =
    compress-IsDelivered digest percent settings true limits "t1" call delivered start after
      call_compressed

compress-total_example :
    ((text : Option String) × ((transform digest percent settings false limits "t1" call start).0
        ≡ ok text))
    ⊎ ((e : Error) × ((transform digest percent settings false limits "t1" call start).0 ≡ raise e)
        × (str_eq call.tool_name "read_file" ≡ true)
        × (call.rtk_read ≡ raise e))
compress-total_example = compress-total digest percent settings false limits "t1" call start
