-- ===== src/Examples/Temporal.antt =====
-- Tests of the temporal reducer: a command that runs twice with the same long output.
use token_terminator.Common.{
  strip, is_space, lstrip_by, one_line, rstrip, rstrip_by, take, String, ◌≡◌, refl, true, false,
  some, [], ok, ◌<◌, count,
}
use token_terminator.Vault.Tables.{empty, by_sha, by_id}
use token_terminator.Vault.Put.{
  Limits, put_artifact, put_body, store_new, prune_for_insert, insert_artifact, attach, observe,
  fresh_id, short_id, get_artifact, is_intact, same_observation, same_exposure,
}
use token_terminator.Host.{Host}
use token_terminator.Temporal.{
  Identity, Reducer, Observed, transform, identity, reduce, compare_previous, deliver, delta,
  observe_again, put_snapshot, remember, snapshot_at,
}
use token_terminator.Metrics.{add}
use token_terminator.Vault.Leases.{exposure_of, has_key, insert_exposure, record_exposure}
use token_terminator.Temporal.Exactness.{IsLatest, transform-IsBacked}

abbrev zeros : String
zeros = "0000000000000000000000000000000000000000000000000000000000000000"

abbrev digest : String → String
digest s = zeros

abbrev dumps : String → String → String → String → String
dumps command cwd backend scope = command

abbrev diff : String → String → String → String → String
diff old new from to = ""

abbrev limits : Limits
limits = record {
  max_artifact_chars = 1000;
  max_vault_bytes = 1000;
  max_page_chars = 100;
  high_water_pct = 90;
  low_water_pct = 70;
}

abbrev reducer : Reducer
reducer = record { available = true; min_chars = 10; session_scoped = false }

abbrev run : Observed
run = record {
  tool_name = "terminal";
  command = some " make test ";
  cwd = "/repo";
  backend = "local";
  args_json = "{}";
  result =
      "0123456789 ok 0123456789 ok\n0123456789 ok\n0123456789 ok\n0123456789 ok\n0123456789 ok\n0123456789 ok\n0123456789 ok\n0123456789 ok\n0123456789 ok\n0123456789 ok\n0123456789 ok\n0123456789 ok\n0123456789 ok\n0123456789 ok\n0123456789 ok\n0123456789 ok\n0123456789 ok\n0123456789 ok\n0123456789 ok\n0123456789 ok\n0123456789 ok\n0123456789 ok\n0123456789 ok\n0123456789 ok\n0123456789 ok\n0123456789 ok\n0123456789 ok\n0123456789 ok\n0123456789 ok\n";
  session_id = "s";
  tool_call_id = "c";
}

abbrev start : Host
start = record { vault = empty; metrics = [] }

abbrev after_first : Host
after_first = (transform digest dumps diff reducer limits "t1" run start).1

abbrev unchanged : String
unchanged =
    "[Token Terminator temporal delta: no output changes since the previous execution | current=a_00000000000000000000000000000000 | previous=a_00000000000000000000000000000000 | recover exact current output with token_terminator action=artifact_get]"

abbrev after_second : Host
after_second = (transform digest dumps diff reducer limits "t2" run after_first).1

second_run :
    transform digest dumps diff reducer limits "t2" run after_first
    ≡ (ok (some unchanged), after_second)
unfolding transform identity reduce compare_previous deliver delta observe_again put_snapshot
    remember snapshot_at add exposure_of has_key insert_exposure record_exposure by_sha by_id
    put_artifact put_body store_new prune_for_insert insert_artifact attach observe fresh_id
    short_id get_artifact is_intact same_observation same_exposure strip is_space lstrip_by one_line
    rstrip rstrip_by take
second_run = refl

transform-IsBacked_example :
    (count unchanged < count run.result)
    × ((i : Identity) × (identity digest dumps diff reducer run ≡ some i)
        × IsLatest digest dumps diff run i after_second.vault)
transform-IsBacked_example =
    transform-IsBacked digest dumps diff reducer limits "t2" run after_first after_second unchanged
      second_run
