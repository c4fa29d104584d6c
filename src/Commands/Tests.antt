-- ===== src/Commands/Tests.antt =====
-- The theorems on commands at a concrete request.
use microgrid_cloud.Prelude.{
  suc, ◌+◌, String, List, [], ◌∷◌, true, false, ◌≡◌, refl, arith, some, length, any_where, latest,
  select, find_first, count_where,
}
use microgrid_cloud.Prelude.TestPlatform.{test_platform, strokes}
use microgrid_cloud.Prelude.Exec.{calm, World, Result, ok, err}
use microgrid_cloud.Commands.Domain.{
  created, sent, Command, CommandIssued, CommandDb, publish_failed, Json, RpcResponse,
}
use microgrid_cloud.Commands.Repository.{
  has_id, keyed_since, latest_keyed, stored_payload, row_of, overdue, mark_timeout_before,
}
use microgrid_cloud.Commands.Service.{
  IssueRequest, validate_issue, wrong_tenant, issuer, key_of, new_command, response_of,
  issue_command,
}
use microgrid_cloud.Commands.Consumer.{handle_command_issued}
use microgrid_cloud.Commands.Safety.{Unique, Evolves, same_command}
use microgrid_cloud.Commands.Calls.{
  Call, issues, lists, times_out, consumes, perform_all, perform_all-Tracks,
}
use microgrid_cloud.Commands.Outcomes.{
  timed_out, timeouts_exact, failure, was_acked, settled, announced, answers_settle,
}
use microgrid_cloud.Commands.Idempotency.{
  first_command, after_first, stored_only, issue_again, issue_unannounced,
}

abbrev json : Json
json = record { is_valid = λ s. true; normalized = λ s. s }

abbrev request : IssueRequest
request = record {
  tenant_id = "";
  station_id = "s1";
  device_id = "d1";
  command_type = "stop";
  payload = "{}";
  idempotency_key = "k1";
}

abbrev waiting : Command
waiting = record {
  command_id = "c1";
  tenant_id = "home";
  station_id = "s1";
  device_id = "d1";
  command_type = "start";
  payload = "{}";
  idempotency_key = "k0";
  status = sent;
  created_at = 3;
  sent_at = 4;
  acked_at = 0;
  error = "";
}

abbrev quick : Command
quick = record waiting { command_id = "c2"; status = created; sent_at = 0 }

abbrev tables : CommandDb
tables = record { commands = waiting ∷ quick ∷ []; published = [] }

abbrev order : CommandIssued
order = record {
  event_id = "e1";
  command_id = "c2";
  tenant_id = "home";
  station_id = "s1";
  device_id = "d1";
  command_type = "start";
  payload = "{}";
  idempotency_key = "k0";
  occurred_at = 3;
}

abbrev reply : Result String RpcResponse
reply = ok (record { status = "acked"; error = "" })

-- The third call of the database fails.
abbrev rough : World CommandDb
rough = record (calm tables suc 8) { outcomes = false ∷ false ∷ true ∷ [] }

abbrev calls : List Call
calls =
    issues "" request
    ∷ issues "" request
    ∷ consumes reply order
    ∷ times_out 9
    ∷ consumes (err "down") order
    ∷ lists "" "s1" 0 9
    ∷ []

perform_all-Tracks_example :
    Unique (perform_all test_platform json strokes "home" calls rough).db.commands
    × Evolves tables.commands
        (perform_all test_platform json strokes "home" calls rough).db.commands
unfolding any_where same_command
perform_all-Tracks_example =
    perform_all-Tracks test_platform json strokes "home" calls rough (refl, (refl, tt))

timeouts_exact_example :
    let (r, w) = mark_timeout_before 9 (calm tables suc 8) in
    (r ≡ ok (count_where (overdue 9) tables.commands))
    × (count_where timed_out w.db.commands
        ≡ count_where timed_out tables.commands + count_where (overdue 9) tables.commands)
    × (count_where (overdue 9) w.db.commands ≡ 0)
    × (length w.db.commands ≡ 2)
timeouts_exact_example = timeouts_exact 9 tables suc 8

answers_settle_example :
    let (r, w) = handle_command_issued strokes reply order (calm tables suc 8) in
    (r ≡ ok tt)
    × (find_first (has_id "c2") w.db.commands
        ≡ some (settled 9 (failure reply) (was_acked reply) quick))
    × (w.db.published ≡ announced strokes order tables 10 (failure reply) (was_acked reply))
unfolding find_first
answers_settle_example = answers_settle strokes order tables quick suc 8 reply refl

issue_again_example :
    (issue_command test_platform json strokes "home" "" request (calm tables suc 8) ≡ (
      ok (response_of (first_command test_platform json strokes "home" "" request tables suc 8)),
      calm (after_first test_platform json strokes "home" "" request tables suc 8) suc 9,
    ))
    × (issue_command test_platform json strokes "home" "" request
          (calm (after_first test_platform json strokes "home" "" request tables suc 8) suc 9)
        ≡ (
          ok (
              response_of (
                row_of json
                  (first_command test_platform json strokes "home" "" request tables suc 8))),
          calm (after_first test_platform json strokes "home" "" request tables suc 8) suc 10,
        ))
unfolding validate_issue wrong_tenant issuer key_of stored_payload latest_keyed latest select
    keyed_since any_where new_command
issue_again_example =
    issue_again test_platform json strokes "home" "" request tables suc 8 refl refl refl refl refl
      refl (omega arith)

issue_unannounced_example :
    (issue_command test_platform json strokes "home" "" request rough ≡ (
      err publish_failed,
      calm (stored_only test_platform json strokes "home" "" request tables suc 8) suc 9,
    ))
    × (issue_command test_platform json strokes "home" "" request
          (calm (stored_only test_platform json strokes "home" "" request tables suc 8) suc 9)
        ≡ (
          ok (
              response_of (
                row_of json
                  (first_command test_platform json strokes "home" "" request tables suc 8))),
          calm (stored_only test_platform json strokes "home" "" request tables suc 8) suc 10,
        ))
unfolding validate_issue wrong_tenant issuer key_of stored_payload latest_keyed latest select
    keyed_since any_where new_command
issue_unannounced_example =
    issue_unannounced test_platform json strokes "home" "" request tables suc 8 refl refl refl refl
      refl refl (omega arith)
