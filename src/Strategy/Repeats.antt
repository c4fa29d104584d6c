-- ===== src/Strategy/Repeats.antt =====
-- An engine that runs twice in a minute.
use Prim.Native.Nat.{suc}
use microgrid_cloud.Prelude.{
  ℕ, ◌+◌, ◌-◌, ◌≤◌, String, true, false, ◌||◌, none, some, ◌≡◌, refl, ◌==◌, any_where, Float64,
}
use microgrid_cloud.Prelude.Platform.{Platform}
use microgrid_cloud.Prelude.Exec.{calm, ok, ◌>>=◌, caught}
use microgrid_cloud.Prelude.Exec.Zoom.{zoom}
use microgrid_cloud.Commands.Domain.{Json, Command, CommandDb}
use microgrid_cloud.Commands.Repository.{has_id, latest_keyed, stored_payload, row_of}
use microgrid_cloud.Commands.Service.{
  new_command, response_of, idempotency_ttl, validate_issue, issuer, wrong_tenant, key_of,
  IssueRequest,
}
use microgrid_cloud.Commands.Idempotency.{first_command, after_first, issue_first, issue_later}
use microgrid_cloud.Strategy.Domain.{
  Strategy, Template, StrategyDb, LatestValue, AntiBackflowParams, Numbers, issued,
}
use microgrid_cloud.Strategy.Repository.{of_station, put_run, insert_run}
use microgrid_cloud.Strategy.Engine.{
  clamp, decision_of, run_of, request_for, build_idem_key, record_issued, issue, act_on,
}

module _ {V : Type 0} ⦃f : Float64 V⦄ ⦃n : Numbers V⦄ (platform : Platform) (json : Json)
    (event_ids : ℕ → String) (service_tenant context_tenant tenant_id : String) (item : Strategy)
    (t : Template) (p : AntiBackflowParams V) (l : LatestValue V) (at : ℕ) (d : StrategyDb V)
    (clock : ℕ → ℕ) (reads : ℕ) where
  abbrev pub target : V
  target = clamp l.value p.min_kw p.max_kw

  abbrev pub request : IssueRequest
  request =
      request_for platform json event_ids service_tenant context_tenant tenant_id item p target at

  abbrev pub owner : String
  owner = issuer service_tenant context_tenant request

  abbrev pub key : String
  key = key_of platform owner request

  abbrev pub command : Command
  command =
      first_command platform json event_ids service_tenant context_tenant request d.commands clock
        reads

  abbrev pub commands_after : CommandDb
  commands_after =
      after_first platform json event_ids service_tenant context_tenant request d.commands clock
        reads

  -- The tables after an evaluation at a time that is answered with the command: one run more.
  abbrev pub after_run : ℕ → ℕ → StrategyDb V → StrategyDb V
  after_run now created s =
      put_run
        (run_of item now
          (record (decision_of item t p l) {
            target_kw = some target;
            command_id = some command.command_id;
          })
          issued command.command_id)
        created s

  abbrev pub after_issue : StrategyDb V
  after_issue = after_run at (clock (suc reads)) (record d { commands = commands_after })

  same_request :
      (later : ℕ)
      → platform.format_minute later ≡ platform.format_minute at
      → request_for platform json event_ids service_tenant context_tenant tenant_id item p target
          later
        ≡ request
  unfolding request_for build_idem_key
  same_request later same = rw same refl

  -- An export above the threshold, for a template with a device, is answered by one command, where
  -- no call of the database fails, the command service takes the request, and no command of its key
  -- stands in the window of the service: the command is stored and announced, and the run says so.
  -- An evaluation of the same export in the same minute, no later than that window, writes its own
  -- run with the same command, and no second command is stored or announced.
  pub act_again :
      (later : ℕ)
      → f.le l.value p.threshold_kw ≡ false
      → p.device_id == "" ≡ false
      → any_where (of_station item.station_id) d.strategies ≡ true
      → validate_issue json request ≡ ok tt
      → wrong_tenant owner request ≡ false
      → (owner == "" || key == "") ≡ false
      → json.is_valid (stored_payload request.payload) ≡ true
      → latest_keyed owner key (clock reads - idempotency_ttl) d.commands ≡ none
      → any_where (has_id command.command_id) d.commands.commands ≡ false
      → clock (suc (suc reads)) ≤ clock reads + idempotency_ttl
      → platform.format_minute later ≡ platform.format_minute at
      → (act_on platform json event_ids service_tenant context_tenant tenant_id item t p at l
            (calm d clock reads)
          ≡ (ok tt, calm after_issue clock (suc (suc reads))))
        × (act_on platform json event_ids service_tenant context_tenant tenant_id item t p later l
              (calm after_issue clock (suc (suc reads)))
            ≡ (
              ok tt,
              calm
                  (after_run later (clock (suc (suc (suc reads)))) after_issue)
                  clock
                  (suc (suc (suc (suc reads)))),
            ))
  unfolding act_on issue zoom caught record_issued insert_run put_run new_command response_of row_of
      ◌>>=◌
  act_again later above named known valid own keyed document free fresh soon same =
      let first =
        issue_first platform json event_ids service_tenant context_tenant request d.commands clock
          reads valid own keyed document free fresh in
      let again =
        issue_later platform json event_ids service_tenant context_tenant request d.commands clock
          reads clock (suc (suc reads)) valid own keyed free soon in
      (
        rw (above, named, first, known) refl,
        rw (above, named, same_request later same, again, known) refl,
      )
