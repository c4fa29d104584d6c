-- ===== src/Commands/Service.antt =====
-- The command service, backend/internal/commands/application/service.go. The random id of an event
-- is a function of the number of events before it.
use microgrid_cloud.Prelude.{
  ℕ, String, ◌+++◌, List, Bool, not, ◌&&◌, ◌-◌, Option, none, some, ◌==◌, if◌then◌else◌, length,
}
use microgrid_cloud.Prelude.Platform.{Platform}
use microgrid_cloud.Prelude.Exec.{Result, ok, err, pure, lift, gets, now, guard, ◌>>=◌, ◌>>◌}
use microgrid_cloud.Commands.Domain.{
  CommandStatus, created, Command, CommandError, issued, station_id_required, device_id_required,
  command_type_required, invalid_payload, tenant_mismatch, Json,
}
use microgrid_cloud.Commands.Repository.{
  Act, find_by_idempotency_key, create, publish, list_by_station_and_time, mark_timeout_before,
}

pub record IssueRequest : Type 0 where
  pub tenant_id : String
  pub station_id : String
  pub device_id : String
  pub command_type : String
  pub payload : String
  pub idempotency_key : String

pub record IssueResponse : Type 0 where
  pub command_id : String
  pub tenant_id : String
  pub station_id : String
  pub device_id : String
  pub command_type : String
  pub payload : String
  pub idempotency_key : String
  pub status : CommandStatus
  pub created_at : ℕ

-- Ten minutes.
abbrev pub idempotency_ttl : ℕ
idempotency_ttl = 600000000000

unfoldable pub validate_issue : Json → IssueRequest → Result CommandError (Unit {0})
validate_issue json req =
    if req.station_id == ""
    then err station_id_required
    else if req.device_id == ""
    then err device_id_required
    else if req.command_type == ""
    then err command_type_required
    else if not (req.payload == "") && not (json.is_valid req.payload)
    then err invalid_payload
    else ok tt

unfoldable pub build_idempotency_key : Platform → String → IssueRequest → String
build_idempotency_key platform tenant req = platform.sha1_hex (
    tenant +++ "|" +++ req.station_id +++ "|" +++ req.device_id +++ "|" +++ req.command_type +++ "|"
    +++ req.payload)

-- The tenant of the context, else the one of the request, else the one of the service.
unfoldable pub issuer : String → String → IssueRequest → String
issuer service_tenant tenant req =
    if tenant == "" then (if req.tenant_id == "" then service_tenant else req.tenant_id) else tenant

unfoldable pub wrong_tenant : String → IssueRequest → Bool
wrong_tenant tenant req =
    not (tenant == "") && (not (req.tenant_id == "") && not (req.tenant_id == tenant))

unfoldable pub key_of : Platform → String → IssueRequest → String
unfolding build_idempotency_key
key_of platform tenant req =
    if req.idempotency_key == ""
    then build_idempotency_key platform tenant req
    else req.idempotency_key

unfoldable pub response_of : Command → IssueResponse
response_of c = record {
  command_id = c.command_id;
  tenant_id = c.tenant_id;
  station_id = c.station_id;
  device_id = c.device_id;
  command_type = c.command_type;
  payload = c.payload;
  idempotency_key = c.idempotency_key;
  status = c.status;
  created_at = c.created_at;
}

module _ (platform : Platform) (json : Json) (event_ids : ℕ → String)
    (service_tenant : String) where
  unfoldable pub new_command : String → String → IssueRequest → ℕ → Command
  new_command tenant key req t = record {
    command_id =
        "cmd-"
        +++ platform.sha1_short
            (tenant +++ req.device_id +++ req.command_type +++ platform.format_nano t);
    tenant_id = tenant;
    station_id = req.station_id;
    device_id = req.device_id;
    command_type = req.command_type;
    payload = req.payload;
    idempotency_key = key;
    status = created;
    created_at = t;
    sent_at = 0;
    acked_at = 0;
    error = "";
  }

  -- The part of `IssueCommand` for a new command.
  unfoldable pub issue_new : String → String → IssueRequest → ℕ → Act IssueResponse
  unfolding new_command response_of
  issue_new tenant key req t = do
    create json (new_command tenant key req t)
    n ← gets (λ d. length d.published)
    publish (
        issued (record {
          event_id = event_ids n;
          command_id = (new_command tenant key req t).command_id;
          tenant_id = tenant;
          station_id = req.station_id;
          device_id = req.device_id;
          command_type = req.command_type;
          payload = req.payload;
          idempotency_key = key;
          occurred_at = t;
        }))
    pure (response_of (new_command tenant key req t))

  unfoldable pub issue_found :
      String → String → IssueRequest → ℕ → Option Command → Act IssueResponse
  unfolding issue_new response_of
  issue_found tenant key req t none = issue_new tenant key req t
  issue_found tenant key req t (some c) = pure (response_of c)

  -- A command issued for a tenant.
  unfoldable pub issue_for : String → IssueRequest → Act IssueResponse
  unfolding issue_found wrong_tenant key_of
  issue_for tenant req = do
    guard (not (wrong_tenant tenant req)) tenant_mismatch
    t ← now
    existing ← find_by_idempotency_key tenant (key_of platform tenant req) (t - idempotency_ttl)
    issue_found tenant (key_of platform tenant req) req t existing

  unfoldable pub issue_command : String → IssueRequest → Act IssueResponse
  unfolding issue_for validate_issue issuer
  issue_command tenant req = do
    lift (validate_issue json req)
    issue_for (issuer service_tenant tenant req) req

  unfoldable pub list_commands : String → String → ℕ → ℕ → Act (List Command)
  list_commands tenant station_id from to = do
    guard (not (station_id == "")) station_id_required
    list_by_station_and_time (if tenant == "" then service_tenant else tenant) station_id from to

  unfoldable pub mark_timeouts : ℕ → Act ℕ
  mark_timeouts before = mark_timeout_before before
