-- ===== src/Commands/Consumer.antt =====
-- The consumer that sends issued commands to the device platform,
-- backend/internal/commands/interfaces/tb_rpc_consumer.go. The platform's answer to the call is an
-- argument, an error being its text.
use microgrid_cloud.Prelude.{ℕ, String, ◌==◌, if◌then◌else◌, length}
use microgrid_cloud.Prelude.Exec.{Result, ok, err, pure, gets, now, ignore, ◌>>=◌, ◌>>◌}
use microgrid_cloud.Commands.Domain.{CommandIssued, acknowledged, rejected, RpcResponse}
use microgrid_cloud.Commands.Repository.{Act, mark_sent, mark_acked, mark_failed, publish}

module _ (event_ids : ℕ → String) where
  unfoldable pub publish_acked : CommandIssued → Act (Unit {0})
  publish_acked evt = do
    n ← gets (λ d. length d.published)
    t ← now
    publish (
        acknowledged (record {
          event_id = event_ids n;
          command_id = evt.command_id;
          tenant_id = evt.tenant_id;
          station_id = evt.station_id;
          device_id = evt.device_id;
          occurred_at = t;
        }))

  unfoldable pub publish_failed_event : CommandIssued → String → Act (Unit {0})
  publish_failed_event evt message = do
    n ← gets (λ d. length d.published)
    t ← now
    publish (
        rejected (record {
          event_id = event_ids n;
          command_id = evt.command_id;
          tenant_id = evt.tenant_id;
          station_id = evt.station_id;
          device_id = evt.device_id;
          error = message;
          occurred_at = t;
        }))

  unfoldable pub give_up : CommandIssued → String → Act (Unit {0})
  unfolding publish_failed_event
  give_up evt message = do
    ignore (mark_failed evt.command_id message)
    publish_failed_event evt message

  unfoldable pub confirm : CommandIssued → ℕ → Act (Unit {0})
  unfolding publish_acked
  confirm evt t = do mark_acked evt.command_id t; publish_acked evt

  -- What follows the answer of the platform; `t` is when the command was sent.
  unfoldable pub handle_answer : CommandIssued → ℕ → Result String RpcResponse → Act (Unit {0})
  unfolding give_up confirm
  handle_answer evt t (err message) = give_up evt message
  handle_answer evt t (ok resp) =
      if resp.status == "failed"
      then give_up evt (if resp.error == "" then "tb rpc failed" else resp.error)
      else if resp.status == "acked"
      then confirm evt t
      else pure tt

  unfoldable pub handle_command_issued : Result String RpcResponse → CommandIssued → Act (Unit {0})
  unfolding handle_answer
  handle_command_issued answer evt = do
    t ← now
    mark_sent evt.command_id t
    handle_answer evt t answer
