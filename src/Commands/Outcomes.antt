-- ===== src/Commands/Outcomes.antt =====
-- What the timeout scanner and the consumer do to the commands, where no call of the database fails.
use microgrid_cloud.Prelude.{
  ℕ, suc, ◌+◌, String, List, [], ◌∷◌, ◌++◌, Bool, true, false, ◌≡◌, refl, sym, ap, arith, ◌==◌,
  Option, none, some, length, find_first, find_first-update, count_where, update_where,
  if◌then◌else◌, Bool-cases, inl, inr,
}
use microgrid_cloud.Prelude.Exec.{calm, Result, ok, err, ◌>>=◌}
use microgrid_cloud.Commands.Domain.{
  timeout, Command, CommandIssued, CommandEvent, acknowledged, rejected, CommandDb, RpcResponse,
}
use microgrid_cloud.Commands.Repository.{
  has_id, as_sent, as_acked, as_failed, as_timeout, overdue, update_command, mark_sent, mark_acked,
  mark_failed, mark_timeout_before, publish,
}
use microgrid_cloud.Commands.Consumer.{
  publish_acked, publish_failed_event, give_up, confirm, handle_answer, handle_command_issued,
}

-- A world in which no call of the database fails.
abbrev pub timed_out : Command → Bool
timed_out c = elim c.status [ timeout ↦ true | _ ↦ false ]

none_overdue :
    (before : ℕ) (cs : List Command)
    → count_where (overdue before) (update_where (overdue before) as_timeout cs) ≡ 0
unfolding count_where update_where overdue as_timeout
none_overdue before [] = refl
none_overdue before (c ∷ cs) = ground (arith, none_overdue before cs)

more_timeouts :
    (before : ℕ) (cs : List Command)
    → count_where timed_out (update_where (overdue before) as_timeout cs)
      ≡ count_where timed_out cs + count_where (overdue before) cs
unfolding count_where update_where overdue as_timeout
more_timeouts before [] = refl
more_timeouts before (c ∷ cs) = ground (arith, more_timeouts before cs)

same_length :
    (p : Command → Bool) (f : Command → Command) (cs : List Command)
    → length (update_where p f cs) ≡ length cs
unfolding update_where
same_length p f [] = refl
same_length p f (c ∷ cs) = ap suc (same_length p f cs)

-- A scan for timeouts, where no call of the database fails, returns how many commands have been sent
-- before the given time and not answered; so many more are timed out after it, no such command is
-- left, and no command is lost.
pub timeouts_exact :
    (before : ℕ) (d : CommandDb) (clock : ℕ → ℕ) (reads : ℕ)
    → let (r, w) = mark_timeout_before before (calm d clock reads) in
      (r ≡ ok (count_where (overdue before) d.commands))
      × (count_where timed_out w.db.commands
          ≡ count_where timed_out d.commands + count_where (overdue before) d.commands)
      × (count_where (overdue before) w.db.commands ≡ 0)
      × (length w.db.commands ≡ length d.commands)
unfolding mark_timeout_before update_command ◌>>=◌
timeouts_exact before d clock reads = (
  refl,
  more_timeouts before d.commands,
  none_overdue before d.commands,
  same_length _ _ d.commands,
)

append_nil : (es : List CommandEvent) → es ++ [] ≡ es
append_nil [] = refl
append_nil (e ∷ es) = ap (◌∷◌ e) (append_nil es)

-- The message that a failed call is recorded with, or none if the call did not fail.
abbrev pub failure : Result String RpcResponse → Option String
failure (err message) = some message
failure (ok resp) =
    if resp.status == "failed"
    then some (if resp.error == "" then "tb rpc failed" else resp.error)
    else none

abbrev pub was_acked : Result String RpcResponse → Bool
was_acked (err message) = false
was_acked (ok resp) = resp.status == "acked"

-- What an answer makes of the command that was sent at `t`.
abbrev pub settled : ℕ → Option String → Bool → Command → Command
settled t (some message) acked c = as_failed message (as_sent t c)
settled t none true c = as_acked t (as_sent t c)
settled t none false c = as_sent t c

-- What is announced after it.
abbrev pub announced :
    (ℕ → String) → CommandIssued → CommandDb → ℕ → Option String → Bool → List CommandEvent
announced event_ids evt d t (some message) acked =
    rejected (record {
      event_id = event_ids (length d.published);
      command_id = evt.command_id;
      tenant_id = evt.tenant_id;
      station_id = evt.station_id;
      device_id = evt.device_id;
      error = message;
      occurred_at = t;
    })
    ∷ []
announced event_ids evt d t none true =
    acknowledged (record {
      event_id = event_ids (length d.published);
      command_id = evt.command_id;
      tenant_id = evt.tenant_id;
      station_id = evt.station_id;
      device_id = evt.device_id;
      occurred_at = t;
    })
    ∷ []
announced event_ids evt d t none false = []

module _ (event_ids : ℕ → String) (evt : CommandIssued) (d : CommandDb) (c : Command)
    (clock : ℕ → ℕ) (reads : ℕ) where
  sent_found :
      find_first (has_id evt.command_id) d.commands ≡ some c
      → find_first
          (has_id evt.command_id)
          (update_where (has_id evt.command_id) (as_sent (clock reads)) d.commands)
        ≡ some (as_sent (clock reads) c)
  unfolding as_sent
  sent_found e =
      find_first-update (has_id evt.command_id) (as_sent (clock reads)) d.commands c (λ x. refl) e

  -- Where no call of the database fails, an issued command that is found is sent, and then failed
  -- with the platform's message, acknowledged, or left as sent, as the platform answers; one event
  -- tells of a failure or an acknowledgement, and none of anything else.
  pub answers_settle :
      (answer : Result String RpcResponse)
      → find_first (has_id evt.command_id) d.commands ≡ some c
      → let (r, w) = handle_command_issued event_ids answer evt (calm d clock reads) in
        (r ≡ ok tt)
        × (find_first (has_id evt.command_id) w.db.commands
            ≡ some (settled (clock reads) (failure answer) (was_acked answer) c))
        × (w.db.published
            ≡ d.published
              ++ announced event_ids evt d (clock (suc reads)) (failure answer) (was_acked answer))
  unfolding handle_command_issued handle_answer give_up confirm publish_acked publish_failed_event
      publish mark_sent mark_acked mark_failed update_command as_sent as_acked as_failed ◌>>=◌
  answers_settle (err message) e = (
    refl,
    find_first-update (has_id evt.command_id) (as_failed message) _ _ (λ x. refl) (sent_found e),
    refl,
  )
  answers_settle (ok resp) e = elim (Bool-cases (resp.status == "failed")) [
    | inl refused ↦ rw refused (
      refl,
      find_first-update (has_id evt.command_id)
          (as_failed (if resp.error == "" then "tb rpc failed" else resp.error)) _ _ (λ x. refl)
          (sent_found e),
      refl,
    )
    | inr accepted ↦ elim (Bool-cases (resp.status == "acked")) [
      | inl acked ↦
          rw (accepted, acked)
            (
              refl,
              find_first-update (has_id evt.command_id) (as_acked (clock reads)) _ _ (λ x. refl)
                  (sent_found e),
              refl,
            )
      | inr pending ↦ rw (accepted, pending) (refl, sent_found e, sym (append_nil d.published))
    ]
  ]
