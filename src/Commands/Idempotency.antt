-- ===== src/Commands/Idempotency.antt =====
-- Issuing the same command again within the idempotency window.
use microgrid_cloud.Prelude.{
  ℕ, suc, ◌+◌, ◌-◌, ◌≤◌, String, List, [], ◌∷◌, ◌++◌, true, false, ◌≡◌, refl, arith, ◌==◌, ◌||◌,
  none, some, length, leb, any_where, any_where_of_latest, select, select-append, latest-append,
  eq_refl,
}
use microgrid_cloud.Prelude.Platform.{Platform}
use microgrid_cloud.Prelude.Exec.{calm, ok, err, ◌>>=◌}
use microgrid_cloud.Commands.Domain.{Command, CommandDb, issued, publish_failed, Json}
use microgrid_cloud.Commands.Repository.{
  has_id, keyed_since, latest_keyed, find_by_idempotency_key, row_of, stored_payload, create,
  publish,
}
use microgrid_cloud.Commands.Service.{
  IssueRequest, idempotency_ttl, validate_issue, issuer, wrong_tenant, key_of, response_of,
  new_command, issue_new, issue_found, issue_for, issue_command,
}

-- If no row of the key stands in the window, a new row is the latest of its key in any window that
-- it belongs to.
older_rows :
    (tenant key : String) (since since' t : ℕ) (rows : List Command)
    → since ≤ t
    → any_where (keyed_since tenant key since) rows ≡ false
    → any_where (λ c. leb t c.created_at) (select (keyed_since tenant key since') rows) ≡ false
unfolding any_where select keyed_since
older_rows tenant key since since' t [] h k = refl
older_rows tenant key since since' t (c ∷ rows) h k =
    ground (arith, older_rows tenant key since since' t rows)

module _ (platform : Platform) (json : Json) (event_ids : ℕ → String)
    (service_tenant tenant : String) (req : IssueRequest) (d : CommandDb) (clock : ℕ → ℕ)
    (reads : ℕ) where
  abbrev owner : String
  owner = issuer service_tenant tenant req

  abbrev key : String
  key = key_of platform owner req

  -- The command that is issued at the first reading of the clock.
  abbrev pub first_command : Command
  first_command = new_command platform json event_ids service_tenant owner key req (clock reads)

  -- The state after it is issued: its row, and its event in the outbox.
  abbrev pub after_first : CommandDb
  after_first = record {
    commands = d.commands ++ row_of json first_command ∷ [];
    published =
        d.published
        ++ issued (record {
          event_id = event_ids (length d.published);
          command_id = first_command.command_id;
          tenant_id = owner;
          station_id = req.station_id;
          device_id = req.device_id;
          command_type = req.command_type;
          payload = req.payload;
          idempotency_key = key;
          occurred_at = clock reads;
        })
          ∷ [];
  }

  row_keyed :
      (since : ℕ)
      → since ≤ clock reads
      → keyed_since owner key since (row_of json first_command) ≡ true
  unfolding keyed_since row_of new_command
  row_keyed since h = rw (eq_refl owner, eq_refl key) (ground arith)

  found_again :
      (since : ℕ)
      → since ≤ clock reads
      → latest_keyed owner key (clock reads - idempotency_ttl) d ≡ none
      → latest_keyed owner key since after_first ≡ some (row_of json first_command)
  unfolding latest_keyed row_of new_command
  found_again since h free =
      let row = row_of json first_command in
      let rows =
        any_where_of_latest (λ c. c.created_at)
          (keyed_since owner key (clock reads - idempotency_ttl)) d.commands free in
      let older =
        older_rows owner key (clock reads - idempotency_ttl) since (clock reads) d.commands
          (omega arith) rows in
      rw (select-append (keyed_since owner key since) d.commands row, row_keyed since h)
        (latest-append (λ c. c.created_at) _ row older)

  -- The first call of a request whose key and id are free.
  pub issue_first :
      validate_issue json req ≡ ok tt
      → wrong_tenant owner req ≡ false
      → (owner == "" || key == "") ≡ false
      → json.is_valid (stored_payload req.payload) ≡ true
      → latest_keyed owner key (clock reads - idempotency_ttl) d ≡ none
      → any_where (has_id first_command.command_id) d.commands ≡ false
      → issue_command platform json event_ids service_tenant tenant req (calm d clock reads)
        ≡ (ok (response_of first_command), calm after_first clock (suc reads))
  unfolding issue_command issue_for issue_found issue_new find_by_idempotency_key create publish
      row_of ◌>>=◌
  issue_first valid own named document free fresh =
      rw (valid, own, named, free, document, fresh) refl

  -- The request at any later call inside the window, wherever the clock stands then.
  pub issue_later :
      (later : ℕ → ℕ) (calls : ℕ)
      → validate_issue json req ≡ ok tt
      → wrong_tenant owner req ≡ false
      → (owner == "" || key == "") ≡ false
      → latest_keyed owner key (clock reads - idempotency_ttl) d ≡ none
      → later calls ≤ clock reads + idempotency_ttl
      → issue_command platform json event_ids service_tenant tenant req
          (calm after_first later calls)
        ≡ (ok (response_of (row_of json first_command)), calm after_first later (suc calls))
  unfolding issue_command issue_for issue_found find_by_idempotency_key row_of ◌>>=◌
  issue_later later calls valid own named free soon =
      let again = found_again (later calls - idempotency_ttl) (omega arith) free in
      rw (valid, own, named, again) refl

  -- A valid request of its own tenant, with a key that no command of the window has and an id that no
  -- command has, issued while no call of the database fails, is stored, announced and answered. The
  -- same request no later than the window after it is answered with the stored command, and changes
  -- nothing: there is no second command and no second event.
  pub issue_again :
      validate_issue json req ≡ ok tt
      → wrong_tenant owner req ≡ false
      → (owner == "" || key == "") ≡ false
      → json.is_valid (stored_payload req.payload) ≡ true
      → latest_keyed owner key (clock reads - idempotency_ttl) d ≡ none
      → any_where (has_id first_command.command_id) d.commands ≡ false
      → clock (suc reads) ≤ clock reads + idempotency_ttl
      → (issue_command platform json event_ids service_tenant tenant req (calm d clock reads)
          ≡ (ok (response_of first_command), calm after_first clock (suc reads)))
        × (issue_command platform json event_ids service_tenant tenant req
              (calm after_first clock (suc reads))
            ≡ (
              ok (response_of (row_of json first_command)),
              calm after_first clock (suc (suc reads)),
            ))
  issue_again valid own named document free fresh soon = (
    issue_first valid own named document free fresh,
    issue_later clock (suc reads) valid own named free soon,
  )

  -- The state in which the command is stored and not announced.
  abbrev pub stored_only : CommandDb
  stored_only = record after_first { published = d.published }

  stored_again :
      (since : ℕ)
      → since ≤ clock reads
      → latest_keyed owner key (clock reads - idempotency_ttl) d ≡ none
      → latest_keyed owner key since stored_only ≡ some (row_of json first_command)
  unfolding latest_keyed
  stored_again since h free = found_again since h free

  -- If only the outbox fails on such a request, the request fails with the command stored; and the
  -- same request no later than the window after it succeeds with that command, which is never
  -- announced by either.
  pub issue_unannounced :
      validate_issue json req ≡ ok tt
      → wrong_tenant owner req ≡ false
      → (owner == "" || key == "") ≡ false
      → json.is_valid (stored_payload req.payload) ≡ true
      → latest_keyed owner key (clock reads - idempotency_ttl) d ≡ none
      → any_where (has_id first_command.command_id) d.commands ≡ false
      → clock (suc reads) ≤ clock reads + idempotency_ttl
      → (issue_command platform json event_ids service_tenant tenant req
            (record (calm d clock reads) { outcomes = false ∷ false ∷ true ∷ [] })
          ≡ (err publish_failed, calm stored_only clock (suc reads)))
        × (issue_command platform json event_ids service_tenant tenant req
              (calm stored_only clock (suc reads))
            ≡ (
              ok (response_of (row_of json first_command)),
              calm stored_only clock (suc (suc reads)),
            ))
  unfolding issue_command issue_for issue_found issue_new find_by_idempotency_key create publish
      row_of ◌>>=◌
  issue_unannounced valid own named document free fresh soon =
      let again = stored_again (clock (suc reads) - idempotency_ttl) (omega arith) free in
      (rw (valid, own, named, free, document, fresh) refl, rw (valid, own, named, again) refl)
