-- ===== src/Eventing/Counts.antt =====
-- What a dispatch reports: backend/internal/eventing/dispatcher.go.
use microgrid_cloud.Prelude.{
  ℕ, suc, ◌+◌, ◌≤◌, String, List, [], ◌∷◌, Bool, ◌≡◌, refl, subst, arith, length,
}
use microgrid_cloud.Prelude.Exec.{Result, ok, err, World, Triple, Post, pure, caught, ◌>>=◌}
use microgrid_cloud.Prelude.Exec.Rules.{
  Triple-bind, triple-Keeps, Triple-pure, Triple-if, Triple-after,
}
use microgrid_cloud.Eventing.Domain.{Envelope, OutboxRecord, EventDb, EventError, DispatchResult}
use microgrid_cloud.Eventing.Stores.{Act, record_failure}
use microgrid_cloud.Eventing.Delivery.{
  Handler, count_ok, after_mark, dead_letter, fail_record, after_publish, deliver, dispatch_records,
  dispatch,
}

-- The counts of a report with `n` records to go.
record Counted (claimed n : ℕ) (r : DispatchResult) : Type 0 where
  total : r.sent_count + r.failed_count + n ≡ claimed
  buried : r.dlq_count ≤ r.failed_count
  same : r.claimed ≡ claimed

-- What a dispatch reports when it is done.
pub record Tallied (r : DispatchResult) : Type 0 where
  pub every_record : r.claimed ≡ r.sent_count + r.failed_count
  pub only_failed : r.dlq_count ≤ r.failed_count

module _ {X : Type 0} where
  -- Any action, of which nothing is asked.
  pub any_action :
      {A : Type 0} (m : Act X A) → Triple (λ _. Unit {0}) m (λ _ _. Unit {0}) (λ _. Unit {0})
  any_action m = triple-Keeps m (record { at = λ w h. tt }) (λ s h. tt)

module _ {X P : Type 0} (decode : Envelope → Result EventError P)
    (handlers : String → List (Handler X P)) (message : EventError → String) (has_dlq : Bool)
    (order : List OutboxRecord → List OutboxRecord) where
  abbrev Reports : Act X DispatchResult → (DispatchResult → Type 0) → Type 0
  Reports m Q = Triple (λ _. Unit {0}) m (λ r _. Q r) (λ _. Unit {0})

  buried_count :
      (claimed n : ℕ) (r : DispatchResult) (b : Result EventError (Unit {0}))
      → Counted claimed (suc n) r
      → Counted claimed n
          (record r { dlq_count = count_ok b r.dlq_count; failed_count = suc r.failed_count })
  buried_count claimed n r (ok u) h = record {
    total = omega (arith, h.total);
    buried = omega (arith, h.buried);
    same = h.same;
  }
  buried_count claimed n r (err e) h = record {
    total = omega (arith, h.total);
    buried = omega (arith, h.buried);
    same = h.same;
  }

  dead_letter_counts :
      (claimed n : ℕ) (r : OutboxRecord) (e : EventError) (result : DispatchResult)
      → Counted claimed (suc n) result
      → Reports (dead_letter decode handlers message has_dlq order r e result) (Counted claimed n)
  unfolding dead_letter
  dead_letter_counts claimed n r e result h =
      Triple-if has_dlq
        (caught (record_failure r.envelope (message e)) >>= λ b. pure (record result {
          dlq_count = count_ok b result.dlq_count;
          failed_count = suc result.failed_count;
        }))
        (pure (record result { failed_count = suc result.failed_count }))
        (λ _.
          Triple-bind _ _ (any_action _)
            λ b. Triple-pure _ λ s _. buried_count claimed n result b h)
        (λ _. Triple-pure _ λ s _. record {
          total = omega (arith, h.total);
          buried = omega (arith, h.buried);
          same = h.same;
        })

  fail_record_counts :
      (claimed n : ℕ) (r : OutboxRecord) (e : EventError) (result : DispatchResult)
      → Counted claimed (suc n) result
      → Reports (fail_record decode handlers message has_dlq order r e result) (Counted claimed n)
  unfolding fail_record
  fail_record_counts claimed n r e result h = Triple-bind _ _ (any_action _) λ marked.
      dead_letter_counts claimed n r e _
        (record { total = h.total; buried = h.buried; same = h.same })

  marked_counts :
      (claimed n : ℕ) (result : DispatchResult) (marked : Result EventError (Unit {0}))
      → Counted claimed (suc n) result
      → Counted claimed n (after_mark result marked)
  marked_counts claimed n result (ok u) h = record {
    total = omega (arith, h.total);
    buried = h.buried;
    same = h.same;
  }
  marked_counts claimed n result (err e) h = record {
    total = omega (arith, h.total);
    buried = omega (arith, h.buried);
    same = h.same;
  }

  after_publish_counts :
      (claimed n : ℕ) (r : OutboxRecord) (result : DispatchResult)
      (published : Result EventError (Unit {0}))
      → Counted claimed (suc n) result
      → Reports
          (after_publish decode handlers message has_dlq order r result published)
          (Counted claimed n)
  unfolding after_publish
  after_publish_counts claimed n r result (err e) h = fail_record_counts claimed n r e result h
  after_publish_counts claimed n r result (ok u) h =
      Triple-bind _ _ (any_action _)
        λ marked. Triple-pure _ λ s _. marked_counts claimed n result marked h

  deliver_counts :
      (claimed n : ℕ) (r : OutboxRecord) (result : DispatchResult) (decoded : Result EventError P)
      → Counted claimed (suc n) result
      → Reports (deliver decode handlers message has_dlq order r result decoded) (Counted claimed n)
  unfolding deliver
  deliver_counts claimed n r result (err e) h = fail_record_counts claimed n r e result h
  deliver_counts claimed n r result (ok event) h =
      Triple-bind _ _ (any_action _)
        λ published. after_publish_counts claimed n r result published h

  -- The counts of the next report, known only when it is there.
  given :
      {Q : DispatchResult → Type 0} (claimed n : ℕ) (m : DispatchResult → Act X DispatchResult)
      (r : DispatchResult)
      → (Counted claimed n r → Reports (m r) Q)
      → Triple (λ _. Counted claimed n r) (m r) (λ r' _. Q r') (λ _. Unit {0})
  given claimed n m r f = record { run = λ w h. (f h).run w tt }

  records_counts :
      (claimed : ℕ) (rs : List OutboxRecord) (result : DispatchResult)
      → Counted claimed (length rs) result
      → Reports
          (dispatch_records decode handlers message has_dlq order rs result)
          (Counted claimed 0)
  unfolding dispatch_records
  records_counts claimed [] result h = Triple-pure _ λ s _. h
  records_counts claimed (r ∷ rs) result h =
      Triple-bind _ _ (deliver_counts claimed (length rs) r result (decode r.envelope) h) λ next.
        given claimed (length rs) (λ x. dispatch_records decode handlers message has_dlq order rs x)
          next λ k. records_counts claimed rs next k

  finished : (claimed : ℕ) (r : DispatchResult) → Counted claimed 0 r → Tallied r
  finished claimed r h = record {
    every_record = omega (arith, h.total, h.same);
    only_failed = h.buried;
  }

  dispatch_run :
      (limit : ℕ) → Reports (dispatch decode handlers message has_dlq order limit) Tallied
  unfolding dispatch
  dispatch_run limit = Triple-bind _ _ (any_action _) λ records.
      Triple-after _
        (records_counts (length records) records _
          (record { total = omega arith; buried = omega arith; same = refl }))
        (λ r s k. finished (length records) r k)

  -- Whichever calls of the database and of the handlers fail: once records are claimed, every claimed
  -- record is counted as sent or as failed, and only failed ones are counted as dead letters.
  pub dispatch_tallies :
      (limit : ℕ) (w w' : World (EventDb X)) (r : DispatchResult)
      → dispatch decode handlers message has_dlq order limit w ≡ (ok r, w')
      → Tallied r
  dispatch_tallies limit w w' r e =
      subst (λ p. Post (λ r _. Tallied r) (λ _. Unit {0}) p.0 p.1) e ((dispatch_run limit).run w tt)
