-- ===== src/Eventing/Redelivery.antt =====
-- A handler takes effect once for an event: backend/internal/eventing/subscribe.go.
use microgrid_cloud.Prelude.{
  ℕ, String, [], Bool, true, false, ◌≡◌, refl, subst, arith, ◌==◌, any_where, any_where-append,
  Bool-cases, inl, inr, eq_refl,
}
use microgrid_cloud.Prelude.Exec.{ok, World, Triple, Post, ◌>>=◌}
use microgrid_cloud.Prelude.Exec.Rules.{
  Triple-bind, Triple-pure, Triple-after, Triple-weaken, Triple-gets, Triple-modify,
}
use microgrid_cloud.Eventing.Domain.{Envelope, EventDb}
use microgrid_cloud.Eventing.Stores.{has_processed, mark_processed, record_processed, was_processed}
use microgrid_cloud.Eventing.Delivery.{Handler, run_unless, wrap_handler}
use microgrid_cloud.Eventing.Counts.{any_action}

module _ {X : Type 0} where
  processed_after :
      (event_id consumer : String) (t : ℕ) (d : EventDb X)
      → any_where
          (was_processed event_id consumer)
          (record_processed event_id consumer t d).processed
        ≡ true
  unfolding record_processed
  processed_after event_id consumer t d =
      elim (Bool-cases (any_where (was_processed event_id consumer) d.processed)) [
        | inl known ↦ rw known known
        | inr new ↦ rw new (
            rw
              (
                any_where-append (was_processed event_id consumer) d.processed _,
                eq_refl event_id,
                eq_refl consumer,
              )
              (ground arith))
      ]

  marked :
      (event_id consumer : String)
      → Triple
          (λ _. Unit {0})
          (mark_processed {X = X} event_id consumer)
          (λ _ d. any_where (was_processed event_id consumer) d.processed ≡ true)
          (λ _. Unit {0})
  unfolding mark_processed
  marked event_id consumer = Triple-bind _ _ (any_action _) λ _. Triple-bind _ _ (any_action _) λ t.
      Triple-bind _ _ (any_action _)
        λ _. Triple-modify _ λ d h. processed_after event_id consumer t d

module _ {X P : Type 0} (consumer : String) (handler : Handler X P) (env : Envelope)
    (event : P) where
  looked_up :
      Triple
        (λ _. Unit {0})
        (has_processed {X = X} env.event_id consumer)
        (λ known d. any_where (was_processed env.event_id consumer) d.processed ≡ known)
        (λ _. Unit {0})
  unfolding has_processed
  looked_up =
      Triple-bind _ _ (any_action _)
        λ _. Triple-bind _ _ (any_action _) λ _. Triple-after _ (Triple-gets _) (λ a d h. h.1)

  run_unless_marks :
      (known : Bool)
      → Triple
          (λ d. any_where (was_processed env.event_id consumer) d.processed ≡ known)
          (run_unless known consumer handler env event)
          (λ _ d. any_where (was_processed env.event_id consumer) d.processed ≡ true)
          (λ _. Unit {0})
  unfolding run_unless
  run_unless_marks true = Triple-pure _ λ d h. h
  run_unless_marks false =
      Triple-weaken _ (λ d h. tt) (Triple-bind _ _ (any_action _) λ _. marked env.event_id consumer)

  wrap_marks :
      env.event_id == "" ≡ false
      → Triple
          (λ _. Unit {0})
          (wrap_handler consumer handler env event)
          (λ _ d. any_where (was_processed env.event_id consumer) d.processed ≡ true)
          (λ _. Unit {0})
  unfolding wrap_handler
  wrap_marks named = rw named (Triple-bind _ _ looked_up run_unless_marks)

  -- Whatever the handler does: once a delivery of an event with an id has succeeded, a second one to
  -- the same named consumer, while no call of the database fails, succeeds and changes nothing; the
  -- handler does not run again.
  pub deliver_once :
      (w w' : World (EventDb X))
      → env.event_id == "" ≡ false
      → consumer == "" ≡ false
      → wrap_handler consumer handler env event w ≡ (ok tt, w')
      → w'.outcomes ≡ []
      → wrap_handler consumer handler env event w' ≡ (ok tt, w')
  unfolding wrap_handler run_unless has_processed ◌>>=◌
  deliver_once w w' named called e calm =
      let known : any_where (was_processed env.event_id consumer) w'.db.processed ≡ true =
        subst
          (λ p.
            Post (λ _ d. any_where (was_processed env.event_id consumer) d.processed ≡ true)
              (λ _. Unit {0}) p.0 p.1)
          e ((wrap_marks named).run w tt) in
      rw (named, called, calm, known) refl
