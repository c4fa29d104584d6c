-- ===== src/Settlement/Announcements.antt =====
-- What the day settlement service announces over any events, by the invariant of Once.
use microgrid_cloud.Prelude.{
  ℕ, String, List, [], ◌∷◌, Bool, false, ◌≡◌, refl, ◌∙◌, Option, none, some, arith, Float64, eq_iff,
}
use microgrid_cloud.Prelude.Platform.{Platform}
use microgrid_cloud.Prelude.Tables.{append-Apart}
use microgrid_cloud.Prelude.Exec.{
  Result, ok, err, World, Keeps, Triple, Post, raise, lift, with_db, modify, pure,
}
use microgrid_cloud.Prelude.Exec.Rules.{
  Keeps-bind, Keeps-attempt, Keeps-now, Keeps-if, Keeps-pure, Keeps-guard, Keeps-lift, Triple-bind,
  Triple-modify, triple-Keeps, Keeps-triple, Triple-lift, Triple-given, Triple-pure, Triple-weaken,
  Triple-if,
}
use microgrid_cloud.Settlement.Domain.{
  SettlementAggregate, SettlementError, settlement_key, new_day_settlement_aggregate, recalculate,
  Repository,
}
use microgrid_cloud.Settlement.Day.{
  DayDb, DayEnergyCalculated, HourEnergy, Totals, commit, save_day, publish, settle_day,
  handle_day_energy_calculated,
}
use microgrid_cloud.Settlement.Once.{
  Once, same_day, Fresh, Ready, stored_more, unseen_of_fresh, All-append,
}

module _ {S V : Type 0} ⦃f : Float64 V⦄ (platform : Platform) (repo : Repository platform S V)
    (energy : String → ℕ → Result SettlementError (List (HourEnergy V)))
    (price : String → ℕ → Result SettlementError V) (has_publisher : Bool) where
  new_aggregate :
      (subject_id : String) (day_start : ℕ) (a : SettlementAggregate V)
      → new_day_settlement_aggregate platform subject_id day_start ≡ ok a
      → a.id ≡ settlement_key platform subject_id day_start
  unfolding new_day_settlement_aggregate
  new_aggregate subject_id day_start a h = ground arith

  recalculated-id : (e m : V) (a b : SettlementAggregate V) → recalculate e m a ≡ ok b → b.id ≡ a.id
  unfolding recalculate
  recalculated-id e m a b h = ground arith

  module _ (P Q R : DayDb S V → Type 0) (a : SettlementAggregate V) where
    commit_run :
        (r : Result SettlementError S) (w : World (DayDb S V))
        → ((s' : S) → r ≡ ok s' → Q (record w.db { store = s' }))
        → R w.db
        → Post
            (λ _. Q)
            R
            (commit platform repo energy price has_publisher r w).0
            (commit platform repo energy price has_publisher r w).1
    unfolding modify raise
    commit_run (ok s') w q r = q s' refl
    commit_run (err e) w q r = r

    save_day_run :
        ((d : DayDb S V) → P d → R d)
        → ((d : DayDb S V) (s' : S)
            → repo.save a d.store ≡ ok s'
            → P d
            → Q (record d { store = s' }))
        → Triple P (save_day platform repo energy price has_publisher a) (λ _. Q) R
    unfolding save_day with_db
    save_day_run weaker saved = Triple-bind _ _ (triple-Keeps _ (Keeps-attempt _) weaker) λ _.
        record {
          run = λ w p.
              commit_run (repo.save a w.db.store) w (λ s' e. saved w.db s' e p) (weaker w.db p);
        }

  publish-Ready :
      (event : DayEnergyCalculated) (amount : V)
      → Triple
          (Ready platform repo event)
          (publish platform repo energy price has_publisher event amount)
          (λ _. Once platform repo)
          (Once platform repo)
  unfolding publish same_day
  publish-Ready event amount =
      Triple-bind _ _ (triple-Keeps _ (Keeps-if _ _ _ Keeps-now (Keeps-pure _)) (λ s r. r.once))
        λ t. Triple-bind _ _ (triple-Keeps _ (Keeps-attempt _) (λ s r. r.once)) λ _.
          Triple-modify _ λ s r. record {
            apart = append-Apart (same_day platform) s.published _ r.unseen r.once.apart;
            kept = All-append platform repo s.store s.published _ r.once.kept r.stored;
          }

  -- Saving a day that was found keeps what was announced.
  save_found :
      (a : SettlementAggregate V)
      → Triple
          (Once platform repo)
          (save_day platform repo energy price has_publisher a)
          (λ _. Once platform repo)
          (Once platform repo)
  save_found a =
      save_day_run (Once platform repo) (Once platform repo) (Once platform repo) a (λ d h. h)
        λ d s' e h. record {
          apart = h.apart;
          kept = stored_more platform repo a d.store s' d.published e h.kept;
        }

  -- Saving a new day makes room to announce it.
  save_new :
      (event : DayEnergyCalculated) (a : SettlementAggregate V)
      → a.id ≡ settlement_key platform event.subject_id event.day_start
      → Triple
          (λ d.
            Once platform repo d
            × (repo.stored (settlement_key platform event.subject_id event.day_start) d.store
                ≡ false))
          (save_day platform repo energy price has_publisher a)
          (λ _. Ready platform repo event)
          (Once platform repo)
  save_new event a id =
      save_day_run _ (Ready platform repo event) (Once platform repo) a (λ d h. h.0)
        λ d s' e h. record {
          once = record {
            apart = h.0.apart;
            kept = stored_more platform repo a d.store s' d.published e h.0.kept;
          };
          stored = ground (
            arith,
            repo.save-stored a d.store s'
                (settlement_key platform event.subject_id event.day_start),
            eq_iff a.id (settlement_key platform event.subject_id event.day_start),
          );
          unseen = unseen_of_fresh platform repo _ d.store d.published h.1 h.0.kept;
        }

  is_old :
      (a a' : SettlementAggregate V)
      → a.is_new ≡ false
      → ◌≡◌ {A = Result SettlementError (SettlementAggregate V)} (ok a) (ok a')
      → a'.is_new ≡ false
  is_old a a' h e = cc

  settle_day-Keeps :
      (event : DayEnergyCalculated) (totals : Totals V) (found : Option (SettlementAggregate V))
      → Triple
          (λ d. Once platform repo d × Fresh platform repo event found d)
          (settle_day platform repo energy price has_publisher event totals found)
          (λ _. Once platform repo)
          (Once platform repo)
  unfolding settle_day
  settle_day-Keeps event totals none = Triple-bind _ _ (Triple-lift _ (λ s h. h.0)) λ a.
      Triple-weaken _
        (λ s h. ((h.0.0, h.0.1), new_aggregate event.subject_id event.day_start a h.1))
        (Triple-given _ λ id. Triple-bind _ _ (Triple-lift _ (λ s h. h.0)) λ b. Triple-given _ λ r.
          Triple-bind _ _ (save_new event b (recalculated-id _ _ a b r ∙ id)) λ _.
            Triple-if _ (pure tt)
              (publish platform repo energy price has_publisher event totals.amount)
              (λ _. Triple-pure _ (λ s h. h.once)) (λ _. publish-Ready event totals.amount))
  settle_day-Keeps event totals (some a) = Triple-bind _ _ (Triple-lift _ (λ s h. h.0)) λ a'.
      Triple-weaken _ (λ s h. (h.0.0, is_old a a' h.0.1 h.1))
        (Triple-given _ λ old. Triple-bind _ _ (Triple-lift _ (λ s h. h)) λ b.
          Triple-weaken _ (λ s h. h.0)
            (Triple-bind _ _ (save_found b) λ _. rw old (Triple-pure _ (λ s h. h))))

  looked_up :
      (event : DayEnergyCalculated) (w : World (DayDb S V))
      (r : Result SettlementError (Option (SettlementAggregate V)))
      → repo.find_by_subject_and_day event.subject_id event.day_start w.db.store ≡ r
      → Once platform repo w.db
      → Post
          (λ found d. Once platform repo d × Fresh platform repo event found d)
          (Once platform repo)
          r
          w
  looked_up event w (ok none) e h =
      (h, repo.find_none event.subject_id event.day_start w.db.store e)
  looked_up event w (ok (some a)) e h =
      (h, repo.find_some event.subject_id event.day_start w.db.store a e)
  looked_up event w (err x) e h = h

  -- What the lookup of an event finds, in the state that it finds it in.
  lookup_run :
      (event : DayEnergyCalculated)
      → Triple
          (Once platform repo)
          (with_db
            (λ d. lift (repo.find_by_subject_and_day event.subject_id event.day_start d.store)))
          (λ found d. Once platform repo d × Fresh platform repo event found d)
          (Once platform repo)
  unfolding with_db lift
  lookup_run event = record { run = λ w h. looked_up event w _ refl h }

  handle-Keeps :
      (event : DayEnergyCalculated)
      → Keeps
          (Once platform repo)
          (handle_day_energy_calculated platform repo energy price has_publisher event)
  unfolding handle_day_energy_calculated
  handle-Keeps event = Keeps-bind _ _ (Keeps-guard _ _) λ _. Keeps-bind _ _ (Keeps-guard _ _) λ _.
      Keeps-bind _ _ (Keeps-lift _) λ hourly. Keeps-bind _ _ (Keeps-lift _) λ totals.
        Keeps-bind _ _ (Keeps-attempt _) λ _.
          Keeps-triple _
            (Triple-bind _ _ (lookup_run event) λ found. settle_day-Keeps event totals found)

  -- The events are handled one after the other; a failed one leaves what it wrote.
  pub handle_all : List DayEnergyCalculated → World (DayDb S V) → World (DayDb S V)
  handle_all [] w = w
  handle_all (event ∷ events) w =
      handle_all events
        (handle_day_energy_calculated platform repo energy price has_publisher event w).1

  -- Over any events, whichever calls fail, a day is announced at most once, and only after it was
  -- stored.
  pub handle_all-Once :
      (events : List DayEnergyCalculated) (w : World (DayDb S V))
      → Once platform repo w.db
      → Once platform repo (handle_all events w).db
  unfolding handle_all
  handle_all-Once [] w h = h
  handle_all-Once (event ∷ events) w h = handle_all-Once events _ ((handle-Keeps event).at w h)
