-- ===== src/Settlement/Once.antt =====
-- A day is announced once: what the day settlement service publishes over any events.
use microgrid_cloud.Prelude.{
  String, List, [], ◌∷◌, ◌++◌, Bool, true, false, ◌≡◌, refl, Option, none, some, ◌==◌, arith,
  any_where, eq_iff, All,
}
use microgrid_cloud.Prelude.Platform.{Platform}
use microgrid_cloud.Prelude.Tables.{Apart}
use microgrid_cloud.Prelude.Exec.{ok}
use microgrid_cloud.Settlement.Domain.{SettlementAggregate, settlement_key, Repository}
use microgrid_cloud.Settlement.Day.{DayDb, DayEnergyCalculated, SettlementCalculated}

-- The identity of the day that was announced.
abbrev pub day_of : {V : Type 0} → Platform → SettlementCalculated V → String
day_of platform p = settlement_key platform p.subject_id p.day_start

unfoldable pub same_day :
    {V : Type 0} → Platform → SettlementCalculated V → SettlementCalculated V → Bool
same_day platform p q = day_of platform p == day_of platform q

module _ {S V : Type 0} (platform : Platform) (repo : Repository platform S V) where
  -- No day is announced twice, and every announced day is stored.
  pub record Once (d : DayDb S V) : Type 0 where
    pub apart : Apart (same_day platform) d.published
    pub kept : All (λ p. repo.stored (day_of platform p) d.store ≡ true) d.published

  -- What a lookup tells.
  abbrev pub Fresh : DayEnergyCalculated → Option (SettlementAggregate V) → DayDb S V → Type 0
  Fresh event none d =
      repo.stored (settlement_key platform event.subject_id event.day_start) d.store ≡ false
  Fresh event (some a) d = a.is_new ≡ false

  -- Room to announce the day of an event.
  pub record Ready (event : DayEnergyCalculated) (d : DayDb S V) : Type 0 where
    pub once : Once d
    pub stored :
        repo.stored (settlement_key platform event.subject_id event.day_start) d.store ≡ true
    pub unseen :
        any_where
          (λ p. day_of platform p == settlement_key platform event.subject_id event.day_start)
          d.published
        ≡ false

  -- A save forgets no day.
  pub stored_more :
      (a : SettlementAggregate V) (s s' : S) (ps : List (SettlementCalculated V))
      → repo.save a s ≡ ok s'
      → All (λ p. repo.stored (day_of platform p) s ≡ true) ps
      → All (λ p. repo.stored (day_of platform p) s' ≡ true) ps
  stored_more a s s' [] e h = tt
  stored_more a s s' (p ∷ ps) e h = (
    ground (arith, repo.save-stored a s s' (day_of platform p), h.0),
    stored_more a s s' ps e h.1,
  )

  -- A day that is not stored was not announced.
  pub unseen_of_fresh :
      (k : String) (s : S) (ps : List (SettlementCalculated V))
      → repo.stored k s ≡ false
      → All (λ p. repo.stored (day_of platform p) s ≡ true) ps
      → any_where (λ p. day_of platform p == k) ps ≡ false
  unfolding any_where
  unseen_of_fresh k s [] e h = refl
  unseen_of_fresh k s (p ∷ ps) e h =
      ground (arith, h.0, eq_iff (day_of platform p) k, unseen_of_fresh k s ps e h.1)

  pub All-append :
      (s : S) (ps : List (SettlementCalculated V)) (p : SettlementCalculated V)
      → All (λ q. repo.stored (day_of platform q) s ≡ true) ps
      → repo.stored (day_of platform p) s ≡ true
      → All (λ q. repo.stored (day_of platform q) s ≡ true) (ps ++ p ∷ [])
  All-append s [] p h k = (k, tt)
  All-append s (q ∷ qs) p h k = (h.0, All-append s qs p h.1 k)
