-- ===== src/Statistics/Stored.antt =====
-- Saving a completed statistic, and the event that announces it.
use microgrid_cloud.Prelude.{
  ℕ, String, List, [], ◌∷◌, ◌++◌, true, ◌≡◌, ◌∙◌, arith, Float64, All, any_where, eq_refl,
}
use microgrid_cloud.Prelude.Platform.{Platform}
use microgrid_cloud.Prelude.Exec.{ok, Triple}
use microgrid_cloud.Prelude.Exec.Rules.{
  Triple-bind, Triple-lift, Triple-given, Triple-modify, triple-Keeps, Keeps-attempt, Keeps-guard,
}
use microgrid_cloud.Statistics.Domain.{
  Granularity, hour, StatisticFact, StatisticAggregate, new_statistic_aggregate, complete,
}
use microgrid_cloud.Statistics.Repository.{
  Row, StatisticCalculated, StatisticDb, granularity_text, time_key_text, new_time_key,
  resolve_subject_id, row_of, save,
}
use microgrid_cloud.Statistics.Announced.{stands, Announced, upsert_self, upsert-Announced}

resolved : (own s : String) → resolve_subject_id own "" ≡ ok s → s ≡ own
unfolding resolve_subject_id
resolved own s h = ground (arith, h)

keyed :
    (platform : Platform) (type : Granularity) (start : ℕ) (key : String)
    → new_time_key platform type start ≡ ok key
    → key ≡ time_key_text platform type start
unfolding new_time_key
keyed platform type start key h = ground (arith, h)

module _ {V : Type 0} ⦃f : Float64 V⦄ where
  pub completed-hour :
      (id : String) (start t : ℕ) (x : StatisticFact V) (a b : StatisticAggregate V)
      → new_statistic_aggregate id hour start ≡ ok a
      → complete x t a ≡ ok b
      → (b.completed ≡ true) × (b.granularity ≡ hour) × (b.period_start ≡ start)
  unfolding new_statistic_aggregate complete
  completed-hour id start t x a b h k =
      let type : a.granularity ≡ hour = (ground (arith, h)) in
      let begins : a.period_start ≡ start = (ground (arith, h)) in
      let same : b.granularity ≡ a.granularity = (ground (arith, k)) in
      let same_start : b.period_start ≡ a.period_start = (ground (arith, k)) in
      (ground (arith, k), same ∙ type, same_start ∙ begins)

module _ {V : Type 0} ⦃f : Float64 V⦄ (platform : Platform) (own : String) where
  -- The statistic of an event is stored, and so are those of the published ones.
  abbrev pub Ready : StatisticCalculated → StatisticDb V → Type 0
  Ready e d = Announced platform own d × (any_where (stands platform own e) d.rows ≡ true)

  saved :
      (a : StatisticAggregate V) (e : StatisticCalculated) (d : StatisticDb V)
      (subject key : String)
      → a.completed ≡ true
      → e.granularity ≡ a.granularity
      → e.period_start ≡ a.period_start
      → subject ≡ own
      → key ≡ time_key_text platform a.granularity a.period_start
      → stands platform own e (row_of platform subject key a) ≡ true
  unfolding row_of
  saved a e d subject key done type start s k =
      rw (s, k, type, start, done)
        (ground (
          arith,
          eq_refl own,
          eq_refl (granularity_text a.granularity),
          eq_refl (time_key_text platform a.granularity a.period_start),
        ))

  pub save-Ready :
      (a : StatisticAggregate V) (e : StatisticCalculated)
      → a.completed ≡ true
      → e.granularity ≡ a.granularity
      → e.period_start ≡ a.period_start
      → Triple
          (Announced platform own)
          (save platform own a)
          (λ _. Ready e)
          (Announced platform own)
  unfolding save row_of
  save-Ready a e done type start = Triple-bind _ _ (Triple-lift _ (λ d h. h)) λ subject.
      Triple-given _ λ s. Triple-bind _ _ (triple-Keeps _ (Keeps-guard _ _) (λ d h. h)) λ _.
        Triple-bind _ _ (Triple-lift _ (λ d h. h)) λ key. Triple-given _ λ k.
          Triple-bind _ _ (triple-Keeps _ (Keeps-attempt _) (λ d h. h)) λ _. Triple-modify _ λ d h.
            (
              upsert-Announced platform own (row_of platform subject key a) d.rows d.published done
                  h,
              upsert_self platform own e (row_of platform subject key a) d.rows (
                  saved a e d subject key done type start (resolved own subject s)
                    (keyed platform _ _ key k)),
            )

  pub published-more :
      (e : StatisticCalculated) (rows : List (Row V)) (events : List StatisticCalculated)
      → All (λ e. any_where (stands platform own e) rows ≡ true) events
      → any_where (stands platform own e) rows ≡ true
      → All (λ e. any_where (stands platform own e) rows ≡ true) (events ++ e ∷ [])
  published-more e rows [] h k = (k, tt)
  published-more e rows (x ∷ rest) h k = (h.0, published-more e rows rest h.1 k)
