-- ===== src/Alarms/Lifecycle.antt =====
-- How the rows of the alarms table change: no row is lost, none is given another identity, and a
-- status moves from active through acknowledged to cleared and never back.
use microgrid_cloud.Prelude.{
  ℕ, String, List, true, false, ◌≡◌, ◌≤◌, arith, any_where, any_where_never, update_where,
}
use microgrid_cloud.Prelude.Tables.{Grows, Grows-update}
use microgrid_cloud.Alarms.Domain.{Status, active, acknowledged, cleared, Alarm}
use microgrid_cloud.Alarms.Repository.{touched, acked, closed, has_id, is_open}
use microgrid_cloud.Alarms.Invariant.{shut}

abbrev pub rank : Status → ℕ
rank active = 0
rank acknowledged = 1
rank cleared = 2

module _ {V : Type 0} where
  -- One row, earlier and later.
  pub record Moves (a b : Alarm V) : Type 0 where
    pub same_id : b.id ≡ a.id
    pub same_tenant : b.tenant_id ≡ a.tenant_id
    pub same_station : b.station_id ≡ a.station_id
    pub same_rule : b.rule_id ≡ a.rule_id
    pub same_type : b.originator_type ≡ a.originator_type
    pub same_originator : b.originator_id ≡ a.originator_id
    pub same_start : b.start_at ≡ a.start_at
    pub forward : rank a.status ≤ rank b.status

  pub Moves-refl : (a : Alarm V) → Moves a a
  Moves-refl a = ground arith

  -- The table, earlier and later: each row moves, and new rows come at the end.
  abbrev pub Evolves : List (Alarm V) → List (Alarm V) → Type 0
  Evolves = Grows Moves

  Moves-touched : (a b : Alarm V) (value : V) (t : ℕ) → Moves a b → Moves a (touched value t b)
  unfolding touched
  Moves-touched a b value t m = ground arith

  Moves-closed : (a b : Alarm V) (value : V) (t : ℕ) → Moves a b → Moves a (closed value t b)
  unfolding closed
  Moves-closed a b value t m = ground arith

  Moves-acked : (a b : Alarm V) (t : ℕ) → is_open b.status ≡ true → Moves a b → Moves a (acked t b)
  unfolding acked
  Moves-acked a b t o m = ground arith

  pub touched-Evolves :
      (id : String) (value : V) (t : ℕ) (earlier later : List (Alarm V))
      → Evolves earlier later
      → Evolves earlier (update_where (has_id id) (touched value t) later)
  touched-Evolves id value t earlier later e =
      Grows-update Moves (has_id id) (λ _. false) (touched value t) earlier later
        (λ a b _ _ m. Moves-touched a b value t m) (any_where_never later) e

  pub closed-Evolves :
      (id : String) (value : V) (t : ℕ) (earlier later : List (Alarm V))
      → Evolves earlier later
      → Evolves earlier (update_where (has_id id) (closed value t) later)
  closed-Evolves id value t earlier later e =
      Grows-update Moves (has_id id) (λ _. false) (closed value t) earlier later
        (λ a b _ _ m. Moves-closed a b value t m) (any_where_never later) e

  pub acked-Evolves :
      (id : String) (t : ℕ) (earlier later : List (Alarm V))
      → any_where (shut id) later ≡ false
      → Evolves earlier later
      → Evolves earlier (update_where (has_id id) (acked t) later)
  acked-Evolves id t earlier later k e =
      Grows-update Moves (has_id id) (shut id) (acked t) earlier later
        (λ a b hit o m. Moves-acked a b t (ground arith) m) k e
