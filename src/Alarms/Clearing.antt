-- ===== src/Alarms/Clearing.antt =====
-- A value that clears an alarm: `evaluateRule` on an open alarm, and once more.
use microgrid_cloud.Prelude.{
  ℕ, String, List, [], ◌∷◌, ◌++◌, Bool, true, false, not, ◌≡◌, refl, ◌&&◌, ◌⊎◌, arith, some, none,
  Bool-cases, inl, inr, Float64, eq_iff, any_where, update_where, select, latest, is_zero,
  any_where-weaken, select_of_none, if◌then◌else◌,
}
use microgrid_cloud.Prelude.Platform.{Platform}
use microgrid_cloud.Prelude.Exec.{calm, ok}
use microgrid_cloud.Alarms.Domain.{
  greater, less, cleared, OriginatorType, Alarm, AlarmRule, TelemetryReceived, should_trigger,
  should_clear,
}
use microgrid_cloud.Alarms.Repository.{AlarmDb, open_for, has_id, closed}
use microgrid_cloud.Alarms.Invariant.{Valid, clash, same_key}
use microgrid_cloud.Alarms.Hysteresis.{strict_rule_stable}
use microgrid_cloud.Alarms.Service.{Service, evaluate_rule}
use microgrid_cloud.Alarms.Slots.{open_row, Keyed, settled}
use microgrid_cloud.Alarms.Evaluation.{shut_down, evaluate_rule_clears, evaluate_rule_resets}

module _ {V : Type 0} (tenant rule : String) (t : OriginatorType) (id : String) where
  abbrev held : Alarm V → Bool
  held = open_for tenant rule t id

  -- A row that is held, but under another id.
  abbrev other_held : String → Alarm V → Bool
  other_held own x = held x && not (has_id own x)

  clash_of_held : (a x : Alarm V) → held a ≡ true → clash a x ≡ false → held x ≡ false
  unfolding open_for clash same_key
  clash_of_held a x h c = ground (
    arith,
    eq_iff a.tenant_id tenant,
    eq_iff x.tenant_id tenant,
    eq_iff a.tenant_id x.tenant_id,
    eq_iff a.rule_id rule,
    eq_iff x.rule_id rule,
    eq_iff a.rule_id x.rule_id,
    eq_iff a.originator_id id,
    eq_iff x.originator_id id,
    eq_iff a.originator_id x.originator_id,
  )

  -- The open row of a valid table is the only one.
  held_alone :
      (key : Alarm V → ℕ) (rows : List (Alarm V)) (a : Alarm V)
      → Valid rows
      → latest key (select held rows) ≡ some a
      → any_where (other_held a.id) rows ≡ false
  unfolding latest select any_where
  held_alone key [] a v e = refl
  held_alone key (x ∷ rest) a v e = elim (Bool-cases (held x)) [
    | inl hit ↦
        let none_left : any_where held rest ≡ false =
          any_where-weaken (clash x) held rest (λ y. clash_of_held x y hit) v.0 in
        let same : some x ≡ some a = rw (hit, select_of_none held rest none_left) at e in
        let others = any_where-weaken held (other_held a.id) rest (λ y k. ground arith) none_left in
        let own : has_id a.id x ≡ true = ground (arith, same, eq_iff x.id a.id) in
        ground (arith, hit, own, others)
    | inr miss ↦ ground (arith, miss, held_alone key rest a v.1 (rw miss at e))
  ]

  closed_unheld :
      (own : String) (value : V) (at : ℕ) (rows : List (Alarm V))
      → any_where (other_held own) rows ≡ false
      → any_where held (update_where (has_id own) (closed value at) rows) ≡ false
  unfolding any_where update_where open_for closed
  closed_unheld own value at [] h = refl
  closed_unheld own value at (x ∷ rest) h = elim (Bool-cases (has_id own x)) [
    | inl hit ↦ ground (arith, hit, closed_unheld own value at rest)
    | inr miss ↦ ground (arith, miss, closed_unheld own value at rest)
  ]

module _ {V : Type 0} ⦃f : Float64 V⦄ (platform : Platform) (service : Service)
    (evt : TelemetryReceived V) (rule : AlarmRule V) (t : OriginatorType) (id : String) (value : V)
    (clock : ℕ → ℕ) (reads : ℕ) where
  open_row-shut_down :
      (at : ℕ) (d : AlarmDb V) (a : Alarm V)
      → Valid d.alarms
      → open_row evt rule t id d ≡ some a
      → open_row evt rule t id (shut_down platform service evt rule t id value at clock reads d a)
        ≡ none
  unfolding latest
  open_row-shut_down at d a v e =
      let only = held_alone evt.tenant_id rule.id t id (λ a. a.created_at) d.alarms a v e in
      rw
        (select_of_none (held evt.tenant_id rule.id t id) _
          (closed_unheld evt.tenant_id rule.id t id a.id value at d.alarms only))
        refl

  not_triggered :
      (rule.operator ≡ greater) ⊎ (rule.operator ≡ less)
      → should_clear rule value ≡ true
      → should_trigger rule value ≡ false
  not_triggered strict c = elim (Bool-cases (should_trigger rule value)) [
    | inl over ↦ absurd (ground (arith, c, strict_rule_stable rule value strict over))
    | inr under ↦ under
  ]

  -- Where no call of the database fails, the table of alarms is valid, the keys are filled in, the
  -- first sample has a time and the rule a strict operator: a value that clears an open alarm closes
  -- its row at the time of the sample and leaves none open for the rule and originator, and is
  -- announced, if there is a notifier. The same value at a later sample then changes no alarm and
  -- announces nothing; it only drops a pending state.
  pub evaluate_rule_clears_once :
      (at later : ℕ) (d : AlarmDb V) (a : Alarm V)
      → Valid d.alarms
      → Keyed evt rule id
      → is_zero at ≡ false
      → (rule.operator ≡ greater) ⊎ (rule.operator ≡ less)
      → open_row evt rule t id d ≡ some a
      → should_clear rule value ≡ true
      → let (r, w) = evaluate_rule platform service evt rule t id value at (calm d clock reads) in
        (r ≡ ok tt)
        × (w.db.alarms ≡ update_where (has_id a.id) (closed value at) d.alarms)
        × (w.db.notified ≡ (
            if service.has_notifier
            then d.notified
              ++ record {
                event_type = cleared;
                alarm = record a {
                  status = cleared;
                  cleared_at = at;
                  end_at = at;
                  last_value = value;
                  updated_at = at;
                };
              }
                ∷ []
            else d.notified))
        × (open_row evt rule t id w.db ≡ none)
        × (evaluate_rule platform service evt rule t id value later w
            ≡ (ok tt, record w { db = record w.db { states = settled evt rule t id d } }))
  evaluate_rule_clears_once at later d a v k p strict e c =
      let none_left = open_row-shut_down at d a v e in
      rw (evaluate_rule_clears platform service evt rule t id value at clock reads d a k p e c) (
        refl,
        refl,
        refl,
        none_left,
        evaluate_rule_resets platform service evt rule t id value later clock reads
            (shut_down platform service evt rule t id value at clock reads d a) k none_left
            (not_triggered strict c),
      )
