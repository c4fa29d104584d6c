-- ===== src/Alarms/Hysteresis.antt =====
-- When a rule raises and clears: `shouldTrigger` and `shouldClear` of the alarm service.
use microgrid_cloud.Prelude.{◌≡◌, ◌⊎◌, true, false, arith, Float64}
use microgrid_cloud.Alarms.Domain.{
  AlarmRule, greater, greater_or_equal, less, less_or_equal, should_trigger, should_clear,
}

module _ {V : Type 0} ⦃f : Float64 V⦄ where
  -- No value both raises and clears an alarm of a rule with a strict operator, whatever the
  -- hysteresis, NaN and infinities included.
  pub strict_rule_stable :
      (rule : AlarmRule V) (value : V)
      → (rule.operator ≡ greater) ⊎ (rule.operator ≡ less)
      → should_trigger rule value ≡ true
      → should_clear rule value ≡ false
  unfolding should_trigger should_clear
  strict_rule_stable rule value strict h = ground (
    arith,
    f.lt_nil,
    f.lt-sub rule.hysteresis rule.threshold value,
    f.lt-sub f.nil rule.threshold value,
    f.lt-add rule.hysteresis rule.threshold value,
    f.lt-add f.nil rule.threshold value,
  )

  -- A rule with `>=` or `<=` and no positive hysteresis both raises and clears at its threshold
  -- (a threshold that compares with itself: not NaN).
  pub weak_rule_flaps :
      (rule : AlarmRule V)
      → (rule.operator ≡ greater_or_equal) ⊎ (rule.operator ≡ less_or_equal)
      → (f.lt rule.hysteresis f.nil ≡ true) ⊎ (rule.hysteresis ≡ f.nil)
      → f.le rule.threshold rule.threshold ≡ true
      → (should_trigger rule rule.threshold ≡ true) × (should_clear rule rule.threshold ≡ true)
  unfolding should_trigger should_clear
  weak_rule_flaps rule weak none_given comparable = ground (
    arith,
    f.lt_nil,
    f.le-sub_nil rule.threshold rule.threshold,
    f.le-add_nil rule.threshold rule.threshold,
  )
