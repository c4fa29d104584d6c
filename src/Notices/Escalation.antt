-- ===== src/Notices/Escalation.antt =====
-- The timers of the notifier that fire.
use microgrid_cloud.Prelude.{
  String, List, [], ◌∷◌, Bool, true, false, not, ◌&&◌, Option, none, some, ◌≡◌, refl, sym, ◌∙◌, ap,
  ◌==◌, ◌⊎◌, inl, inr, arith, find_first, any_where, Bool-cases,
}
use microgrid_cloud.Prelude.Platform.{Platform}
use microgrid_cloud.Prelude.Exec.{ok, World, Triple, pure, caught, ◌>>=◌}
use microgrid_cloud.Prelude.Exec.Rules.{
  Triple-bind, Triple-if, Triple-pure, Triple-modify, Triple-given, triple-Keeps, Keeps-guard,
}
use microgrid_cloud.Prelude.Exec.Reads.{Triple-query, Triple-caught, Triple-both}
use microgrid_cloud.Prelude.Exec.Zoom.{zoom}
use microgrid_cloud.Alarms.Domain.{cleared, AlarmRule, Alarm}
use microgrid_cloud.Alarms.Repository.{has_id, get_by_id, status_eq}
use microgrid_cloud.Notices.Domain.{NoticeDb, Options, Texts, Decimals}
use microgrid_cloud.Notices.Message.{severity_at_least}
use microgrid_cloud.Notices.Notifier.{
  found, is_rule, get_rule, get_station, get_alarm, is_severe, lookup, escalate, run_escalation,
}

found-fails :
    {A : Type 0} (p q : A → Bool) (rows : List A) (x : A)
    → find_first p rows ≡ some x
    → any_where (λ x. p x && q x) rows ≡ false
    → q x ≡ false
unfolding find_first any_where
found-fails p q [] x e h = cc
found-fails p q (y ∷ rows) x e h = elim (Bool-cases (p y)) [
  | inl hit ↦
      let same : some y ≡ some x = (rw hit at e) in
      let fails : q y ≡ false = (ground (arith, h, hit)) in cc
  | inr miss ↦ found-fails p q rows x (rw miss at e) (ground (arith, h, miss))
]

module _ {V : Type 0} ⦃texts : Texts⦄ ⦃decimals : Decimals V⦄ (platform : Platform)
    (options : Options V) (d : NoticeDb V) where
  -- The rule of an alarm is stored, and of high severity at least.
  abbrev pub has_severe_rule : Alarm V → Bool
  has_severe_rule a =
      any_where (λ r. is_rule a.tenant_id a.rule_id r && severity_at_least r.severity "high")
        d.alarm_tables.rules

  abbrev pub escalates : Alarm V → Bool
  escalates a = not (status_eq a.status cleared) && has_severe_rule a

  abbrev Silent : NoticeDb V → Type 0
  Silent s = (s.alarm_tables ≡ d.alarm_tables) × (s.delivered ≡ d.delivered)

  -- A dropped error leaves nothing, else there is what the query finds.
  abbrev Read : {A : Type 0} → Option A → Option A → NoticeDb V → Type 0
  Read answer row s = Silent s × ((answer ≡ none) ⊎ (answer ≡ row))

  rule_read :
      (a : Alarm V)
      → Triple Silent
          (caught (get_rule a.tenant_id a.rule_id))
          (λ r. Read (found r) (find_first (is_rule a.tenant_id a.rule_id) d.alarm_tables.rules))
          Silent
  unfolding get_rule
  rule_read a =
      Triple-caught {R = Silent} _
        (Triple-bind _ _ (triple-Keeps _ (Keeps-guard _ _) (λ s h. h)) λ _.
          Triple-query _ (λ s. find_first (is_rule a.tenant_id a.rule_id) s.alarm_tables.rules))
        (λ r s h.
          (h.0, inr (sym h.1 ∙ ap (λ t. find_first (is_rule a.tenant_id a.rule_id) t.rules) h.0.0)))
        (λ e s h. (h, inl refl))

  station_read :
      (id : String) → Triple Silent (caught (get_station {V = V} id)) (λ _. Silent) Silent
  unfolding get_station
  station_read id =
      Triple-caught {R = Silent} _
        (Triple-bind _ _ (triple-Keeps _ (Keeps-guard _ _) (λ s h. h)) λ _. Triple-query _ _)
        (λ r s h. h.0) (λ e s h. h)

  unread-severe :
      (a : Alarm V) (rule : Option (AlarmRule V)) (row : Option (AlarmRule V))
      → has_severe_rule a ≡ false
      → row ≡ find_first (is_rule a.tenant_id a.rule_id) d.alarm_tables.rules
      → (rule ≡ none) ⊎ (rule ≡ row)
      → is_severe platform options rule ≡ false
  unread-severe a none row h e k = refl
  unread-severe a (some r) row h e (inl k) = cc
  unread-severe a (some r) row h e (inr k) =
      found-fails (is_rule a.tenant_id a.rule_id) (λ r. severity_at_least r.severity "high")
        d.alarm_tables.rules r (sym (k ∙ e)) h

  lookup-mild :
      (a : Alarm V)
      → has_severe_rule a ≡ false
      → Triple Silent
          (lookup platform options a)
          (λ r s. Silent s × (is_severe platform options r.0 ≡ false))
          Silent
  unfolding lookup
  lookup-mild a mild = Triple-bind _ _ (rule_read a) λ rule. Triple-given _ λ k.
      Triple-bind _ _
        (Triple-if options.has_stations (caught (get_station a.station_id)) (pure (ok none))
          (λ on. station_read a.station_id) (λ off. Triple-pure (ok none) (λ s h. h)))
        λ station. Triple-pure _ λ s h. (h, unread-severe a (found rule) _ mild refl k)

  settled :
      (id : String) (w : World (NoticeDb V)) (outcomes : List Bool)
      → Silent w.db
      → Read
          (found (get_alarm id (record w { outcomes = outcomes })).0)
          (find_first (has_id id) d.alarm_tables.alarms)
          (get_alarm id (record w { outcomes = outcomes })).1.db
  unfolding get_alarm zoom get_by_id ◌>>=◌
  settled id w [] h = (h, inr (ap (λ t. find_first (has_id id) t.alarms) h.0))
  settled id w (true ∷ rest) h = (h, inl refl)
  settled id w (false ∷ rest) h = (h, inr (ap (λ t. find_first (has_id id) t.alarms) h.0))

  alarm_read :
      (id : String)
      → Triple Silent
          (caught (get_alarm {V = V} id))
          (λ r. Read (found r) (find_first (has_id id) d.alarm_tables.alarms))
          Silent
  unfolding caught
  alarm_read id = record { run = λ w h. settled id w w.outcomes h }

  escalate-Silent :
      (id : String) (a row : Option (Alarm V))
      → any_where (λ a. has_id id a && escalates a) d.alarm_tables.alarms ≡ false
      → row ≡ find_first (has_id id) d.alarm_tables.alarms
      → (a ≡ none) ⊎ (a ≡ row)
      → Triple Silent (escalate platform options a) (λ _. Silent) Silent
  unfolding escalate
  escalate-Silent id none row h e k = Triple-pure _ (λ s p. p)
  escalate-Silent id (some a) row h e (inl k) = cc
  escalate-Silent id (some a) row h e (inr k) =
      let mild : escalates a ≡ false =
        (found-fails (has_id id) escalates d.alarm_tables.alarms a (sym (k ∙ e)) h) in
      Triple-if (status_eq a.status cleared) _ _ (λ over. Triple-pure _ (λ s p. p))
        λ still. Triple-bind _ _ (lookup-mild a (ground (arith, mild, still))) λ (rule, station).
          Triple-given _ λ low.
            Triple-if (not (is_severe platform options rule)) _ _ (λ x. Triple-pure _ (λ s p. p))
              (λ high. absurd (ground (arith, low, high)))

  -- A timer that fires for an alarm that is not stored, is cleared, or has no stored rule of high
  -- severity at least sends nothing, whichever calls fail.
  pub run_escalation_quiet :
      (id : String) (w : World (NoticeDb V))
      → w.db ≡ d
      → any_where (λ a. has_id id a && escalates a) d.alarm_tables.alarms ≡ false
      → (run_escalation platform options id w).1.db.delivered ≡ d.delivered
  unfolding run_escalation
  run_escalation_quiet id w given h =
      (Triple-both {P = Silent} {Q = Silent} _ w
        (Triple-if (id == "") _ _ (λ x. Triple-pure _ (λ s p. p))
          λ x. Triple-bind _ _ (Triple-modify _ (λ s p. p)) λ _.
            Triple-bind _ _ (alarm_read id)
              λ a. Triple-given _ λ k. escalate-Silent id (found a) _ h refl k)
        (ap (λ s. s.alarm_tables) given, ap (λ s. s.delivered) given)).1
