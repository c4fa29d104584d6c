-- ===== src/Notices/Spacing.antt =====
-- How far apart the messages of the notifier are.
use microgrid_cloud.Prelude.{
  ℕ, ◌+◌, String, List, [], ◌∷◌, Bool, true, false, not, ◌||◌, ◌&&◌, Option, none, some, ◌≡◌, refl,
  sym, ◌∙◌, ap, ◌==◌, arith, is_zero, leb, find_first, entry, assign, entry-assign, Bool-cases, inl,
  inr,
}
use microgrid_cloud.Prelude.Platform.{Platform}
use microgrid_cloud.Prelude.Exec.{World, Keeps, Triple, modify}
use microgrid_cloud.Prelude.Exec.Rules.{
  Triple-bind, Triple-gets, Triple-pure, Triple-if, Triple-modify, triple-Keeps, Keeps-triple,
  Keeps-now, Keeps-attempt, Keeps-pure, Keeps-bind, Keeps-gets, Keeps-if, Keeps-ignore,
  Keeps-caught, Keeps-guard, Keeps-modify,
}
use microgrid_cloud.Prelude.Exec.Zoom.{Keeps-zoom}
use microgrid_cloud.Alarms.Domain.{
  AlarmRule, Alarm, AlarmEvent, Status, active, acknowledged, cleared,
}
use microgrid_cloud.Notices.Domain.{
  Station, SendRecord, Delivery, NoticeDb, Options, Texts, Decimals,
}
use microgrid_cloud.Notices.Notifier.{
  notification_key, found, get_rule, get_station, get_alarm, cancel_escalation, close, allows,
  allows_entry, should_send, recorded, mark_sent, send_allowed, send_content, dispatch, lookup,
  schedule_escalation, after_dispatch, notify, escalate, run_escalation,
}

-- The last message with a key.
abbrev pub last_of : String → List Delivery → Option Delivery
last_of key delivered = find_first (λ m. m.key == key) delivered

abbrev as_record : Option Delivery → Option SendRecord
as_record none = none
as_record (some m) = some (record { at = m.recorded_at; hash = m.hash })

abbrev Matches : List (String × SendRecord) → List Delivery → Type 0
Matches sent delivered = (key : String) → entry sent key ≡ as_record (last_of key delivered)

recorded-Matches :
    (m : Delivery) (sent : List (String × SendRecord)) (delivered : List Delivery)
    → Matches sent delivered
    → Matches (assign sent m.key (record { at = m.recorded_at; hash = m.hash })) (m ∷ delivered)
unfolding find_first
recorded-Matches m sent delivered h key =
    entry-assign sent m.key key (record { at = m.recorded_at; hash = m.hash })
    ∙ elim (Bool-cases (m.key == key)) [ inl same ↦ rw same refl | inr other ↦ rw other (h key) ]

-- What happens to a notifier: an alarm event, a timer of an alarm that fires, closing.
pub data Step (V : Type 0) : Type 0 where
  told : AlarmEvent V → Step V
  fires : String → Step V
  closes : Step V

module _ {V : Type 0} ⦃texts : Texts⦄ ⦃decimals : Decimals V⦄ (platform : Platform)
    (options : Options V) where
  -- A message with the hash, allowed at the time, after the given one: the cooldown has passed since
  -- that was recorded, and for the same hash the window too, where they are set.
  abbrev pub Gap : String → ℕ → Option Delivery → Type 0
  Gap hash t none = Unit {0}
  Gap hash t (some p) =
      ((is_zero options.cooldown || leb (p.recorded_at + options.cooldown) t) ≡ true)
      × ((is_zero options.dedupe_window
            || (not (p.hash == hash) || leb (p.recorded_at + options.dedupe_window) t))
          ≡ true)

  -- Each message has its gap after the last one of its key.
  abbrev pub Spaced : List Delivery → Type 0
  Spaced [] = Unit {0}
  Spaced (m ∷ rest) = Gap m.hash m.checked_at (last_of m.key rest) × Spaced rest

  abbrev Paced : NoticeDb V → Type 0
  Paced d = Matches d.sent d.delivered × Spaced d.delivered

  allowed-Gap :
      (last : Option Delivery) (t : ℕ) (hash : String)
      → allows_entry platform options (as_record last) t hash ≡ true
      → Gap hash t last
  unfolding allows_entry allows
  allowed-Gap none t hash h = tt
  allowed-Gap (some p) t hash h = (ground (arith, h), ground (arith, h))

  unlimited-Gap :
      (last : Option Delivery) (hash : String) (t : ℕ)
      → (is_zero options.cooldown && is_zero options.dedupe_window) ≡ true
      → Gap hash t last
  unlimited-Gap none hash t h = tt
  unlimited-Gap (some p) hash t h = (ground (arith, h), ground (arith, h))

  -- What is known of an answer of should_send.
  abbrev Allowed : String → String → Bool × ℕ → NoticeDb V → Type 0
  Allowed key hash (true, t) d = Paced d × Gap hash t (last_of key d.delivered)
  Allowed key hash (false, t) d = Paced d

  answer-Allowed :
      (key hash : String) (b : Bool) (t : ℕ) (d : NoticeDb V)
      → Paced d
      → (b ≡ true → Gap hash t (last_of key d.delivered))
      → Allowed key hash (b, t) d
  answer-Allowed key hash true t d h k = (h, k refl)
  answer-Allowed key hash false t d h k = h

  should_send-Allowed :
      (alarm_id event content : String)
      → Triple Paced
          (should_send platform options alarm_id event content)
          (Allowed (notification_key alarm_id event) (platform.sha1_short content))
          Paced
  unfolding should_send
  should_send-Allowed alarm_id event content =
      let key = notification_key alarm_id event in
      let hash = platform.sha1_short content in
      Triple-if _ _ _
        (λ off.
          Triple-pure (true, 0) (λ d h. (h, unlimited-Gap (last_of key d.delivered) hash 0 off)))
        (λ on. Triple-bind _ _ (triple-Keeps _ Keeps-now (λ d h. h)) λ t.
          Triple-bind _ _ (Triple-gets _) λ r. Triple-pure _ λ d h.
            answer-Allowed key hash (allows_entry platform options r t hash) t d h.0 (λ go.
              allowed-Gap (last_of key d.delivered) t hash
                (ap (λ x. allows_entry platform options x t hash) (sym (h.0.0 key) ∙ h.1) ∙ go)))

  send_allowed-Paced :
      (alarm_id event content : String) (answer : Bool × ℕ)
      → Triple
          (Allowed (notification_key alarm_id event) (platform.sha1_short content) answer)
          (send_allowed platform options alarm_id event content answer)
          (λ _. Paced)
          Paced
  unfolding send_allowed mark_sent recorded
  send_allowed-Paced alarm_id event content (false, t) = Triple-pure _ (λ d h. h)
  send_allowed-Paced alarm_id event content (true, t) =
      Triple-bind _ _ (triple-Keeps _ (Keeps-attempt _) (λ d h. h.0)) λ _.
        Triple-bind _ _ (triple-Keeps _ Keeps-now (λ d h. h.0))
          λ at. Triple-modify _ λ d h. (recorded-Matches _ d.sent d.delivered h.0.0, (h.1, h.0.1))

  send_content-Paced :
      (alarm_id event : String) (content : Option String)
      → Keeps Paced (send_content platform options alarm_id event content)
  unfolding send_content
  send_content-Paced alarm_id event none = Keeps-pure _
  send_content-Paced alarm_id event (some content) = Keeps-triple _ (
      Triple-bind _ _ (should_send-Allowed alarm_id event content)
        λ answer. send_allowed-Paced alarm_id event content answer)

  dispatch-Paced :
      (event : String) (a : Alarm V) (rule : Option (AlarmRule V)) (station : Option Station)
      → Keeps Paced (dispatch platform options event a rule station)
  unfolding dispatch
  dispatch-Paced event a rule station = Keeps-ignore _ (send_content-Paced a.id event _)

  get_rule-Paced : (tenant_id id : String) → Keeps Paced (get_rule {V = V} tenant_id id)
  unfolding get_rule
  get_rule-Paced tenant_id id =
      Keeps-bind _ _ (Keeps-guard _ _) λ _. Keeps-bind _ _ (Keeps-attempt _) λ _. Keeps-gets _

  get_station-Paced : (id : String) → Keeps Paced (get_station {V = V} id)
  unfolding get_station
  get_station-Paced id =
      Keeps-bind _ _ (Keeps-guard _ _) λ _. Keeps-bind _ _ (Keeps-attempt _) λ _. Keeps-gets _

  lookup-Paced : (a : Alarm V) → Keeps Paced (lookup platform options a)
  unfolding lookup
  lookup-Paced a = Keeps-bind _ _ (Keeps-caught _ (get_rule-Paced a.tenant_id a.rule_id)) λ rule.
      Keeps-bind _ _
        (Keeps-if _ _ _ (Keeps-caught _ (get_station-Paced a.station_id)) (Keeps-pure _))
        λ station. Keeps-pure _

  after_dispatch-Paced :
      (s : Status) (a : Alarm V) (rule : Option (AlarmRule V))
      → Keeps Paced (after_dispatch platform options s a rule)
  unfolding schedule_escalation cancel_escalation
  after_dispatch-Paced active a rule =
      Keeps-if _ _ _ (Keeps-pure _)
        (Keeps-if _ _ _ (Keeps-pure _) (Keeps-bind _ _ Keeps-now λ t. Keeps-modify _ (λ d h. h)))
  after_dispatch-Paced acknowledged a rule = Keeps-pure _
  after_dispatch-Paced cleared a rule = Keeps-if _ _ _ (Keeps-pure _) (Keeps-modify _ (λ d h. h))

  notify-Paced : (event : AlarmEvent V) → Keeps Paced (notify platform options event)
  unfolding notify
  notify-Paced event = Keeps-bind _ _ (lookup-Paced event.alarm) λ (rule, station).
      Keeps-bind _ _ (dispatch-Paced _ event.alarm rule station)
        λ _. after_dispatch-Paced event.event_type event.alarm rule

  escalate-Paced : (a : Option (Alarm V)) → Keeps Paced (escalate platform options a)
  unfolding escalate
  escalate-Paced none = Keeps-pure _
  escalate-Paced (some a) = Keeps-if _ _ _ (Keeps-pure _) (
      Keeps-bind _ _ (lookup-Paced a) λ (rule, station).
        Keeps-if _ _ _ (Keeps-pure _) (dispatch-Paced "escalated" a rule station))

  run_escalation-Paced : (id : String) → Keeps Paced (run_escalation platform options id)
  unfolding run_escalation get_alarm
  run_escalation-Paced id = Keeps-if _ _ _ (Keeps-pure _) (
      Keeps-bind _ _ (Keeps-modify _ (λ d h. h)) λ _.
        Keeps-bind _ _ (Keeps-caught _ (Keeps-zoom _ _ _ _ (λ d t h. h)))
          λ a. escalate-Paced (found a))

  unfoldable pub perform : Step V → World (NoticeDb V) → World (NoticeDb V)
  perform (told event) w = (notify platform options event w).1
  perform (fires id) w = (run_escalation platform options id w).1
  perform closes w = (close w).1

  unfoldable pub perform_all : List (Step V) → World (NoticeDb V) → World (NoticeDb V)
  unfolding perform
  perform_all [] w = w
  perform_all (x ∷ rest) w = perform_all rest (perform x w)

  perform-Paced : (x : Step V) (w : World (NoticeDb V)) → Paced w.db → Paced (perform x w).db
  unfolding perform close modify
  perform-Paced (told event) w h = (notify-Paced event).at w h
  perform-Paced (fires id) w h = (run_escalation-Paced id).at w h
  perform-Paced closes w h = h

  all-Paced :
      (xs : List (Step V)) (w : World (NoticeDb V)) → Paced w.db → Paced (perform_all xs w).db
  unfolding perform_all
  all-Paced [] w h = h
  all-Paced (x ∷ rest) w h = all-Paced rest (perform x w) (perform-Paced x w h)

  -- Over any sequence of alarm events, timers that fire and closings, from a notifier that has sent
  -- nothing, whichever calls fail: every message was allowed at a time at least the cooldown after
  -- the one recorded for the last message of its alarm and event before it, and, if both have one
  -- hash, at least the window after it, where these are set.
  pub perform_all-Spaced :
      (xs : List (Step V)) (w : World (NoticeDb V))
      → w.db.sent ≡ []
      → w.db.delivered ≡ []
      → Spaced (perform_all xs w).db.delivered
  unfolding entry find_first
  perform_all-Spaced xs w unsent silent =
      (all-Paced xs w (λ key. rw (unsent, silent) refl, rw silent tt)).1
