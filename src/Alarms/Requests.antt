-- ===== src/Alarms/Requests.antt =====
-- Acknowledging and clearing by hand: `AckAlarm` and `ClearAlarm` of the alarm service.
use microgrid_cloud.Prelude.{
  ℕ, suc, String, List, [], ◌∷◌, ◌++◌, true, false, ◌≡◌, refl, sym, subst, ◌||◌, arith, some,
  Float64, ◌==◌, eq_iff, if◌then◌else◌, find_first, update_where, Bool-cases, inl, inr,
  find_first-passes, find_first-update,
}
use microgrid_cloud.Prelude.Platform.{Platform}
use microgrid_cloud.Prelude.Exec.{calm, ok, err, ◌>>=◌}
use microgrid_cloud.Alarms.Domain.{acknowledged, cleared, Alarm}
use microgrid_cloud.Alarms.Repository.{
  AlarmDb, tenant_mismatch, status_eq, has_id, acked, closed, update_alarm, get_by_id,
  mark_acknowledged, mark_cleared,
}
use microgrid_cloud.Alarms.Service.{Service, ack_alarm, clear_alarm, notify, tenant_of, foreign}

module _ {V : Type 0} where
  -- A row updated under its id is found, updated, under that id.
  found_updated :
      (id : String) (f : Alarm V → Alarm V) (rows : List (Alarm V)) (a : Alarm V)
      → ((x : Alarm V) → has_id id (f x) ≡ has_id id x)
      → find_first (has_id id) rows ≡ some a
      → find_first (has_id id) (update_where (has_id a.id) f rows) ≡ some (f a)
  found_updated id f rows a same e =
      subst (λ k. find_first (has_id id) (update_where (has_id k) f rows) ≡ some (f a))
        (sym ((eq_iff a.id id).0 (find_first-passes (has_id id) rows a e)))
        (find_first-update (has_id id) f rows a same e)

module _ {V : Type 0} ⦃f : Float64 V⦄ (platform : Platform) (service : Service) (tenant id : String)
    (d : AlarmDb V) (a : Alarm V) (clock : ℕ → ℕ) (reads : ℕ) where
  -- Where no call of the database fails, acknowledging an active alarm of one's tenant returns the row that a later lookup finds:
  -- acknowledged at the reading of the clock, and else as it was.
  pub ack_alarm_persists :
      (id == "") ≡ false
      → find_first (has_id id) d.alarms ≡ some a
      → foreign (tenant_of service tenant) a ≡ false
      → status_eq a.status cleared || status_eq a.status acknowledged ≡ false
      → let (r, w) = ack_alarm platform service tenant id (calm d clock reads) in
        (r ≡ ok (acked (clock reads) a))
        × (find_first (has_id id) w.db.alarms ≡ some (acked (clock reads) a))
  unfolding ack_alarm get_by_id mark_acknowledged update_alarm notify acked ◌>>=◌
  ack_alarm_persists k e o s =
      let kept = found_updated id (acked (clock reads)) d.alarms a (λ x. refl) e in
      rw (k, e, o, s)
        (elim (Bool-cases service.has_notifier) [
          | inl on ↦ rw on (refl, kept)
          | inr off ↦ rw off (refl, kept)
        ])

  -- The tables after a clearing by hand.
  abbrev cleared_by_hand : AlarmDb V
  cleared_by_hand = record d {
    alarms = update_where (has_id a.id) (closed a.last_value (clock reads)) d.alarms;
    notified =
        if service.has_notifier
        then d.notified
          ++ record { event_type = cleared; alarm = closed a.last_value (clock reads) a } ∷ []
        else d.notified;
  }

  clear_alarm-calm :
      (id == "") ≡ false
      → find_first (has_id id) d.alarms ≡ some a
      → foreign (tenant_of service tenant) a ≡ false
      → status_eq a.status cleared ≡ false
      → clear_alarm platform service tenant id (calm d clock reads)
        ≡ (ok (closed a.last_value (clock reads) a), calm cleared_by_hand clock (suc reads))
  unfolding clear_alarm get_by_id mark_cleared update_alarm notify closed ◌>>=◌
  clear_alarm-calm k e o s = elim (Bool-cases service.has_notifier) [
    | inl on ↦ rw (k, e, o, s, on)
    | inr off ↦ rw (k, e, o, s, off)
  ]

  requests_without_effect :
      (id == "") ≡ false
      → find_first (has_id id) d.alarms ≡ some a
      → foreign (tenant_of service tenant) a || status_eq a.status cleared ≡ true
      → let answer = if foreign (tenant_of service tenant) a then err tenant_mismatch else ok a in
        (ack_alarm platform service tenant id (calm d clock reads) ≡ (answer, calm d clock reads))
        × (clear_alarm platform service tenant id (calm d clock reads)
            ≡ (answer, calm d clock reads))
  unfolding ack_alarm clear_alarm get_by_id ◌>>=◌
  requests_without_effect k e s = elim (Bool-cases (foreign (tenant_of service tenant) a)) [
    | inl refused ↦ (rw (k, e, refused), rw (k, e, refused))
    | inr own ↦
        let closed_row : status_eq a.status cleared ≡ true = ground arith in
        (rw (k, e, own, closed_row), rw (k, e, own, closed_row))
  ]

module _ {V : Type 0} ⦃f : Float64 V⦄ (platform : Platform) (service : Service)
    (tenant other id : String) (d : AlarmDb V) (a : Alarm V) (clock : ℕ → ℕ) (reads : ℕ) where
  -- Where no call of the database fails, clearing an open alarm of one's tenant returns the row that
  -- a later lookup finds: cleared and ended at the reading of the clock, with its last value. It is
  -- then final: clearing or acknowledging it again answers with that row, a request of another tenant
  -- for it is refused, and none of these writes, announces or reads the clock.
  pub clear_alarm_final :
      (id == "") ≡ false
      → find_first (has_id id) d.alarms ≡ some a
      → foreign (tenant_of service tenant) a ≡ false
      → foreign (tenant_of service other) a ≡ true
      → status_eq a.status cleared ≡ false
      → let row = closed a.last_value (clock reads) a in
        let (r, w) = clear_alarm platform service tenant id (calm d clock reads) in
        (r ≡ ok row)
        × (find_first (has_id id) w.db.alarms ≡ some row)
        × (clear_alarm platform service tenant id w ≡ (ok row, w))
        × (ack_alarm platform service tenant id w ≡ (ok row, w))
        × (clear_alarm platform service other id w ≡ (err tenant_mismatch, w))
        × (ack_alarm platform service other id w ≡ (err tenant_mismatch, w))
  unfolding closed
  clear_alarm_final k e o q s =
      let row = closed a.last_value (clock reads) a in
      let shut = cleared_by_hand platform service tenant id d a clock reads in
      let kept = found_updated id (closed a.last_value (clock reads)) d.alarms a (λ x. refl) e in
      let mine =
        requests_without_effect platform service tenant id shut row clock (suc reads) k kept
          (ground (arith, o)) in
      let theirs =
        requests_without_effect platform service other id shut row clock (suc reads) k kept
          (ground (arith, q)) in
      rw (clear_alarm-calm platform service tenant id d a clock reads k e o s)
        (refl, kept, (rw o at mine).1, (rw o at mine).0, (rw q at theirs).1, (rw q at theirs).0)
