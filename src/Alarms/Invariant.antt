-- ===== src/Alarms/Invariant.antt =====
-- What holds of the alarms table between two operations, and how its rows may change.
use microgrid_cloud.Prelude.{
  ℕ, String, List, [], ◌∷◌, ◌++◌, Bool, true, false, not, ◌&&◌, ◌||◌, ◌≡◌, refl, ◌∙◌, inl, inr,
  Bool-cases, ◌==◌, eq_iff, arith, any_where, update_where, find_first, some, any_where-weaken,
  any_where_never,
}
use microgrid_cloud.Prelude.Tables.{Apart, append-Apart, update-Apart}
use microgrid_cloud.Alarms.Domain.{Alarm}
use microgrid_cloud.Alarms.Repository.{
  is_open, open_for, originator_eq, touched, acked, closed, has_id,
}

module _ {V : Type 0} where
  unfoldable pub same_key : Alarm V → Alarm V → Bool
  same_key a b =
      a.tenant_id == b.tenant_id
      && (a.rule_id == b.rule_id
          && (originator_eq a.originator_type b.originator_type
              && a.originator_id == b.originator_id))

  -- Two rows that the primary key or the index of open alarms forbids to stand together.
  unfoldable pub clash : Alarm V → Alarm V → Bool
  clash a b = a.id == b.id || (is_open b.status && (is_open a.status && same_key a b))

  -- No two rows clash.
  abbrev pub Valid : List (Alarm V) → Type 0
  Valid = Apart clash

  clash_of_insert :
      (a b : Alarm V)
      → has_id a.id b ≡ false
      → (is_open a.status && open_for a.tenant_id a.rule_id a.originator_type a.originator_id b)
        ≡ false
      → clash b a ≡ false
  unfolding clash same_key open_for
  clash_of_insert a b h k = ground (arith, eq_iff a.id b.id, eq_iff b.id a.id)

  clash_of_checks :
      (a : Alarm V) (rows : List (Alarm V))
      → any_where (has_id a.id) rows ≡ false
      → (is_open a.status
          && any_where (open_for a.tenant_id a.rule_id a.originator_type a.originator_id) rows)
        ≡ false
      → any_where (λ b. clash b a) rows ≡ false
  unfolding any_where
  clash_of_checks a [] h k = refl
  clash_of_checks a (b ∷ rest) h k = ground (arith, clash_of_insert a b, clash_of_checks a rest)

  -- A row that passes the checks of an insert keeps the table valid.
  pub append-Valid :
      (rows : List (Alarm V)) (a : Alarm V)
      → any_where (has_id a.id) rows ≡ false
      → (is_open a.status
          && any_where (open_for a.tenant_id a.rule_id a.originator_type a.originator_id) rows)
        ≡ false
      → Valid rows
      → Valid (rows ++ a ∷ [])
  append-Valid rows a h k v = append-Apart clash rows a (clash_of_checks a rows h k) v

  -- No row under the id has been cleared.
  abbrev pub shut : String → Alarm V → Bool
  shut id a = a.id == id && not (is_open a.status)

  clash-closed_left :
      (a b : Alarm V) (value : V) (t : ℕ) → clash a b ≡ false → clash (closed value t a) b ≡ false
  unfolding clash closed same_key
  clash-closed_left a b value t h = ground arith

  clash-closed_right :
      (a b : Alarm V) (value : V) (t : ℕ) → clash a b ≡ false → clash a (closed value t b) ≡ false
  unfolding clash closed same_key
  clash-closed_right a b value t h = ground arith

  clash-touched_left : (a b : Alarm V) (value : V) (t : ℕ) → clash (touched value t a) b ≡ clash a b
  unfolding clash touched same_key
  clash-touched_left a b value t = refl

  clash-touched_right :
      (a b : Alarm V) (value : V) (t : ℕ) → clash a (touched value t b) ≡ clash a b
  unfolding clash touched same_key
  clash-touched_right a b value t = refl

  clash-acked_left :
      (a b : Alarm V) (t : ℕ)
      → is_open a.status ≡ true
      → clash a b ≡ false
      → clash (acked t a) b ≡ false
  unfolding clash acked same_key
  clash-acked_left a b t o h = ground arith

  clash-acked_right :
      (a b : Alarm V) (t : ℕ)
      → is_open b.status ≡ true
      → clash a b ≡ false
      → clash a (acked t b) ≡ false
  unfolding clash acked same_key
  clash-acked_right a b t o h = ground arith

  pub touched-Valid :
      (id : String) (value : V) (t : ℕ) (rows : List (Alarm V))
      → Valid rows
      → Valid (update_where (has_id id) (touched value t) rows)
  touched-Valid id value t rows v =
      update-Apart clash (has_id id) (λ _. false) (touched value t) rows
        (λ a b _ _ h. clash-touched_left a b value t ∙ h)
        (λ a b _ _ h. clash-touched_right a b value t ∙ h) (any_where_never rows) v

  pub closed-Valid :
      (id : String) (value : V) (t : ℕ) (rows : List (Alarm V))
      → Valid rows
      → Valid (update_where (has_id id) (closed value t) rows)
  closed-Valid id value t rows v =
      update-Apart clash (has_id id) (λ _. false) (closed value t) rows
        (λ a b _ _ h. clash-closed_left a b value t h)
        (λ a b _ _ h. clash-closed_right a b value t h) (any_where_never rows) v

  pub acked-Valid :
      (id : String) (t : ℕ) (rows : List (Alarm V))
      → any_where (shut id) rows ≡ false
      → Valid rows
      → Valid (update_where (has_id id) (acked t) rows)
  acked-Valid id t rows k v =
      update-Apart clash (has_id id) (shut id) (acked t) rows
        (λ a b p s h. clash-acked_left a b t (ground arith) h)
        (λ a b p s h. clash-acked_right a b t (ground arith) h) k v

  shut-clash :
      (b x : Alarm V) (id : String) → b.id == id ≡ true → clash b x ≡ false → shut id x ≡ false
  unfolding clash
  shut-clash b x id h c = ground (arith, eq_iff b.id id, eq_iff b.id x.id, eq_iff x.id id)

  -- The row that an id finds is the only one under it, so if it is open none has been cleared.
  pub shut_of_found :
      (id : String) (rows : List (Alarm V)) (a : Alarm V)
      → find_first (has_id id) rows ≡ some a
      → is_open a.status ≡ true
      → Valid rows
      → any_where (shut id) rows ≡ false
  unfolding find_first any_where
  shut_of_found id [] a e o v = refl
  shut_of_found id (b ∷ rest) a e o v = elim (Bool-cases (b.id == id)) [
    | inl hit ↦
        let others = any_where-weaken (clash b) (shut id) rest (λ x. shut-clash b x id hit) v.0 in
        ground arith
    | inr miss ↦ let others = shut_of_found id rest a (ground arith) o v.1 in ground arith
  ]
