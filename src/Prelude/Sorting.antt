-- ===== src/Prelude/Sorting.antt =====
-- `ORDER BY`: sorting keeps which rows pass a test, and the first sorted row that passes a test is
-- the first of the sorted selection.
use Prim.Native.Nat.{ℕ}
use mathlib.Core.Path.{◌≡◌, refl, sym, ap, ◌∙◌}
use mathlib.Core.Logic.{inl, inr}
use mathlib.Core.Bool.{Bool, true}
use mathlib.Core.List.{List, [], ◌∷◌}
use mathlib.Core.Option.{Option, none, some}
use native.Mathlib.Omega.{arith}
use microgrid_cloud.Prelude.Tests.{Bool-cases, if◌then◌else◌, leb}
use microgrid_cloud.Prelude.Lists.{insert_by, sort_by, select, find_first, any_where, All}

module _ {ℓ} {A : Type ℓ} where
  any_where-insert_by :
      (p : A → Bool) (le : A → A → Bool) (x : A) (ys : List A)
      → any_where p (insert_by le x ys) ≡ (if p x then true else any_where p ys)
  unfolding any_where insert_by
  any_where-insert_by p le x [] = refl
  any_where-insert_by p le x (y ∷ ys) = ground (arith, any_where-insert_by p le x ys)

  pub any_where-sort_by :
      (p : A → Bool) (le : A → A → Bool) (xs : List A)
      → any_where p (sort_by le xs) ≡ any_where p xs
  unfolding any_where sort_by
  any_where-sort_by p le [] = refl
  any_where-sort_by p le (x ∷ xs) =
      any_where-insert_by p le x (sort_by le xs) ∙ (rw (any_where-sort_by p le xs) refl)

  -- `rows[0]`.
  unfoldable pub first : List A → Option A
  first [] = none
  first (x ∷ xs) = some x

  pub find_first-eq-first : (p : A → Bool) (xs : List A) → find_first p xs ≡ first (select p xs)
  unfolding find_first first select
  find_first-eq-first p [] = refl
  find_first-eq-first p (x ∷ xs) = elim (Bool-cases (p x)) [
    | inl hit ↦ rw hit refl
    | inr miss ↦ rw miss (find_first-eq-first p xs)
  ]

  module _ (key : A → ℕ) where
    abbrev pub by_key : A → A → Bool
    by_key a b = leb (key a) (key b)

    -- Every row of a tail has at least the key of the head.
    abbrev pub Ascending : List A → Type ℓ
    Ascending [] = Unit
    Ascending (x ∷ xs) = All (λ y. leb (key x) (key y) ≡ true) xs × Ascending xs

    All-insert_by :
        (x y : A) (ys : List A)
        → leb (key x) (key y) ≡ true
        → All (λ z. leb (key x) (key z) ≡ true) ys
        → All (λ z. leb (key x) (key z) ≡ true) (insert_by by_key y ys)
    unfolding insert_by
    All-insert_by x y [] h k = (h, tt)
    All-insert_by x y (z ∷ zs) h k = elim (Bool-cases (leb (key y) (key z))) [
      | inl e ↦ rw e (h, k)
      | inr e ↦ rw e (k.0, All-insert_by x y zs h k.1)
    ]

    All-weaken :
        (x y : A) (ys : List A)
        → leb (key x) (key y) ≡ true
        → All (λ z. leb (key y) (key z) ≡ true) ys
        → All (λ z. leb (key x) (key z) ≡ true) ys
    All-weaken x y [] h k = tt
    All-weaken x y (z ∷ zs) h k = (ground (arith, h, k.0), All-weaken x y zs h k.1)

    insert_by-Ascending : (x : A) (ys : List A) → Ascending ys → Ascending (insert_by by_key x ys)
    unfolding insert_by
    insert_by-Ascending x [] v = (tt, tt)
    insert_by-Ascending x (y ∷ ys) v = elim (Bool-cases (leb (key x) (key y))) [
      | inl e ↦ rw e ((e, All-weaken x y ys e v.0), v)
      | inr e ↦ rw e (All-insert_by y x ys (ground arith) v.0, insert_by-Ascending x ys v.1)
    ]

    sort_by-Ascending : (xs : List A) → Ascending (sort_by by_key xs)
    unfolding sort_by
    sort_by-Ascending [] = tt
    sort_by-Ascending (x ∷ xs) = insert_by-Ascending x _ (sort_by-Ascending xs)

    -- Below a row whose key is at most all others, the row is inserted first.
    insert_first :
        (x : A) (ys : List A)
        → All (λ z. leb (key x) (key z) ≡ true) ys
        → insert_by by_key x ys ≡ x ∷ ys
    unfolding insert_by
    insert_first x [] v = refl
    insert_first x (y ∷ ys) v = rw v.0 refl

    All-select :
        (p : A → Bool) (x : A) (ys : List A)
        → All (λ z. leb (key x) (key z) ≡ true) ys
        → All (λ z. leb (key x) (key z) ≡ true) (select p ys)
    unfolding select
    All-select p x [] v = tt
    All-select p x (y ∷ ys) v = elim (Bool-cases (p y)) [
      | inl hit ↦ rw hit (v.0, All-select p x ys v.1)
      | inr miss ↦ rw miss (All-select p x ys v.1)
    ]

    select-insert_by :
        (p : A → Bool) (x : A) (ys : List A)
        → Ascending ys
        → select p (insert_by by_key x ys)
          ≡ (if p x then insert_by by_key x (select p ys) else select p ys)
    unfolding select insert_by
    select-insert_by p x [] v = elim (Bool-cases (p x)) [ inl h ↦ rw h refl | inr h ↦ rw h refl ]
    select-insert_by p x (y ∷ ys) v = elim (Bool-cases (leb (key x) (key y))) [
      | inl e ↦ elim (Bool-cases (p x)) [
        | inl hit ↦
            rw (e, hit)
              (sym (
                insert_first x (select p (y ∷ ys))
                  (All-select p x (y ∷ ys) (e, All-weaken x y ys e v.0))))
        | inr miss ↦ rw (e, miss) refl
      ]
      | inr e ↦ elim (Bool-cases (p y)) [
        | inl here ↦ elim (Bool-cases (p x)) [
          | inl hit ↦ rw (e, here, select-insert_by p x ys v.1, hit, e) refl
          | inr miss ↦ rw (e, here, select-insert_by p x ys v.1, miss) refl
        ]
        | inr there ↦ rw (e, there, select-insert_by p x ys v.1) refl
      ]
    ]

    pub select-sort_by :
        (p : A → Bool) (xs : List A) → select p (sort_by by_key xs) ≡ sort_by by_key (select p xs)
    unfolding select sort_by
    select-sort_by p [] = refl
    select-sort_by p (x ∷ xs) =
        select-insert_by p x (sort_by by_key xs) (sort_by-Ascending xs) ∙ (elim (Bool-cases (p x)) [
          | inl h ↦ rw (h, select-sort_by p xs) refl
          | inr h ↦ rw h (select-sort_by p xs)
        ])

    -- The first row of `WHERE p ORDER BY key LIMIT 1` is what a scan of the ordered table finds.
    pub find_first-sort_by :
        (p : A → Bool) (xs : List A)
        → find_first p (sort_by by_key xs) ≡ first (sort_by by_key (select p xs))
    find_first-sort_by p xs =
        find_first-eq-first p (sort_by by_key xs) ∙ ap first (select-sort_by p xs)

    -- Sorting an ascending list changes nothing.
    pub sort_by_of_Ascending : (xs : List A) → Ascending xs → sort_by by_key xs ≡ xs
    unfolding sort_by
    sort_by_of_Ascending [] v = refl
    sort_by_of_Ascending (x ∷ xs) v = rw (sort_by_of_Ascending xs v.1) (insert_first x xs v.0)
