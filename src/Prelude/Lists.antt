-- ===== src/Prelude/Lists.antt =====
-- Lists measured by native numbers and filtered by Boolean tests; predicates by recursion.
use Prim.Native.Nat.{ℕ, zero, suc, ◌+◌}
use mathlib.Core.Path.{◌≡◌, refl, ◌∙◌}
use mathlib.Core.Logic.{◌≢◌, inl, inr}
use mathlib.Core.Bool.{Bool, true, false, ◌||◌}
use mathlib.Core.List.{List, [], ◌∷◌, ◌++◌}
use mathlib.Core.Option.{Option, none, some}
use native.Mathlib.Omega.{arith}
use microgrid_cloud.Prelude.Tests.{Bool-cases, if◌then◌else◌, leb}

module _ {ℓ} {A : Type ℓ} where
  abbrev pub length : List A → ℕ
  length [] = 0
  length (x ∷ xs) = suc (length xs)

  pub length-append : (xs ys : List A) → length (xs ++ ys) ≡ length xs + length ys
  length-append [] ys = omega arith
  length-append (x ∷ xs) ys = omega (arith, length-append xs ys)

  abbrev pub get_elem? : List A → ℕ → Option A
  get_elem? [] i = none
  get_elem? (x ∷ xs) zero = some x
  get_elem? (x ∷ xs) (suc i) = get_elem? xs i

  -- `SELECT ... WHERE p` over a table.
  unfoldable pub select : (A → Bool) → List A → List A
  select p [] = []
  select p (x ∷ xs) = if p x then x ∷ select p xs else select p xs

  -- The first row that satisfies the test: `... LIMIT 1`.
  unfoldable pub find_first : (A → Bool) → List A → Option A
  find_first p [] = none
  find_first p (x ∷ xs) = if p x then some x else find_first p xs

  -- `UPDATE ... SET f WHERE p`.
  unfoldable pub update_where : (A → Bool) → (A → A) → List A → List A
  update_where p f [] = []
  update_where p f (x ∷ xs) = (if p x then f x else x) ∷ update_where p f xs

  unfoldable pub count_where : (A → Bool) → List A → ℕ
  count_where p [] = 0
  count_where p (x ∷ xs) = let rest = count_where p xs in if p x then suc rest else rest

  unfoldable pub any_where : (A → Bool) → List A → Bool
  any_where p [] = false
  any_where p (x ∷ xs) = if p x then true else any_where p xs

  unfoldable pub insert_by : (A → A → Bool) → A → List A → List A
  insert_by le x [] = x ∷ []
  insert_by le x (y ∷ ys) = if le x y then x ∷ y ∷ ys else y ∷ insert_by le x ys

  -- `ORDER BY`: a stable sort of the rows.
  unfoldable pub sort_by : (A → A → Bool) → List A → List A
  unfolding insert_by
  sort_by le [] = []
  sort_by le (x ∷ xs) = insert_by le x (sort_by le xs)

  -- `ORDER BY key DESC LIMIT 1`.
  newer : (A → ℕ) → A → Option A → Option A
  newer key x none = some x
  newer key x (some y) = if leb (key y) (key x) then some x else some y

  unfoldable pub latest : (A → ℕ) → List A → Option A
  unfolding newer
  latest key [] = none
  latest key (x ∷ xs) = newer key x (latest key xs)

  -- Every element satisfies `P`.
  abbrev pub All {κ} : (A → Type κ) → List A → Type κ
  All P [] = Unit
  All P (x ∷ xs) = P x × All P xs

-- The tests of a table through an update.
module _ {ℓ} {A : Type ℓ} where
  pub any_where-append :
      (p : A → Bool) (xs : List A) (y : A) → any_where p (xs ++ y ∷ []) ≡ (any_where p xs || p y)
  unfolding any_where
  any_where-append p [] y = ground arith
  any_where-append p (x ∷ xs) y = ground (arith, any_where-append p xs y)

  pub any_where-weaken :
      (q r : A → Bool) (xs : List A)
      → ((x : A) → q x ≡ false → r x ≡ false)
      → any_where q xs ≡ false
      → any_where r xs ≡ false
  unfolding any_where
  any_where-weaken q r [] weaken h = refl
  any_where-weaken q r (x ∷ xs) weaken h = ground (arith, weaken x, any_where-weaken q r xs weaken)

  -- `bad` holds of no row, so it may be excluded where a row is updated.
  pub any_where-update :
      (q p bad : A → Bool) (f : A → A) (xs : List A)
      → ((x : A) → p x ≡ true → bad x ≡ false → q x ≡ false → q (f x) ≡ false)
      → any_where bad xs ≡ false
      → any_where q xs ≡ false
      → any_where q (update_where p f xs) ≡ false
  unfolding any_where update_where
  any_where-update q p bad f [] keep k h = refl
  any_where-update q p bad f (x ∷ xs) keep k h =
      ground (arith, keep x, any_where-update q p bad f xs keep)

  pub any_where_never : (xs : List A) → any_where (λ _. false) xs ≡ false
  unfolding any_where
  any_where_never [] = refl
  any_where_never (x ∷ xs) = any_where_never xs

  -- What a test finds, it passes.
  pub find_first-passes :
      (p : A → Bool) (xs : List A) (x : A) → find_first p xs ≡ some x → p x ≡ true
  unfolding find_first
  find_first-passes p [] x h = cc
  find_first-passes p (y ∷ ys) x h = elim (Bool-cases (p y)) [
    | inl hit ↦ ground arith
    | inr miss ↦ find_first-passes p ys x (ground arith)
  ]

  latest_some : (key : A → ℕ) (x : A) (xs : List A) → latest key (x ∷ xs) ≢ none
  unfolding latest
  latest_some key x xs h = ground arith

  -- No latest row means no row at all.
  pub any_where_of_latest :
      (key : A → ℕ) (p : A → Bool) (xs : List A)
      → latest key (select p xs) ≡ none
      → any_where p xs ≡ false
  unfolding latest select any_where
  any_where_of_latest key p [] h = refl
  any_where_of_latest key p (x ∷ xs) h = elim (Bool-cases (p x)) [
    | inl hit ↦ absurd (latest_some key x (select p xs) (rw hit at h))
    | inr miss ↦ rw miss (any_where_of_latest key p xs (ground arith))
  ]

  -- Where no row passes, there is none to be the latest.
  pub select_of_none : (p : A → Bool) (xs : List A) → any_where p xs ≡ false → select p xs ≡ []
  unfolding select any_where
  select_of_none p [] h = refl
  select_of_none p (x ∷ xs) h = elim (Bool-cases (p x)) [
    | inl hit ↦ absurd (ground (arith, hit, h))
    | inr miss ↦ rw miss (select_of_none p xs (rw miss at h))
  ]

  pub select-append :
      (p : A → Bool) (xs : List A) (y : A)
      → select p (xs ++ y ∷ []) ≡ (if p y then select p xs ++ y ∷ [] else select p xs)
  unfolding select
  select-append p [] y = refl
  select-append p (x ∷ xs) y = elim (Bool-cases (p x)) [
    | inl hit ↦
        rw (hit, select-append p xs y)
          (elim (Bool-cases (p y)) [ inl h ↦ rw h refl | inr h ↦ rw h refl ])
    | inr miss ↦ rw miss (select-append p xs y)
  ]

  newer-passes :
      (key : A → ℕ) (p : A → Bool) (y x : A) (o : Option A)
      → p y ≡ true
      → (o ≡ some x → p x ≡ true)
      → newer key y o ≡ some x
      → p x ≡ true
  unfolding newer
  newer-passes key p y x none hit rest h = cc
  newer-passes key p y x (some z) hit rest h = elim (Bool-cases (leb (key z) (key y))) [
    | inl above ↦ let same : some y ≡ some x = (rw above at h) in cc
    | inr below ↦ rest (rw below at h)
  ]

  -- What the latest row of a selection passes.
  pub latest-passes :
      (key : A → ℕ) (p : A → Bool) (xs : List A) (x : A)
      → latest key (select p xs) ≡ some x
      → p x ≡ true
  unfolding latest select
  latest-passes key p [] x h = cc
  latest-passes key p (y ∷ ys) x h = elim (Bool-cases (p y)) [
    | inl hit ↦
        newer-passes key p y x (latest key (select p ys)) hit (latest-passes key p ys x)
          (rw hit at h)
    | inr miss ↦ latest-passes key p ys x (rw miss at h)
  ]

  -- A row above all others is the latest.
  pub latest-append :
      (key : A → ℕ) (xs : List A) (y : A)
      → any_where (λ x. leb (key y) (key x)) xs ≡ false
      → latest key (xs ++ y ∷ []) ≡ some y
  unfolding latest any_where
  latest-append key [] y h = refl
  latest-append key (x ∷ xs) y h = rw (latest-append key xs y (ground arith)) (ground arith)

  pub any_where-select :
      (q p r : A → Bool) (xs : List A)
      → ((x : A) → r x ≡ true → p x ≡ true)
      → any_where q (select p xs) ≡ false
      → any_where q (select r xs) ≡ false
  unfolding any_where select
  any_where-select q p r [] weaker h = refl
  any_where-select q p r (x ∷ xs) weaker h = elim (Bool-cases (r x)) [
    | inl hit ↦
        let old = rw (weaker x hit) at h in
        rw hit (ground (arith, any_where-select q p r xs weaker))
    | inr miss ↦ rw miss (
        any_where-select q p r xs weaker (elim (Bool-cases (p x)) [
          | inl k ↦ let old = rw k at h in ground arith
          | inr k ↦ rw k at h
        ]))
  ]

  -- A row updated under its own test is found, updated, by that test.
  pub find_first-update :
      (p : A → Bool) (f : A → A) (rows : List A) (a : A)
      → ((x : A) → p (f x) ≡ p x)
      → find_first p rows ≡ some a
      → find_first p (update_where p f rows) ≡ some (f a)
  unfolding find_first update_where
  find_first-update p f [] a same e = cc
  find_first-update p f (b ∷ rest) a same e = elim (Bool-cases (p b)) [
    | inl hit ↦ let same_row : some b ≡ some a = (rw hit at e) in rw hit (rw (same b ∙ hit) cc)
    | inr miss ↦ rw miss (rw miss (find_first-update p f rest a same (rw miss at e)))
  ]
