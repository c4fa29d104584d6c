-- ===== src/Prelude/Tables.antt =====
-- Tables whose rows must not clash, and tables that grow while their rows move forward. Both are
-- kept by inserts and updates, as the lemmas say.
use microgrid_cloud.Prelude.{
  List, [], ◌∷◌, ◌++◌, Bool, true, false, ◌≡◌, refl, arith, any_where, update_where,
  any_where-append, any_where-weaken, any_where-update, Bool-cases, inl, inr,
}

module _ {A : Type 0} (clash : A → A → Bool) where
  -- No row clashes with a later one.
  abbrev pub Apart : List A → Type 0
  Apart [] = Unit
  Apart (a ∷ rest) = (any_where (clash a) rest ≡ false) × Apart rest

  pub append-Apart :
      (rows : List A) (a : A)
      → any_where (λ b. clash b a) rows ≡ false
      → Apart rows
      → Apart (rows ++ a ∷ [])
  unfolding any_where
  append-Apart [] a h v = (refl, tt)
  append-Apart (b ∷ rest) a h v =
      (ground (arith, any_where-append (clash b) rest a), append-Apart rest a (ground arith) v.1)

  -- An update that makes no row clash with another; `bad` holds of no row.
  pub update-Apart :
      (p bad : A → Bool) (f : A → A) (rows : List A)
      → ((a b : A) → p a ≡ true → bad a ≡ false → clash a b ≡ false → clash (f a) b ≡ false)
      → ((a b : A) → p b ≡ true → bad b ≡ false → clash a b ≡ false → clash a (f b) ≡ false)
      → any_where bad rows ≡ false
      → Apart rows
      → Apart (update_where p f rows)
  unfolding update_where any_where
  update-Apart p bad f [] left right k v = tt
  update-Apart p bad f (a ∷ rest) left right k v =
      let old = any_where-update (clash a) p bad f rest (right a) (ground arith) v.0 in
      let tail = update-Apart p bad f rest left right (ground arith) v.1 in
      elim (Bool-cases (p a)) [
        | inl hit ↦ rw hit (
          any_where-weaken (clash a) (clash (f a)) (update_where p f rest)
              (λ x h. left a x hit (ground arith) h) old,
          tail,
        )
        | inr miss ↦ rw miss (old, tail)
      ]

module _ {A : Type 0} (Moves : A → A → Type 0) where
  -- Each earlier row has moved, and new rows stand at the end.
  abbrev pub Grows : List A → List A → Type 0
  Grows [] later = Unit
  Grows (a ∷ earlier) [] = ⊥
  Grows (a ∷ earlier) (b ∷ later) = Moves a b × Grows earlier later

  pub Grows-refl : ((a : A) → Moves a a) → (rows : List A) → Grows rows rows
  Grows-refl same [] = tt
  Grows-refl same (a ∷ rest) = (same a, Grows-refl same rest)

  pub Grows-append :
      (earlier later : List A) (a : A) → Grows earlier later → Grows earlier (later ++ a ∷ [])
  Grows-append [] later a e = tt
  Grows-append (b ∷ earlier) [] a e = absurd e
  Grows-append (b ∷ earlier) (c ∷ later) a e = (e.0, Grows-append earlier later a e.1)

  pub Grows-update :
      (p bad : A → Bool) (f : A → A) (earlier later : List A)
      → ((a b : A) → p b ≡ true → bad b ≡ false → Moves a b → Moves a (f b))
      → any_where bad later ≡ false
      → Grows earlier later
      → Grows earlier (update_where p f later)
  unfolding update_where any_where
  Grows-update p bad f [] later keep k e = tt
  Grows-update p bad f (a ∷ earlier) [] keep k e = absurd e
  Grows-update p bad f (a ∷ earlier) (b ∷ later) keep k e =
      let rest = Grows-update p bad f earlier later keep (ground arith) e.1 in
      elim (Bool-cases (p b)) [
        | inl hit ↦ rw hit (keep a b hit (ground arith) e.0, rest)
        | inr miss ↦ rw miss (e.0, rest)
      ]
