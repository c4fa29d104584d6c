-- ===== src/Prelude/Exec/Rules.antt =====
-- The rules for `Keeps` and `Triple`, one for each way to build an action.
use microgrid_cloud.Prelude.{◌≡◌, refl, Bool, true, false, List, [], ◌∷◌, if◌then◌else◌}
use microgrid_cloud.Prelude.Exec.{
  Result, ok, err, World, Exec, Keeps, Triple, Post, pure, raise, gets, lift, with_db, ignore,
  caught, modify, now, settle, attempt, guard, continue, ◌>>=◌,
}

module _ {S E A : Type 0} {P : S → Type 0} where
  pub Keeps-pure : (a : A) → Keeps P (pure {E = E} a)
  unfolding pure
  Keeps-pure a = record { at = λ w h. h }

  pub Keeps-raise : (e : E) → Keeps P (raise {A = A} e)
  unfolding raise
  Keeps-raise e = record { at = λ w h. h }

  pub Keeps-gets : (f : S → A) → Keeps P (gets {E = E} f)
  unfolding gets
  Keeps-gets f = record { at = λ w h. h }

  pub Keeps-lift : (r : Result E A) → Keeps P (lift r)
  unfolding lift
  Keeps-lift r = record { at = λ w h. h }

  pub Keeps-ignore : (m : Exec S E A) → Keeps P m → Keeps P (ignore m)
  unfolding ignore
  Keeps-ignore m k = record { at = λ w h. k.at w h }

  pub Keeps-caught : (m : Exec S E A) → Keeps P m → Keeps P (caught m)
  unfolding caught
  Keeps-caught m k = record { at = λ w h. k.at w h }

  pub Keeps-if :
      (b : Bool) (m n : Exec S E A) → Keeps P m → Keeps P n → Keeps P (if b then m else n)
  Keeps-if true m n k l = k
  Keeps-if false m n k l = l

module _ {S E : Type 0} where
  settle-Keeps :
      (P : S → Type 0) (e : E) (outcomes : List Bool) (w : World S)
      → P w.db
      → P (settle e outcomes w).1.db
  settle-Keeps P e [] w h = h
  settle-Keeps P e (true ∷ rest) w h = h
  settle-Keeps P e (false ∷ rest) w h = h

  guard-Keeps : (P : S → Type 0) (b : Bool) (e : E) (w : World S) → P w.db → P (guard b e w).1.db
  unfolding guard
  guard-Keeps P true e w h = h
  guard-Keeps P false e w h = h

module _ {S E : Type 0} {P : S → Type 0} where
  pub Keeps-now : Keeps P (now {E = E})
  unfolding now
  Keeps-now = record { at = λ w h. h }

  pub Keeps-attempt : (e : E) → Keeps P (attempt e)
  unfolding attempt
  Keeps-attempt e = record { at = λ w h. settle-Keeps P e w.outcomes w h }

  pub Keeps-guard : (b : Bool) (e : E) → Keeps P (guard b e)
  Keeps-guard b e = record { at = λ w h. guard-Keeps P b e w h }

  pub Keeps-modify : (f : S → S) → ((s : S) → P s → P (f s)) → Keeps P (modify {E = E} f)
  unfolding modify
  Keeps-modify f h = record { at = λ w p. h w.db p }

module _ {S E A : Type 0} {P : S → Type 0} where
  pub Keeps-with_db : (f : S → Exec S E A) → ((s : S) → Keeps P (f s)) → Keeps P (with_db f)
  unfolding with_db
  Keeps-with_db f k = record { at = λ w h. (k w.db).at w h }

module _ {S E A B : Type 0} where
  continue-Keeps :
      {P : S → Type 0} (r : Result E A) (f : A → Exec S E B) (w : World S)
      → ((a : A) → Keeps P (f a))
      → P w.db
      → P (continue r f w).1.db
  continue-Keeps (ok a) f w k h = (k a).at w h
  continue-Keeps (err e) f w k h = h

  pub Keeps-bind :
      {P : S → Type 0} (m : Exec S E A) (f : A → Exec S E B)
      → Keeps P m
      → ((a : A) → Keeps P (f a))
      → Keeps P (m >>= f)
  unfolding ◌>>=◌
  Keeps-bind m f k l = record { at = λ w h. continue-Keeps (m w).0 f (m w).1 l (k.at w h) }

  continue-Post :
      {Q : A → S → Type 0} {Q' : B → S → Type 0} {R : S → Type 0} (r : Result E A)
      (f : A → Exec S E B) (w : World S)
      → ((a : A) → Triple (Q a) (f a) Q' R)
      → Post Q R r w
      → Post Q' R (continue r f w).0 (continue r f w).1
  continue-Post (ok a) f w step h = (step a).run w h
  continue-Post (err e) f w step h = h

  pub Triple-bind :
      {P : S → Type 0} {Q : A → S → Type 0} {Q' : B → S → Type 0} {R : S → Type 0} (m : Exec S E A)
      (f : A → Exec S E B)
      → Triple P m Q R
      → ((a : A) → Triple (Q a) (f a) Q' R)
      → Triple P (m >>= f) Q' R
  unfolding ◌>>=◌
  Triple-bind m f first step = record {
    run = λ w h. continue-Post (m w).0 f (m w).1 step (first.run w h);
  }

  -- A result that is known.
  pub Triple-known :
      {P : S → Type 0} {Q : B → S → Type 0} {R : S → Type 0} (r : Result E A) (a : A)
      (f : A → Exec S E B)
      → r ≡ ok a
      → Triple P (f a) Q R
      → Triple P (lift r >>= f) Q R
  unfolding ◌>>=◌ lift
  Triple-known r a f e t = record { run = λ w p. rw e (t.run w p) }

module _ {S E : Type 0} where
  pub Triple-modify :
      {P : S → Type 0} {Q : S → Type 0} {R : S → Type 0} (f : S → S)
      → ((s : S) → P s → Q (f s))
      → Triple P (modify {E = E} f) (λ _. Q) R
  unfolding modify
  Triple-modify f h = record { run = λ w p. h w.db p }

  test-Post :
      (P R : S → Type 0) (t : S → Bool) (e : E) (w : World S) (b : Bool)
      → t w.db ≡ b
      → (P w.db → R w.db)
      → P w.db
      → Post (λ _ s. P s × (t s ≡ true)) R (guard b e w).0 (guard b e w).1
  unfolding guard
  test-Post P R t e w true k weaker h = (h, k)
  test-Post P R t e w false k weaker h = weaker h

  -- A test of the state that an action starts from.
  pub Triple-guard :
      {P R : S → Type 0} (t : S → Bool) (e : E)
      → ((s : S) → P s → R s)
      → Triple P (with_db (λ s. guard (t s) e)) (λ _ s. P s × (t s ≡ true)) R
  unfolding with_db
  Triple-guard t e weaker = record {
    run = λ w h. test-Post _ _ t e w (t w.db) refl (weaker w.db) h;
  }

module _ {S E A : Type 0} where
  Post-of_Keeps :
      {P R : S → Type 0} (r : Result E A) (w : World S)
      → ((s : S) → P s → R s)
      → P w.db
      → Post (λ _. P) R r w
  Post-of_Keeps (ok a) w h p = p
  Post-of_Keeps (err e) w h p = h w.db p

  -- An action that keeps `P`, followed by a failure that may forget something.
  pub triple-Keeps :
      {P R : S → Type 0} (m : Exec S E A)
      → Keeps P m
      → ((s : S) → P s → R s)
      → Triple P m (λ _. P) R
  triple-Keeps m k h = record { run = λ w p. Post-of_Keeps (m w).0 (m w).1 h (k.at w p) }

  -- A result that is given.
  pub Triple-lift :
      {P R : S → Type 0} (r : Result E A)
      → ((s : S) → P s → R s)
      → Triple P (lift r) (λ a s. P s × (r ≡ ok a)) R
  unfolding lift
  Triple-lift (ok a) h = record { run = λ w p. (p, refl) }
  Triple-lift (err e) h = record { run = λ w p. h w.db p }

  pub Triple-pure :
      {P : S → Type 0} {Q : A → S → Type 0} {R : S → Type 0} (a : A)
      → ((s : S) → P s → Q a s)
      → Triple P (pure {E = E} a) Q R
  unfolding pure
  Triple-pure a h = record { run = λ w p. h w.db p }

  pub Triple-raise :
      {P : S → Type 0} {Q : A → S → Type 0} {R : S → Type 0} (e : E)
      → ((s : S) → P s → R s)
      → Triple P (raise {A = A} e) Q R
  unfolding raise
  Triple-raise e h = record { run = λ w p. h w.db p }

  -- A fact that the precondition carries.
  pub Triple-given :
      {X : Type 0} {P : S → Type 0} {Q : A → S → Type 0} {R : S → Type 0} (m : Exec S E A)
      → (X → Triple P m Q R)
      → Triple (λ s. P s × X) m Q R
  Triple-given m t = record { run = λ w p. (t p.1).run w p.0 }

  Keeps-of_Post : (P : S → Type 0) (r : Result E A) (w : World S) → Post (λ _. P) P r w → P w.db
  Keeps-of_Post P (ok a) w h = h
  Keeps-of_Post P (err e) w h = h

  pub Keeps-triple : {P : S → Type 0} (m : Exec S E A) → Triple P m (λ _. P) P → Keeps P m
  Keeps-triple {P} m t = record { at = λ w h. Keeps-of_Post P (m w).0 (m w).1 (t.run w h) }

  pub Triple-gets :
      {P : S → Type 0} {R : S → Type 0} (f : S → A)
      → Triple P (gets {E = E} f) (λ a s. P s × (f s ≡ a)) R
  unfolding gets
  Triple-gets f = record { run = λ w h. (h, refl) }

  pub Triple-if :
      {P : S → Type 0} {Q : A → S → Type 0} {R : S → Type 0} (b : Bool) (m n : Exec S E A)
      → (b ≡ true → Triple P m Q R)
      → (b ≡ false → Triple P n Q R)
      → Triple P (if b then m else n) Q R
  Triple-if true m n t u = t refl
  Triple-if false m n t u = u refl

  pub Triple-weaken :
      {P P' : S → Type 0} {Q : A → S → Type 0} {R : S → Type 0} (m : Exec S E A)
      → ((s : S) → P s → P' s)
      → Triple P' m Q R
      → Triple P m Q R
  Triple-weaken m h t = record { run = λ w p. t.run w (h w.db p) }

  after-Post :
      (Q Q' : A → S → Type 0) (R : S → Type 0) (r : Result E A) (w : World S)
      → ((a : A) (s : S) → Q a s → Q' a s)
      → Post Q R r w
      → Post Q' R r w
  after-Post Q Q' R (ok a) w h p = h a w.db p
  after-Post Q Q' R (err e) w h p = p

  pub Triple-after :
      {P : S → Type 0} {Q Q' : A → S → Type 0} {R : S → Type 0} (m : Exec S E A)
      → Triple P m Q R
      → ((a : A) (s : S) → Q a s → Q' a s)
      → Triple P m Q' R
  Triple-after m t h = record { run = λ w p. after-Post _ _ _ (m w).0 (m w).1 h (t.run w p) }

pub ruleset keeps_rules = (
  Keeps-pure, Keeps-raise, Keeps-gets, Keeps-lift, Keeps-ignore, Keeps-caught, Keeps-if, Keeps-now,
  Keeps-attempt, Keeps-guard, Keeps-bind,
)
