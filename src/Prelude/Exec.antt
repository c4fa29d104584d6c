-- ===== src/Prelude/Exec.antt =====
-- The monad of the services: a method reads and writes the state behind its repositories, may
-- return an error, reads a clock, and every call of the database may fail. Which calls fail is the
-- list `outcomes` (`true` for a failure; past its end every call succeeds), and the readings of the
-- clock are a function of how many were made. What was written before an error stays written.
pub mod Rules
pub mod Zoom
pub mod Reads
use microgrid_cloud.Prelude.{
  ℕ, suc, ◌≡◌, refl, Bool, true, false, Option, none, some, List, [], ◌∷◌, if◌then◌else◌,
}

pub data Result (E A : Type 0) : Type 0 where
  ok : A → Result E A
  err : E → Result E A

pub record World (S : Type 0) : Type 0 where
  pub db : S
  pub outcomes : List Bool
  pub clock : ℕ → ℕ
  pub reads : ℕ

-- A world in which every call of the database succeeds.
abbrev pub calm : {S : Type 0} → S → (ℕ → ℕ) → ℕ → World S
calm d clock reads = record { db = d; outcomes = []; clock = clock; reads = reads }

abbrev pub Exec : Type 0 → Type 0 → Type 0 → Type 0
Exec S E A = World S → Result E A × World S

module _ {S E A : Type 0} where
  unfoldable pub pure : A → Exec S E A
  pure a w = (ok a, w)

  unfoldable pub raise : E → Exec S E A
  raise e w = (err e, w)

  unfoldable pub gets : (S → A) → Exec S E A
  gets f w = (ok (f w.db), w)

  unfoldable pub lift : Result E A → Exec S E A
  lift r w = (r, w)

  -- An action that is chosen by the state that it starts from.
  unfoldable pub with_db : (S → Exec S E A) → Exec S E A
  with_db f w = f w.db w

  -- `_ = f()`: the error is dropped, and what was written stays.
  unfoldable pub ignore : Exec S E A → Exec S E (Unit {0})
  ignore m w = (ok tt, (m w).1)

  -- `if err := f(); err != nil`, where the error is looked at and the method goes on.
  unfoldable pub caught : Exec S E A → Exec S E (Result E A)
  caught m w = let (r, w') = m w in (ok r, w')

module _ {S E : Type 0} where
  unfoldable pub modify : (S → S) → Exec S E (Unit {0})
  modify f w = (ok tt, record w { db = f w.db })

  -- `clock.Now()`.
  unfoldable pub now : Exec S E ℕ
  now w = (ok (w.clock w.reads), record w { reads = suc w.reads })

  -- The next outcome of a call of the database.
  abbrev pub settle : E → List Bool → World S → Result E (Unit {0}) × World S
  settle e [] w = (ok tt, w)
  settle e (true ∷ rest) w = (err e, record w { outcomes = rest })
  settle e (false ∷ rest) w = (ok tt, record w { outcomes = rest })

  unfoldable pub attempt : E → Exec S E (Unit {0})
  attempt e w = settle e w.outcomes w

  unfoldable pub guard : Bool → E → Exec S E (Unit {0})
  guard b e w = if b then (ok tt, w) else (err e, w)

module _ {S E A B : Type 0} where
  abbrev pub continue : Result E A → (A → Exec S E B) → Exec S E B
  continue (ok a) f w = f a w
  continue (err e) f w = (err e, w)

  infixl 5 ◌>>=◌ ◌>>◌
  -- Opening this opens the actions above too.
  unfoldable pub ◌>>=◌ : Exec S E A → (A → Exec S E B) → Exec S E B
  unfolding pure raise gets lift with_db ignore caught modify now attempt guard
  ◌>>=◌ m f w = let (r, w') = m w in continue r f w'

  abbrev pub ◌>>◌ : Exec S E A → Exec S E B → Exec S E B
  m >> k = m >>= λ _. k

-- `m` keeps `P`, whether it returns or fails.
pub record Keeps {S E A : Type 0} (P : S → Type 0) (m : Exec S E A) : Type 0 where
  pub at : (w : World S) → P w.db → P (m w).1.db

-- From `P` the action returns a result with `Q`, or fails with `R`.
abbrev pub Post : {S E A : Type 0} → (A → S → Type 0) → (S → Type 0) → Result E A → World S → Type 0
Post Q R (ok a) w = Q a w.db
Post Q R (err e) w = R w.db

pub record Triple {S E A : Type 0} (P : S → Type 0) (m : Exec S E A) (Q : A → S → Type 0)
    (R : S → Type 0) : Type 0 where
  pub run : (w : World S) → P w.db → Post Q R (m w).0 (m w).1
