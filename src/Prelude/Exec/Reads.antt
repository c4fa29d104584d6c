-- ===== src/Prelude/Exec/Reads.antt =====
-- Rules for actions that read the tables: what they return is a function of the state, and the state
-- stays as it was.
use microgrid_cloud.Prelude.{◌≡◌}
use microgrid_cloud.Prelude.Exec.{
  Result, ok, err, World, Exec, Triple, Post, gets, attempt, caught, ◌>>◌,
}
use microgrid_cloud.Prelude.Exec.Rules.{Keeps-attempt, Triple-bind, Triple-gets, triple-Keeps}

module _ {S E A : Type 0} where
  -- `attempt e; gets f`, the shape of a query.
  pub Triple-query :
      {P : S → Type 0} (e : E) (f : S → A)
      → Triple P (attempt e >> gets f) (λ a s. P s × (f s ≡ a)) P
  Triple-query e f =
      Triple-bind _ _ (triple-Keeps _ (Keeps-attempt e) (λ s p. p)) λ _. Triple-gets f

  caught-Post :
      (Q : A → S → Type 0) (Q' : Result E A → S → Type 0) (R : S → Type 0) (r : Result E A)
      (w : World S)
      → ((a : A) (s : S) → Q a s → Q' (ok a) s)
      → ((e : E) (s : S) → R s → Q' (err e) s)
      → Post Q R r w
      → Q' r w.db
  caught-Post Q Q' R (ok a) w h k p = h a w.db p
  caught-Post Q Q' R (err e) w h k p = k e w.db p

  -- An error that is looked at.
  pub Triple-caught :
      {P : S → Type 0} {Q : A → S → Type 0} {Q' : Result E A → S → Type 0} {R R' : S → Type 0}
      (m : Exec S E A)
      → Triple P m Q R
      → ((a : A) (s : S) → Q a s → Q' (ok a) s)
      → ((e : E) (s : S) → R s → Q' (err e) s)
      → Triple P (caught m) Q' R'
  unfolding caught
  Triple-caught {Q} {Q'} {R} m t h k = record {
    run = λ w p. caught-Post Q Q' R (m w).0 (m w).1 h k (t.run w p);
  }

  triple-Post :
      (P Q : S → Type 0) (r : Result E A) (w : World S)
      → ((s : S) → P s → Q s)
      → Post (λ _. P) P r w
      → Q w.db
  triple-Post P Q (ok a) w h p = h w.db p
  triple-Post P Q (err e) w h p = h w.db p

  -- What holds after an action, whether it returns or fails.
  pub Triple-both :
      {P Q : S → Type 0} (m : Exec S E A) (w : World S)
      → Triple P m (λ _. Q) Q
      → P w.db
      → Q (m w).1.db
  Triple-both {P} {Q} m w t p = triple-Post Q Q (m w).0 (m w).1 (λ s q. q) (t.run w p)
