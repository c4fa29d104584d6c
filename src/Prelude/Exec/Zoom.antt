-- ===== src/Prelude/Exec/Zoom.antt =====
-- A service that calls another one: the called action runs on its own part of the state, with the
-- outcomes of the database and the clock shared, and its errors are turned into the caller's.
use microgrid_cloud.Prelude.Exec.{Result, ok, err, World, Exec, Keeps}

module _ {E F A : Type 0} where
  abbrev pub convert : (F → E) → Result F A → Result E A
  convert e (ok a) = ok a
  convert e (err x) = err (e x)

module _ {S T : Type 0} where
  abbrev pub part : (S → T) → World S → World T
  part get w = record { db = get w.db; outcomes = w.outcomes; clock = w.clock; reads = w.reads }

  abbrev pub whole : (S → T → S) → World S → World T → World S
  whole put w v = record {
    db = put w.db v.db;
    outcomes = v.outcomes;
    clock = v.clock;
    reads = v.reads;
  }

module _ {S T E F A : Type 0} where
  unfoldable pub zoom : (S → T) → (S → T → S) → (F → E) → Exec T F A → Exec S E A
  zoom get put e m w = let (r, v) = m (part get w) in (convert e r, whole put w v)

  -- What a call of another service keeps, if its own state does not matter.
  pub Keeps-zoom :
      {P : S → Type 0} (get : S → T) (put : S → T → S) (e : F → E) (m : Exec T F A)
      → ((s : S) (t : T) → P s → P (put s t))
      → Keeps P (zoom get put e m)
  unfolding zoom
  Keeps-zoom get put e m h = record { at = λ w p. h w.db (m (part get w)).1.db p }
