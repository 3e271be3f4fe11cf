-- ===== src/Control/Exec/Lands.antt =====
-- Actions that report no error from any cell where a predicate holds: one rule for each way to build
-- an action.
use open_voip.Base.{◌≡◌, refl, Bool, true, false, Option, none, some, if◌then◌else◌}
use open_voip.Errs.{Err}
use open_voip.Control.State.{Cell, Env, Result, RuntimeCall, ok, err}
use open_voip.Control.Exec.{
  Exec, pure, gets, with_live, with_option, ignore, attempt, with_result, modify, on_live,
  update_live, when, continue, now, fresh_id, ◌>>=◌,
}
use open_voip.Control.Exec.Keeps.{Keeps}

abbrev pub Fine : {A : Type 0} → Result A → Type 0
Fine (ok a) = Unit {0}
Fine (err e) = ⊥

pub record Lands {A : Type 0} (P : Cell → Type 0) (m : Exec A) : Type 0 where
  pub at : (c : Cell) → P c → Fine (m c).0

module _ {A : Type 0} {P : Cell → Type 0} where
  pub Lands-pure : (a : A) → Lands P (pure a)
  unfolding pure
  Lands-pure a = record { at = λ c h. tt }

  pub Lands-gets : (f : Cell → A) → Lands P (gets f)
  unfolding gets
  Lands-gets f = record { at = λ c h. tt }

  pub Lands-ignore : (m : Exec A) → Lands P (ignore m)
  unfolding ignore
  Lands-ignore m = record { at = λ c h. tt }

  pub Lands-attempt : (m : Exec A) → Lands P (attempt m)
  unfolding attempt
  Lands-attempt m = record { at = λ c h. tt }

  pub Lands-with_live :
      (absent : Exec A) (present : RuntimeCall → Exec A)
      → Lands P absent
      → ((rt : RuntimeCall) → Lands P (present rt))
      → Lands P (with_live absent present)
  unfolding with_live
  Lands-with_live absent present la lp = record { at = λ c h. go c c.live h }
    where
      go : (c : Cell) (o : Option RuntimeCall) → P c → Fine (on_live absent present o c).0
      go c none h = la.at c h
      go c (some rt) h = (lp rt).at c h

  -- The same, where the action may use that the live entry is the one it was given.
  pub Lands-with_this_live :
      (absent : Exec A) (present : RuntimeCall → Exec A)
      → Lands P absent
      → ((rt : RuntimeCall) (c : Cell) → c.live ≡ some rt → P c → Fine (present rt c).0)
      → Lands P (with_live absent present)
  unfolding with_live
  Lands-with_this_live absent present la lp = record { at = λ c h. go c c.live refl h }
    where
      go :
          (c : Cell) (o : Option RuntimeCall)
          → c.live ≡ o
          → P c
          → Fine (on_live absent present o c).0
      go c none e h = la.at c h
      go c (some rt) e h = lp rt c e h

  pub Lands-with_option :
      {B : Type 0} (o : Option B) (absent : Exec A) (present : B → Exec A)
      → Lands P absent
      → ((b : B) → Lands P (present b))
      → Lands P (with_option o absent present)
  unfolding with_option
  Lands-with_option none absent present la lp = la
  Lands-with_option (some b) absent present la lp = lp b

  pub Lands-if : (b : Bool) (m n : Exec A) → Lands P m → Lands P n → Lands P (if b then m else n)
  Lands-if true m n lm ln = lm
  Lands-if false m n lm ln = ln

module _ {A B : Type 0} {P : Cell → Type 0} where
  pub Lands-with_result :
      (r : Result A) (bad : Err → Exec B) (good : A → Exec B)
      → ((e : Err) → Lands P (bad e))
      → ((a : A) → Lands P (good a))
      → Lands P (with_result r bad good)
  unfolding with_result
  Lands-with_result (ok a) bad good lb lg = lg a
  Lands-with_result (err e) bad good lb lg = lb e

  pub Lands-bind :
      (m : Exec A) (f : A → Exec B)
      → Keeps P m
      → Lands P m
      → ((a : A) → Lands P (f a))
      → Lands P (m >>= f)
  unfolding ◌>>=◌
  Lands-bind m f k l lf = record { at = λ c h. after (m c).0 (m c).1 (l.at c h) (k.at c h) }
    where
      after : (r : Result A) (c' : Cell) → Fine r → P c' → Fine (continue r f c').0
      after (ok a) c' l h = (lf a).at c' h
      after (err e) c' l h = absurd l

  -- The same, where the rest reports no error from any cell.
  pub Lands-then :
      (m : Exec A) (f : A → Exec B)
      → Lands P m
      → ((a : A) → Lands (λ c. Unit {0}) (f a))
      → Lands P (m >>= f)
  unfolding ◌>>=◌
  Lands-then m f l lf = record { at = λ c h. after (m c).0 (m c).1 (l.at c h) }
    where
      after : (r : Result A) (c' : Cell) → Fine r → Fine (continue r f c').0
      after (ok a) c' l = (lf a).at c' tt
      after (err e) c' l = absurd l

module _ {P : Cell → Type 0} where
  pub Lands-when : (b : Bool) (m : Exec (Unit {0})) → Lands P m → Lands P (when b m)
  unfolding when
  Lands-when true m l = l
  Lands-when false m l = Lands-pure tt

  pub Lands-now : (env : Env) → Lands P (now env)
  unfolding now
  Lands-now env = record { at = λ c h. tt }

  pub Lands-fresh_id : (env : Env) → Lands P (fresh_id env)
  unfolding fresh_id
  Lands-fresh_id env = record { at = λ c h. tt }

  pub Lands-modify : (f : RuntimeCall → RuntimeCall) → Lands P (modify f)
  unfolding modify
  Lands-modify f = record { at = λ c h. go c c.live }
    where
      go : (c : Cell) (o : Option RuntimeCall) → Fine (update_live f o c).0
      go c none = tt
      go c (some rt) = tt

pub ruleset lands_rules = (
  Lands-pure, Lands-gets, Lands-ignore, Lands-attempt, Lands-with_live, Lands-with_option, Lands-if,
  Lands-with_result, Lands-bind, Lands-when, Lands-now, Lands-fresh_id, Lands-modify,
)
