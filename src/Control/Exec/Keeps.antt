-- ===== src/Control/Exec/Keeps.antt =====
-- Predicates on cells that an action keeps, whether it succeeds or fails: one rule for each way to
-- build an action.
use open_voip.Base.{◌≡◌, refl, Bool, true, false, Option, none, some, List, if◌then◌else◌}
use open_voip.Errs.{Err}
use open_voip.Control.State.{Cell, Effect, Env, Result, RuntimeCall, ok, err}
use open_voip.Control.Exec.{
  Exec, pure, fail, gets, asks, with_live, with_option, ignore, attempt, with_result, modify,
  on_live, update_live, when, continue, perform, request, now, fresh_id, ◌>>=◌,
}

pub record Keeps {A : Type 0} (P : Cell → Type 0) (m : Exec A) : Type 0 where
  pub at : (c : Cell) → P c → P (m c).1

-- The predicate does not look at the record of port calls.
pub record IgnoresLog (P : Cell → Type 0) : Type 0 where
  pub logs : (c : Cell) (l : List Effect) → P c → P (record c { log = l })

module _ {A : Type 0} {P : Cell → Type 0} where
  pub Keeps-pure : (a : A) → Keeps P (pure a)
  unfolding pure
  Keeps-pure a = record { at = λ c h. h }

  pub Keeps-fail : (e : Err) → Keeps P (fail {A = A} e)
  unfolding fail
  Keeps-fail e = record { at = λ c h. h }

  pub Keeps-gets : (f : Cell → A) → Keeps P (gets f)
  unfolding gets
  Keeps-gets f = record { at = λ c h. h }

  pub Keeps-asks : (f : List Effect → Result A) → Keeps P (asks f)
  unfolding asks
  Keeps-asks f = record { at = λ c h. h }

  pub Keeps-with_live :
      (absent : Exec A) (present : RuntimeCall → Exec A)
      → Keeps P absent
      → ((rt : RuntimeCall) → Keeps P (present rt))
      → Keeps P (with_live absent present)
  unfolding with_live
  Keeps-with_live absent present ka kp = record { at = λ c h. go c c.live h }
    where
      go : (c : Cell) (o : Option RuntimeCall) → P c → P (on_live absent present o c).1
      go c none h = ka.at c h
      go c (some rt) h = (kp rt).at c h

  -- The same, where the action may use that the live entry is the one it was given.
  pub Keeps-with_this_live :
      (absent : Exec A) (present : RuntimeCall → Exec A)
      → Keeps P absent
      → ((rt : RuntimeCall) (c : Cell) → c.live ≡ some rt → P c → P (present rt c).1)
      → Keeps P (with_live absent present)
  unfolding with_live
  Keeps-with_this_live absent present ka kp = record { at = λ c h. go c c.live refl h }
    where
      go : (c : Cell) (o : Option RuntimeCall) → c.live ≡ o → P c → P (on_live absent present o c).1
      go c none e h = ka.at c h
      go c (some rt) e h = kp rt c e h

  -- The same for the other branch.
  pub Keeps-without_live :
      (absent : Exec A) (present : RuntimeCall → Exec A)
      → ((c : Cell) → c.live ≡ none → P c → P (absent c).1)
      → ((rt : RuntimeCall) → Keeps P (present rt))
      → Keeps P (with_live absent present)
  unfolding with_live
  Keeps-without_live absent present ka kp = record { at = λ c h. go c c.live refl h }
    where
      go : (c : Cell) (o : Option RuntimeCall) → c.live ≡ o → P c → P (on_live absent present o c).1
      go c none e h = ka c e h
      go c (some rt) e h = (kp rt).at c h

  pub Keeps-with_option :
      {B : Type 0} (o : Option B) (absent : Exec A) (present : B → Exec A)
      → Keeps P absent
      → ((b : B) → Keeps P (present b))
      → Keeps P (with_option o absent present)
  unfolding with_option
  Keeps-with_option none absent present ka kp = ka
  Keeps-with_option (some b) absent present ka kp = kp b

  pub Keeps-ignore : (m : Exec A) → Keeps P m → Keeps P (ignore m)
  unfolding ignore
  Keeps-ignore m k = record { at = λ c h. k.at c h }

  pub Keeps-attempt : (m : Exec A) → Keeps P m → Keeps P (attempt m)
  unfolding attempt
  Keeps-attempt m k = record { at = λ c h. k.at c h }

  pub Keeps-if : (b : Bool) (m n : Exec A) → Keeps P m → Keeps P n → Keeps P (if b then m else n)
  Keeps-if true m n km kn = km
  Keeps-if false m n km kn = kn

module _ {A B : Type 0} {P : Cell → Type 0} where
  pub Keeps-with_result :
      (r : Result A) (bad : Err → Exec B) (good : A → Exec B)
      → ((e : Err) → Keeps P (bad e))
      → ((a : A) → Keeps P (good a))
      → Keeps P (with_result r bad good)
  unfolding with_result
  Keeps-with_result (ok a) bad good kb kg = kg a
  Keeps-with_result (err e) bad good kb kg = kb e

  -- From one cell: what holds after the first part holds after the rest.
  pub keep_after :
      (m : Exec A) (f : A → Exec B) (c : Cell)
      → P (m c).1
      → ((a : A) → Keeps P (f a))
      → P ((m >>= f) c).1
  unfolding ◌>>=◌
  keep_after m f c h kf = after (m c).0 (m c).1 h
    where
      after : (r : Result A) (c' : Cell) → P c' → P (continue r f c').1
      after (ok a) c' h = (kf a).at c' h
      after (err e) c' h = h

  pub Keeps-bind :
      (m : Exec A) (f : A → Exec B) → Keeps P m → ((a : A) → Keeps P (f a)) → Keeps P (m >>= f)
  Keeps-bind m f km kf = record { at = λ c h. keep_after m f c (km.at c h) kf }

module _ {P : Cell → Type 0} where
  pub Keeps-when : (b : Bool) (m : Exec (Unit {0})) → Keeps P m → Keeps P (when b m)
  unfolding when
  Keeps-when true m k = k
  Keeps-when false m k = Keeps-pure tt

  pub Keeps-perform : (env : Env) (e : Effect) → IgnoresLog P → Keeps P (perform env e)
  unfolding perform
  Keeps-perform env e i = record { at = λ c h. i.logs c _ h }

  pub Keeps-request :
      {A : Type 0} (env : Env) (e : Effect) (f : List Effect → Result A)
      → IgnoresLog P
      → Keeps P (request env e f)
  unfolding request
  Keeps-request env e f i = record { at = λ c h. i.logs c _ h }

  pub Keeps-now : (env : Env) → Keeps P (now env)
  unfolding now
  Keeps-now env = record { at = λ c h. h }

  pub Keeps-fresh_id : (env : Env) → Keeps P (fresh_id env)
  unfolding fresh_id
  Keeps-fresh_id env = record { at = λ c h. h }

  -- An update of the live entry keeps what every such update of a live cell keeps.
  pub Keeps-modify :
      (f : RuntimeCall → RuntimeCall)
      → ((c : Cell) (rt : RuntimeCall)
          → c.live ≡ some rt
          → P c
          → P (record c { live = some (f rt) }))
      → Keeps P (modify f)
  unfolding modify
  Keeps-modify f k = record { at = λ c h. go c c.live refl h }
    where
      go : (c : Cell) (o : Option RuntimeCall) → c.live ≡ o → P c → P (update_live f o c).1
      go c none e h = h
      go c (some rt) e h = k c rt e h

pub ruleset keeps_rules = (
  Keeps-pure, Keeps-fail, Keeps-gets, Keeps-asks, Keeps-with_live, Keeps-with_option, Keeps-ignore,
  Keeps-attempt, Keeps-if, Keeps-with_result, Keeps-bind, Keeps-when, Keeps-perform, Keeps-request,
  Keeps-now, Keeps-fresh_id,
)
