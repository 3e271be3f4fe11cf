-- ===== src/Control/Exec.antt =====
-- The methods of the control service as actions on a `Cell`: what was written before an error stays
-- written, so the cell comes back beside the error too.
pub mod Keeps
pub mod Lands
use open_voip.Base.{ℕ, String, Bool, true, false, Option, none, some, List, [], ◌∷◌}
use open_voip.Errs.{Err}
use open_voip.Control.State.{Cell, Effect, Env, Result, RuntimeCall, ok, err}

abbrev pub Exec : Type 0 → Type 0
Exec A = Cell → Result A × Cell

module _ {A : Type 0} where
  unfoldable pub pure : A → Exec A
  pure a c = (ok a, c)

  unfoldable pub fail : Err → Exec A
  fail e c = (err e, c)

  unfoldable pub gets : (Cell → A) → Exec A
  gets f c = (ok (f c), c)

  -- An answer of a port that changes nothing.
  unfoldable pub asks : (List Effect → Result A) → Exec A
  asks f c = (f c.log, c)

  abbrev pub on_live : Exec A → (RuntimeCall → Exec A) → Option RuntimeCall → Exec A
  on_live absent present none = absent
  on_live absent present (some rt) = present rt

  -- `if rt == nil { … }` on the live entry of the call.
  unfoldable pub with_live : Exec A → (RuntimeCall → Exec A) → Exec A
  with_live absent present c = on_live absent present c.live c

  unfoldable pub with_option : {B : Type 0} → Option B → Exec A → (B → Exec A) → Exec A
  with_option none absent present = absent
  with_option (some b) absent present = present b

  -- `_ = f()`: the error is dropped, the changes stay.
  unfoldable pub ignore : Exec A → Exec (Unit {0})
  ignore m c = (ok tt, (m c).1)

  -- `a, err := f()` where the error is looked at.
  unfoldable pub attempt : Exec A → Exec (Result A)
  attempt m c = (ok (m c).0, (m c).1)

unfoldable pub with_result : {A B : Type 0} → Result A → (Err → Exec B) → (A → Exec B) → Exec B
with_result (ok a) bad good = good a
with_result (err e) bad good = bad e

abbrev pub update_live : (RuntimeCall → RuntimeCall) → Option RuntimeCall → Exec (Unit {0})
update_live f none c = (ok tt, c)
update_live f (some rt) c = (ok tt, record c { live = some (f rt) })

unfoldable pub modify : (RuntimeCall → RuntimeCall) → Exec (Unit {0})
modify f c = update_live f c.live c

unfoldable pub when : Bool → Exec (Unit {0}) → Exec (Unit {0})
when true m = m
when false m = pure tt

unfoldable pub from_reply : Option Err → Result (Unit {0})
from_reply none = ok tt
from_reply (some e) = err e

infixl 5 ◌>>=◌ ◌>>◌
abbrev pub continue : {A B : Type 0} → Result A → (A → Exec B) → Exec B
continue (ok a) f c = f a c
continue (err e) f c = (err e, c)

unfoldable pub ◌>>=◌ : {A B : Type 0} → Exec A → (A → Exec B) → Exec B
◌>>=◌ m f c = continue (m c).0 f (m c).1

abbrev pub ◌>>◌ : {A B : Type 0} → Exec A → Exec B → Exec B
m >> k = m >>= λ _. k

module _ (env : Env) where
  -- A call of a port that only reports whether it worked.
  unfoldable pub perform : Effect → Exec (Unit {0})
  perform e c = (from_reply (env.reply c.log e), record c { log = e ∷ c.log })

  -- A call of a port that changes something outside and returns a value.
  unfoldable pub request : {A : Type 0} → Effect → (List Effect → Result A) → Exec A
  request e f c = (f c.log, record c { log = e ∷ c.log })

  unfoldable pub now : Exec ℕ
  now c = (ok (env.now c.log), c)

  unfoldable pub fresh_id : Exec String
  fresh_id c = (ok (env.fresh_id c.log), c)
