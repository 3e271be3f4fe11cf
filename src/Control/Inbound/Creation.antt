-- ===== src/Control/Inbound/Creation.antt =====
-- The creation of a call keeps the invariants of `Control.Invariant`: a call is created once.
use open_voip.Base.{◌=?◌, ◌≡◌, sym, subst, ap, false, Option-cases, inl, inr}
use open_voip.Ports.{CallLegRecord, CallRecord}
use open_voip.CallStore.{insert_call_with_leg, inserted_call, put_call_rows}
use open_voip.Control.State.{Cell, Effect, Env, RuntimeCall}
use open_voip.Control.Exec.{fail, from_reply, gets, perform, with_option, ◌>>=◌}
use open_voip.Control.Exec.Keeps.{Keeps}
use open_voip.Control.Invariant.{Agree, IsOver, IsSynced, Over}
use open_voip.Control.Inbound.{create_call, set_live}

-- What the writes of a new call look through.
abbrev create_steps : Unit {0}
unfolding create_call insert_call_with_leg inserted_call put_call_rows set_live perform from_reply
    gets with_option fail ◌>>=◌
create_steps = tt

module _ (env : Env) (rec : CallRecord) (leg : CallLegRecord) (rt : RuntimeCall)
    (same : rt.rec ≡ rec) (versioned : (rec.version =? 0) ≡ false) where
  create_call-Agree :
      (c : Cell)
      → Agree c.live c.row
      → let c' = (create_call env rec leg rt c).1 in Agree c'.live c'.row
  unfolding create_steps
  create_call-Agree c h =
      elim (Option-cases (env.reply c.log (Effect.insert_call_with_leg rec leg))) [
        | inr (e, refused) ↦ rw refused h
        | inl taken ↦ elim (Option-cases c.row) [
          | inr (row, e) ↦ rw (taken, e) (subst (λ o. Agree c.live o) e h)
          | inl e ↦
              rw (taken, e)
                (rw versioned (ap (λ r. r.state) (sym same), ap (λ r. r.version) (sym same)))
        ]
      ]

  -- A call that has ended has a row, and a second one is refused.
  create_call-Over :
      (c : Cell)
      → Over c.live c.row
      → let c' = (create_call env rec leg rt c).1 in Over c'.live c'.row
  unfolding create_steps
  create_call-Over c h =
      elim (Option-cases (env.reply c.log (Effect.insert_call_with_leg rec leg))) [
        | inr (e, refused) ↦ rw refused h
        | inl taken ↦ elim (Option-cases c.row) [
          | inr (row, e) ↦ rw (taken, e) (subst (λ o. Over c.live o) e h)
          | inl e ↦ absurd (subst (λ o. Over c.live o) e h)
        ]
      ]

  pub IsSynced-create_call : Keeps IsSynced (create_call env rec leg rt)
  IsSynced-create_call = record { at = λ c h. record { agree = create_call-Agree c h.agree } }

  pub IsOver-create_call : Keeps IsOver (create_call env rec leg rt)
  IsOver-create_call = record { at = λ c h. record { over = create_call-Over c h.over } }
