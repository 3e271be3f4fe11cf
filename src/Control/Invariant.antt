-- ===== src/Control/Invariant.antt =====
-- The invariants of a call: memory and database agree, an ended call stays ended, and only the
-- command wrapper writes the command table.
use open_voip.Base.{
  String, not, ◌&&◌, Bool-cases, inl, inr, ◌=?◌, ◌≡◌, sym, ◌∙◌, subst, false, Option, none, some,
  List, arith,
}
use open_voip.Ports.{CallLegRecord, CallRecord, CallState, HangupReason, ended}
use open_voip.CallStore.{put_row, put_leg_rows, written_row, update_call}
use open_voip.Control.State.{Cell, CommandRow, Env, RuntimeCall}
use open_voip.Control.Exec.{
  modify, ◌>>=◌, attempt, with_result, now, perform, pure, from_reply, fail, gets, with_option,
}
use open_voip.Control.Exec.Keeps.{
  Keeps, Keeps-modify, Keeps-bind, Keeps-when, Keeps-ignore, Keeps-perform, Keeps-fail,
  Keeps-with_this_live, keep_after,
}
use open_voip.Control.Frame.{
  IsFramed, IsFramed-IsQuiet, SameRecord, Keeps-begin_recording_if_needed,
}
use open_voip.Commands.{put_commands}
use open_voip.Control.Hangup.{delete_live, do_hangup}
use open_voip.Control.Features.{downgrade_video}
use open_voip.Control.Inbound.{create_call}
use open_voip.Control.Transition.{
  transition, write_state, is_ended, guarded_state, record_state, after_transition, next_record,
}

-- The live call and its row have one state and one version; a live call has a row.
abbrev pub Agree : Option RuntimeCall → Option CallRecord → Type 0
Agree none row = Unit {0}
Agree (some rt) none = ⊥
Agree (some rt) (some row) = (row.state ≡ rt.rec.state) × (row.version ≡ rt.rec.version)

pub record IsSynced (c : Cell) : Type 0 where
  pub agree : Agree c.live c.row

-- The call has ended in the database, and a live entry of it has ended too.
abbrev pub Over : Option RuntimeCall → Option CallRecord → Type 0
Over live none = ⊥
Over none (some row) = row.state ≡ ended
Over (some rt) (some row) = (row.state ≡ ended) × (rt.rec.state ≡ ended)

pub record IsOver (c : Cell) : Type 0 where
  pub over : Over c.live c.row

pub record HasCommands (t : List CommandRow) (c : Cell) : Type 0 where
  pub table : c.commands ≡ t

Over-forget : (live : Option RuntimeCall) (row : Option CallRecord) → Over live row → Over none row
Over-forget none none h = h
Over-forget none (some r) h = h
Over-forget (some rt) none h = h
Over-forget (some rt) (some r) h = h.0

module _ (f : RuntimeCall → RuntimeCall) (same : SameRecord f) (rt : RuntimeCall) where
  Agree-same : (row : Option CallRecord) → Agree (some rt) row → Agree (some (f rt)) row
  Agree-same none h = h
  Agree-same (some row) h = (h.0 ∙ sym (same rt).0, h.1 ∙ sym (same rt).1)

  Over-same : (row : Option CallRecord) → Over (some rt) row → Over (some (f rt)) row
  Over-same none h = h
  Over-same (some row) h = (h.0, (same rt).0 ∙ h.1)

IsSynced-framed : IsFramed IsSynced
unfolding put_leg_rows
IsSynced-framed = record {
  logs = record { logs = λ c l h. record { agree = h.agree } };
  legs = λ l. record { at = λ c h. record { agree = h.agree } };
  mods = λ f same. Keeps-modify f λ c rt e h. record {
    agree = Agree-same f same rt c.row (subst (λ o. Agree o c.row) e h.agree);
  };
}

IsOver-framed : IsFramed IsOver
unfolding put_leg_rows
IsOver-framed = record {
  logs = record { logs = λ c l h. record { over = h.over } };
  legs = λ l. record { at = λ c h. record { over = h.over } };
  mods = λ f same.
      Keeps-modify f λ c rt e h. record {
        over = Over-same f same rt c.row (subst (λ o. Over o c.row) e h.over);
      };
}

HasCommands-framed : (t : List CommandRow) → IsFramed (HasCommands t)
unfolding put_leg_rows
HasCommands-framed t = record {
  logs = record { logs = λ c l h. record { table = h.table } };
  legs = λ l. record { at = λ c h. record { table = h.table } };
  mods = λ f same. Keeps-modify f λ c rt e h. record { table = h.table };
}

-- What a proof about the write of a state looks through.
abbrev record_steps : Unit {0}
unfolding record_state update_call put_row written_row next_record modify attempt with_result now
    perform pure from_reply fail gets with_option ◌>>=◌
record_steps = tt

live_over :
    {rt : RuntimeCall} (live : Option RuntimeCall) (row : Option CallRecord)
    → live ≡ some rt
    → Over live row
    → rt.rec.state ≡ ended
live_over none none e h = elim h [ ]
live_over none (some r) e h = cc
live_over (some x) none e h = elim h [ ]
live_over (some x) (some r) e h = ground arith

module _ (env : Env) (rt : RuntimeCall) (state : CallState) (c : Cell) where
  record_state-Agree :
      c.live ≡ some rt
      → Agree c.live c.row
      → let c' = (record_state env rt state c).1 in Agree c'.live c'.row
  unfolding record_steps
  record_state-Agree e h = ground arith

  record_state-Over :
      state ≡ ended
      → c.live ≡ some rt
      → Over c.live c.row
      → let c' = (record_state env rt state c).1 in Over c'.live c'.row
  unfolding record_steps
  record_state-Over s e h = ground arith

  record_state-commands : (record_state env rt state c).1.commands ≡ c.commands
  unfolding record_steps
  record_state-commands = ground arith

  -- A transition that is not refused by its guard from an ended call goes to `ended`.
  guard_passes :
      rt.rec.state ≡ ended → (is_ended rt.rec.state && not (is_ended state)) ≡ false → state ≡ ended
  unfolding is_ended
  guard_passes e h = ground arith

module _ (env : Env) (rt : RuntimeCall) (state : CallState) (c : Cell) where
  guarded_state-IsSynced : c.live ≡ some rt → IsSynced c → IsSynced (guarded_state env rt state c).1
  unfolding guarded_state fail
  guarded_state-IsSynced e h = elim (Bool-cases (is_ended rt.rec.state && not (is_ended state))) [
    | inl refused ↦ rw refused h
    | inr passed ↦ rw passed (record { agree = record_state-Agree env rt state c e h.agree })
  ]

  guarded_state-IsOver : c.live ≡ some rt → IsOver c → IsOver (guarded_state env rt state c).1
  unfolding guarded_state fail
  guarded_state-IsOver e h = elim (Bool-cases (is_ended rt.rec.state && not (is_ended state))) [
    | inl refused ↦ rw refused h
    | inr passed ↦ rw passed (record {
      over =
          record_state-Over env rt state c
            (guard_passes env rt state c (live_over c.live c.row e h.over) passed) e h.over;
    })
  ]

  guarded_state-HasCommands :
      (t : List CommandRow) → HasCommands t c → HasCommands t (guarded_state env rt state c).1
  unfolding guarded_state fail
  guarded_state-HasCommands t h =
      elim (Bool-cases (is_ended rt.rec.state && not (is_ended state))) [
        | inl refused ↦ rw refused h
        | inr passed ↦ rw passed (record { table = record_state-commands env rt state c ∙ h.table })
      ]

-- A framed predicate that the guarded write keeps is kept by the whole transition.
module _ {P : Cell → Type 0} (k : IsFramed P) (env : Env)
    (step : (rt : RuntimeCall) (state : CallState) (c : Cell)
      → c.live ≡ some rt
      → P c
      → P (guarded_state env rt state c).1) where
  Keeps-after_transition : (prev state : CallState) → Keeps P (after_transition env prev state)
  unfolding after_transition
  Keeps-after_transition prev state =
      Keeps-bind _ _
        (Keeps-when _ _ (Keeps-ignore _ (Keeps-begin_recording_if_needed (IsFramed-IsQuiet k) env)))
        (λ _. Keeps-when _ _ (Keeps-ignore _ (Keeps-perform env _ k.logs)))

  Keeps-transition : (state : CallState) → Keeps P (transition env state)
  unfolding transition write_state
  Keeps-transition state =
      Keeps-with_this_live _ _ (Keeps-fail _)
        λ rt c e h. keep_after _ _ c (step rt state c e h) (λ _. Keeps-after_transition _ _)

-- What every operation of the service needs of an invariant.
pub record IsKept (env : Env) (P : Cell → Type 0) : Type 0 where
  pub framed : IsFramed P
  pub transitions : (state : CallState) → Keeps P (transition env state)
  pub forgets : Keeps P delete_live

-- What a request needs: its command may create the call, end it, write its row outside a
-- transition, and write the command table.
pub record IsServed (env : Env) (P : Cell → Type 0) : Type 0 where
  pub kept : IsKept env P
  pub tables : (t : List CommandRow) → Keeps P (put_commands t)
  pub creates :
      (rec : CallRecord) (leg : CallLegRecord) (rt : RuntimeCall)
      → rt.rec ≡ rec
      → (rec.version =? 0) ≡ false
      → Keeps P (create_call env rec leg rt)
  pub downgrades : Keeps P (downgrade_video env)
  pub ends :
      (meta : CallRecord → String → String → String → String) (reason : HangupReason)
      → Keeps P (do_hangup env meta reason)

module _ (env : Env) where
  pub IsSynced-IsKept : IsKept env IsSynced
  unfolding delete_live
  IsSynced-IsKept = record {
    framed = IsSynced-framed;
    transitions = Keeps-transition IsSynced-framed env (guarded_state-IsSynced env);
    forgets = record { at = λ c h. record { agree = tt } };
  }

  pub IsOver-IsKept : IsKept env IsOver
  unfolding delete_live
  IsOver-IsKept = record {
    framed = IsOver-framed;
    transitions = Keeps-transition IsOver-framed env (guarded_state-IsOver env);
    forgets = record { at = λ c h. record { over = Over-forget c.live c.row h.over } };
  }

  pub HasCommands-IsKept : (t : List CommandRow) → IsKept env (HasCommands t)
  unfolding delete_live
  HasCommands-IsKept t = record {
    framed = HasCommands-framed t;
    transitions =
        Keeps-transition (HasCommands-framed t) env
          (λ rt state c e h. guarded_state-HasCommands env rt state c t h);
    forgets = record { at = λ c h. record { table = h.table } };
  }
