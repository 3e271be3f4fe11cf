-- ===== src/Control/Lifecycle/Hangups.antt =====
-- A hangup keeps the invariants of a call, also where the call has no live entry.
use open_voip.Base.{
  Option-cases, inl, inr, String, ◌≡◌, refl, sym, subst, if◌then◌else◌, Option, none, some, List,
}
use open_voip.Ports.{CallRecord, HangupReason, ended}
use open_voip.CallStore.{get_call, put_row, update_call}
use open_voip.Commands.{put_commands}
use open_voip.Control.State.{Cell, CommandRow, Env, RuntimeCall}
use open_voip.Control.Exec.{fail, gets, pure, with_option, ◌>>=◌}
use open_voip.Control.Exec.Keeps.{
  Keeps, Keeps-modify, Keeps-pure, Keeps-if, Keeps-without_live, keeps_rules,
}
use open_voip.Control.Frame.{IsQuiet, Keeps-publish_call, Keeps-set_agent_state}
use open_voip.Control.Inbound.Creation.{IsOver-create_call, IsSynced-create_call}
use open_voip.Control.Features.Downgrade.{IsOver-downgrade_video, IsSynced-downgrade_video}
use open_voip.Control.Invariant.{
  IsServed, IsOver, IsSynced, IsOver-IsKept, IsSynced-IsKept, Agree, Over,
}
use open_voip.Control.Hangup.{
  do_hangup, end_live, end_persisted, hangup_persist_only, release_persisted,
}
use open_voip.Control.Transition.{is_ended}
use open_voip.Control.Keeping.{Keeps-end_live}

record NoLive (c : Cell) : Type 0 where
  absent : c.live ≡ none

NoLive-IsQuiet : IsQuiet NoLive
NoLive-IsQuiet = record {
  logs = record { logs = λ c l h. record { absent = h.absent } };
  notes = λ id note. Keeps-modify _ λ c rt e h. absurd (cc (e, h.absent));
}

module _ (env : Env) where
  NoLive-put_row : (row : CallRecord) → Keeps NoLive (put_row row)
  unfolding put_row
  NoLive-put_row row = record { at = λ c h. record { absent = h.absent } }

  NoLive-update_call : (rec : CallRecord) → Keeps NoLive (update_call env rec)
  unfolding update_call
  NoLive-update_call rec = search (keeps_rules, NoLive-IsQuiet.logs, NoLive-put_row)

  NoLive-release_persisted : (rec : CallRecord) → Keeps NoLive (release_persisted env rec)
  unfolding release_persisted
  NoLive-release_persisted rec = search (keeps_rules, Keeps-set_agent_state NoLive-IsQuiet env)

  NoLive-hangup_persist_only :
      (rec : CallRecord) (reason : HangupReason) → Keeps NoLive (hangup_persist_only env rec reason)
  unfolding hangup_persist_only
  NoLive-hangup_persist_only rec reason =
      search
        (
          keeps_rules,
          NoLive-IsQuiet.logs,
          NoLive-release_persisted,
          NoLive-update_call,
          Keeps-publish_call NoLive-IsQuiet env,
        )
        depth 20

  NoLive-get_call : Keeps NoLive (get_call env)
  unfolding get_call
  NoLive-get_call = search keeps_rules

  NoLive-end_persisted : (reason : HangupReason) → Keeps NoLive (end_persisted env reason)
  unfolding end_persisted
  NoLive-end_persisted reason = search (keeps_rules, NoLive-get_call, NoLive-hangup_persist_only)

  IsSynced-alone : (c : Cell) → NoLive c → IsSynced c
  IsSynced-alone c h = record { agree = subst (λ o. Agree o c.row) (sym h.absent) tt }

  IsSynced-end_live :
      (meta : CallRecord → String → String → String → String) (reason : HangupReason)
      (rt : RuntimeCall)
      → Keeps IsSynced (if is_ended rt.rec.state then pure tt else end_live env meta reason rt)
  IsSynced-end_live meta reason rt =
      Keeps-if _ _ _ (Keeps-pure tt) (Keeps-end_live env (IsSynced-IsKept env) meta reason rt)

  pub Keeps-do_hangup-IsSynced :
      (meta : CallRecord → String → String → String → String) (reason : HangupReason)
      → Keeps IsSynced (do_hangup env meta reason)
  unfolding do_hangup
  Keeps-do_hangup-IsSynced meta reason =
      Keeps-without_live _ _
        (λ c e h. IsSynced-alone _ ((NoLive-end_persisted reason).at c (record { absent = e })))
        (IsSynced-end_live meta reason)

  -- A row that has ended is read and left as it is.
  end_persisted_over :
      (reason : HangupReason) (c : Cell) (rec : CallRecord)
      → c.row ≡ some rec
      → rec.state ≡ ended
      → (end_persisted env reason c).1 ≡ c
  unfolding end_persisted get_call gets with_option fail pure is_ended ◌>>=◌
  end_persisted_over reason c rec e o = elim (Option-cases (env.read_fault c.log)) [
    | inl sound ↦ rw (sound, with_option) (rw (e, with_option) (rw (o, is_ended) refl))
    | inr (x, fault) ↦ rw (fault, with_option) refl
  ]

  IsOver-alone :
      (reason : HangupReason) (c : Cell) (row : Option CallRecord)
      → c.row ≡ row
      → Over none row
      → (end_persisted env reason c).1 ≡ c
  IsOver-alone reason c none e h = elim h [ ]
  IsOver-alone reason c (some rec) e h = end_persisted_over reason c rec e h

  pub Keeps-do_hangup-IsOver :
      (meta : CallRecord → String → String → String → String) (reason : HangupReason)
      → Keeps IsOver (do_hangup env meta reason)
  unfolding do_hangup
  Keeps-do_hangup-IsOver meta reason =
      Keeps-without_live _ _
        (λ c e h.
          subst IsOver (sym (IsOver-alone reason c c.row refl (subst (λ o. Over o c.row) e h.over)))
            h)
        λ rt. Keeps-if _ _ _ (Keeps-pure tt) (Keeps-end_live env (IsOver-IsKept env) meta reason rt)

IsSynced-tables : (t : List CommandRow) → Keeps IsSynced (put_commands t)
unfolding put_commands
IsSynced-tables t = record { at = λ c h. record { agree = h.agree } }

IsOver-tables : (t : List CommandRow) → Keeps IsOver (put_commands t)
unfolding put_commands
IsOver-tables t = record { at = λ c h. record { over = h.over } }

pub IsSynced-IsServed : (env : Env) → IsServed env IsSynced
IsSynced-IsServed env = record {
  kept = IsSynced-IsKept env;
  tables = IsSynced-tables;
  creates = IsSynced-create_call env;
  downgrades = IsSynced-downgrade_video env;
  ends = Keeps-do_hangup-IsSynced env;
}

pub IsOver-IsServed : (env : Env) → IsServed env IsOver
IsOver-IsServed env = record {
  kept = IsOver-IsKept env;
  tables = IsOver-tables;
  creates = IsOver-create_call env;
  downgrades = IsOver-downgrade_video env;
  ends = Keeps-do_hangup-IsOver env;
}
