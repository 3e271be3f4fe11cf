-- ===== src/Control/Direct/Keeping.antt =====
-- What every operation of control/direct.go keeps.
use open_voip.Base.{String}
use open_voip.Ports.{RecordingPolicy}
use open_voip.CallStore.{delete_leg, get_leg}
use open_voip.Control.State.{Cell, Ctx, Env}
use open_voip.Control.Exec.Keeps.{Keeps, Keeps-fail, Keeps-if, keeps_rules}
use open_voip.Control.Direct.{
  DirectLegRequest, activate, add_direct_leg, begin_direct_recording, bridge_direct,
  bridge_direct_once, bridge_id_of, end_bridge, join_leg, leave_direct_leg, leave_direct_leg_once,
  note_answer, replace_bridge, replace_bridge_once, start_direct_recording, stop_direct_recording,
}
use open_voip.Control.Recording.{stop_recording}
use open_voip.Control.Invariant.{IsServed}
use open_voip.Control.Keeping.{inserts, publish, stops}
use open_voip.Control.Mutation.Keeps.{Keeps-guarded, Keeps-run_idempotent}

module _ {P : Cell → Type 0} (env : Env) (s : IsServed env P) where
  Keeps-join_leg : (req : DirectLegRequest) → Keeps P (join_leg env req)
  unfolding join_leg
  Keeps-join_leg req =
      search (keeps_rules, s.kept.framed.mods, inserts env s.kept, publish env s.kept) depth 20

  pub Keeps-add_direct_leg : (req : DirectLegRequest) → Keeps P (add_direct_leg env req)
  unfolding add_direct_leg
  Keeps-add_direct_leg req = search (keeps_rules, Keeps-join_leg) depth 12

  Keeps-note_answer : Keeps P (note_answer env)
  unfolding note_answer
  Keeps-note_answer = search (keeps_rules, s.kept.framed.mods) depth 12

  Keeps-activate : Keeps P (activate env)
  unfolding activate
  Keeps-activate = search (keeps_rules, s.kept.framed.logs, s.kept.transitions) depth 12

  Keeps-bridge_id_of : (a b : String) → Keeps P (bridge_id_of env a b)
  unfolding bridge_id_of
  Keeps-bridge_id_of a b = search (keeps_rules, s.kept.framed.logs) depth 12

  Keeps-bridge_direct_once : (a b : String) → Keeps P (bridge_direct_once env a b)
  unfolding bridge_direct_once get_leg
  Keeps-bridge_direct_once a b =
      search
        (
          keeps_rules,
          s.kept.framed.logs,
          Keeps-note_answer,
          Keeps-activate,
          Keeps-bridge_id_of,
          publish env s.kept,
        )
        depth 30 fits 8000

  pub Keeps-bridge_direct : (ctx : Ctx) (a b : String) → Keeps P (bridge_direct env ctx a b)
  unfolding bridge_direct
  Keeps-bridge_direct ctx a b =
      Keeps-if _ _ _ (Keeps-fail _)
        (Keeps-guarded env s.kept.framed.logs s.tables _ (Keeps-bridge_direct_once a b) ctx _ _)

  Keeps-replace_bridge_once : (id a b : String) → Keeps P (replace_bridge_once env id a b)
  unfolding replace_bridge_once get_leg
  Keeps-replace_bridge_once id a b =
      search (keeps_rules, s.kept.framed.logs, publish env s.kept) depth 30 fits 8000

  pub Keeps-replace_bridge : (ctx : Ctx) (id a b : String) → Keeps P (replace_bridge env ctx id a b)
  unfolding replace_bridge
  Keeps-replace_bridge ctx id a b =
      Keeps-if _ _ _ (Keeps-fail _)
        (Keeps-guarded env s.kept.framed.logs s.tables _ (Keeps-replace_bridge_once id a b) ctx _ _)

  pub Keeps-end_bridge : (id : String) → Keeps P (end_bridge env id)
  unfolding end_bridge
  Keeps-end_bridge id = search (keeps_rules, s.kept.framed.logs, publish env s.kept) depth 12

  Keeps-leave_direct_leg_once : (leg_id : String) → Keeps P (leave_direct_leg_once env leg_id)
  unfolding leave_direct_leg_once get_leg delete_leg
  Keeps-leave_direct_leg_once leg_id =
      search
        (
          keeps_rules,
          s.kept.framed.logs,
          s.kept.framed.legs,
          s.kept.framed.mods,
          publish env s.kept,
        )
        depth 30 fits 8000

  pub Keeps-leave_direct_leg :
      (ctx : Ctx) (leg_id : String) → Keeps P (leave_direct_leg env ctx leg_id)
  unfolding leave_direct_leg
  Keeps-leave_direct_leg ctx leg_id =
      Keeps-run_idempotent env s.kept.framed.logs s.tables _ (Keeps-leave_direct_leg_once leg_id)
        ctx _ _

  Keeps-begin_direct_recording :
      (policy : RecordingPolicy) → Keeps P (begin_direct_recording env policy)
  unfolding begin_direct_recording
  Keeps-begin_direct_recording policy =
      search (keeps_rules, s.kept.framed.logs, s.kept.framed.mods, publish env s.kept) depth 20

  pub Keeps-start_direct_recording :
      (policy : RecordingPolicy) → Keeps P (start_direct_recording env policy)
  unfolding start_direct_recording
  Keeps-start_direct_recording policy = search (keeps_rules, Keeps-begin_direct_recording) depth 12

  Keeps-stop_recording : Keeps P (stop_recording env)
  Keeps-stop_recording = stops env s.kept

  pub Keeps-stop_direct_recording : Keeps P (stop_direct_recording env)
  unfolding stop_direct_recording
  Keeps-stop_direct_recording =
      search (keeps_rules, s.kept.framed.mods, Keeps-stop_recording, publish env s.kept) depth 20
