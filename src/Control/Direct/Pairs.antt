-- ===== src/Control/Direct/Pairs.antt =====
-- Calls of at most two legs, under every request of control/direct.go to a call that is there.
use open_voip.Base.{
  ℕ, String, ◌≤◌, ◌≡◌, refl, sym, subst, Option, none, some, List, [], ◌∷◌, length, arith,
}
use open_voip.Ports.{CallLegRecord, CallRecord, CallState, RecordingPolicy}
use open_voip.CallStore.{get_leg, put_row, update_call}
use open_voip.Commands.{put_commands}
use open_voip.Control.State.{Cell, Ctx, Env, RuntimeCall}
use open_voip.Control.Exec.{Exec, ignore, modify}
use open_voip.Control.Exec.Keeps.{Keeps, Keeps-fail, Keeps-ignore, Keeps-if, keeps_rules}
use open_voip.Control.Frame.{
  Keeps-begin_recording_if_needed, Keeps-publish_call, Keeps-stop_recording,
}
use open_voip.Control.Mutation.Keeps.{Keeps-guarded}
use open_voip.Control.Transition.{
  after_transition, guarded_state, record_state, transition, write_state,
}
use open_voip.Control.Direct.{
  DirectLegRequest, activate, add_direct_leg, begin_direct_recording, bridge_direct,
  bridge_direct_once, bridge_id_of, note_answer, end_bridge, replace_bridge, replace_bridge_once,
  stop_direct_recording, start_direct_recording, leave_direct_leg,
}
use open_voip.Control.Direct.Counting.{
  HasAtMost, HasAtMost-modify, IgnoresLog-HasAtMost, IsQuiet-HasAtMost, Keeps-add_direct_leg,
  Keeps-leave_direct_leg,
}

module _ (env : Env) where
  module _ {n : ℕ} where
    Keeps-same_legs :
        (f : RuntimeCall → RuntimeCall)
        → ((rt : RuntimeCall) → (f rt).legs ≡ rt.legs)
        → Keeps (HasAtMost n) (modify f)
    Keeps-same_legs f same = record {
      at = HasAtMost-modify f λ rt h. subst (λ ls. length ls ≤ n) (sym (same rt)) h;
    }

    Keeps-put_row : (row : CallRecord) → Keeps (HasAtMost n) (put_row row)
    unfolding put_row
    Keeps-put_row row = record { at = λ c h. h }

    Keeps-record_state :
        (rt : RuntimeCall) (state : CallState) → Keeps (HasAtMost n) (record_state env rt state)
    unfolding record_state update_call
    Keeps-record_state rt state =
        search (keeps_rules, IgnoresLog-HasAtMost, Keeps-same_legs, Keeps-put_row) depth 20

    Keeps-transition : (state : CallState) → Keeps (HasAtMost n) (transition env state)
    unfolding transition write_state guarded_state after_transition
    Keeps-transition state =
        search
          (
            keeps_rules,
            IgnoresLog-HasAtMost,
            Keeps-record_state,
            Keeps-begin_recording_if_needed IsQuiet-HasAtMost env,
          )
          depth 20

    Keeps-bridge_direct_once : (a b : String) → Keeps (HasAtMost n) (bridge_direct_once env a b)
    unfolding bridge_direct_once get_leg note_answer activate bridge_id_of
    Keeps-bridge_direct_once a b =
        search
          (
            keeps_rules,
            IgnoresLog-HasAtMost,
            Keeps-same_legs,
            Keeps-transition,
            Keeps-publish_call IsQuiet-HasAtMost env,
          )
          depth 30 fits 8000

    Keeps-bridge_direct :
        (ctx : Ctx) (a b : String) → Keeps (HasAtMost n) (bridge_direct env ctx a b)
    unfolding bridge_direct put_commands
    Keeps-bridge_direct ctx a b = Keeps-if _ _ _ (Keeps-fail _) (
        Keeps-guarded env IgnoresLog-HasAtMost (λ t. record { at = λ c h. h }) _
          (Keeps-bridge_direct_once a b) ctx _ _)

    Keeps-start_direct_recording :
        (policy : RecordingPolicy) → Keeps (HasAtMost n) (start_direct_recording env policy)
    unfolding start_direct_recording begin_direct_recording
    Keeps-start_direct_recording policy =
        search
          (
            keeps_rules,
            IgnoresLog-HasAtMost,
            Keeps-same_legs,
            Keeps-publish_call IsQuiet-HasAtMost env,
          )
          depth 30 fits 8000

    Keeps-replace_bridge_once :
        (id a b : String) → Keeps (HasAtMost n) (replace_bridge_once env id a b)
    unfolding replace_bridge_once get_leg
    Keeps-replace_bridge_once id a b =
        search (keeps_rules, IgnoresLog-HasAtMost, Keeps-publish_call IsQuiet-HasAtMost env) depth
          30 fits 8000

    Keeps-replace_bridge :
        (ctx : Ctx) (id a b : String) → Keeps (HasAtMost n) (replace_bridge env ctx id a b)
    unfolding replace_bridge put_commands
    Keeps-replace_bridge ctx id a b = Keeps-if _ _ _ (Keeps-fail _) (
        Keeps-guarded env IgnoresLog-HasAtMost (λ t. record { at = λ c h. h }) _
          (Keeps-replace_bridge_once id a b) ctx _ _)

    Keeps-end_bridge : (id : String) → Keeps (HasAtMost n) (end_bridge env id)
    unfolding end_bridge
    Keeps-end_bridge id =
        search (keeps_rules, IgnoresLog-HasAtMost, Keeps-publish_call IsQuiet-HasAtMost env) depth
          12

    Keeps-stop_direct_recording : Keeps (HasAtMost n) (stop_direct_recording env)
    unfolding stop_direct_recording
    Keeps-stop_direct_recording =
        search
          (
            keeps_rules,
            Keeps-same_legs,
            Keeps-stop_recording IsQuiet-HasAtMost env,
            Keeps-publish_call IsQuiet-HasAtMost env,
          )
          depth 20

-- A request of a client that controls its call leg by leg.
pub data LegRequest : Type 0 where
  joins : DirectLegRequest → LegRequest
  leaves : Ctx → String → LegRequest
  bridges : Ctx → String → String → LegRequest
  replaces : Ctx → String → String → String → LegRequest
  ends : String → LegRequest
  records : RecordingPolicy → LegRequest
  stops : LegRequest

unfoldable pub handle : Env → LegRequest → Exec (Unit {0})
handle env (LegRequest.joins req) = add_direct_leg env req
handle env (LegRequest.leaves ctx leg_id) = leave_direct_leg env ctx leg_id
handle env (LegRequest.bridges ctx a b) = bridge_direct env ctx a b
handle env (LegRequest.replaces ctx id a b) = replace_bridge env ctx id a b
handle env (LegRequest.ends id) = end_bridge env id
handle env LegRequest.stops = ignore (stop_direct_recording env)
handle env (LegRequest.records policy) = ignore (start_direct_recording env policy)

-- What a history of requests leaves, each with its own answers of the ports.
unfoldable pub run_legs : List (Env × LegRequest) → Cell → Cell
run_legs [] c = c
run_legs ((env, r) ∷ rest) c = run_legs rest (handle env r c).1

legs_of : Option RuntimeCall → List CallLegRecord
legs_of none = []
legs_of (some rt) = rt.legs

-- How many legs the call has in memory.
unfoldable pub leg_count : Cell → ℕ
unfolding legs_of
leg_count c = length (legs_of c.live)

HasAtMost-leg_count : (n : ℕ) (c : Cell) → leg_count c ≤ n → HasAtMost n c
unfolding leg_count legs_of
HasAtMost-leg_count n c h rt l = subst (λ o. length (legs_of o) ≤ n) l h

leg_count-HasAtMost : (n : ℕ) (c : Cell) → HasAtMost n c → leg_count c ≤ n
unfolding leg_count legs_of
leg_count-HasAtMost n c h = go c.live refl
  where
    go : (o : Option RuntimeCall) → c.live ≡ o → length (legs_of o) ≤ n
    go none l = omega arith
    go (some rt) l = h rt l

-- One request.
Keeps-handle : (env : Env) (r : LegRequest) → Keeps (HasAtMost 2) (handle env r)
unfolding handle
Keeps-handle env (LegRequest.joins req) = Keeps-add_direct_leg env req
Keeps-handle env (LegRequest.leaves ctx leg_id) = Keeps-leave_direct_leg env ctx leg_id
Keeps-handle env (LegRequest.bridges ctx a b) = Keeps-bridge_direct env ctx a b
Keeps-handle env (LegRequest.replaces ctx id a b) = Keeps-replace_bridge env ctx id a b
Keeps-handle env (LegRequest.ends id) = Keeps-end_bridge env id
Keeps-handle env LegRequest.stops = Keeps-ignore _ (Keeps-stop_direct_recording env)
Keeps-handle env (LegRequest.records policy) =
    Keeps-ignore _ (Keeps-start_direct_recording env policy)

-- A call of at most two legs never has more, whatever legs join, leave and are bridged in it, also while it
-- is recorded, and whatever the ports answer.
pub run_legs-leg_count :
    (rs : List (Env × LegRequest)) (c : Cell) → leg_count c ≤ 2 → leg_count (run_legs rs c) ≤ 2
unfolding run_legs
run_legs-leg_count [] c h = h
run_legs-leg_count ((env, r) ∷ rest) c h =
    run_legs-leg_count rest _
      (leg_count-HasAtMost 2 _ ((Keeps-handle env r).at c (HasAtMost-leg_count 2 c h)))
