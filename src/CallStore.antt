-- ===== src/CallStore.antt =====
-- open-switch/internal/store/call_persist.go: the writes to a call's row and legs. Each write is one
-- transaction of the database, so a fault of the database leaves the rows as they were.
use open_voip.Base.{◌+◌, ◌=?◌, String, ◌==◌, if◌then◌else◌, Option, none, some, List, [], ◌∷◌}
use open_voip.Errs.{api, not_found_error}
use open_voip.Ports.{CallLegRecord, CallRecord}
use open_voip.Control.State.{Cell, Env, Effect}
use open_voip.Control.State
use open_voip.Control.Exec.{Exec, pure, fail, gets, perform, with_option, ◌>>=◌, ◌>>◌}

-- The columns that `UpdateCall` writes; the others keep their value.
unfoldable pub written_row : CallRecord → CallRecord → CallRecord
written_row rec row = record row {
  version = row.version + 1;
  state = rec.state;
  caller = rec.caller;
  callee = rec.callee;
  agent_id = rec.agent_id;
  offered_agent = rec.offered_agent;
  answered_at = rec.answered_at;
  direction = rec.direction;
  session_type = rec.session_type;
  updated_at = rec.updated_at;
  ended_at = rec.ended_at;
  queue_id = rec.queue_id;
  priority = rec.priority;
}

unfoldable pub put_row : CallRecord → Exec (Unit {0})
put_row row c = (State.ok tt, record c { row = some row })

unfoldable pub put_leg_rows : List CallLegRecord → Exec (Unit {0})
put_leg_rows legs c = (State.ok tt, record c { leg_rows = legs })

-- `InsertLeg` fills in the type and the state.
inserted_leg : CallLegRecord → CallLegRecord
inserted_leg leg = record leg {
  kind = if leg.kind == "" then "webrtc" else leg.kind;
  leg_state = if leg.leg_state == "" then "new" else leg.leg_state;
}

-- `InsertCall` begins with the version 1.
unfoldable pub inserted_call : CallRecord → CallRecord
inserted_call rec = if rec.version =? 0 then record rec { version = 1 } else rec

unfoldable pub put_call_rows : CallRecord → CallLegRecord → Exec (Unit {0})
put_call_rows rec leg c = (State.ok tt, record c { row = some rec; leg_rows = leg ∷ c.leg_rows })

without_leg : String → List CallLegRecord → List CallLegRecord
without_leg id [] = []
without_leg id (l ∷ ls) = let rest = without_leg id ls in if l.id == id then rest else l ∷ rest

find_leg : String → List CallLegRecord → Option CallLegRecord
find_leg id [] = none
find_leg id (l ∷ ls) = if l.id == id then some l else find_leg id ls

module _ (env : Env) where
  -- `UpdateCall`.
  unfoldable pub update_call : CallRecord → Exec (Unit {0})
  update_call rec = do
    perform env (Effect.update_call rec)
    row ← gets (λ c. c.row)
    with_option row (fail (api (not_found_error "通话不存在"))) λ old. put_row (written_row rec old)

  -- `InsertCallWithLeg`: a call has one row.
  unfoldable pub insert_call_with_leg : CallRecord → CallLegRecord → Exec (Unit {0})
  unfolding inserted_leg
  insert_call_with_leg rec leg = do
    perform env (Effect.insert_call_with_leg rec leg)
    row ← gets (λ c. c.row)
    with_option row (put_call_rows (inserted_call rec) (inserted_leg leg))
        λ old. fail env.duplicate_key

  -- `InsertLeg`.
  unfoldable pub insert_leg : CallLegRecord → Exec (Unit {0})
  unfolding inserted_leg
  insert_leg leg = do
    perform env (Effect.insert_leg leg)
    legs ← gets (λ c. c.leg_rows)
    put_leg_rows (inserted_leg leg ∷ legs)

  -- `DeleteLeg`.
  unfoldable pub delete_leg : String → Exec (Unit {0})
  unfolding without_leg
  delete_leg id = do
    perform env (Effect.delete_leg id)
    legs ← gets (λ c. c.leg_rows)
    put_leg_rows (without_leg id legs)

  -- `GetLeg`.
  unfoldable pub get_leg : String → Exec CallLegRecord
  unfolding find_leg
  get_leg id = do
    fault ← gets (λ c. env.read_fault c.log)
    with_option fault
        (do
          legs ← gets (λ c. c.leg_rows)
          with_option (find_leg id legs) (fail (api (not_found_error "通话腿不存在"))) λ leg. pure leg)
        λ e. fail e

  -- `GetCall`.
  unfoldable pub get_call : Exec CallRecord
  get_call = do
    fault ← gets (λ c. env.read_fault c.log)
    with_option fault
        (do
          row ← gets (λ c. c.row)
          with_option row (fail (api (not_found_error "通话不存在"))) λ r. pure r)
        λ e. fail e
