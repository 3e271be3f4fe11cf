-- ===== src/Commands.antt =====
-- open-switch/internal/store/commands.go: the table of commands, one row for each idempotency key.
-- A result document is left out: nothing reads it back.
use open_voip.Base.{
  String, ◌==◌, if◌then◌else◌, Bool, true, false, ◌||◌, ◌&&◌, Option, none, some, List, [], ◌∷◌,
}
use open_voip.Errs.{api, conflict_error, not_found_error}
use open_voip.Control.State.{
  Cell, CommandRow, CommandStatus, Effect, Env, Result, accepted, failed, running, succeeded,
  unknown,
}
use open_voip.Control.State
use open_voip.Control.Exec.{Exec, pure, fail, gets, with_option, perform, fresh_id, ◌>>=◌, ◌>>◌}

-- `WHERE idempotency_key = ?`.
unfoldable pub find_key : String → List CommandRow → Option CommandRow
find_key key [] = none
find_key key (r ∷ rs) = if r.idempotency_key == key then some r else find_key key rs

unfoldable pub is_accepted : CommandStatus → Bool
is_accepted accepted = true
is_accepted _ = false

-- `status IN ('accepted','running','unknown')`.
unfoldable pub is_open : CommandStatus → Bool
is_open accepted = true
is_open running = true
is_open unknown = true
is_open _ = false

-- An update of the rows of one id in the states that the statement allows.
unfoldable pub update_rows :
    (CommandStatus → Bool) → String → CommandStatus → String → List CommandRow → List CommandRow
update_rows allowed id status code [] = []
update_rows allowed id status code (r ∷ rs) =
    (if r.id == id && allowed r.status then record r { status = status; error_code = code } else r)
    ∷ update_rows allowed id status code rs

-- `RowsAffected > 0`.
unfoldable pub touches : (CommandStatus → Bool) → String → List CommandRow → Bool
touches allowed id [] = false
touches allowed id (r ∷ rs) = r.id == id && allowed r.status || touches allowed id rs

unfoldable pub put_commands : List CommandRow → Exec (Unit {0})
put_commands rows c = (State.ok tt, record c { commands = rows })

-- `MarkRunning` leaves the error code.
unfoldable pub mark_rows : String → List CommandRow → List CommandRow
unfolding is_accepted
mark_rows id [] = []
mark_rows id (r ∷ rs) =
    (if r.id == id && is_accepted r.status then record r { status = running } else r)
    ∷ mark_rows id rs

module _ (env : Env) where
  unfoldable pub new_row : String → String → String → String → CommandRow
  new_row id key hash typ = record {
    id = id;
    call_id = env.call_id;
    idempotency_key = key;
    request_hash = hash;
    typ = typ;
    status = accepted;
    error_code = "";
  }

  unfoldable pub add_row : CommandRow → Exec (CommandRow × Bool)
  add_row row = do
    perform env (Effect.create_command row)
    rows ← gets (λ c. c.commands)
    put_commands (row ∷ rows)
    pure (row, false)

  unfoldable pub accept_key : String → String → String → Exec (CommandRow × Bool)
  unfolding new_row
  accept_key key hash typ = do
    fault ← gets (λ c. env.read_fault c.log)
    rows ← gets (λ c. c.commands)
    with_option fault
        (with_option (find_key key rows) (do id ← fresh_id env; add_row (new_row id key hash typ))
          λ old.
            if old.request_hash == hash
            then pure (old, true)
            else fail (api (conflict_error "Idempotency-Key 已用于不同请求体" "")))
        λ e. fail e

  -- `Accept`: the row of the key, and whether it was there before.
  unfoldable pub accept : String → String → String → Exec (CommandRow × Bool)
  accept key hash typ =
      if key == ""
      then (do fresh ← fresh_id env; accept_key fresh hash typ)
      else accept_key key hash typ

  -- `MarkRunning`.
  unfoldable pub mark_running : String → Exec (Unit {0})
  unfolding mark_rows is_accepted
  mark_running id = do
    perform env (Effect.update_command id running)
    rows ← gets (λ c. c.commands)
    put_commands (mark_rows id rows)
    if touches is_accepted id rows then pure tt else fail (api (not_found_error "命令不存在或已结束"))

  -- The row is read back and the result is told; a fault there comes after the update.
  unfoldable pub tell_result : String → CommandStatus → Exec (Unit {0})
  tell_result id status = do
    fault ← gets (λ c. env.read_fault c.log)
    with_option fault (perform env (Effect.publish_command id status)) λ e. fail e

  -- `Complete`.
  unfoldable pub complete : String → CommandStatus → String → Exec (Unit {0})
  unfolding is_open
  complete id status code = do
    perform env (Effect.update_command id status)
    rows ← gets (λ c. c.commands)
    put_commands (update_rows is_open id status code rows)
    if touches is_open id rows
        then tell_result id status
        else fail (api (not_found_error "命令不存在或已结束"))
