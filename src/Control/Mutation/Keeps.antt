-- ===== src/Control/Mutation/Keeps.antt =====
-- The command wrapper keeps what its command keeps, and writes the command table.
use open_voip.Base.{String, Bool, true, false, List}
use open_voip.CallStore.{get_call}
use open_voip.Commands.{
  tell_result, accept, accept_key, add_row, put_commands, mark_running, complete,
}
use open_voip.Control.State.{Cell, CommandRow, CommandStatus, Ctx, Env}
use open_voip.Control.Exec.{Exec, ◌>>◌}
use open_voip.Control.Exec.Keeps.{
  Keeps, IgnoresLog, Keeps-bind, Keeps-attempt, Keeps-with_result, Keeps-if, keeps_rules,
}
use open_voip.Control.Mutation.{
  accepted_command, guard_expected_version, replayed, run_command, run_idempotent, view_version,
}

-- What the command wrapper needs of an invariant: it writes the command table.
module _ {P : Cell → Type 0} (env : Env) (k : IgnoresLog P)
    (tables : (t : List CommandRow) → Keeps P (put_commands t)) where
  Keeps-add_row : (row : CommandRow) → Keeps P (add_row env row)
  unfolding add_row
  Keeps-add_row row = search (keeps_rules, k, tables) depth 12

  Keeps-accept_key : (key hash typ : String) → Keeps P (accept_key env key hash typ)
  unfolding accept_key
  Keeps-accept_key key hash typ = search (keeps_rules, Keeps-add_row) depth 12

  pub Keeps-accept : (key hash typ : String) → Keeps P (accept env key hash typ)
  unfolding accept
  Keeps-accept key hash typ = search (keeps_rules, Keeps-accept_key) depth 12

  pub Keeps-mark_running : (id : String) → Keeps P (mark_running env id)
  unfolding mark_running
  Keeps-mark_running id = search (keeps_rules, k, tables) depth 12

  pub Keeps-complete :
      (id : String) (status : CommandStatus) (code : String) → Keeps P (complete env id status code)
  unfolding complete tell_result
  Keeps-complete id status code = search (keeps_rules, k, tables) depth 12

  Keeps-replayed : (row : CommandRow) → Keeps P (replayed env row)
  unfolding replayed
  Keeps-replayed row = search keeps_rules

  pub Keeps-guard : (ctx : Ctx) → Keeps P (guard_expected_version env ctx)
  unfolding guard_expected_version view_version get_call
  Keeps-guard ctx = search keeps_rules depth 20

  module _ (run : Exec (Unit {0})) (runs : Keeps P run) where
    Keeps-run_command : (row : CommandRow) → Keeps P (run_command env row run)
    unfolding run_command
    Keeps-run_command row = Keeps-bind _ _ (Keeps-mark_running row.id) λ _.
        Keeps-bind _ _ (Keeps-attempt _ runs) λ done.
          Keeps-with_result done _ _ (λ e. search (keeps_rules, Keeps-complete))
            λ _. search (keeps_rules, Keeps-complete)

    Keeps-accepted_command :
        (command : CommandRow × Bool) → Keeps P (accepted_command env run command)
    unfolding accepted_command
    Keeps-accepted_command (row, true) = Keeps-replayed row
    Keeps-accepted_command (row, false) = Keeps-run_command row

    pub Keeps-run_idempotent :
        (ctx : Ctx) (typ hash : String) → Keeps P (run_idempotent env ctx typ hash run)
    unfolding run_idempotent
    Keeps-run_idempotent ctx typ hash =
        Keeps-if _ _ _ runs
          (Keeps-bind _ _ (Keeps-accept ctx.idempotency hash typ) Keeps-accepted_command)

    pub Keeps-guarded :
        (ctx : Ctx) (typ hash : String)
        → Keeps P (guard_expected_version env ctx >> run_idempotent env ctx typ hash run)
    Keeps-guarded ctx typ hash =
        Keeps-bind _ _ (Keeps-guard ctx) (λ _. Keeps-run_idempotent ctx typ hash)
