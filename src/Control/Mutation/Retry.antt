-- ===== src/Control/Mutation/Retry.antt =====
-- What an idempotency key promises: a command is run once for each key, and a retry answers as the
-- first run did.
use Prim.Native.String.{◌++◌ as str_append}
use open_voip.Base.{
  String, ◌==◌, eq_iff, eq_refl, ◌≡◌, refl, ap, ◌∙◌, inl, inr, Bool, true, false, if◌then◌else◌,
  Bool-cases, Option-cases, Option, none, some, List, [], ◌∷◌, arith,
}
use open_voip.Errs.{api, conflict_error}
use open_voip.Control.State.{
  Cell, CommandRow, CommandStatus, Ctx, Effect, Env, Result, err, failed, ok, succeeded,
}
use open_voip.Control.Exec.{
  Exec, fail, fresh_id, from_reply, gets, perform, pure, with_option, ◌>>=◌,
}
use open_voip.Commands.{
  tell_result, accept, accept_key, add_row, complete, find_key, is_open, mark_rows, mark_running,
  new_row, put_commands, update_rows,
}
use open_voip.Control.Exec.Keeps.{
  IgnoresLog, Keeps, Keeps-attempt, Keeps-bind, Keeps-with_result, keeps_rules,
}
use open_voip.Control.Mutation.{
  accepted_command, answer, guard_expected_version, is_status, replayed, run_command,
  run_idempotent, view_version,
}
use open_voip.CallStore.{get_call}
use open_voip.Control.Offer.{do_answer}
use open_voip.Control.Keeping.{Keeps-do_answer}
use open_voip.Control.Invariant.{HasCommands, HasCommands-IsKept}
use open_voip.Control.Transition.Laws.{bind_ok}

module _ (env : Env) (row : CommandRow) (c : Cell) where
  replayed_still : (replayed env row c).1 ≡ c
  unfolding replayed pure fail
  replayed_still = elim (Bool-cases (is_status succeeded row.status)) [
    | inl s ↦ simp s
    | inr s ↦ elim (Bool-cases (is_status failed row.status)) [
      | inl f ↦ elim (Bool-cases (row.error_code == "")) [
        | inl e ↦ simp (s, f, e)
        | inr e ↦ simp (s, f, e)
      ]
      | inr f ↦ simp (s, f)
    ]
  ]

module _ (env : Env) (ctx : Ctx) (typ hash : String) (run : Exec (Unit {0})) (c : Cell) where
  -- What a known key answers.
  pub replay : CommandRow → Result (Unit {0})
  replay row =
      if row.request_hash == hash
      then (replayed env row c).0
      else err (api (conflict_error "Idempotency-Key 已用于不同请求体" ""))

  pub retry_changes_nothing :
      (row : CommandRow)
      → env.has_commands ≡ true
      → (ctx.idempotency == "") ≡ false
      → env.read_fault c.log ≡ none
      → find_key ctx.idempotency c.commands ≡ some row
      → run_idempotent env ctx typ hash run c ≡ (replay row, c)
  unfolding run_idempotent accept accept_key gets with_option pure fail accepted_command replay
      ◌>>=◌
  retry_changes_nothing row has named read known = elim (Bool-cases (row.request_hash == hash)) [
    | inl same ↦
        simp (has, named, read, known, same)
          (ap {A = Cell} (λ d. ((replayed env row c).0, d)) (replayed_still env row c))
    | inr other ↦ simp (has, named, read, known, other)
  ]

-- The request that the key's row is for.
abbrev hash_of : Option CommandRow → Option String
hash_of none = none
hash_of (some row) = some row.request_hash

-- The table has a row of the key, for this request.
record Knows (key hash : String) (c : Cell) : Type 0 where
  known : hash_of (find_key key c.commands) ≡ some hash

module _ (env : Env) (key hash typ : String) (c : Cell) where
  abbrev first_row : CommandRow
  unfolding new_row
  first_row = new_row env (env.fresh_id c.log) key hash typ

  accept_key-hash :
      {r : CommandRow × Bool}
      → (accept_key env key hash typ c).0 ≡ ok r
      → hash_of (find_key key (accept_key env key hash typ c).1.commands) ≡ some hash
  unfolding accept_key gets fresh_id with_option pure fail add_row new_row perform put_commands
      from_reply find_key ◌>>=◌
  accept_key-hash h = elim (Option-cases (env.read_fault c.log)) [
    | inl unread ↦ elim (Option-cases (find_key key c.commands)) [
      | inl unknown' ↦ elim (Option-cases (env.reply c.log (Effect.create_command first_row))) [
        | inl done ↦ simp (unread, unknown', done, eq_refl key)
        | inr (e, undone) ↦ absurd (cc (simp (unread, unknown', undone) at h))
      ]
      | inr (old, known) ↦ elim (Bool-cases (old.request_hash == hash)) [
        | inl same ↦ simp (unread, known, same) (ap some ((eq_iff old.request_hash hash).0 same))
        | inr other ↦ absurd (cc (simp (unread, known, other) at h))
      ]
    ]
    | inr (e, fault) ↦ absurd (cc (simp fault at h))
  ]

  accept-Knows :
      {r : CommandRow × Bool}
      → (key == "") ≡ false
      → (accept env key hash typ c).0 ≡ ok r
      → Knows key hash (accept env key hash typ c).1
  unfolding accept
  accept-Knows named h = record { known = simp named (accept_key-hash (simp named at h)) }

module _ (key id : String) where
  mark_rows-hash :
      (rows : List CommandRow)
      → hash_of (find_key key (mark_rows id rows)) ≡ hash_of (find_key key rows)
  unfolding find_key mark_rows
  mark_rows-hash [] = refl
  mark_rows-hash (r ∷ rs) = ground (arith, mark_rows-hash rs)

  update_rows-hash :
      (status : CommandStatus) (code : String) (rows : List CommandRow)
      → hash_of (find_key key (update_rows is_open id status code rows))
        ≡ hash_of (find_key key rows)
  unfolding find_key update_rows
  update_rows-hash status code [] = refl
  update_rows-hash status code (r ∷ rs) = ground (arith, update_rows-hash status code rs)

module _ (env : Env) (key hash : String) where
  Knows-logs : IgnoresLog (Knows key hash)
  Knows-logs = record { logs = λ c l h. record { known = h.known } }

  Keeps-rows :
      (f : List CommandRow → List CommandRow) (rest : List CommandRow → Exec (Unit {0}))
      → ((rows : List CommandRow) → hash_of (find_key key (f rows)) ≡ hash_of (find_key key rows))
      → ((rows : List CommandRow) → Keeps (Knows key hash) (rest rows))
      → Keeps
          (Knows key hash)
          (gets (λ c. c.commands) >>= λ rows. put_commands (f rows) >>= λ _. rest rows)
  unfolding gets put_commands ◌>>=◌
  Keeps-rows f rest same k = record {
    at = λ c h. (k c.commands).at _ (record { known = same c.commands ∙ h.known });
  }

  Keeps-mark_running : (id : String) → Keeps (Knows key hash) (mark_running env id)
  unfolding mark_running
  Keeps-mark_running id =
      Keeps-bind _ _ (search (keeps_rules, Knows-logs))
        λ _. Keeps-rows _ _ (mark_rows-hash key id) λ _. search (keeps_rules)

  Keeps-complete :
      (id : String) (status : CommandStatus) (code : String)
      → Keeps (Knows key hash) (complete env id status code)
  unfolding complete tell_result
  Keeps-complete id status code = Keeps-bind _ _ (search (keeps_rules, Knows-logs)) λ _.
      Keeps-rows _ _ (update_rows-hash key id status code)
        λ _. search (keeps_rules, Knows-logs) depth 12

  module _ (run : Exec (Unit {0})) (k : Keeps (Knows key hash) run) where
    Keeps-run_command : (row : CommandRow) → Keeps (Knows key hash) (run_command env row run)
    unfolding run_command
    Keeps-run_command row = Keeps-bind _ _ (Keeps-mark_running row.id) λ _.
        Keeps-bind _ _ (Keeps-attempt _ k) λ done.
          Keeps-with_result done _ _ (λ e. search (keeps_rules, Keeps-complete))
            λ _. search (keeps_rules, Keeps-complete)

    Keeps-accepted_command :
        (command : CommandRow × Bool) → Keeps (Knows key hash) (accepted_command env run command)
    unfolding accepted_command replayed
    Keeps-accepted_command (row, true) = search (keeps_rules) depth 12
    Keeps-accepted_command (row, false) = Keeps-run_command row

    -- After a first run that succeeded the key is known.
    first_run-Knows :
        (typ : String) (c : Cell)
        → (key == "") ≡ false
        → ((accept env key hash typ >>= λ command. accepted_command env run command) c).0 ≡ ok tt
        → Knows key hash
            ((accept env key hash typ >>= λ command. accepted_command env run command) c).1
    first_run-Knows typ c named h =
        let (command, accepted', _, e) =
          bind_ok (accept env key hash typ) (accepted_command env run) c h in
        rw e
          ((Keeps-accepted_command command).at _ (accept-Knows env key hash typ c named accepted'))

-- An action that leaves the command table alone keeps what it knows.
unchanged :
    (env : Env) (key hash : String) (m : Exec (Unit {0}))
    → ((t : List CommandRow) → Keeps (HasCommands t) m)
    → Keeps (Knows key hash) m
unchanged env key hash m k = record {
  at = λ c h. record {
    known =
        ap (λ t. hash_of (find_key key t)) ((k c.commands).at c (record { table = refl })).table
        ∙ h.known;
  };
}

record Same (c d : Cell) : Type 0 where
  same : d ≡ c

module _ (env : Env) (ctx : Ctx) (c : Cell) where
  guard-Same : Keeps (Same c) (guard_expected_version env ctx)
  unfolding guard_expected_version view_version get_call
  guard-Same = search keeps_rules depth 20

  retry-Same :
      (typ hash : String) (m : Exec (Unit {0}))
      → env.has_commands ≡ true
      → (ctx.idempotency == "") ≡ false
      → env.read_fault c.log ≡ none
      → Knows ctx.idempotency hash c
      → Keeps (Same c) (run_idempotent env ctx typ hash m)
  retry-Same typ hash m has named read k =
      elim (Option-cases (find_key ctx.idempotency c.commands)) [
        | inl unknown' ↦ absurd (cc (rw unknown' at k.known))
        | inr (row, known) ↦ record {
          at = λ d h. record {
            same =
                ap (λ x. (run_idempotent env ctx typ hash m x).1) h.same
                ∙ ap {A = Result (Unit {0}) × Cell} (λ x. x.1)
                    (retry_changes_nothing env ctx typ hash m c row has named read known);
          };
        }
      ]

module _ (env : Env) (ctx : Ctx) (agent_id : String) (c : Cell) (has : env.has_commands ≡ true)
    (named : (ctx.idempotency == "") ≡ false) where
  abbrev answer_hash : String
  answer_hash = str_append "answer|" agent_id

  idempotent-Knows :
      (d : Cell)
      → (run_idempotent env ctx "answer" answer_hash (do_answer env ctx agent_id) d).0 ≡ ok tt
      → Knows ctx.idempotency answer_hash
          (run_idempotent env ctx "answer" answer_hash (do_answer env ctx agent_id) d).1
  unfolding run_idempotent
  idempotent-Knows d h =
      simp (has, named)
        (first_run-Knows env ctx.idempotency answer_hash (do_answer env ctx agent_id)
          (unchanged env ctx.idempotency answer_hash _
            (λ t. Keeps-do_answer env (HasCommands-IsKept env t) ctx agent_id))
          "answer" d named (simp (has, named) at h))

  answer-Knows :
      (answer env ctx agent_id c).0 ≡ ok tt
      → Knows ctx.idempotency answer_hash (answer env ctx agent_id c).1
  unfolding answer
  answer-Knows h =
      let (_, _, good, e) = bind_ok (guard_expected_version env ctx) _ c h in
      rw e (idempotent-Knows _ good)

  answer-Same :
      env.read_fault c.log ≡ none
      → Knows ctx.idempotency answer_hash c
      → Keeps (Same c) (answer env ctx agent_id)
  unfolding answer
  answer-Same read k =
      Keeps-bind _ _ (guard-Same env ctx c)
        λ _. retry-Same env ctx c "answer" answer_hash _ has named read k

-- An answer under an idempotency key that reported success is not run again: a retry of it, with
-- whatever the ports then answer, changes nothing at all, where the command table can be read.
pub answer_once :
    (first then' : Env) (ctx : Ctx) (agent_id : String) (c : Cell)
    → first.has_commands ≡ true
    → then'.has_commands ≡ true
    → (ctx.idempotency == "") ≡ false
    → (answer first ctx agent_id c).0 ≡ ok tt
    → then'.read_fault (answer first ctx agent_id c).1.log ≡ none
    → (answer then' ctx agent_id (answer first ctx agent_id c).1).1
      ≡ (answer first ctx agent_id c).1
answer_once first then' ctx agent_id c has has' named done read =
    ((answer-Same then' ctx agent_id _ has' named read
        (answer-Knows first ctx agent_id c has named done)).at
      _ (record { same = refl })).same
