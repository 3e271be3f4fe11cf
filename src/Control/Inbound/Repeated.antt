-- ===== src/Control/Inbound/Repeated.antt =====
-- Which requests for a new inbound call `StartInbound` takes, and that it refuses the others.
use open_voip.Base.{
  eq_iff, ◌≢◌, ◌⊎◌, ◌≤◌, List, true, not, ◌&&◌, arith, some, ℕ, String, ◌==◌, ◌≡◌, ap, subst, refl,
  Bool-cases, none, inl, inr,
}
use open_voip.Errs.{Err, api, forbidden_error, is_sentinel, not_found_error}
use open_voip.Ports.{CallRecord, InboundRequest, IvrSnapshot, QueueSnapshot, video}
use open_voip.CallStore.{get_call}
use open_voip.Control.State.{Cell, Effect, Env, Result, ok, err}
use open_voip.Control.Exec.{
  Exec, asks, attempt, continue, fail, gets, pure, with_option, with_result, ◌>>=◌,
}
use open_voip.Control.Inbound.{
  is_video_session, session_of, Scope, flow_scope, queue_scope, scope_of, start_inbound, start_new,
}
use open_voip.Control.Exec.Keeps.{Keeps, keeps_rules}

-- What the configuration answers lets no call be created.
abbrev pub Unscoped : Result Scope → Type 0
Unscoped (ok s) = s.config_version ≡ 0
Unscoped (err e) = Unit {0}

-- A request for a queue: the queue can be read, takes video if the session is one, and is of an active
-- configuration.
pub record AllowsQueue (env : Env) (l : List Effect) (req : InboundRequest) : Type 0 where
  pub named : req.queue_id ≢ ""
  pub queue : QueueSnapshot
  pub read : env.get_queue l req.queue_id ≡ ok queue
  pub takes_video : req.session_type ≡ some video → queue.video_enabled ≡ true
  pub configured : 1 ≤ queue.config_version

-- A request for a flow alone: a configuration is active, and the flow can be read.
pub record AllowsFlow (env : Env) (l : List Effect) (req : InboundRequest) : Type 0 where
  pub queueless : req.queue_id ≡ ""
  pub named : req.ivr_flow_id ≢ ""
  pub version : ℕ
  pub active : env.active_version l ≡ ok version
  pub configured : 1 ≤ version
  pub flow : IvrSnapshot
  pub read : env.latest_ivr l req.ivr_flow_id ≡ ok flow

abbrev pub IsAllowed : Env → List Effect → InboundRequest → Type 0
IsAllowed env l req = AllowsQueue env l req ⊎ AllowsFlow env l req

Result-cases : {A : Type 0} (r : Result A) → ((a : A) × (r ≡ ok a)) ⊎ ((e : Err) × (r ≡ err e))
Result-cases (ok a) = inl (a, refl)
Result-cases (err e) = inr (e, refl)

zero_or_more : (n : ℕ) → (n ≡ 0) ⊎ (1 ≤ n)
zero_or_more n = omega arith

module _ (env : Env) (req : InboundRequest) (c : Cell) where
  flow_cases :
      req.queue_id ≡ ""
      → req.ivr_flow_id ≢ ""
      → IsAllowed env c.log req ⊎ Unscoped (flow_scope env req c).0
  unfolding flow_scope asks pure ◌>>=◌
  flow_cases q n = elim (Result-cases (env.active_version c.log)) [
    | inr (e, failed) ↦ inr (rw failed tt)
    | inl (v, active) ↦ elim (Result-cases (env.latest_ivr c.log req.ivr_flow_id)) [
      | inr (e, failed) ↦ inr (rw (active, failed) tt)
      | inl (snap, read) ↦ elim (zero_or_more v) [
        | inl zero ↦ inr (rw (active, read) zero)
        | inr some_version ↦ inl (
            inr (record {
              queueless = q;
              named = n;
              version = v;
              active = active;
              configured = some_version;
              flow = snap;
              read = read;
            }))
      ]
    ]
  ]

  video_of : req.session_type ≡ some video → is_video_session (session_of req) ≡ true
  unfolding session_of is_video_session
  video_of e = rw e refl

  queue_cases : req.queue_id ≢ "" → IsAllowed env c.log req ⊎ Unscoped (queue_scope env req c).0
  unfolding queue_scope asks pure fail ◌>>=◌
  queue_cases n = elim (Result-cases (env.get_queue c.log req.queue_id)) [
    | inr (e, failed) ↦ inr (rw failed tt)
    | inl (q, read) ↦ elim (Bool-cases (is_video_session (session_of req) && not q.video_enabled)) [
      | inl no_video ↦ inr (rw (read, no_video) tt)
      | inr fits ↦ elim (zero_or_more q.config_version) [
        | inl zero ↦ inr (rw (read, fits) zero)
        | inr some_version ↦ inl (
            inl (record {
              named = n;
              queue = q;
              read = read;
              takes_video = λ e. ground (arith, fits, video_of e);
              configured = some_version;
            }))
      ]
    ]
  ]

  -- What the configuration says of a request: allowed, or without a scope.
  scope_cases : IsAllowed env c.log req ⊎ Unscoped (scope_of env req c).0
  unfolding scope_of fail
  scope_cases = elim (Bool-cases (req.queue_id == "")) [
    | inr named ↦ rw (named) (queue_cases (λ e. absurd (cc ((eq_iff req.queue_id "").1 e, named))))
    | inl unnamed ↦ elim (Bool-cases (req.ivr_flow_id == "")) [
      | inl nothing ↦ inr (rw (unnamed, nothing) tt)
      | inr flow ↦
          rw (unnamed, flow)
            (flow_cases ((eq_iff req.queue_id "").0 unnamed)
              (λ e. absurd (cc ((eq_iff req.ivr_flow_id "").1 e, flow))))
    ]
  ]

module _ (env : Env) (meta : CallRecord → String → String → String → String) (fuel : ℕ) where
  scope_of-keeps : (req : InboundRequest) (c : Cell) → Keeps (λ d. d ≡ c) (scope_of env req)
  unfolding scope_of queue_scope flow_scope
  scope_of-keeps req c = search keeps_rules depth 20

  Unscoped-stops :
      (k : Scope → Exec String) (r : Result Scope) (c d : Cell)
      → Unscoped r
      → d ≡ c
      → ((s : Scope) → s.config_version ≡ 0 → (e : Err) × (k s d ≡ (err e, d)))
      → (e : Err) × (continue r k d ≡ (err e, c))
  Unscoped-stops k (ok s) c d h same stops =
      let stopped = stops s h in (stopped.0, subst (λ x. k s d ≡ (err stopped.0, x)) same stopped.1)
  Unscoped-stops k (err e) c d h same stops = (e, ap (λ x. (err e, x)) same)

  start_new_stops :
      (req : InboundRequest) (c : Cell)
      → Unscoped (scope_of env req c).0
      → (e : Err) × (start_new env meta fuel req c ≡ (err e, c))
  unfolding start_new ◌>>=◌ fail
  start_new_stops req c h =
      Unscoped-stops _ (scope_of env req c).0 c _ h ((scope_of-keeps req c).at c refl)
        λ s zero_version. (api (forbidden_error "缺少已激活的配置作用域"), rw zero_version refl)

  start_inbound_stops :
      (req : InboundRequest) (c : Cell)
      → env.read_fault c.log ≡ none
      → c.row ≡ none
      → Unscoped (scope_of env req c).0
      → (e : Err) × (start_inbound env meta fuel req c ≡ (err e, c))
  unfolding start_inbound get_call attempt with_result with_option fail gets pure ◌>>=◌ is_sentinel
      not_found_error
  start_inbound_stops req c sound absent h =
      let stopped = start_new_stops req c h in (stopped.0, simp (sound, absent, stopped.1))

  -- While the database can be read, a request for a call that is not there either is one that the
  -- configuration allows, or is refused with nothing changed and no port called to change anything.
  pub inbound-IsAllowed :
      (req : InboundRequest) (c : Cell)
      → env.read_fault c.log ≡ none
      → c.row ≡ none
      → IsAllowed env c.log req ⊎ ((e : Err) × (start_inbound env meta fuel req c ≡ (err e, c)))
  inbound-IsAllowed req c sound absent = elim (scope_cases env req c) [
    | inl allowed ↦ inl allowed
    | inr unscoped ↦ inr (start_inbound_stops req c sound absent unscoped)
  ]
