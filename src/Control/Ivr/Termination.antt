-- ===== src/Control/Ivr/Termination.antt =====
-- The walk through a flow ends: `gotoIVR` and `runIVRNode` call each other at most as often as
-- `maxIVRHops` allows.
use open_voip.Base.{
  ℕ, zero, suc, ◌+◌, ◌≤◌, ◌<◌, ltb, String, ◌≡◌, refl, sym, subst, Bool, Bool-cases, inl, inr,
  Option-cases, false, Option, none, some, List, arith,
}
use open_voip.Ivr.{IvrNode}
use open_voip.Errs.{Err}
use open_voip.Ports.{CallRecord, Value}
use open_voip.Control.Events.{publish_call}
use open_voip.Control.Failure.{emit_command_failed}
use open_voip.Control.State.{Cell, Env, IvrRuntime, Result, RuntimeCall, ok, err}
use open_voip.Control.Exec.{Exec, ignore, modify, now, ◌>>=◌, with_option}
use open_voip.Control.Exec.Keeps.{Keeps, IgnoresLog, Keeps-modify, keeps_rules}
use open_voip.Control.Exec.Lands.{
  Fine, Lands, Lands-if, Lands-ignore, Lands-with_this_live, Lands-then, Lands-when, Lands-modify,
  Lands-attempt, Lands-with_result, Lands-pure, lands_rules,
}
use open_voip.Control.Frame.{IsQuiet, Keeps-publish_call}
use open_voip.Control.Ivr.{
  act, announce_node, begin_action, condition_node, enter_node, follow, goto_ivr, hours_node,
  inject_customer_audio, jump, max_ivr_hops, node_failed, node_seconds, on_ivr,
  queue_condition_busy, route_node, run_ivr_node, run_node, set_timer, speech_node, voicemail_node,
  with_ivr,
}
use open_voip.Control.Ivr.Inputs.{goto_node, jump_fuel, run_current}

-- The hops that a call has behind it are at least `n`.
abbrev Passed : ℕ → Option IvrRuntime → Type 0
Passed n none = Unit {0}
Passed n (some i) = n ≤ i.hops

abbrev PassedLive : ℕ → Option RuntimeCall → Type 0
PassedLive n none = Unit {0}
PassedLive n (some rt) = Passed n rt.ivr

record HopsFrom (n : ℕ) (c : Cell) : Type 0 where
  passed : PassedLive n c.live

module _ (n : ℕ) where
  HopsFrom-quiet : IsQuiet (HopsFrom n)
  HopsFrom-quiet = record {
    logs = record { logs = λ c l h. record { passed = h.passed } };
    notes = λ id note.
        Keeps-modify _ λ c rt e h. record { passed = subst (λ o. PassedLive n o) e h.passed };
  }

  Passed-on :
      (f : IvrRuntime → IvrRuntime)
      → ((i : IvrRuntime) → (f i).hops ≡ i.hops)
      → (rt : RuntimeCall) (o : Option IvrRuntime) → rt.ivr ≡ o
      → Passed n o
      → Passed n (on_ivr f rt).ivr
  unfolding on_ivr
  Passed-on f same rt none e h = rw e tt
  Passed-on f same rt (some i) e h = rw e (subst (λ x. n ≤ x) (sym (same i)) h)

  Keeps-timer :
      (f : IvrRuntime → IvrRuntime)
      → ((i : IvrRuntime) → (f i).hops ≡ i.hops)
      → Keeps (HopsFrom n) (modify (on_ivr f))
  Keeps-timer f same = Keeps-modify _ λ c rt e h. record {
    passed = Passed-on f same rt rt.ivr refl (subst (λ o. PassedLive n o) e h.passed);
  }

module _ {P : Cell → Type 0} (env : Env)
    (meta : CallRecord → String → String → String → String) where
  -- It drops every error.
  Lands-node_failed :
      (code message reason : String) (e : Err)
      → Lands P (node_failed env meta code message reason e)
  unfolding node_failed emit_command_failed ignore ◌>>=◌
  Lands-node_failed code message reason e = record { at = λ c h. tt }

module _ (n : ℕ) (env : Env) (meta : CallRecord → String → String → String → String)
    (fuel : ℕ) where
  Keeps-node_seconds : (node : IvrNode) → Keeps (HopsFrom n) (node_seconds env node)
  unfolding node_seconds
  Keeps-node_seconds node = search keeps_rules depth 12

  Keeps-set_timer : (node : IvrNode) → Keeps (HopsFrom n) (set_timer env node)
  unfolding set_timer
  Keeps-set_timer node = search (keeps_rules, Keeps-node_seconds, Keeps-timer n) depth 12

  Keeps-queue_condition_busy : (node : IvrNode) → Keeps (HopsFrom n) (queue_condition_busy env node)
  unfolding queue_condition_busy
  Keeps-queue_condition_busy node = search keeps_rules depth 12

  Keeps-inject_customer_audio :
      (file : String) (loop : Bool) → Keeps (HopsFrom n) (inject_customer_audio env file loop)
  unfolding inject_customer_audio
  Keeps-inject_customer_audio file loop = search (keeps_rules, (HopsFrom-quiet n).logs)

  Lands-node_seconds : (node : IvrNode) → Lands (HopsFrom n) (node_seconds env node)
  unfolding node_seconds
  Lands-node_seconds node = search (lands_rules, keeps_rules) depth 12

  Lands-set_timer : (node : IvrNode) → Lands (HopsFrom n) (set_timer env node)
  unfolding set_timer
  Lands-set_timer node =
      search (lands_rules, keeps_rules, Lands-node_seconds, Keeps-node_seconds) depth 12

  Lands-queue_condition_busy : (node : IvrNode) → Lands (HopsFrom n) (queue_condition_busy env node)
  unfolding queue_condition_busy
  Lands-queue_condition_busy node = search (lands_rules, keeps_rules) depth 12

  quiet_log : IgnoresLog (HopsFrom n)
  quiet_log = (HopsFrom-quiet n).logs

  announces :
      (typ agent : String) (payload : List (String × Value))
      → Keeps (HopsFrom n) (publish_call env typ agent payload)
  announces = Keeps-publish_call (HopsFrom-quiet n) env

  Lands-begin_action :
      (i : IvrRuntime) (node : IvrNode) → Lands (HopsFrom n) (begin_action env meta i node)
  unfolding begin_action
  Lands-begin_action i node =
      search (lands_rules, keeps_rules, quiet_log, Keeps-timer n, Lands-node_failed env meta) depth
        20 fits 4000

  -- `routeQueue` may leave any hops behind, but no node follows it.
  Lands-route_node : (node : IvrNode) → Lands (HopsFrom n) (route_node env meta fuel node)
  unfolding route_node
  Lands-route_node node = Lands-then _ _ (Lands-when _ _ (Lands-modify _)) λ _.
      Lands-then _ _ (Lands-attempt _)
        λ r. Lands-with_result r _ _ (Lands-node_failed env meta _ _ _) (λ _. Lands-pure tt)

  module _ (again : String → Exec (Unit {0}))
      (lands : (node : String) → Lands (HopsFrom n) (again node)) where
    Lands-follow :
        (target : String) (otherwise : Exec (Unit {0}))
        → Lands (HopsFrom n) (follow again target otherwise)
    unfolding follow
    Lands-follow target otherwise = Lands-if _ _ _ (Lands-ignore _) (lands target)

    Lands-hours_node : (node : IvrNode) → Lands (HopsFrom n) (hours_node env meta again node)
    unfolding hours_node
    Lands-hours_node node = search (lands_rules, keeps_rules, Lands-follow)

    Lands-condition_node :
        (node : IvrNode) → Lands (HopsFrom n) (condition_node env meta fuel again node)
    unfolding condition_node
    Lands-condition_node node =
        search (lands_rules, Lands-follow, Keeps-queue_condition_busy, Lands-queue_condition_busy)

    Lands-voicemail_node : (node : IvrNode) → Lands (HopsFrom n) (voicemail_node env meta node)
    unfolding voicemail_node
    Lands-voicemail_node node =
        search (lands_rules, keeps_rules, Keeps-inject_customer_audio) depth 12

    Lands-speech_node : (node : IvrNode) → Lands (HopsFrom n) (speech_node env meta again node)
    unfolding speech_node
    Lands-speech_node node = search (lands_rules, keeps_rules, Lands-follow, announces) depth 12

    Lands-act :
        (i : IvrRuntime) (node : IvrNode) → Lands (HopsFrom n) (act env meta fuel again i node)
    unfolding act
    Lands-act i node =
        search
          (
            lands_rules, Lands-begin_action, Lands-route_node, Lands-hours_node,
            Lands-condition_node, Lands-voicemail_node, Lands-speech_node,
          )
          depth 20 fits 4000

    Lands-announce_node :
        (i : IvrRuntime) (node : IvrNode)
        → Lands (HopsFrom n) (announce_node env meta fuel again i node)
    unfolding announce_node
    Lands-announce_node i node =
        search (lands_rules, keeps_rules, announces, Keeps-set_timer, Lands-set_timer, Lands-act)
          depth 12

    Lands-run_node :
        (i : IvrRuntime) (node : IvrNode) → Lands (HopsFrom n) (run_node env meta fuel again i node)
    unfolding run_node
    Lands-run_node i node =
        search
          (
            lands_rules,
            keeps_rules,
            Keeps-inject_customer_audio,
            Lands-node_failed env meta,
            Lands-announce_node,
          )
          depth 12

    Lands-run_ivr_node : Lands (HopsFrom n) (run_ivr_node env meta fuel again)
    unfolding run_ivr_node with_ivr
    Lands-run_ivr_node = search (lands_rules, Lands-run_node) depth 12

module _ (env : Env) (meta : CallRecord → String → String → String → String) (fuel : ℕ) where
  -- The node was entered: its hops are one more.
  Passed-enter :
      (node : String) (t : ℕ) (rt : RuntimeCall) (i : IvrRuntime)
      → rt.ivr ≡ some i
      → Passed (suc i.hops) (on_ivr (enter_node node (suc i.hops) t) rt).ivr
  unfolding on_ivr enter_node
  Passed-enter node t rt i e = rw e (omega arith)

  Lands-entered :
      (again : String → Exec (Unit {0})) (node : String) (rt : RuntimeCall) (i : IvrRuntime)
      → ((next : String) → Lands (HopsFrom (suc i.hops)) (again next))
      → rt.ivr ≡ some i
      → (c : Cell) → c.live ≡ some rt
      → Fine
          ((now env >>= λ t. modify (on_ivr (enter_node node (suc i.hops) t)) >>= λ _.
              run_ivr_node env meta fuel again)
            c).0
  unfolding now modify ◌>>=◌
  Lands-entered again node rt i lands e c live = rw live (
      (Lands-run_ivr_node (suc i.hops) env meta fuel again lands).at _
        (record { passed = Passed-enter node (env.now c.log) rt i e }))

  passed_at :
      (n : ℕ) (c : Cell) (rt : RuntimeCall) (i : IvrRuntime)
      → c.live ≡ some rt
      → rt.ivr ≡ some i
      → HopsFrom n c
      → n ≤ i.hops
  passed_at n c rt i live e h =
      subst (λ o. Passed n o) e (subst (λ o. PassedLive n o) live h.passed)

  small_hops : (h : ℕ) → ltb max_ivr_hops h ≡ false → h ≤ max_ivr_hops
  small_hops h e = ground arith

  Lands-emit_command_failed :
      {P : Cell → Type 0} (code message reason : String)
      → Lands P (emit_command_failed env code message reason)
  unfolding emit_command_failed
  Lands-emit_command_failed code message reason = Lands-ignore _

  Lands-jump :
      (again : String → Exec (Unit {0})) (n : ℕ) (node : String)
      → ((m : ℕ) (next : String) → n < m → m ≤ max_ivr_hops → Lands (HopsFrom m) (again next))
      → Lands (HopsFrom n) (jump env meta fuel again node)
  unfolding jump with_ivr with_option
  Lands-jump again n node lands = Lands-with_this_live _ _ (Lands-pure tt) λ rt c live h.
      elim (Option-cases rt.ivr) [
        | inl e ↦ rw e ((Lands-pure {P = HopsFrom n} tt).at c h)
        | inr (i, e) ↦ elim (Bool-cases (ltb max_ivr_hops (suc i.hops))) [
          | inl over ↦ rw e (
              rw over (
                (Lands-then {P = HopsFrom n} _ _ (Lands-modify _)
                    λ _. Lands-then _ _ (Lands-emit_command_failed _ _ _) λ _. Lands-ignore _).at
                  c h))
          | inr fits ↦ rw e (
              rw fits (
                Lands-entered again node rt i
                  (λ next.
                    lands (suc i.hops) next (omega (arith, passed_at n c rt i live e h))
                      (small_hops _ fits))
                  e c live))
        ]
      ]

  -- A jump of a call whose hops leave it enough fuel reports no error.
  Lands-goto_ivr :
      (jumps n : ℕ) (node : String)
      → n ≤ max_ivr_hops
      → max_ivr_hops < n + jumps
      → Lands (HopsFrom n) (goto_ivr env meta fuel jumps node)
  unfolding goto_ivr
  Lands-goto_ivr zero n node small enough = absurd (omega arith)
  Lands-goto_ivr (suc jumps) n node small enough =
      Lands-jump _ n node λ m next more fits. Lands-goto_ivr jumps m next fits (omega arith)

  Passed-zero : (o : Option IvrRuntime) → Passed 0 o
  Passed-zero none = tt
  Passed-zero (some i) = omega arith

  PassedLive-zero : (o : Option RuntimeCall) → PassedLive 0 o
  PassedLive-zero none = tt
  PassedLive-zero (some rt) = Passed-zero rt.ivr

  Fine-ok : (r : Result (Unit {0})) → Fine r → r ≡ ok tt
  Fine-ok (ok tt) h = refl
  Fine-ok (err e) h = absurd h

  jumps_suffice : (node : String) → Lands (HopsFrom 0) (goto_node env meta fuel node)
  unfolding goto_node
  jumps_suffice node = Lands-goto_ivr jump_fuel 0 node (omega arith) (omega arith)

  -- With the fuel of `goto_node` and `run_current`, a jump to any node and the run of the current node
  -- report no error, whatever the flow looks like, whatever hops the call has behind it and whatever
  -- the ports answer: their fuel never runs out.
  pub jump_fuel_suffices :
      (node : String) (c : Cell)
      → ((goto_node env meta fuel node c).0 ≡ ok tt) × ((run_current env meta fuel c).0 ≡ ok tt)
  unfolding run_current
  jump_fuel_suffices node c =
      let zero_hops : HopsFrom 0 c = record { passed = PassedLive-zero c.live } in
      (
        Fine-ok _ ((jumps_suffice node).at c zero_hops),
        Fine-ok _ (
            (Lands-run_ivr_node 0 env meta fuel _
                (λ next. Lands-goto_ivr jump_fuel 0 next (omega arith) (omega arith))).at
              c zero_hops),
      )
