-- ===== src/CcCore/Validation/Booting.antt =====
-- Publishing and running fit together: what `validateIVR` accepts, `parseIVRPayload` of control/ivr.go takes.
use open_voip.Base.{
  String, ◌==◌, eq_iff, subst, sym, ◌≡◌, refl, Bool, Bool-cases, true, ◌||◌, inl, inr, none, some,
  All, List, [], ◌∷◌, arith,
}
use open_voip.Base.Int.{ltb_ℤ, pos}
use open_voip.Ivr.{IvrDoc, IvrNode}
use open_voip.CcCore.{Library}
use open_voip.CcCore.Faults.{guard-none, otherwise}
use open_voip.CcCore.Nodes.{bad_retries, node_fault, type_fault}
use open_voip.CcCore.Validation.{doc_fault}
use open_voip.CcCore.Validation.Exact.{validation_exact}
use open_voip.Control.State.{Cell, Env, ok}
use open_voip.Control.Exec.{pure, with_option}
use open_voip.Control.Ivr.Inputs.{first_unsupported, is_supported, parse_ivr_payload}

-- The types that the engine supports.
module _ (typ : String) where
  one_of : (s : String) → (typ == s) ≡ true → is_supported s ≡ true → is_supported typ ≡ true
  one_of s e h = subst (λ t. is_supported t ≡ true) (sym ((eq_iff typ s).0 e)) h

  either_of :
      (s t : String)
      → (typ == s || typ == t) ≡ true
      → is_supported s ≡ true
      → is_supported t ≡ true
      → is_supported typ ≡ true
  either_of s t e hs ht = elim (Bool-cases (typ == s)) [
    | inl k ↦ one_of s k hs
    | inr k ↦ one_of t (ground arith) ht
  ]

module _ (lib : Library) (queues : String → Bool) where
  type_fault-is_supported :
      (node : IvrNode) → type_fault lib queues node ≡ none → is_supported node.typ ≡ true
  unfolding type_fault is_supported
  type_fault-is_supported node h =
      otherwise _ _ _ h (λ e. either_of node.typ "hangup" "voicemail" e refl refl)
        λ n1 h1.
          otherwise _ _ _ h1 (λ e. one_of node.typ "route_queue" e refl)
            λ n2 h2.
              otherwise _ _ _ h2 (λ e. one_of node.typ "play" e refl)
                λ n3 h3.
                  otherwise _ _ _ h3 (λ e. either_of node.typ "menu" "business_action" e refl refl)
                    λ n4 h4.
                      otherwise _ _ _ h4 (λ e. one_of node.typ "time_condition" e refl)
                        λ n5 h5.
                          otherwise _ _ _ h5 (λ e. one_of node.typ "queue_condition" e refl)
                            λ n6 h6.
                              otherwise _ _ _ h6 (λ e. one_of node.typ "collect_input" e refl)
                                λ n7 h7.
                                  otherwise _ _ _ h7
                                    (λ e. either_of node.typ "tts" "asr" e refl refl)
                                    (λ n8 h8. absurd (cc h8))

  passes-is_supported :
      (node : IvrNode) → node_fault lib queues node ≡ none → is_supported node.typ ≡ true
  unfolding node_fault
  passes-is_supported node h =
      let retried = (guard-none (bad_retries node.max_retries) "IVR 无效按键重试必须为 0–5 次" _).0 h in
      let timed =
        (guard-none (ltb_ℤ node.timeout_sec (pos 0) || ltb_ℤ (pos 120) node.timeout_sec)
            "IVR 超时必须为 0–120 秒" _).0
          retried.1 in
      type_fault-is_supported node timed.1

  first_unsupported-none :
      (nodes : List (String × IvrNode))
      → All (λ n. node_fault lib queues n.1 ≡ none) nodes
      → first_unsupported nodes ≡ none
  unfolding first_unsupported
  first_unsupported-none [] h = refl
  first_unsupported-none ((id, node) ∷ rest) h =
      rw (passes-is_supported node h.0) (first_unsupported-none rest h.1)

  -- A payload that reads as the same flow when it is published and when it is run, and that passed
  -- the validation, is taken by the engine as it is.
  pub published_flow_parses :
      (env : Env) (doc : IvrDoc) (payload : String) (c : Cell)
      → env.parse_doc payload ≡ some doc
      → doc_fault lib queues doc ≡ none
      → parse_ivr_payload env payload c ≡ (ok doc, c)
  unfolding parse_ivr_payload with_option pure
  published_flow_parses env doc payload c e h =
      let p = (validation_exact lib queues doc).0 h in
      simp (e, p.start_named, p.starts, first_unsupported-none doc.nodes p.nodes_pass)
