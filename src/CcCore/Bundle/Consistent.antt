-- ===== src/CcCore/Bundle/Consistent.antt =====
-- A configuration that `validateBundle` accepts is consistent: no id stands twice, and what a part refers to
-- is there.
use open_voip.Base.{
  String, ◌==◌, ◌≡◌, refl, sym, subst, eq_iff, contains, IsDistinct, All, if◌then◌else◌, Bool-cases,
  true, false, not, ◌&&◌, inl, inr, none, List, [], ◌∷◌, arith,
}
use open_voip.CcCore.{Library}
use open_voip.CcCore.Config.{
  AgentConfig, ConfigBundle, DidConfig, IvrConfig, QueueConfig, SkillConfig,
}
use open_voip.CcCore.Bundle.{
  agent_fault, agent_ids, agents_fault, all_links_fault, did_fault, did_target_fault, dids_fault,
  flow_fault, flow_ids, flows_fault, has_stranger, links_fault, queue_config_fault, queue_ids,
  queues_fault, route_key, skill_fault, skill_ids, skills_fault, validate_bundle,
}
use open_voip.CcCore.Bundle.Fresh.{Fresh, Fresh-IsDistinct}
use open_voip.CcCore.Faults.{first_fault-none}
use open_voip.CcCore.Validation.{validate_ivr}

-- The keys that must differ.
abbrev pub extensions_of : List AgentConfig → List String
extensions_of [] = []
extensions_of (a ∷ as') = a.extension ∷ extensions_of as'

abbrev pub route_keys : List DidConfig → List String
route_keys [] = []
route_keys (d ∷ ds) = route_key d ∷ route_keys ds

-- A route leads to a queue or a flow of the configuration.
abbrev pub IsRouted : List String → List String → DidConfig → Type 0
IsRouted queues flows d =
    ((d.target_type == "queue") ≡ true → contains d.target_id queues ≡ true)
    × ((d.target_type == "ivr") ≡ true → contains d.target_id flows ≡ true)

-- A queue overflows into another queue of the configuration, and its flows, skills and agents are there.
abbrev pub IsLinked : List String → List String → List String → List String → QueueConfig → Type 0
IsLinked queues skills agents flows q =
    ((q.overflow_queue_id == "") ≡ false
      → (contains q.overflow_queue_id queues && not (q.overflow_queue_id == q.id)) ≡ true)
    × ((q.ivr_flow_id == "") ≡ false → contains q.ivr_flow_id flows ≡ true)
    × ((q.post_call_ivr_flow_id == "") ≡ false → contains q.post_call_ivr_flow_id flows ≡ true)
    × (has_stranger skills q.skill_ids ≡ false)
    × (has_stranger agents q.agent_ids ≡ false)

pub record IsConsistent (lib : Library) (b : ConfigBundle) : Type 0 where
  pub queues_differ : IsDistinct (queue_ids b.queues)
  pub skills_differ : IsDistinct (skill_ids b.skills)
  pub agents_differ : IsDistinct (agent_ids b.agents)
  pub extensions_differ : IsDistinct (extensions_of b.agents)
  pub flows_differ : IsDistinct (flow_ids b.ivrs)
  pub routes_differ : IsDistinct (route_keys b.dids)
  pub agents_skilled : All (λ a. has_stranger (skill_ids b.skills) a.skill_ids ≡ false) b.agents
  pub flows_accepted :
      All
        (λ i. validate_ivr lib (λ q. contains q (queue_ids b.queues)) i.payload_json ≡ none)
        b.ivrs
  pub routes_lead : All (IsRouted (queue_ids b.queues) (flow_ids b.ivrs)) b.dids
  pub queues_linked :
      All
        (IsLinked (queue_ids b.queues) (skill_ids b.skills) (agent_ids b.agents) (flow_ids b.ivrs))
        b.queues

not_flow : (t : String) → (t == "queue") ≡ true → (t == "ivr") ≡ false
not_flow t e = subst (λ s. (s == "ivr") ≡ false) (sym ((eq_iff t "queue").0 e)) refl

module _ (lib : Library) where
  queue_config-new :
      (seen : List String) (q : QueueConfig)
      → queue_config_fault lib seen q ≡ none
      → contains q.id seen ≡ false
  unfolding queue_config_fault
  queue_config-new seen q h = ground arith

  agent-new :
      (skills ids extensions users : List String) (a : AgentConfig)
      → agent_fault lib skills ids extensions users a ≡ none
      → (contains a.id ids ≡ false)
        × (contains a.extension extensions ≡ false)
        × (has_stranger skills a.skill_ids ≡ false)
  unfolding agent_fault
  agent-new skills ids extensions users a h = ground arith

  flow-new :
      (queues seen : List String) (i : IvrConfig)
      → flow_fault lib queues seen i ≡ none
      → (contains i.flow_id seen ≡ false)
        × (validate_ivr lib (λ q. contains q queues) i.payload_json ≡ none)
  unfolding flow_fault
  flow-new queues seen i h = ground arith

  skill-new :
      (seen : List String) (s : SkillConfig)
      → skill_fault lib seen s ≡ none
      → contains s.id seen ≡ false
  unfolding skill_fault
  skill-new seen s h = ground arith

  did-new :
      (queues flows seen : List String) (d : DidConfig)
      → did_fault lib queues flows seen d ≡ none
      → (contains (route_key d) seen ≡ false) × IsRouted queues flows d
  unfolding did_fault did_target_fault
  did-new queues flows seen d h = elim (Bool-cases (d.target_type == "queue")) [
    | inl e ↦ let other = not_flow d.target_type e in ground arith
    | inr e ↦ ground arith
  ]

  queues-Fresh :
      (seen : List String) (qs : List QueueConfig)
      → queues_fault lib seen qs ≡ none
      → Fresh seen (queue_ids qs)
  unfolding queues_fault queue_ids
  queues-Fresh seen [] h = tt
  queues-Fresh seen (q ∷ qs) h =
      let split =
        (first_fault-none (queue_config_fault lib seen q) (queues_fault lib (q.id ∷ seen) qs)).0
          h in
      (queue_config-new seen q split.0, queues-Fresh (q.id ∷ seen) qs split.1)

  skills-Fresh :
      (seen : List String) (ss : List SkillConfig)
      → skills_fault lib seen ss ≡ none
      → Fresh seen (skill_ids ss)
  unfolding skills_fault skill_ids
  skills-Fresh seen [] h = tt
  skills-Fresh seen (s ∷ ss) h =
      let split =
        (first_fault-none (skill_fault lib seen s) (skills_fault lib (s.id ∷ seen) ss)).0 h in
      (skill-new seen s split.0, skills-Fresh (s.id ∷ seen) ss split.1)

  agents-Fresh :
      (skills ids extensions users : List String) (as' : List AgentConfig)
      → agents_fault lib skills ids extensions users as' ≡ none
      → Fresh ids (agent_ids as')
        × Fresh extensions (extensions_of as')
        × All (λ a. has_stranger skills a.skill_ids ≡ false) as'
  unfolding agents_fault agent_ids
  agents-Fresh skills ids extensions users [] h = (tt, tt, tt)
  agents-Fresh skills ids extensions users (a ∷ as') h =
      let next = if a.sip_username == "" then users else a.sip_username ∷ users in
      let split =
        (first_fault-none (agent_fault lib skills ids extensions users a)
            (agents_fault lib skills (a.id ∷ ids) (a.extension ∷ extensions) next as')).0
          h in
      let here = agent-new skills ids extensions users a split.0 in
      let later = agents-Fresh skills (a.id ∷ ids) (a.extension ∷ extensions) next as' split.1 in
      ((here.0, later.0), (here.1, later.1), (here.2, later.2))

  flows-Fresh :
      (queues seen : List String) (is : List IvrConfig)
      → flows_fault lib queues seen is ≡ none
      → Fresh seen (flow_ids is)
        × All (λ i. validate_ivr lib (λ q. contains q queues) i.payload_json ≡ none) is
  unfolding flows_fault flow_ids
  flows-Fresh queues seen [] h = (tt, tt)
  flows-Fresh queues seen (i ∷ is) h =
      let split =
        (first_fault-none (flow_fault lib queues seen i)
            (flows_fault lib queues (i.flow_id ∷ seen) is)).0
          h in
      let here = flow-new queues seen i split.0 in
      let later = flows-Fresh queues (i.flow_id ∷ seen) is split.1 in
      ((here.0, later.0), (here.1, later.1))

  dids-Fresh :
      (queues flows seen : List String) (ds : List DidConfig)
      → dids_fault lib queues flows seen ds ≡ none
      → Fresh seen (route_keys ds) × All (IsRouted queues flows) ds
  unfolding dids_fault
  dids-Fresh queues flows seen [] h = (tt, tt)
  dids-Fresh queues flows seen (d ∷ ds) h =
      let split =
        (first_fault-none (did_fault lib queues flows seen d)
            (dids_fault lib queues flows (route_key d ∷ seen) ds)).0
          h in
      let here = did-new queues flows seen d split.0 in
      let later = dids-Fresh queues flows (route_key d ∷ seen) ds split.1 in
      ((here.0, later.0), (here.1, later.1))

links-IsLinked :
    (queues skills agents flows : List String) (q : QueueConfig)
    → links_fault queues skills agents flows q ≡ none
    → IsLinked queues skills agents flows q
unfolding links_fault
links-IsLinked queues skills agents flows q h = ground arith

each-IsLinked :
    (queues skills agents flows : List String) (qs : List QueueConfig)
    → all_links_fault queues skills agents flows qs ≡ none
    → All (IsLinked queues skills agents flows) qs
unfolding all_links_fault
each-IsLinked queues skills agents flows [] h = tt
each-IsLinked queues skills agents flows (q ∷ qs) h =
    let split =
      (first_fault-none (links_fault queues skills agents flows q)
          (all_links_fault queues skills agents flows qs)).0
        h in
    (
      links-IsLinked queues skills agents flows q split.0,
      each-IsLinked queues skills agents flows qs split.1,
    )

-- A configuration that was accepted is consistent: the ids of its queues, of its skills, of its agents and of
-- its flows differ, and so do extensions and routes; every flow was validated against its queues;
-- routes lead to its queues and flows; a queue overflows into another queue of it; and the skills, agents
-- and flows that its agents and queues name are there.
pub validate_bundle-IsConsistent :
    (lib : Library) (b : ConfigBundle) → validate_bundle lib b ≡ none → IsConsistent lib b
unfolding validate_bundle
validate_bundle-IsConsistent lib b h =
    let s1 = (first_fault-none (queues_fault lib [] b.queues) _).0 h in
    let s2 = (first_fault-none (skills_fault lib [] b.skills) _).0 s1.1 in
    let s3 =
      (first_fault-none (agents_fault lib (skill_ids b.skills) [] [] [] b.agents) _).0 s2.1 in
    let s4 = (first_fault-none (flows_fault lib (queue_ids b.queues) [] b.ivrs) _).0 s3.1 in
    let s5 =
      (first_fault-none (dids_fault lib (queue_ids b.queues) (flow_ids b.ivrs) [] b.dids) _).0
        s4.1 in
    let agents = agents-Fresh lib (skill_ids b.skills) [] [] [] b.agents s3.0 in
    let flows = flows-Fresh lib (queue_ids b.queues) [] b.ivrs s4.0 in
    let dids = dids-Fresh lib (queue_ids b.queues) (flow_ids b.ivrs) [] b.dids s5.0 in
    record {
      queues_differ = Fresh-IsDistinct [] _ (queues-Fresh lib [] b.queues s1.0);
      skills_differ = Fresh-IsDistinct [] _ (skills-Fresh lib [] b.skills s2.0);
      agents_differ = Fresh-IsDistinct [] _ agents.0;
      extensions_differ = Fresh-IsDistinct [] _ agents.1;
      flows_differ = Fresh-IsDistinct [] _ flows.0;
      routes_differ = Fresh-IsDistinct [] _ dids.0;
      agents_skilled = agents.2;
      flows_accepted = flows.1;
      routes_lead = dids.1;
      queues_linked = each-IsLinked _ _ _ _ b.queues s5.1;
    }
