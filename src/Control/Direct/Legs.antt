-- ===== src/Control/Direct/Legs.antt =====
-- How many legs a call has that is controlled leg by leg.
use open_voip.Base.{
  ◌<◌, ◌≡◌, ◌≢◌, ◌⊎◌, Option-cases, none, true, false, Bool-cases, inl, inr, some, length, leb,
  arith,
}
use open_voip.Errs.{Err, api, conflict_error, invalid_request_error}
use open_voip.Ports.{LegRole, ended}
use open_voip.Control.Transition.{is_ended}
use open_voip.Control.State.{Cell, Env, RuntimeCall, err}
use open_voip.Control.Exec.{fail, with_live}
use open_voip.Control.Direct.{DirectLegRequest, add_direct_leg, is_closed, is_direct_role, join_leg}

-- The four roles that a leg of a direct call may have.
abbrev pub Directs : LegRole → Type 0
Directs r =
    (r ≡ LegRole.customer)
    ⊎ (r ≡ LegRole.agent)
    ⊎ (r ≡ LegRole.supervisor)
    ⊎ (r ≡ LegRole.application)

-- What a direct call may be given a leg for: the role is one of the four, the call has not ended, it is in
-- no queue, and it has less than two legs.
pub record MayJoin (req : DirectLegRequest) (rt : RuntimeCall) : Type 0 where
  pub role : Directs req.role
  pub going : rt.rec.state ≢ ended
  pub unqueued : rt.rec.queue_id ≡ none
  pub room : length rt.legs < 2

role-Directs : (r : LegRole) → is_direct_role r ≡ true → Directs r
unfolding is_direct_role
role-Directs LegRole.customer h = inl (λ i. LegRole.customer)
role-Directs LegRole.agent h = inr (inl (λ i. LegRole.agent))
role-Directs LegRole.supervisor h = inr (inr (inl (λ i. LegRole.supervisor)))
role-Directs LegRole.application h = inr (inr (inr (λ i. LegRole.application)))
role-Directs LegRole.ivr_bot h = absurd (cc)
role-Directs LegRole.pstn h = absurd (cc)

going_of : (rt : RuntimeCall) → is_closed rt ≡ false → rt.rec.state ≢ ended
unfolding is_closed is_ended
going_of rt h = ground arith

unqueued_of : (rt : RuntimeCall) → is_closed rt ≡ false → rt.rec.queue_id ≡ none
unfolding is_closed
unqueued_of rt h = elim (Option-cases rt.rec.queue_id) [
  | inl e ↦ e
  | inr (q, e) ↦ ground (arith, e)
]

module _ (env : Env) (req : DirectLegRequest) (rt : RuntimeCall) (c : Cell)
    (l : c.live ≡ some rt) where
  -- To a live call a leg is added only where the role is one of the four and the call has not ended, is in
  -- no queue and has less than two legs; any other request is refused and changes nothing.
  pub add_direct_leg_guarded :
      (MayJoin req rt × (add_direct_leg env req c ≡ join_leg env req c))
      ⊎ ((e : Err) × (add_direct_leg env req c ≡ (err e, c)))
  unfolding add_direct_leg with_live fail
  add_direct_leg_guarded = elim (Bool-cases (is_direct_role req.role)) [
    | inr other ↦
        inr (api (invalid_request_error "role 只支持 customer、agent、supervisor、application"), rw other)
    | inl known ↦ elim (Bool-cases (is_closed rt)) [
      | inl shut ↦ inr (api (conflict_error "通话不可添加直接控制腿" ""), rw (known, l) (rw shut))
      | inr live ↦ elim (Bool-cases (leb 2 (length rt.legs))) [
        | inl full ↦
            inr (api (conflict_error "直接控制通话最多支持两个媒体腿" ""), rw (known, l) (rw (live, full)))
        | inr room ↦ inl (
          record {
            role = role-Directs req.role known;
            going = going_of rt live;
            unqueued = unqueued_of rt live;
            room = ground arith;
          },
          rw (known, l) (rw (live, room)),
        )
      ]
    ]
  ]
