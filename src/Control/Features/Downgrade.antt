-- ===== src/Control/Features/Downgrade.antt =====
-- `DowngradeVideo` of control/features.go, which writes the row itself and counts the version in memory
-- afterwards: how it treats the agreement of the two.
use open_voip.Base.{◌+◌, ◌≡◌, refl, ap, subst, Option-cases, none, some, inl, inr}
use open_voip.CallStore.{put_row, update_call, written_row}
use open_voip.Control.State.{Cell, Effect, Env, RuntimeCall}
use open_voip.Control.Exec.{Exec, fail, from_reply, gets, modify, perform, with_option, ◌>>=◌, ◌>>◌}
use open_voip.Control.Exec.Keeps.{
  Keeps, Keeps-bind, Keeps-fail, Keeps-ignore, Keeps-perform, Keeps-with_this_live,
}
use open_voip.Control.Features.{downgrade_video}
use open_voip.Control.Frame.{IsFramed, IsFramed-IsQuiet, Keeps-cdr_upsert, Keeps-publish_call}
use open_voip.Control.Invariant.{Agree, IsOver, IsOver-IsKept, IsSynced, IsSynced-IsKept, Over}

-- `rt.rec.Version++`.
abbrev counted : RuntimeCall → RuntimeCall
counted r = record r { rec = record r.rec { version = r.rec.version + 1 } }

abbrev write_steps : Unit {0}
unfolding update_call put_row written_row modify perform from_reply gets with_option fail ◌>>=◌
write_steps = tt

module _ (env : Env) (rt : RuntimeCall) (rest : Exec (Unit {0})) (c : Cell)
    (e : c.live ≡ some rt) where
  counted-IsSynced :
      Keeps IsSynced rest
      → IsSynced c
      → IsSynced ((update_call env rt.rec >> (modify counted >> rest)) c).1
  unfolding write_steps
  counted-IsSynced k h = elim (Option-cases (env.reply c.log (Effect.update_call rt.rec))) [
    | inr (x, refused) ↦ rw refused (record { agree = h.agree })
    | inl taken ↦ elim (Option-cases c.row) [
      | inl gone ↦ absurd (subst (λ o. Agree o none) e (subst (λ o. Agree c.live o) gone h.agree))
      | inr (old, there) ↦
          let both =
            subst (λ o. Agree o (some old)) e (subst (λ o. Agree c.live o) there h.agree) in
          rw (taken, there) (rw e (k.at _ (record { agree = (refl, ap (λ v. v + 1) both.1) })))
    ]
  ]

  counted-IsOver :
      Keeps IsOver rest
      → IsOver c
      → IsOver ((update_call env rt.rec >> (modify counted >> rest)) c).1
  unfolding write_steps
  counted-IsOver k h = elim (Option-cases (env.reply c.log (Effect.update_call rt.rec))) [
    | inr (x, refused) ↦ rw refused (record { over = h.over })
    | inl taken ↦ elim (Option-cases c.row) [
      | inl gone ↦ absurd (subst (λ o. Over o none) e (subst (λ o. Over c.live o) gone h.over))
      | inr (old, there) ↦
          let both = subst (λ o. Over o (some old)) e (subst (λ o. Over c.live o) there h.over) in
          rw (taken, there) (rw e (k.at _ (record { over = (both.1, both.1) })))
    ]
  ]

module _ {P : Cell → Type 0} (env : Env) (k : IsFramed P)
    (writes : (rt : RuntimeCall) (rest : Exec (Unit {0})) (c : Cell)
      → c.live ≡ some rt
      → Keeps P rest
      → P c
      → P ((update_call env rt.rec >> (modify counted >> rest)) c).1) where
  Keeps-downgrade_video : Keeps P (downgrade_video env)
  unfolding downgrade_video
  Keeps-downgrade_video = Keeps-bind _ _ (k.mods _ (λ rt. (refl, refl))) λ _.
      Keeps-with_this_live _ _ (Keeps-fail _) λ rt c e h.
        writes rt _ c e
          (Keeps-bind _ _ (Keeps-ignore _ (Keeps-perform env _ k.logs)) λ _.
            Keeps-bind _ _ (Keeps-ignore _ (Keeps-cdr_upsert (IsFramed-IsQuiet k) env _))
              λ _. Keeps-publish_call (IsFramed-IsQuiet k) env _ _ _)
          h

module _ (env : Env) where
  pub IsSynced-downgrade_video : Keeps IsSynced (downgrade_video env)
  IsSynced-downgrade_video =
      Keeps-downgrade_video env (IsSynced-IsKept env).framed (counted-IsSynced env)

  pub IsOver-downgrade_video : Keeps IsOver (downgrade_video env)
  IsOver-downgrade_video = Keeps-downgrade_video env (IsOver-IsKept env).framed (counted-IsOver env)
