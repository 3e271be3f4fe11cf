-- ===== src/Control/Direct/Counting.antt =====
-- How many legs a call has after the requests of control/direct.go that add and take out one.
use mathlib.Core.Option.{some-injective}
use open_voip.Base.{
  ℕ, String, ◌≤◌, ◌≡◌, refl, sym, ap, ◌∙◌, subst, Bool-cases, inl, inr, Option, none, some, List,
  [], ◌∷◌, ◌++◌, ◌==◌, if◌then◌else◌, length, length-append, leb, arith,
}
use open_voip.Errs.{Err}
use open_voip.Ports.{CallLegRecord}
use open_voip.CallStore.{delete_leg, get_leg, insert_leg, put_leg_rows}
use open_voip.Commands.{put_commands}
use open_voip.Control.State.{Cell, Ctx, Env, Result, RuntimeCall, ok, err}
use open_voip.Control.Exec.{Exec, fail, continue, modify, update_live, ◌>>=◌}
use open_voip.Control.Exec.Keeps.{
  IgnoresLog, Keeps, Keeps-fail, Keeps-fresh_id, Keeps-ignore, keep_after, Keeps-if, Keeps-now,
  Keeps-with_this_live, keeps_rules,
}
use open_voip.Control.Frame.{IsQuiet, Keeps-publish_call}
use open_voip.Control.Mutation.Keeps.{Keeps-run_idempotent}
use open_voip.Control.Direct.{
  DirectLegRequest, add_direct_leg, direct_leg, drop_first, is_closed, join_leg, leave_direct_leg,
  leave_direct_leg_once,
}

abbrev pub HasAtMost : ℕ → Cell → Type 0
HasAtMost n c = (rt : RuntimeCall) → c.live ≡ some rt → length rt.legs ≤ n

-- An update of the live entry, by the number of its legs.
pub HasAtMost-modify :
    (f : RuntimeCall → RuntimeCall) {m n : ℕ}
    → ((rt : RuntimeCall) → length rt.legs ≤ m → length (f rt).legs ≤ n)
    → (c : Cell) → HasAtMost m c
    → HasAtMost n (modify f c).1
unfolding modify
HasAtMost-modify f {m} {n} k c h = go c.live refl
  where
    go : (o : Option RuntimeCall) → c.live ≡ o → HasAtMost n (update_live f o c).1
    go none e rt l = absurd (cc)
    go (some r) e rt l =
        subst (λ (q : RuntimeCall). length q.legs ≤ n) (some-injective _ _ l) (k r (h r e))

module _ {n : ℕ} where
  pub IgnoresLog-HasAtMost : IgnoresLog (HasAtMost n)
  IgnoresLog-HasAtMost = record { logs = λ c l h. h }

  Keeps-put : (l : List CallLegRecord) → Keeps (HasAtMost n) (put_leg_rows l)
  unfolding put_leg_rows
  Keeps-put l = record { at = λ c h. h }

  pub IsQuiet-HasAtMost : IsQuiet (HasAtMost n)
  IsQuiet-HasAtMost = record {
    logs = IgnoresLog-HasAtMost;
    notes = λ id note. record { at = HasAtMost-modify _ λ rt h. h };
  }

-- What holds after a first part that leads from one bound to the other holds after the rest.
after_first :
    {A B : Type 0} {m n : ℕ} (first : Exec A) (rest : A → Exec B)
    → m ≤ n
    → Keeps (HasAtMost m) first
    → ((a : A) (c : Cell) → HasAtMost m c → HasAtMost n (rest a c).1)
    → (c : Cell) → HasAtMost m c
    → HasAtMost n ((first >>= rest) c).1
unfolding ◌>>=◌
after_first {A} {B} {m} {n} first rest le kept leads c h = go (first c).0 (first c).1 (kept.at c h)
  where
    go : (r : Result A) (d : Cell) → HasAtMost m d → HasAtMost n (continue r rest d).1
    go (ok a) d h = leads a d h
    go (err e) d h = λ rt l. omega (arith, le, h rt l)

module _ (env : Env) where
  Keeps-insert_leg : {n : ℕ} (leg : CallLegRecord) → Keeps (HasAtMost n) (insert_leg env leg)
  unfolding insert_leg
  Keeps-insert_leg leg = search (keeps_rules, IgnoresLog-HasAtMost, Keeps-put) depth 12

  -- One leg more.
  join_leg-HasAtMost :
      (req : DirectLegRequest) (c : Cell) → HasAtMost 1 c → HasAtMost 2 (join_leg env req c).1
  unfolding join_leg
  join_leg-HasAtMost req = after_first _ _ (omega arith) (Keeps-fresh_id env) λ leg_id.
      after_first _ _ (omega arith) (Keeps-now env) λ t.
        after_first _ _ (omega arith) (Keeps-insert_leg _) λ _ c h.
          keep_after {P = HasAtMost 2} _ _ c
            (HasAtMost-modify (λ r. record r { legs = r.legs ++ direct_leg env req leg_id t ∷ [] })
              {n = 2}
              (λ rt k. omega (arith, k, length-append rt.legs (direct_leg env req leg_id t ∷ []))) c
              h)
            λ _. Keeps-ignore _ (Keeps-publish_call IsQuiet-HasAtMost env _ _ _)

  guarded_join :
      (req : DirectLegRequest) (shut full : Err) (rt : RuntimeCall) (c : Cell)
      → c.live ≡ some rt
      → HasAtMost 2 c
      → HasAtMost 2
          ((if is_closed rt
              then fail shut
              else if leb 2 (length rt.legs)
              then fail full
              else join_leg env req)
            c).1
  unfolding fail
  guarded_join req shut full rt c l h = elim (Bool-cases (is_closed rt)) [
    | inl closed ↦ rw closed h
    | inr live ↦ elim (Bool-cases (leb 2 (length rt.legs))) [
      | inl two ↦ rw (live, two) h
      | inr room ↦
          rw (live, room)
            (join_leg-HasAtMost req c λ r k.
              let same : length rt.legs ≡ length r.legs =
                ap (λ (q : RuntimeCall). length q.legs) (some-injective _ _ (sym l ∙ k)) in
              ground arith)
    ]
  ]

  pub Keeps-add_direct_leg : (req : DirectLegRequest) → Keeps (HasAtMost 2) (add_direct_leg env req)
  unfolding add_direct_leg
  Keeps-add_direct_leg req =
      Keeps-if _ _ _ (Keeps-fail _)
        (Keeps-with_this_live _ _ (Keeps-fail _) λ rt c l h. guarded_join req _ _ rt c l h)

  length-drop_first :
      (id : String) (ls : List CallLegRecord) → length (drop_first id ls) ≤ length ls
  unfolding drop_first
  length-drop_first id [] = omega arith
  length-drop_first id (l ∷ ls) = elim (Bool-cases (l.id == id)) [
    | inl e ↦ rw e omega arith
    | inr e ↦ rw e omega (arith, length-drop_first id ls)
  ]

  Keeps-drop :
      {n : ℕ} (id : String)
      → Keeps (HasAtMost n) (modify (λ r. record r { legs = drop_first id r.legs }))
  Keeps-drop {n} id = record {
    at = HasAtMost-modify _ {n = n} λ rt h. omega (arith, h, length-drop_first id rt.legs);
  }

  Keeps-leave_direct_leg_once :
      {n : ℕ} (leg_id : String) → Keeps (HasAtMost n) (leave_direct_leg_once env leg_id)
  unfolding leave_direct_leg_once get_leg delete_leg
  Keeps-leave_direct_leg_once leg_id =
      search
        (
          keeps_rules,
          IgnoresLog-HasAtMost,
          Keeps-put,
          Keeps-drop leg_id,
          Keeps-publish_call IsQuiet-HasAtMost env,
        )
        depth 30 fits 8000

  pub Keeps-leave_direct_leg :
      {n : ℕ} (ctx : Ctx) (leg_id : String) → Keeps (HasAtMost n) (leave_direct_leg env ctx leg_id)
  unfolding leave_direct_leg put_commands
  Keeps-leave_direct_leg ctx leg_id =
      Keeps-run_idempotent env IgnoresLog-HasAtMost (λ t. record { at = λ c h. h }) _
        (Keeps-leave_direct_leg_once leg_id) ctx _ _
