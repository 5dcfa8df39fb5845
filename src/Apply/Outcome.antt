-- ===== src/Apply/Outcome.antt =====
-- What becomes of the steps of a plan that is applied.
use mathlib.Core.Option.{some-injective}
use re_infra.Base.{
  ℕ, suc, ◌+◌, String, ◌≡◌, ◌≢◌, refl, subst, ◌∙◌, inl, inr, true, false, Option, none, some, List,
  [], ◌∷◌, arith, All, is_nil, length, Bool-cases, length-append,
}
use re_infra.Base.Sorting.{insert_by, sort_by, length-sort_by, All-insert_by}
use re_infra.Aws.{Error, interrupted, Result, ok, err}
use re_infra.Action.{◌>>=◌, pure, attempt, lift}
use re_infra.Action.Outcomes.{
  Returns, Returns-pure, Returns-lift, Returns-if, Returns-bind, Returns-bind_using, ok_injective,
}
use re_infra.Calls.{History, Client}
use re_infra.EnvConfig.{EnvConfig}
use re_infra.Planner.{
  ActionKind, blocked, delete, create, update, noop, StackSpec, stack_specs, is_halting, Step, Plan,
  halting,
}
use re_infra.Apply.{
  skipped, was_blocked, failed, ApplyResult, Applied, applied, is_delete, runs_before, run_kind,
  Progress, add_failure, settle, run_step, visit, run_steps, start, ordered, run_ordered,
  apply_plan,
}

-- The number of steps that are accounted for.
abbrev counted : ApplyResult → ℕ
counted r = length r.completed + length r.failures

counted-settle :
    (step : Step) (r : Result (Unit {0})) (p q : Progress)
    → settle step r p ≡ ok q
    → counted q.result ≡ suc (counted p.result)
unfolding settle
counted-settle step (ok u) p q h =
    subst (λ (x : Progress). counted x.result ≡ suc (counted p.result)) (ok_injective _ q h)
      (omega (arith, length-append p.result.completed (step.target ∷ [])))
counted-settle step (err interrupted) p q h = cc
counted-settle step (err e) p q h =
    subst (λ (x : Progress). counted x.result ≡ suc (counted p.result)) (ok_injective _ q h)
      (ground (arith, length-append p.result.failures (failed step.target e ∷ [])))

module _ (client : Client) (config : EnvConfig) where
  abbrev CountsOne : Progress → Progress → Type 0
  CountsOne p q = counted q.result ≡ suc (counted p.result)

  counted-run_step :
      (step : Step) (kind : ActionKind) (p : Progress)
      → Returns (CountsOne p) (run_step client config step kind p)
  unfolding run_step
  counted-run_step step blocked p =
      Returns-pure (CountsOne p) _
        (omega (arith, length-append p.result.failures (was_blocked step.target ∷ [])))
  counted-run_step step kind p =
      Returns-bind (CountsOne p) _ _
        (λ done. Returns-lift (CountsOne p) _ (λ q h. counted-settle step done p q h))

  counted-visit :
      (step : Step) (foundation : Option String) (p : Progress)
      → Returns (CountsOne p) (visit client config step foundation p)
  unfolding visit
  counted-visit step none p = counted-run_step step step.kind p
  counted-visit step (some f) p =
      Returns-pure (CountsOne p) _
        (omega (arith, length-append p.result.failures (skipped step.target f ∷ [])))

  counted-run_steps :
      (steps : List Step) (p : Progress)
      → Returns
          (λ (q : Progress). counted q.result ≡ counted p.result + length steps)
          (run_steps client config steps p)
  unfolding run_steps
  counted-run_steps [] p = Returns-pure _ p (omega arith)
  counted-run_steps (step ∷ steps) p =
      Returns-bind_using
        (λ (q : Progress). counted q.result ≡ counted p.result + suc (length steps)) (CountsOne p) _
        _ (counted-visit step p.foundation_failed p)
        (λ p' one. record {
          holds = λ past q h. omega (arith, one, (counted-run_steps steps p').holds past q h);
        })

  abbrev AllCounted : Plan → Applied → Type 0
  AllCounted plan outcome =
      (r : ApplyResult)
      → outcome ≡ applied r
      → (is_nil (halting plan) ≡ true)
        × (length r.completed + length r.failures ≡ length plan.actions)

  applied_inj : (a b : ApplyResult) → applied a ≡ applied b → a ≡ b
  applied_inj a b h = cc

  counted_sorted :
      (plan : Plan) (q : Progress)
      → is_nil (halting plan) ≡ true
      → counted q.result ≡ 0 + length (ordered client config plan)
      → AllCounted plan (applied q.result)
  counted_sorted plan q e n r h = (
    e,
    subst (λ (x : ApplyResult). length x.completed + length x.failures ≡ length plan.actions)
        (applied_inj q.result r h)
        (omega (arith, n, length-sort_by (runs_before (stack_specs config)) plan.actions)),
  )

  apply_plan-Returns : (plan : Plan) → Returns (AllCounted plan) (apply_plan client config plan)
  unfolding apply_plan run_ordered
  apply_plan-Returns plan =
      Returns-if (AllCounted plan) (is_nil (halting plan)) _ _
        (λ e.
          Returns-bind_using (AllCounted plan) _ _ _
            (counted-run_steps (ordered client config plan) (start client config))
            (λ q n. Returns-pure (AllCounted plan) _ (counted_sorted plan q e n)))
        (λ _. Returns-pure (AllCounted plan) _ (λ r h. cc))

  -- A plan is applied only if nothing in it halts, and then each of its steps is counted once:
  -- as completed, or as failed, blocked or skipped.
  pub counted-apply_plan :
      (plan : Plan) (past : History) (r : ApplyResult)
      → (apply_plan client config plan past).0 ≡ ok (applied r)
      → (is_nil (halting plan) ≡ true)
        × (length r.completed + length r.failures ≡ length plan.actions)
  counted-apply_plan plan past r h = (apply_plan-Returns plan).holds past (applied r) h r refl

  visit-skipped :
      (step : Step) (foundation : Option String) (p : Progress) (past : History) (f : String)
      → foundation ≡ some f
      → visit client config step foundation p past
        ≡ (ok (add_failure (skipped step.target f) p), past)
  unfolding visit pure
  visit-skipped step none p past f e = cc
  visit-skipped step (some g) p past f e = rw (some-injective g f e)

  visit-none :
      (step : Step) (foundation : Option String) (p : Progress) (past : History)
      → foundation ≡ none
      → visit client config step foundation p past ≡ run_step client config step step.kind p past
  unfolding visit
  visit-none step none p past e = refl
  visit-none step (some g) p past e = cc

  -- The steps end with what was completed and called before them.
  abbrev pub StopsAt : History → Progress → List Step → Progress → History → Type 0
  StopsAt now before steps p past =
      (q : Progress) × (run_steps client config steps p past ≡ (ok q, now))
      × (q.result.completed ≡ before.result.completed)

  -- Once a foundation has failed, the steps that are left call nothing and complete nothing.
  run_steps-skipped :
      (steps : List Step) (p : Progress) (past : History) (f : String)
      → p.foundation_failed ≡ some f
      → StopsAt past p steps p past
  unfolding run_steps ◌>>=◌ pure
  run_steps-skipped [] p past f e = (p, refl, refl)
  run_steps-skipped (step ∷ steps) p past f e =
      rw (visit-skipped step p.foundation_failed p past f e)
        (run_steps-skipped steps (add_failure (skipped step.target f) p) past f e)

  settle-failed :
      (step : Step) (e : Error) (p : Progress)
      → e ≢ interrupted
      → is_delete step.kind ≡ false
      → is_halting step.target ≡ true
      → settle step (err e) p
        ≡ ok
            (record (add_failure (failed step.target e) p) { foundation_failed = some step.target })
  unfolding settle
  settle-failed step interrupted p other kept halts = absurd (other refl)
  settle-failed step e p other kept halts = rw (kept, halts)

  run_step-failed :
      (step : Step) (kind : ActionKind) (p : Progress) (past now : History) (e : Error)
      → step.kind ≡ kind
      → kind ≢ blocked
      → kind ≢ delete
      → e ≢ interrupted
      → is_halting step.target ≡ true
      → run_kind client config step kind past ≡ (err e, now)
      → run_step client config step kind p past ≡ (
        ok (record (add_failure (failed step.target e) p) { foundation_failed = some step.target }),
        now,
      )
  unfolding run_step ◌>>=◌ attempt lift
  run_step-failed step blocked p past now e same b d other halts ran = absurd (b refl)
  run_step-failed step delete p past now e same b d other halts ran = absurd (d refl)
  run_step-failed step create p past now e same b d other halts ran =
      rw (ran, settle-failed step e p other (rw same) halts)
  run_step-failed step update p past now e same b d other halts ran =
      rw (ran, settle-failed step e p other (rw same) halts)
  run_step-failed step noop p past now e same b d other halts ran =
      rw (ran, settle-failed step e p other (rw same) halts)

  -- If the deployment of the platform or of a protected environment fails, and is not interrupted,
  -- nothing after it is attempted: the run ends without a further call or a further completed step.
  pub run_steps-foundation :
      (step : Step) (steps : List Step) (p : Progress) (past now : History) (e : Error)
      → p.foundation_failed ≡ none
      → step.kind ≢ blocked
      → step.kind ≢ delete
      → e ≢ interrupted
      → is_halting step.target ≡ true
      → run_kind client config step step.kind past ≡ (err e, now)
      → StopsAt now p (step ∷ steps) p past
  unfolding run_steps ◌>>=◌
  run_steps-foundation step steps p past now e sound b d other halts ran =
      rw
        (visit-none step p.foundation_failed p past sound
          ∙ run_step-failed step step.kind p past now e refl b d other halts ran)
        (run_steps-skipped steps
          (record (add_failure (failed step.target e) p) { foundation_failed = some step.target })
          now step.target refl)

-- Behind a deletion there are only deletions.
abbrev pub DeletionsLast : List Step → Type 0
DeletionsLast [] = Unit
DeletionsLast (step ∷ steps) =
    (is_delete step.kind ≡ true → All (λ s. is_delete s.kind ≡ true) steps) × DeletionsLast steps

module _ (specs : List StackSpec) where
  delete_before :
      (a b : Step)
      → runs_before specs a b ≡ true
      → is_delete a.kind ≡ true
      → is_delete b.kind ≡ true
  unfolding runs_before
  delete_before a b h d = ground arith

  delete_after :
      (a b : Step)
      → runs_before specs a b ≡ false
      → is_delete b.kind ≡ true
      → is_delete a.kind ≡ true
  unfolding runs_before
  delete_after a b h d = ground arith

  insert-DeletionsLast :
      (a : Step) (steps : List Step)
      → DeletionsLast steps
      → DeletionsLast (insert_by (runs_before specs) a steps)
  insert-DeletionsLast a [] h = ((λ d. tt), tt)
  insert-DeletionsLast a (b ∷ steps) h = elim (Bool-cases (runs_before specs a b)) [
    | inl e ↦ rw e ((λ d. (delete_before a b e d, h.0 (delete_before a b e d))), h)
    | inr e ↦ rw e (
      (λ d.
          All-insert_by (λ s. is_delete s.kind ≡ true) (runs_before specs) a steps
            (delete_after a b e d) (h.0 d)),
      insert-DeletionsLast a steps h.1,
    )
  ]

  sort-DeletionsLast : (steps : List Step) → DeletionsLast (sort_by (runs_before specs) steps)
  unfolding sort_by
  sort-DeletionsLast [] = tt
  sort-DeletionsLast (step ∷ steps) =
      insert-DeletionsLast step (sort_by (runs_before specs) steps) (sort-DeletionsLast steps)

-- The steps run with every deletion behind every deployment, whatever the plan's own order.
pub ordered-DeletionsLast :
    (client : Client) (config : EnvConfig) (plan : Plan)
    → DeletionsLast (ordered client config plan)
ordered-DeletionsLast client config plan = sort-DeletionsLast (stack_specs config) plan.actions
