-- ===== src/Runner/Runs.antt =====
-- Whole runs: the staging directory is removed however a run ends, nothing is translated that a
-- validator refuses, and a run that succeeds has called every node in order.
use tz_oss_interop.Prelude.{
  ◌≡◌, refl, sym, ◌∙◌, ap, subst, inl, inr, ◌⊎◌, false, some, List, [], ◌∷◌, ◌++◌, map, append-nil,
  append_assoc,
}
use tz_oss_interop.Prelude.Text.{Text}
use tz_oss_interop.Errors.{Error, Result, ok, err, Result-cases, EnergyModelValidationError}
use tz_oss_interop.Spec.{NodeSpec, PipelineSpec}
use tz_oss_interop.Pipeline.{State, Events}
use tz_oss_interop.Runner.{
  Call, staged, unstaged, validated, reported, stepped, wrote, World, called, logged, Action,
  continue_with, Factories, reject_untranslatable_input, run_validators, open_source,
  check_and_translate, with_source, run_pipeline,
}
use tz_oss_interop.Runner.Validation.{
  names, IsClean, CanBuild, run_validators_calls, run_validators_iff,
}
use tz_oss_interop.Runner.Translating.{
  translate_state-calls, check_and_translate_refused, check_and_translate_passed,
}

module _ {B M : Type 0} (factories : Factories B M) where
  -- What `checked` is fit for translation after: clean validators, a callback that returns, and no
  -- critical finding.
  abbrev pub IsCheckedFrom :
      PipelineSpec
      → (List EnergyModelValidationError → Result (Unit {0}))
      → (loaded checked : State B) → Type 0
  IsCheckedFrom spec render loaded checked =
      IsClean factories spec.validators loaded checked
      × (render checked.validation_errors ≡ ok tt)
      × (reject_untranslatable_input checked ≡ ok tt)

  -- The calls after staging: validators, the callback, steps and sinks. Where there is a step or a
  -- sink among them the state was checked. On success each of the spec's nodes is among them.
  abbrev pub IsTraceFrom :
      PipelineSpec
      → (List EnergyModelValidationError → Result (Unit {0}))
      → (loaded : State B) → Result (List EnergyModelValidationError)
      → List Call
      → Type 0
  IsTraceFrom spec render loaded result calls =
      (validations steps sinks : List Text) × (findings : List EnergyModelValidationError) × (calls
        ≡ map validated validations
          ++ reported findings ∷ []
          ++ map stepped steps
          ++ map wrote sinks)
      × (((steps ≡ []) × (sinks ≡ []))
          ⊎ ((checked : State B) × IsCheckedFrom spec render loaded checked))
      × ((found : List EnergyModelValidationError)
          → result ≡ ok found
          → (validations ≡ names spec.validators)
            × (steps ≡ names spec.steps)
            × (sinks ≡ names spec.sinks))

  IsClean-CanBuild :
      (nodes : List NodeSpec) (before after : State B)
      → IsClean factories nodes before after
      → CanBuild factories nodes
  IsClean-CanBuild [] before after h = tt
  IsClean-CanBuild (node ∷ nodes) before after (built, h, returned, rest) =
      ((built, h), IsClean-CanBuild nodes (built.0.validate before built.1).1 after rest)

  append_five : (w v r s k : List Call) → w ++ v ++ r ++ s ++ k ≡ w ++ (v ++ r ++ s ++ k)
  append_five w v r s k =
      ap (λ cs. cs ++ k) (ap (λ cs. cs ++ s) (append_assoc w v r) ∙ append_assoc w (v ++ r) s)
      ∙ append_assoc w (v ++ r ++ s) k

  check_and_translate_lem :
      (spec : PipelineSpec) (render : List EnergyModelValidationError → Result (Unit {0}))
      (state : State B) (w : World)
      → (cs : List Call) × ((check_and_translate factories spec (some render) state w).1.calls
          ≡ w.calls ++ cs)
        × IsTraceFrom spec render state
            (check_and_translate factories spec (some render) state w).0
            cs
  check_and_translate_lem spec render state w =
      let (done, findings, calls, all) = run_validators_calls factories state spec render w in
      let next = (run_validators factories state spec (some render) w).1 in
      elim (Result-cases (run_validators factories state spec (some render) w).0) [
        | inl (e, h) ↦
            let stop = check_and_translate_refused factories spec render state w e h in
            let cs = map validated done ++ reported findings ∷ [] ++ [] ++ [] in
            (
              cs,
              rw stop (
                  calls
                  ∙ sym (append-nil _)
                  ∙ sym (append-nil _)
                  ∙ append_five w.calls (map validated done) (reported findings ∷ []) [] []),
              (
                done,
                [],
                [],
                findings,
                refl,
                inl (refl, refl),
                λ found r. absurd (cc (rw stop at r)),
              ),
            )
        | inr (checked, h) ↦
            let go = check_and_translate_passed factories spec render state checked w h in
            let (clean, rendered) =
              (run_validators_iff factories state checked spec render w).0 h in
            let (steps, sinks, calls', cause, all') =
              translate_state-calls factories spec checked next in
            (
              map validated done ++ reported findings ∷ [] ++ map stepped steps ++ map wrote sinks,
              rw go (
                  calls'
                  ∙ ap (λ cs. cs ++ map stepped steps ++ map wrote sinks) calls
                  ∙ append_five w.calls (map validated done) (reported findings ∷ [])
                      (map stepped steps) (map wrote sinks)),
              (
                done,
                steps,
                sinks,
                findings,
                refl,
                elim cause [
                  | inl nothing ↦ inl nothing
                  | inr accepted ↦ inr (checked, (clean, rendered, accepted))
                ],
                λ found r.
                    let (stepped_all, wrote_all) = all' found (rw go at r) in
                    (
                      all (IsClean-CanBuild spec.validators state checked clean),
                      stepped_all,
                      wrote_all,
                    ),
              ),
            )
      ]

  -- The state that the pipeline's source loads.
  abbrev pub IsLoaded : PipelineSpec → Events → State B → Type 0
  IsLoaded spec events loaded =
      (load : Events → Result (State B) × Events) × (open_source factories spec.source ≡ ok load)
      × ((load events).0 ≡ ok loaded)

  with_source_unopened :
      (spec : PipelineSpec) (body : State B → Action (List EnergyModelValidationError)) (w : World)
      (e : Error)
      → open_source factories spec.source ≡ err e
      → with_source factories spec false body w ≡ (err e, w)
  unfolding with_source
  with_source_unopened spec body w e h = rw (h, with_source) refl

  with_source_opened :
      (spec : PipelineSpec) (body : State B → Action (List EnergyModelValidationError)) (w : World)
      (load : Events → Result (State B) × Events)
      → open_source factories spec.source ≡ ok load
      → with_source factories spec false body w ≡ (
          let at = logged (load w.events).1 (called staged w) in
          (
            (continue_with (load w.events).0 body at).0,
            called unstaged (continue_with (load w.events).0 body at).1,
          ))
  unfolding with_source
  with_source_opened spec body w load h = rw (h, with_source) refl

  -- A run with a callback that does not keep its staging directory fails with no call, or stages the
  -- source, calls what follows, and removes the staging directory last, however the run ends. What
  -- follows is nothing where the load fails; else it is validators, the callback, steps and sinks, in
  -- this order. A step or a sink is called only where every validator returned, the callback did, and
  -- no finding is critical; and a run that succeeds calls each validator, step and sink of the spec.
  pub run_pipeline_trace :
      (spec : PipelineSpec) (render : List EnergyModelValidationError → Result (Unit {0}))
      (w : World) (result : Result (List EnergyModelValidationError)) (after : World)
      → run_pipeline factories spec false (some render) w ≡ (result, after)
      → ((e : Error) × (result ≡ err e) × (after.calls ≡ w.calls))
        ⊎ ((during : List Call) × (after.calls ≡ w.calls ++ staged ∷ during ++ unstaged ∷ [])
            × (((e : Error) × (result ≡ err e) × (during ≡ []))
                ⊎ ((loaded : State B) × IsLoaded spec w.events loaded
                    × IsTraceFrom spec render loaded result during)))
  unfolding run_pipeline
  run_pipeline_trace spec render w result after ran =
      let body = check_and_translate factories spec (some render) in
      elim (Result-cases (open_source factories spec.source)) [
        | inl (e, h) ↦
            let same = sym ran ∙ with_source_unopened spec body w e h in
            inl (e, ap (λ p. p.0) same, ap (λ p. p.1.calls) same)
        | inr (load, h) ↦
            let at = logged (load w.events).1 (called staged w) in
            let same = sym ran ∙ with_source_opened spec body w load h in
            elim (Result-cases (load w.events).0) [
              | inl (e, k) ↦ inr (
                [],
                ap (λ p. p.1.calls) same
                    ∙ ap (λ r. (continue_with r body at).1.calls ++ unstaged ∷ []) k,
                inl (e, ap (λ p. p.0) same ∙ ap (λ r. (continue_with r body at).0) k, refl),
              )
              | inr (loaded, k) ↦
                  let (during, calls, trace) = check_and_translate_lem spec render loaded at in
                  inr (
                    during,
                    ap (λ p. p.1.calls) same
                        ∙ ap (λ r. (continue_with r body at).1.calls ++ unstaged ∷ []) k
                        ∙ ap (λ cs. cs ++ unstaged ∷ [])
                            (calls ∙ append_assoc w.calls (staged ∷ []) during),
                    inr (
                      loaded,
                      (load, h, k),
                      subst (λ r. IsTraceFrom spec render loaded r during)
                          (sym (ap (λ p. p.0) same ∙ ap (λ r. (continue_with r body at).0) k))
                          trace,
                    ),
                  )
            ]
      ]
