-- ===== src/Runner/Translating.antt =====
-- The calls of `translate_state`, and the two ways on from the validators.
use tz_oss_interop.Prelude.{
  ◌≡◌, refl, sym, ◌∙◌, ap, inl, inr, ◌⊎◌, some, List, [], ◌++◌, map, append-nil,
}
use tz_oss_interop.Prelude.Text.{Text}
use tz_oss_interop.Errors.{Error, Result, ok, err, Result-cases, EnergyModelValidationError}
use tz_oss_interop.Spec.{PipelineSpec}
use tz_oss_interop.Pipeline.{State, report_unread_extensions}
use tz_oss_interop.Runner.{
  stepped, wrote, World, logged, continue_with, Factories, reject_untranslatable_input,
  run_validators, run_steps, write_sinks, write_out, check_and_translate, translate_state,
}
use tz_oss_interop.Runner.Validation.{names}
use tz_oss_interop.Runner.Calls.{run_steps-calls, write_sinks-calls}

module _ {B M : Type 0} (factories : Factories B M) where
  translate_state_refused :
      (spec : PipelineSpec) (checked : State B) (w : World) (e : Error)
      → reject_untranslatable_input checked ≡ err e
      → translate_state factories spec checked w ≡ (err e, w)
  unfolding translate_state
  translate_state_refused spec checked w e h = rw (h, translate_state, continue_with) refl

  translate_state_stopped :
      (spec : PipelineSpec) (checked : State B) (w : World) (e : Error)
      → reject_untranslatable_input checked ≡ ok tt
      → (run_steps factories (names spec.steps) spec.steps checked w).0 ≡ err e
      → translate_state factories spec checked w
        ≡ (err e, (run_steps factories (names spec.steps) spec.steps checked w).1)
  unfolding translate_state
  translate_state_stopped spec checked w e h k = rw (h, k, translate_state, continue_with) refl

  translate_state_stepped :
      (spec : PipelineSpec) (checked s : State B) (w : World)
      → reject_untranslatable_input checked ≡ ok tt
      → (run_steps factories (names spec.steps) spec.steps checked w).0 ≡ ok s
      → translate_state factories spec checked w
        ≡ write_out factories spec s (run_steps factories (names spec.steps) spec.steps checked w).1
  unfolding translate_state
  translate_state_stepped spec checked s w h k = rw (h, k, translate_state, continue_with) refl

  write_out-calls :
      (spec : PipelineSpec) (state : State B) (w : World)
      → (done : List Text) × ((write_out factories spec state w).1.calls
          ≡ w.calls ++ map wrote done)
        × ((found : List EnergyModelValidationError)
            → (write_out factories spec state w).0 ≡ ok found
            → done ≡ names spec.sinks)
  unfolding write_out
  write_out-calls spec state w =
      let at_end = logged (report_unread_extensions state spec.source_framework w.events) w in
      let (done, calls, all) = write_sinks-calls factories spec.sinks state at_end in
      elim (Result-cases (write_sinks factories spec.sinks state at_end).0) [
        | inl (e, h) ↦ (
          done,
          rw (h, write_out, continue_with) calls,
          λ found r. absurd (cc (rw (h, write_out, continue_with) at r)),
        )
        | inr (u, h) ↦ (done, rw (h, write_out, continue_with) calls, λ found r. all h)
      ]

  -- The calls of steps and of sinks, each a first part of the spec's, and all of it on success.
  pub translate_state-calls :
      (spec : PipelineSpec) (checked : State B) (w : World)
      → (steps sinks : List Text) × ((translate_state factories spec checked w).1.calls
          ≡ w.calls ++ map stepped steps ++ map wrote sinks)
        × (((steps ≡ []) × (sinks ≡ [])) ⊎ (reject_untranslatable_input checked ≡ ok tt))
        × ((found : List EnergyModelValidationError)
            → (translate_state factories spec checked w).0 ≡ ok found
            → (steps ≡ names spec.steps) × (sinks ≡ names spec.sinks))
  translate_state-calls spec checked w =
      let (steps, calls, all) = run_steps-calls factories (names spec.steps) spec.steps checked w in
      elim (Result-cases (reject_untranslatable_input checked)) [
        | inl (e, h) ↦
            let stop = translate_state_refused spec checked w e h in
            (
              [],
              [],
              rw stop (sym (append-nil (w.calls ++ []) ∙ append-nil w.calls)),
              inl (refl, refl),
              λ found r. absurd (cc (rw stop at r)),
            )
        | inr (u, h) ↦
            elim (Result-cases (run_steps factories (names spec.steps) spec.steps checked w).0) [
              | inl (e, k) ↦
                  let stop = translate_state_stopped spec checked w e h k in
                  (
                    steps,
                    [],
                    rw stop (calls ∙ sym (append-nil (w.calls ++ map stepped steps))),
                    inr h,
                    λ found r. absurd (cc (rw stop at r)),
                  )
              | inr (s, k) ↦
                  let go = translate_state_stepped spec checked s w h k in
                  let next = (run_steps factories (names spec.steps) spec.steps checked w).1 in
                  let (sinks, calls', all') = write_out-calls spec s next in
                  (
                    steps,
                    sinks,
                    rw go (calls' ∙ ap (λ cs. cs ++ map wrote sinks) calls),
                    inr h,
                    λ found r. (all s k, all' found (rw go at r)),
                  )
            ]
      ]

  pub check_and_translate_refused :
      (spec : PipelineSpec) (render : List EnergyModelValidationError → Result (Unit {0}))
      (state : State B) (w : World) (e : Error)
      → (run_validators factories state spec (some render) w).0 ≡ err e
      → check_and_translate factories spec (some render) state w
        ≡ (err e, (run_validators factories state spec (some render) w).1)
  unfolding check_and_translate
  check_and_translate_refused spec render state w e h =
      rw (h, check_and_translate, continue_with) refl

  pub check_and_translate_passed :
      (spec : PipelineSpec) (render : List EnergyModelValidationError → Result (Unit {0}))
      (state checked : State B) (w : World)
      → (run_validators factories state spec (some render) w).0 ≡ ok checked
      → check_and_translate factories spec (some render) state w
        ≡ translate_state factories spec checked
            (run_validators factories state spec (some render) w).1
  unfolding check_and_translate
  check_and_translate_passed spec render state checked w h =
      rw (h, check_and_translate, continue_with) refl
