-- ===== src/Runner/Validation.antt =====
-- The validators of a run: each one runs, crashes are collected, and the findings are handed over
-- however the loop ends.
use tz_oss_interop.Prelude.{
  ◌≡◌, ◌↔◌, refl, sym, ◌∙◌, ap, ap₂, subst, inl, inr, Option, some, List, [], ◌∷◌, ◌++◌, map,
  append-nil, append_assoc, arith,
}
use tz_oss_interop.Prelude.Text.{Text}
use tz_oss_interop.Errors.{
  Error, Result, ok, err, ◌>>=◌, >>=-eq-ok, Result-cases, EnergyModelValidationError,
}
use tz_oss_interop.Spec.{NodeSpec, PipelineSpec}
use tz_oss_interop.Pipeline.{State, Validator}
use tz_oss_interop.Runner.{
  validated, reported, World, Factories, Validating, add_crash, build_validator, guarded_validate,
  validate_each, hand_over, raise_crashes, run_validators,
}

abbrev pub names : List NodeSpec → List Text
names nodes = map (λ n. n.name) nodes

module _ {B M : Type 0} (factories : Factories B M) where
  -- The validators take the state from `before` to `after`: each one is built, and returns.
  abbrev pub IsClean : List NodeSpec → (before after : State B) → Type 0
  IsClean [] before after = before ≡ after
  IsClean (node ∷ nodes) before after =
      (built : Validator B M × Option M) × (build_validator factories node ≡ ok built)
      × ((built.0.validate before built.1).0 ≡ ok tt)
      × IsClean nodes (built.0.validate before built.1).1 after

  validate_each-err :
      (node : NodeSpec) (nodes : List NodeSpec) (v : Validating B) (e : Error)
      → build_validator factories node ≡ err e
      → validate_each factories (node ∷ nodes) v ≡ (err e, v)
  unfolding validate_each
  validate_each-err node nodes v e h = rw (h, validate_each)

  validate_each-ok :
      (node : NodeSpec) (nodes : List NodeSpec) (v : Validating B) (b : Validator B M × Option M)
      → build_validator factories node ≡ ok b
      → validate_each factories (node ∷ nodes) v
        ≡ validate_each factories nodes (guarded_validate factories node b v)
  unfolding validate_each
  validate_each-ok node nodes v b h = rw (h, validate_each)

  -- The calls of the loop: a validation for each of some names, which are all of them where the
  -- loop was not ended by a node that could not be built.
  validate_each_calls :
      (nodes : List NodeSpec) (v : Validating B)
      → (done : List Text) × ((validate_each factories nodes v).1.calls
          ≡ v.calls ++ map validated done)
        × ((validate_each factories nodes v).0 ≡ ok tt → done ≡ names nodes)
  unfolding validate_each guarded_validate
  validate_each_calls [] v = ([], sym (append-nil v.calls), λ _. refl)
  validate_each_calls (node ∷ nodes) v = elim (Result-cases (build_validator factories node)) [
    | inl (e, h) ↦
        let stop = validate_each-err node nodes v e h in
        ([], rw stop (sym (append-nil v.calls)), λ fine. absurd (cc (rw stop at fine)))
    | inr (built, h) ↦
        let go = validate_each-ok node nodes v built h in
        let next = guarded_validate factories node built v in
        let (done, calls, all) = validate_each_calls nodes next in
        (
          node.name ∷ done,
          rw go (calls ∙ append_assoc v.calls (validated node.name ∷ []) (map validated done)),
          λ fine. ap (λ ns. node.name ∷ ns) (all (rw go at fine)),
        )
  ]

  add_crash-nil :
      (outcome : Result (Unit {0})) (name : Text) (crashes : List Text)
      → add_crash outcome name crashes ≡ []
      → (crashes ≡ []) × (outcome ≡ ok tt)
  add_crash-nil (ok tt) name crashes h = (h, refl)
  add_crash-nil (err e) name [] h = absurd (cc h)
  add_crash-nil (err e) name (c ∷ crashes) h = absurd (cc h)

  -- The loop ends well with no crash exactly where the validators are clean.
  validate_each-IsClean :
      (nodes : List NodeSpec) (v : Validating B)
      → (validate_each factories nodes v).0 ≡ ok tt
      → (validate_each factories nodes v).1.crashes ≡ []
      → (v.crashes ≡ []) × IsClean nodes v.state (validate_each factories nodes v).1.state
  unfolding validate_each guarded_validate
  validate_each-IsClean [] v fine no_crash = (no_crash, refl)
  validate_each-IsClean (node ∷ nodes) v fine no_crash =
      elim (Result-cases (build_validator factories node)) [
        | inl (e, h) ↦ absurd (cc (rw (validate_each-err node nodes v e h) at fine))
        | inr (built, h) ↦
            let go = validate_each-ok node nodes v built h in
            let next = guarded_validate factories node built v in
            let (none_yet, rest) =
              validate_each-IsClean nodes next (rw go at fine) (rw go at no_crash) in
            let (none_before, returned) =
              add_crash-nil (built.0.validate v.state built.1).0 node.name v.crashes none_yet in
            (none_before, rw go (built, h, returned, rest))
      ]

  validate_each_complete :
      (nodes : List NodeSpec) (v : Validating B) (after : State B)
      → IsClean nodes v.state after
      → ((validate_each factories nodes v).0 ≡ ok tt)
        × ((validate_each factories nodes v).1.crashes ≡ v.crashes)
        × ((validate_each factories nodes v).1.state ≡ after)
  unfolding validate_each guarded_validate
  validate_each_complete [] v after h = (refl, refl, h)
  validate_each_complete (node ∷ nodes) v after (built, h, returned, rest) =
      let go = validate_each-ok node nodes v built h in
      let next = guarded_validate factories node built v in
      let (fine, crashes, state) = validate_each_complete nodes next after rest in
      (
        rw go fine,
        rw go (crashes ∙ ap (λ r. add_crash r node.name v.crashes) returned),
        rw go state,
      )

  -- Every node of the list can be built.
  abbrev pub CanBuild : List NodeSpec → Type 0
  CanBuild [] = Unit
  CanBuild (node ∷ nodes) =
      ((built : Validator B M × Option M) × (build_validator factories node ≡ ok built))
      × CanBuild nodes

  validate_each_ends :
      (nodes : List NodeSpec) (v : Validating B)
      → CanBuild nodes
      → (validate_each factories nodes v).0 ≡ ok tt
  unfolding validate_each
  validate_each_ends [] v h = refl
  validate_each_ends (node ∷ nodes) v ((built, h), rest) =
      rw (validate_each-ok node nodes v built h)
        (validate_each_ends nodes (guarded_validate factories node built v) rest)

  pub run_validators_calls :
      (state : State B) (spec : PipelineSpec)
      (render : List EnergyModelValidationError → Result (Unit {0})) (w : World)
      → (done : List Text) × (findings : List EnergyModelValidationError) × ((run_validators
            factories state spec
            (some render)
            w).1.calls
          ≡ w.calls ++ map validated done ++ reported findings ∷ [])
        × (CanBuild spec.validators → done ≡ names spec.validators)
  unfolding run_validators
  run_validators_calls state spec render w =
      let start : Validating B = record { state = state; crashes = []; calls = w.calls } in
      let (done, calls, all) = validate_each_calls spec.validators start in
      let last =
        reported (validate_each factories spec.validators start).1.state.validation_errors in
      (
        done,
        (validate_each factories spec.validators start).1.state.validation_errors,
        ap (λ cs. cs ++ last ∷ []) calls,
        λ can. all (validate_each_ends spec.validators start can),
      )

  hand_over-ok :
      (render : List EnergyModelValidationError → Result (Unit {0})) (outcome : Result (Unit {0}))
      (v : Validating B)
      → (hand_over (some render) outcome v).0 ≡ ok tt
      → (outcome ≡ ok tt) × (render v.state.validation_errors ≡ ok tt)
  hand_over-ok render outcome v h = ground arith

  hand_over-intro :
      (render : List EnergyModelValidationError → Result (Unit {0})) (outcome : Result (Unit {0}))
      (v : Validating B)
      → outcome ≡ ok tt
      → render v.state.validation_errors ≡ ok tt
      → (hand_over (some render) outcome v).0 ≡ ok tt
  hand_over-intro render outcome v fine rendered = ground arith

  raise_crashes-ok :
      (crashes : List Text) (state s : State B)
      → raise_crashes crashes state ≡ ok s
      → (crashes ≡ []) × (state ≡ s)
  raise_crashes-ok [] state s h = (refl, cc h)
  raise_crashes-ok (c ∷ crashes) state s h = absurd (cc h)

  -- With a callback, the validators of a run pass, with the state `after`, exactly where each one is
  -- built and returns, taking the state to `after`, and the callback returns for the findings of
  -- `after`.
  pub run_validators_iff :
      (state after : State B) (spec : PipelineSpec)
      (render : List EnergyModelValidationError → Result (Unit {0})) (w : World)
      → ((run_validators factories state spec (some render) w).0 ≡ ok after)
        ↔ (IsClean spec.validators state after × (render after.validation_errors ≡ ok tt))
  unfolding run_validators
  run_validators_iff state after spec render w =
      let start : Validating B = record { state = state; crashes = []; calls = w.calls } in
      let ended = validate_each factories spec.validators start in
      (
        (λ h.
            let (u, handed, raised) =
              >>=-eq-ok (hand_over (some render) ended.0 ended.1).0
                (λ _. raise_crashes ended.1.crashes ended.1.state) h in
            let (fine, rendered) = hand_over-ok render ended.0 ended.1 handed in
            let (no_crash, same) = raise_crashes-ok ended.1.crashes ended.1.state after raised in
            let (_, clean) = validate_each-IsClean spec.validators start fine no_crash in
            (
              subst (IsClean spec.validators state) same clean,
              subst (λ s. render s.validation_errors ≡ ok tt) same rendered,
            )),
        λ (clean, rendered).
            let (fine, no_crash, same) = validate_each_complete spec.validators start after clean in
            let handed =
              hand_over-intro render ended.0 ended.1 fine
                (subst (λ s. render s.validation_errors ≡ ok tt) (sym same) rendered) in
            ap (λ r. r >>= λ _. raise_crashes ended.1.crashes ended.1.state) handed
            ∙ ap₂ raise_crashes no_crash same,
      )
