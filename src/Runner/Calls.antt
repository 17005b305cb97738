-- ===== src/Runner/Calls.antt =====
-- The calls of the loops over the steps and over the sinks of a run.
use tz_oss_interop.Prelude.{
  ◌≡◌, refl, sym, ◌∙◌, ap, ap₂, inl, inr, List, [], ◌∷◌, ◌++◌, map, append-nil, append_assoc,
  map-append,
}
use tz_oss_interop.Prelude.Text.{Text}
use tz_oss_interop.Errors.{Error, ok, err, Result-cases}
use tz_oss_interop.Spec.{NodeSpec}
use tz_oss_interop.Pipeline.{State}
use tz_oss_interop.Runner.{
  Call, stepped, wrote, World, continue_with, Factories, open_step, run_step, run_steps, open_sink,
  write_sink, write_sinks,
}
use tz_oss_interop.Runner.Validation.{names}

module _ {B M : Type 0} (factories : Factories B M) where
  run_step-calls :
      (ns : List Text) (node : NodeSpec) (state : State B) (w : World)
      → (done : List Text) × ((run_step factories ns node state w).1.calls
          ≡ w.calls ++ map stepped done)
        × ((s : State B) → (run_step factories ns node state w).0 ≡ ok s → done ≡ node.name ∷ [])
  unfolding run_step
  run_step-calls ns node state w = elim (Result-cases (open_step factories ns node state)) [
    | inl (e, h) ↦ (
      [],
      rw (h, run_step) (sym (append-nil w.calls)),
      λ s r. absurd (cc (rw (h, run_step) at r)),
    )
    | inr (run, h) ↦ (node.name ∷ [], rw (h, run_step) refl, λ s r. refl)
  ]

  write_sink-calls :
      (node : NodeSpec) (state : State B) (w : World)
      → (done : List Text) × ((write_sink factories node state w).1.calls
          ≡ w.calls ++ map wrote done)
        × ((write_sink factories node state w).0 ≡ ok tt → done ≡ node.name ∷ [])
  unfolding write_sink
  write_sink-calls node state w = elim (Result-cases (open_sink factories node state)) [
    | inl (e, h) ↦ (
      [],
      rw (h, write_sink) (sym (append-nil w.calls)),
      λ r. absurd (cc (rw (h, write_sink) at r)),
    )
    | inr (run, h) ↦ (node.name ∷ [], rw (h, write_sink) refl, λ r. refl)
  ]

  run_steps-err :
      (ns : List Text) (node : NodeSpec) (nodes : List NodeSpec) (state : State B) (w : World)
      (e : Error)
      → (run_step factories ns node state w).0 ≡ err e
      → run_steps factories ns (node ∷ nodes) state w
        ≡ (err e, (run_step factories ns node state w).1)
  unfolding run_steps
  run_steps-err ns node nodes state w e h = rw (h, run_steps, continue_with) refl

  run_steps-ok :
      (ns : List Text) (node : NodeSpec) (nodes : List NodeSpec) (state s : State B) (w : World)
      → (run_step factories ns node state w).0 ≡ ok s
      → run_steps factories ns (node ∷ nodes) state w
        ≡ run_steps factories ns nodes s (run_step factories ns node state w).1
  unfolding run_steps
  run_steps-ok ns node nodes state s w h = rw (h, run_steps, continue_with) refl

  map-append-calls :
      (f : Text → Call) (before middle after : List Call) (xs ys : List Text)
      → middle ≡ before ++ map f xs
      → after ≡ middle ++ map f ys
      → after ≡ before ++ map f (xs ++ ys)
  map-append-calls f before middle after xs ys h k =
      k
      ∙ ap (λ cs. cs ++ map f ys) h
      ∙ append_assoc before (map f xs) (map f ys)
      ∙ ap (λ cs. before ++ cs) (sym (map-append f xs ys))

  pub run_steps-calls :
      (ns : List Text) (nodes : List NodeSpec) (state : State B) (w : World)
      → (done : List Text) × ((run_steps factories ns nodes state w).1.calls
          ≡ w.calls ++ map stepped done)
        × ((s : State B) → (run_steps factories ns nodes state w).0 ≡ ok s → done ≡ names nodes)
  unfolding run_steps
  run_steps-calls ns [] state w = ([], sym (append-nil w.calls), λ s r. refl)
  run_steps-calls ns (node ∷ nodes) state w =
      let (first, calls, all) = run_step-calls ns node state w in
      elim (Result-cases (run_step factories ns node state w).0) [
        | inl (e, h) ↦
            let stop = run_steps-err ns node nodes state w e h in
            (first, rw stop calls, λ s r. absurd (cc (rw stop at r)))
        | inr (s, h) ↦
            let go = run_steps-ok ns node nodes state s w h in
            let next = (run_step factories ns node state w).1 in
            let (rest, calls', all') = run_steps-calls ns nodes s next in
            (
              first ++ rest,
              rw go (map-append-calls stepped w.calls next.calls _ first rest calls calls'),
              λ s' r. ap₂ (λ xs ys. xs ++ ys) (all s h) (all' s' (rw go at r)),
            )
      ]

  write_sinks-err :
      (node : NodeSpec) (nodes : List NodeSpec) (state : State B) (w : World) (e : Error)
      → (write_sink factories node state w).0 ≡ err e
      → write_sinks factories (node ∷ nodes) state w
        ≡ (err e, (write_sink factories node state w).1)
  unfolding write_sinks
  write_sinks-err node nodes state w e h = rw (h, write_sinks, continue_with) refl

  write_sinks-ok :
      (node : NodeSpec) (nodes : List NodeSpec) (state : State B) (w : World)
      → (write_sink factories node state w).0 ≡ ok tt
      → write_sinks factories (node ∷ nodes) state w
        ≡ write_sinks factories nodes state (write_sink factories node state w).1
  unfolding write_sinks
  write_sinks-ok node nodes state w h = rw (h, write_sinks, continue_with) refl

  pub write_sinks-calls :
      (nodes : List NodeSpec) (state : State B) (w : World)
      → (done : List Text) × ((write_sinks factories nodes state w).1.calls
          ≡ w.calls ++ map wrote done)
        × ((write_sinks factories nodes state w).0 ≡ ok tt → done ≡ names nodes)
  unfolding write_sinks
  write_sinks-calls [] state w = ([], sym (append-nil w.calls), λ r. refl)
  write_sinks-calls (node ∷ nodes) state w =
      let (first, calls, all) = write_sink-calls node state w in
      elim (Result-cases (write_sink factories node state w).0) [
        | inl (e, h) ↦
            let stop = write_sinks-err node nodes state w e h in
            (first, rw stop calls, λ r. absurd (cc (rw stop at r)))
        | inr (u, h) ↦
            let go = write_sinks-ok node nodes state w h in
            let next = (write_sink factories node state w).1 in
            let (rest, calls', all') = write_sinks-calls nodes state next in
            (
              first ++ rest,
              rw go (map-append-calls wrote w.calls next.calls _ first rest calls calls'),
              λ r. ap₂ (λ xs ys. xs ++ ys) (all h) (all' (rw go at r)),
            )
      ]
