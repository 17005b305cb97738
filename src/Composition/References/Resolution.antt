-- ===== src/Composition/References/Resolution.antt =====
-- A resolved plan holds no reference, and its legs are the legs it was planned with.
use tz_oss_interop.Prelude.{
  ◌≡◌, refl, ◌∙◌, ap, ap₂, subst, ◌⊎◌, inl, inr, Option, none, some, List, [], ◌∷◌, arith, All,
}
use tz_oss_interop.Prelude.Text.{Text, text_eq}
use tz_oss_interop.Prelude.Dict.{lookup}
use tz_oss_interop.Errors.{ok, >>=-eq-ok, map_result}
use tz_oss_interop.Spec.{Value, NodeSpec, PipelineSpec}
use tz_oss_interop.Composition.Addressing.{
  ParamAddress, Reference, parse_reference, nodes_of, rewrite, set_param,
}
use tz_oss_interop.Composition.Addressing.Access.{nodes_of-with_param, set_param-eq-ok}
use tz_oss_interop.Composition.Addressing.LegParams.{
  SameShape, SameShape-refl, SameShape-trans, set_param-SameShape,
}
use tz_oss_interop.Composition.Legs.{PlannedLeg}
use tz_oss_interop.Composition.Legs.Order.{outline, outlines}
use tz_oss_interop.Composition.References.{
  Entry, entries_of_params, entries_of_nodes, entries_of, visit, for_pending, find_leg,
  read_referenced_param, unchained, referenced_value, resolve_reference, resolve_leg_references,
  resolve_references,
}
use tz_oss_interop.Composition.References.Settled.{
  for_pending-cons, IsPending, Holds, lookup-Holds, Holds-append_left, Holds-append_right,
  address_at, IsPending-or_plain, Paired, Paired-imp, Paired-weaken, IsSettled, IsSettled-nil,
  IsSettled-plain, IsSettled-set,
}

-- A value that a reference leads to is no reference.
pub referenced_value_plain :
    (reference : Reference) (planned : List PlannedLeg) (v : Value)
    → referenced_value reference planned ≡ ok v
    → parse_reference v ≡ ok none
unfolding referenced_value
referenced_value_plain reference planned v h =
    let (producer, _, rest) = >>=-eq-ok (find_leg reference planned) _ h in
    let (w, _, rest') = >>=-eq-ok (read_referenced_param producer reference) _ rest in
    let (next, parsed, e) = >>=-eq-ok (parse_reference w) _ rest' in go w next parsed e
  where
    go :
        (w : Value) (next : Option Reference)
        → parse_reference w ≡ ok next
        → unchained w next ≡ ok v
        → parse_reference v ≡ ok none
    go w none parsed e =
        let same : w ≡ v = cc e in subst (λ x. parse_reference x ≡ ok none) same parsed
    go w (some next) parsed e = absurd (cc e)

module _ (pipeline : Text) (planned : List PlannedLeg) where
  pub resolve_reference-eq-ok :
      (s t : PipelineSpec) (a : ParamAddress) (r : Reference)
      → resolve_reference pipeline planned s a r ≡ ok t
      → (v : Value) × (referenced_value r planned ≡ ok v) × (set_param pipeline s a v ≡ ok t)
  unfolding resolve_reference
  resolve_reference-eq-ok s t a r h =
      >>=-eq-ok (referenced_value r planned) (λ v. set_param pipeline s a v) h

  -- The loop settles each node, and changes no more than params.
  pub resolved_nodes :
      (entries : List Entry) (s t : PipelineSpec)
      → for_pending (resolve_reference pipeline planned) s entries ≡ ok t
      → Paired (IsSettled entries) (nodes_of s) (nodes_of t) × SameShape s t
  unfolding for_pending
  resolved_nodes [] s t h =
      let same : s ≡ t = cc h in
      subst (λ u. Paired (IsSettled []) (nodes_of s) (nodes_of u) × SameShape s u) same
        (IsSettled-nil (nodes_of s), SameShape-refl s)
  resolved_nodes (entry ∷ entries) s t h =
      let (pending, u, parsed, visited, more) =
        for_pending-cons (resolve_reference pipeline planned) s entry entries h in
      let (nodes, shape) = resolved_nodes entries u t more in
      go pending u parsed visited nodes shape
    where
      go :
          (pending : Option Reference) (u : PipelineSpec)
          → parse_reference entry.value ≡ ok pending
          → visit (resolve_reference pipeline planned) s entry.address pending ≡ ok u
          → Paired (IsSettled entries) (nodes_of u) (nodes_of t)
          → SameShape u t
          → Paired (IsSettled (entry ∷ entries)) (nodes_of s) (nodes_of t) × SameShape s t
      go none u parsed visited nodes shape =
          let same : u ≡ s = cc visited in
          let nodes' =
            subst (λ x. Paired (IsSettled entries) (nodes_of x) (nodes_of t)) same nodes in
          (
            Paired-weaken (IsSettled entries) (IsSettled (entry ∷ entries))
                (λ n m. IsSettled-plain entry entries n m parsed) (nodes_of s) (nodes_of t) nodes',
            subst (λ x. SameShape x t) same shape,
          )
      go (some r) u parsed visited nodes shape =
          let (v, value, put) = resolve_reference-eq-ok s u entry.address r visited in
          let (_, _, same) = set_param-eq-ok pipeline s entry.address v put in
          let moved = ap nodes_of same ∙ nodes_of-with_param s entry.address v in
          (
            Paired-imp (IsSettled entries) (IsSettled (entry ∷ entries)) (rewrite entry.address v)
                (λ n m.
                  IsSettled-set entry v entries n m (referenced_value_plain r planned v value))
                (nodes_of s) (nodes_of t)
                (subst (λ ns. Paired (IsSettled entries) ns (nodes_of t)) moved nodes),
            SameShape-trans (set_param-SameShape pipeline s u entry.address v put) shape,
          )

-- No param of the node is a reference.
pub record IsPlain (n : NodeSpec) : Type 0 where
  pub at : (p : Text) (v : Value) → lookup p n.params ≡ some v → parse_reference v ≡ ok none

abbrev pub HasNoReferences : PlannedLeg → Type 0
HasNoReferences leg = All IsPlain (nodes_of leg.spec)

IsSettled-IsPlain :
    (entries : List Entry) (n m : NodeSpec)
    → ((p : Text) (v : Value)
        → lookup p n.params ≡ some v
        → (parse_reference v ≡ ok none) ⊎ IsPending (address_at n.name p) entries)
    → IsSettled entries n m
    → IsPlain m
IsSettled-IsPlain entries n m visited h = record {
  at = λ p v found. elim (h.param p v found) [
    | inl plain ↦ plain
    | inr (had, free) ↦ elim (visited p v had) [
      | inl plain ↦ plain
      | inr pending ↦ absurd (free pending)
    ]
  ];
}

-- Every node of a list has its params among the entries of the list.
All-IsPlain :
    (entries : List Entry) (ns ms : List NodeSpec)
    → ((a : ParamAddress) (v : Value)
        → Holds a v (entries_of_nodes ns)
        → (parse_reference v ≡ ok none) ⊎ IsPending a entries)
    → Paired (IsSettled entries) ns ms
    → All IsPlain ms
All-IsPlain entries [] [] visited h = tt
All-IsPlain entries [] (m ∷ ms) visited h = absurd h
All-IsPlain entries (n ∷ ns) [] visited h = absurd h
All-IsPlain entries (n ∷ ns) (m ∷ ms) visited h = (
  IsSettled-IsPlain entries n m
      (λ p v had. visited (address_at n.name p) v (
        Holds-append_left (address_at n.name p) v (entries_of_params n.name n.params)
          (entries_of_nodes ns) (lookup-Holds n.name p v n.params had)))
      h.0,
  All-IsPlain entries ns ms
      (λ a v held.
        visited a v
          (Holds-append_right a v (entries_of_params n.name n.params) (entries_of_nodes ns) held))
      h.1,
)

module _ (planned : List PlannedLeg) where
  -- A leg whose references are resolved holds none, and is otherwise the leg that it was.
  pub resolve_leg_references-lem :
      (leg leg' : PlannedLeg)
      → resolve_leg_references planned leg ≡ ok leg'
      → HasNoReferences leg' × (outline leg' ≡ outline leg) × SameShape leg.spec leg'.spec
  unfolding resolve_leg_references
  resolve_leg_references-lem leg leg' h =
      let body = resolve_reference leg.pipeline planned in
      let (spec, loop, e) = >>=-eq-ok (for_pending body leg.spec (entries_of leg.spec)) _ h in
      let (nodes, shape) =
        resolved_nodes leg.pipeline planned (entries_of leg.spec) leg.spec spec loop in
      let plain =
        All-IsPlain (entries_of leg.spec) (nodes_of leg.spec) (nodes_of spec)
          (λ a v. IsPending-or_plain body a v (entries_of leg.spec) leg.spec spec loop) nodes in
      let same : record leg { spec = spec } ≡ leg' = cc e in
      subst (λ l. HasNoReferences l × (outline l ≡ outline leg) × SameShape leg.spec l.spec) same
        (plain, ground (arith, shape.source_framework, shape.destination_framework), shape)

  resolve-All :
      (legs legs' : List PlannedLeg)
      → map_result (resolve_leg_references planned) legs ≡ ok legs'
      → All HasNoReferences legs' × (outlines legs' ≡ outlines legs)
  resolve-All [] legs' h =
      let same : [] ≡ legs' = cc h in
      subst (λ ls. All HasNoReferences ls × (outlines ls ≡ [])) same (tt, refl)
  resolve-All (leg ∷ legs) legs' h =
      let (first, one, rest) = >>=-eq-ok (resolve_leg_references planned leg) _ h in
      let (others, more, e) = >>=-eq-ok (map_result (resolve_leg_references planned) legs) _ rest in
      let (plain, kept, _) = resolve_leg_references-lem leg first one in
      let (plains, kepts) = resolve-All legs others more in
      let same : first ∷ others ≡ legs' = cc e in
      subst (λ ls. All HasNoReferences ls × (outlines ls ≡ outlines (leg ∷ legs))) same
        ((plain, plains), ap₂ ◌∷◌ kept kepts)

pub resolve_references-lem :
    (planned resolved : List PlannedLeg)
    → resolve_references planned ≡ ok resolved
    → All HasNoReferences resolved × (outlines resolved ≡ outlines planned)
unfolding resolve_references
resolve_references-lem planned resolved h = resolve-All planned planned resolved h
