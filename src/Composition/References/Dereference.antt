-- ===== src/Composition/References/Dereference.antt =====
-- What each param of a resolved leg is: the value it was, or the value its reference leads to.
use tz_oss_interop.Prelude.{
  ◌≡◌, refl, sym, ◌∙◌, ap, subst, inl, inr, true, false, Option, none, some, List, [], ◌∷◌, ◌++◌,
  arith, if◌then◌else◌, ◌==◌, All, All-append, keep_if, contains, Bool-cases,
}
use tz_oss_interop.Prelude.Text.{Text, text_eq, text_beq_iff}
use tz_oss_interop.Prelude.Dict.{lookup, IsDict, keys}
use tz_oss_interop.Errors.{Result, ok, ◌>>=◌, >>=-eq-ok}
use tz_oss_interop.Spec.{Value, Params, NodeSpec, PipelineSpec}
use tz_oss_interop.Composition.Addressing.{
  ParamAddress, Reference, parse_reference, nodes_of, find_node, read_param,
}
use tz_oss_interop.Composition.Addressing.Access.{
  named, find_node_iff_only, same_address, read_param-set_param,
}
use tz_oss_interop.Composition.Legs.{PlannedLeg}
use tz_oss_interop.Composition.References.{
  Entry, entries_of_params, entries_of_nodes, entries_of, visit, for_pending, referenced_value,
  resolve_reference, resolve_leg_references,
}
use tz_oss_interop.Composition.References.Settled.{for_pending-cons}
use tz_oss_interop.Composition.References.Resolution.{resolve_reference-eq-ok}

module _ (planned : List PlannedLeg) where
  -- What a param is once its reference, if it is one, is followed among the legs.
  abbrev pub follow : Result Value → Option Reference → Result Value
  follow before none = before
  follow before (some reference) = referenced_value reference planned

  abbrev pub dereference : Value → Result Value
  dereference v = parse_reference v >>= follow (ok v)

  -- What a read gives after a round of the loop, from what it gave before it.
  abbrev settle_one : Entry → ParamAddress → Result Value → Result Value
  settle_one entry b before =
      if same_address entry.address b then parse_reference entry.value >>= follow before else before

  settle : List Entry → ParamAddress → Result Value → Result Value
  settle [] b before = before
  settle (entry ∷ entries) b before = settle entries b (settle_one entry b before)

  read_param-for_pending :
      (pipeline : Text) (b : ParamAddress) (entries : List Entry) (s t : PipelineSpec)
      → for_pending (resolve_reference pipeline planned) s entries ≡ ok t
      → read_param pipeline t b ≡ settle entries b (read_param pipeline s b)
  unfolding for_pending settle
  read_param-for_pending pipeline b [] s t h = ap (λ u. read_param pipeline u b) (cc h)
  read_param-for_pending pipeline b (entry ∷ entries) s t h =
      let (pending, u, parsed, visited, more) =
        for_pending-cons (resolve_reference pipeline planned) s entry entries h in
      read_param-for_pending pipeline b entries u t more
      ∙ ap (settle entries b) (go pending u parsed visited)
    where
      go :
          (pending : Option Reference) (u : PipelineSpec)
          → parse_reference entry.value ≡ ok pending
          → visit (resolve_reference pipeline planned) s entry.address pending ≡ ok u
          → read_param pipeline u b ≡ settle_one entry b (read_param pipeline s b)
      go none u parsed visited = let same : u ≡ s = cc visited in rw (parsed, same) (ground arith)
      go (some r) u parsed visited =
          let (v, value, put) =
            resolve_reference-eq-ok pipeline planned s u entry.address r visited in
          read_param-set_param pipeline s u entry.address b v put ∙ rw (parsed, value) refl

  abbrev IsFresh : ParamAddress → List Entry → Type 0
  IsFresh b entries = All (λ entry. same_address entry.address b ≡ false) entries

  settle_fresh :
      (b : ParamAddress) (entries : List Entry) (before : Result Value)
      → IsFresh b entries
      → settle entries b before ≡ before
  unfolding settle
  settle_fresh b [] before h = refl
  settle_fresh b (entry ∷ entries) before h = rw h.0 (settle_fresh b entries before h.1)

  settle-append :
      (b : ParamAddress) (xs ys : List Entry) (before : Result Value)
      → settle (xs ++ ys) b before ≡ settle ys b (settle xs b before)
  unfolding settle
  settle-append b [] ys before = refl
  settle-append b (x ∷ xs) ys before = settle-append b xs ys (settle_one x b before)

  IsFresh-name :
      (b : ParamAddress) (node : Text) (params : Params)
      → (node == b.node) ≡ false
      → IsFresh b (entries_of_params node params)
  IsFresh-name b node [] h = tt
  IsFresh-name b node ((key, v) ∷ params) h = (rw h, IsFresh-name b node params h)

  IsFresh-keys :
      (b : ParamAddress) (node : Text) (params : Params)
      → contains (keys params) b.param ≡ false
      → IsFresh b (entries_of_params node params)
  IsFresh-keys b node [] h = tt
  IsFresh-keys b node ((key, v) ∷ params) h =
      (ground arith, IsFresh-keys b node params (ground arith))

  IsFresh-nodes :
      (b : ParamAddress) (ns : List NodeSpec)
      → keep_if (named b.node) ns ≡ []
      → IsFresh b (entries_of_nodes ns)
  IsFresh-nodes b [] h = tt
  IsFresh-nodes b (n ∷ ns) h = elim (Bool-cases (n.name == b.node)) [
    | inl here ↦ absurd (cc (rw here at h))
    | inr other ↦
        All-append (λ entry. same_address entry.address b ≡ false)
          (entries_of_params n.name n.params) (entries_of_nodes ns)
          (IsFresh-name b n.name n.params other) (IsFresh-nodes b ns (rw other at h))
  ]

  settle_params :
      (b : ParamAddress) (node : Text) (params : Params) (v : Value)
      → (node == b.node) ≡ true
      → IsDict params
      → lookup b.param params ≡ some v
      → settle (entries_of_params node params) b (ok v) ≡ dereference v
  unfolding settle lookup
  settle_params b node [] v here d h = absurd (cc h)
  settle_params b node ((key, w) ∷ params) v here d h = elim (Bool-cases (key == b.param)) [
    | inl found ↦
        let same : w ≡ v = cc (rw found at h) in
        let key_is : key ≡ b.param = (text_beq_iff key b.param).0 found in
        let absent = subst (λ k. contains (keys params) k ≡ false) key_is d.0 in
        settle_fresh b (entries_of_params node params) _ (IsFresh-keys b node params absent)
        ∙ rw (here, found, same) refl
    | inr other ↦
        let entry : Entry = record { address = record { node = node; param = key }; value = w } in
        let kept : settle_one entry b (ok v) ≡ ok v = rw (here, other) in
        ap (settle (entries_of_params node params) b) kept
        ∙ settle_params b node params v here d.1 (rw other at h)
  ]

  settle_nodes :
      (b : ParamAddress) (ns : List NodeSpec) (n : NodeSpec) (v : Value)
      → keep_if (named b.node) ns ≡ n ∷ []
      → All (λ m. IsDict m.params) ns
      → lookup b.param n.params ≡ some v
      → settle (entries_of_nodes ns) b (ok v) ≡ dereference v
  settle_nodes b [] n v only d h = absurd (cc only)
  settle_nodes b (m ∷ ns) n v only d h =
      settle-append b (entries_of_params m.name m.params) (entries_of_nodes ns) (ok v)
      ∙ elim (Bool-cases (m.name == b.node)) [
        | inl here ↦
            let whole = rw here at only in
            let same : m ≡ n = cc whole in
            let none_else : keep_if (named b.node) ns ≡ [] = cc whole in
            settle_fresh b (entries_of_nodes ns) _ (IsFresh-nodes b ns none_else)
            ∙ settle_params b m.name m.params v here d.0
                (subst (λ k. lookup b.param k.params ≡ some v) (sym same) h)
        | inr other ↦
            ap (settle (entries_of_nodes ns) b) (
              settle_fresh b (entries_of_params m.name m.params) (ok v)
                (IsFresh-name b m.name m.params other))
            ∙ settle_nodes b ns n v (rw other at only) d.1 h
      ]

  read_param-eq-ok :
      (pipeline : Text) (spec : PipelineSpec) (b : ParamAddress) (v : Value)
      → read_param pipeline spec b ≡ ok v
      → (n : NodeSpec) × (keep_if (named b.node) (nodes_of spec) ≡ n ∷ [])
        × (lookup b.param n.params ≡ some v)
  unfolding read_param
  read_param-eq-ok pipeline spec b v h =
      let (n, found, rest) = >>=-eq-ok (find_node pipeline spec b.node) _ h in
      (n, (find_node_iff_only pipeline spec b.node n).0 found, ground arith)

  -- Where reading an address of a leg gave a value, reading it from the resolved leg gives that
  -- value if it is no reference, and otherwise what the reference leads to among the legs that the
  -- resolution was given.
  pub read_param-resolve_leg_references :
      (leg leg' : PlannedLeg) (b : ParamAddress) (v : Value)
      → All (λ n. IsDict n.params) (nodes_of leg.spec)
      → resolve_leg_references planned leg ≡ ok leg'
      → read_param leg.pipeline leg.spec b ≡ ok v
      → read_param leg.pipeline leg'.spec b ≡ dereference v
  unfolding resolve_leg_references
  read_param-resolve_leg_references leg leg' b v d h was =
      let body = resolve_reference leg.pipeline planned in
      let (spec, loop, e) = >>=-eq-ok (for_pending body leg.spec (entries_of leg.spec)) _ h in
      let (n, only, found) = read_param-eq-ok leg.pipeline leg.spec b v was in
      let same : spec ≡ leg'.spec = cc e in
      ap (λ s. read_param leg.pipeline s b) (sym same)
      ∙ read_param-for_pending leg.pipeline b (entries_of leg.spec) leg.spec spec loop
      ∙ ap (settle (entries_of leg.spec) b) was
      ∙ settle_nodes b (nodes_of leg.spec) n v only d found
