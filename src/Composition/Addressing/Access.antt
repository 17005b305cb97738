-- ===== src/Composition/Addressing/Access.antt =====
-- Reading and setting a param: what `find_node`, `read_param` and `set_param` of addressing.py do
-- to one another.
use tz_oss_interop.Prelude.{
  ◌≡◌, refl, sym, ◌∙◌, ap, ◌↔◌, Bool, ◌&&◌, some, List, [], ◌∷◌, map, map-append, arith,
  if◌then◌else◌, ◌==◌, keep_if,
}
use tz_oss_interop.Prelude.Text.{Text, text_eq, text_beq_iff}
use tz_oss_interop.Prelude.Dict.{lookup, lookup-insert}
use tz_oss_interop.Errors.{Result, ok, err, ◌>>=◌, >>=-eq-ok}
use tz_oss_interop.Spec.{Value, NodeSpec, PipelineSpec}
use tz_oss_interop.Composition.Addressing.{
  ParamAddress, nodes_of, the_one, find_node, param_or_raise, read_param, rewrite, with_param,
  set_param,
}

abbrev pub named : Text → NodeSpec → Bool
named node candidate = candidate.name == node

pub name-rewrite : (a : ParamAddress) (v : Value) (n : NodeSpec) → (rewrite a v n).name ≡ n.name
unfolding rewrite
name-rewrite a v n = ground arith

pub nodes_of-with_param :
    (spec : PipelineSpec) (a : ParamAddress) (v : Value)
    → nodes_of (with_param spec a v) ≡ map (rewrite a v) (nodes_of spec)
unfolding with_param
nodes_of-with_param spec a v =
    ap (λ rest. rewrite a v spec.source ∷ rest)
      (sym (map-append (rewrite a v) spec.steps spec.sinks))

keep_if-map-rewrite :
    (a : ParamAddress) (v : Value) (node : Text) (ns : List NodeSpec)
    → keep_if (named node) (map (rewrite a v) ns) ≡ map (rewrite a v) (keep_if (named node) ns)
keep_if-map-rewrite a v node [] = refl
keep_if-map-rewrite a v node (n ∷ ns) =
    ground (arith, name-rewrite a v n, keep_if-map-rewrite a v node ns)

the_one-map :
    (f : NodeSpec → NodeSpec) (pipeline node : Text) (ns : List NodeSpec)
    → the_one pipeline node (map f ns) ≡ (the_one pipeline node ns >>= λ n. ok (f n))
unfolding the_one
the_one-map f pipeline node [] = refl
the_one-map f pipeline node (n ∷ []) = refl
the_one-map f pipeline node (n ∷ m ∷ ns) = refl

pub find_node-with_param :
    (pipeline : Text) (spec : PipelineSpec) (a : ParamAddress) (v : Value) (node : Text)
    → find_node pipeline (with_param spec a v) node
      ≡ (find_node pipeline spec node >>= λ n. ok (rewrite a v n))
unfolding find_node
find_node-with_param pipeline spec a v node =
    ap (λ ns. the_one pipeline node (keep_if (named node) ns)) (nodes_of-with_param spec a v)
    ∙ ap (the_one pipeline node) (keep_if-map-rewrite a v node (nodes_of spec))
    ∙ the_one-map (rewrite a v) pipeline node (keep_if (named node) (nodes_of spec))

-- What `find_node` answers with has the name that was asked for.
keep_if-named :
    (node : Text) (ns : List NodeSpec) (n : NodeSpec) (rest : List NodeSpec)
    → keep_if (named node) ns ≡ n ∷ rest
    → n.name ≡ node
keep_if-named node [] n rest h = cc
keep_if-named node (m ∷ ns) n rest h =
    ground (arith, keep_if-named node ns n rest, text_beq_iff m.name node)

the_one-eq-ok :
    (pipeline node : Text) (ns : List NodeSpec) {n : NodeSpec}
    → the_one pipeline node ns ≡ ok n
    → ns ≡ n ∷ []
unfolding the_one
the_one-eq-ok pipeline node [] h = cc
the_one-eq-ok pipeline node (m ∷ []) h = cc
the_one-eq-ok pipeline node (m ∷ k ∷ ns) h = cc

-- `find_node` returns a node exactly where it is the only node of that name, and the node has the
-- name.
pub find_node_iff_only :
    (pipeline : Text) (spec : PipelineSpec) (node : Text) (n : NodeSpec)
    → (find_node pipeline spec node ≡ ok n) ↔ (keep_if (named node) (nodes_of spec) ≡ n ∷ [])
unfolding find_node the_one
find_node_iff_only pipeline spec node n =
    (the_one-eq-ok pipeline node (keep_if (named node) (nodes_of spec)), λ h. rw h)

pub name-find_node :
    (pipeline : Text) (spec : PipelineSpec) (node : Text) (n : NodeSpec)
    → find_node pipeline spec node ≡ ok n
    → n.name ≡ node
name-find_node pipeline spec node n h =
    keep_if-named node (nodes_of spec) n [] ((find_node_iff_only pipeline spec node n).0 h)

abbrev pub same_address : ParamAddress → ParamAddress → Bool
same_address a b = a.node == b.node && a.param == b.param

-- A param read from a rewritten node.
lookup-rewrite :
    (a b : ParamAddress) (v : Value) (n : NodeSpec)
    → n.name ≡ b.node
    → lookup b.param (rewrite a v n).params
      ≡ (if same_address a b then some v else lookup b.param n.params)
unfolding rewrite
lookup-rewrite a b v n e = ground (
  arith,
  lookup-insert a.param b.param v n.params,
  text_beq_iff n.name a.node,
  text_beq_iff a.node b.node,
)

pub set_param-eq-ok :
    (pipeline : Text) (spec : PipelineSpec) (a : ParamAddress) (v : Value) {spec' : PipelineSpec}
    → set_param pipeline spec a v ≡ ok spec'
    → (n : NodeSpec) × (find_node pipeline spec a.node ≡ ok n) × (spec' ≡ with_param spec a v)
unfolding set_param
set_param-eq-ok pipeline spec a v h =
    let (n, found, e) =
      >>=-eq-ok (find_node pipeline spec a.node) (λ _. ok (with_param spec a v)) h in
    (n, found, cc e)

read_found :
    (pipeline : Text) (a b : ParamAddress) (v : Value) (n : NodeSpec)
    → n.name ≡ b.node
    → param_or_raise pipeline b (lookup b.param (rewrite a v n).params)
      ≡ (if same_address a b then ok v else param_or_raise pipeline b (lookup b.param n.params))
read_found pipeline a b v n e = rw (lookup-rewrite a b v n e) (ground arith)

read_param-with_param :
    (pipeline : Text) (spec : PipelineSpec) (a b : ParamAddress) (v : Value) (n : NodeSpec)
    → find_node pipeline spec a.node ≡ ok n
    → read_param pipeline (with_param spec a v) b
      ≡ (if same_address a b then ok v else read_param pipeline spec b)
unfolding read_param
read_param-with_param pipeline spec a b v n found =
    rw (find_node-with_param pipeline spec a v b.node) (go (find_node pipeline spec b.node) refl)
  where
    go :
        (r : Result NodeSpec)
        → find_node pipeline spec b.node ≡ r
        → ((r >>= λ m. ok (rewrite a v m)) >>= λ m.
            param_or_raise pipeline b (lookup b.param m.params))
          ≡ (if same_address a b
              then ok v
              else r >>= λ m. param_or_raise pipeline b (lookup b.param m.params))
    go (ok m) e = read_found pipeline a b v m (name-find_node pipeline spec b.node m e)
    go (err x) e = ground (arith, text_beq_iff a.node b.node)

-- After a param is set, reading an address gives the value just set if it is that address, and
-- otherwise what it gave before, errors included.
pub read_param-set_param :
    (pipeline : Text) (spec spec' : PipelineSpec) (a b : ParamAddress) (v : Value)
    → set_param pipeline spec a v ≡ ok spec'
    → read_param pipeline spec' b ≡ (if same_address a b then ok v else read_param pipeline spec b)
read_param-set_param pipeline spec spec' a b v h =
    let (n, found, e) = set_param-eq-ok pipeline spec a v h in
    rw e (read_param-with_param pipeline spec a b v n found)
