-- ===== src/Composition/Addressing/Syntax.antt =====
-- The text forms of addresses and references, and their parsers.
use tz_oss_interop.Prelude.{
  ◌≡◌, ◌≢◌, refl, sym, subst, ◌∙◌, ap, true, Option, none, some, List, [], ◌∷◌, ◌++◌, arith, inl,
  inr, Bool-cases, nat_beq, nat_beq_iff, All,
}
use tz_oss_interop.Prelude.Text.{
  Text, IsFree, split, join, split_free, split-append, join-split, split-All-IsFree,
}
use tz_oss_interop.Errors.{ok}
use tz_oss_interop.Spec.{Value, null, boolean, number, text, sequence, mapping}
use tz_oss_interop.Composition.Addressing.{
  segment_separator, reference_prefix, ParamAddress, Reference, show_address, show_reference,
  is_nonempty, reference_of, parse_reference, address_of, parse_param_address,
}

-- What a segment can be: not empty, with no separator inside.
pub record IsSegment (s : Text) : Type 0 where
  pub nonempty : is_nonempty s ≡ true
  pub free : IsFree segment_separator s

pub record IsAddress (a : ParamAddress) : Type 0 where
  pub node : IsSegment a.node
  pub param : IsSegment a.param

pub record IsReference (r : Reference) : Type 0 where
  pub pipeline : IsSegment r.pipeline
  pub address : IsAddress r.address

pub split-show_address :
    (a : ParamAddress)
    → IsAddress a
    → split segment_separator (show_address a) ≡ a.node ∷ a.param ∷ []
split-show_address a h =
    split-append segment_separator a.node a.param h.node.free
    ∙ ap (λ ss. a.node ∷ ss) (split_free segment_separator a.param h.param.free)

pub parse_param_address-show_address :
    (a : ParamAddress) → IsAddress a → parse_param_address (show_address a) ≡ ok a
unfolding parse_param_address
parse_param_address-show_address a h =
    rw (split-show_address a h) (ground (arith, h.node.nonempty, h.param.nonempty))

address_of-eq-ok :
    (key : Text) (ss : List Text) (a : ParamAddress)
    → All (IsFree segment_separator) ss
    → address_of key ss ≡ ok a
    → (ss ≡ a.node ∷ a.param ∷ []) × IsAddress a
unfolding address_of
address_of-eq-ok key [] a f h = cc
address_of-eq-ok key (n ∷ []) a f h = cc
address_of-eq-ok key (n ∷ p ∷ []) a f h = ground arith
address_of-eq-ok key (n ∷ p ∷ q ∷ rest) a f h = cc

pub show_address-parse_param_address :
    (key : Text) (a : ParamAddress)
    → parse_param_address key ≡ ok a
    → (key ≡ show_address a) × IsAddress a
unfolding parse_param_address
show_address-parse_param_address key a h =
    let (e, good) =
      address_of-eq-ok key (split segment_separator key) a (split-All-IsFree segment_separator key)
        h in
    (sym (join-split segment_separator key) ∙ ap (join segment_separator) e, good)

pub split-show_reference :
    (r : Reference)
    → IsReference r
    → split segment_separator (r.pipeline ++ segment_separator ∷ show_address r.address)
      ≡ r.pipeline ∷ r.address.node ∷ r.address.param ∷ []
split-show_reference r h =
    split-append segment_separator r.pipeline (show_address r.address) h.pipeline.free
    ∙ ap (λ ss. r.pipeline ∷ ss) (split-show_address r.address h.address)

-- Parsing the printed form of a reference whose three parts are nonempty and free of dots gives
-- that reference.
pub parse_reference-show_reference :
    (r : Reference) → IsReference r → parse_reference (text (show_reference r)) ≡ ok (some r)
unfolding parse_reference
parse_reference-show_reference r h =
    rw (split-show_reference r h)
      (ground (arith, h.pipeline.nonempty, h.address.node.nonempty, h.address.param.nonempty))

reference_of-eq-ok :
    (value : Text) (ss : List Text) (o : Option Reference)
    → All (IsFree segment_separator) ss
    → reference_of value ss ≡ ok o
    → (r : Reference) × (o ≡ some r)
      × (ss ≡ r.pipeline ∷ r.address.node ∷ r.address.param ∷ [])
      × IsReference r
unfolding reference_of
reference_of-eq-ok value [] o f h = cc
reference_of-eq-ok value (p ∷ []) o f h = cc
reference_of-eq-ok value (p ∷ n ∷ []) o f h = cc
reference_of-eq-ok value (p ∷ n ∷ q ∷ []) o f h = (
  record { pipeline = p; address = record { node = n; param = q } },
  ground arith,
  refl,
  ground arith,
)
reference_of-eq-ok value (p ∷ n ∷ q ∷ s ∷ rest) o f h = cc

-- A value that parses as a reference is the text of that reference, letter for letter, and the
-- three parts of the reference are nonempty and free of dots.
pub show_reference-parse_reference :
    (v : Value) (r : Reference)
    → parse_reference v ≡ ok (some r)
    → (v ≡ text (show_reference r)) × IsReference r
unfolding parse_reference
show_reference-parse_reference null r h = cc
show_reference-parse_reference (boolean b) r h = cc
show_reference-parse_reference (number n) r h = cc
show_reference-parse_reference (sequence xs) r h = cc
show_reference-parse_reference (mapping fs) r h = cc
show_reference-parse_reference (text []) r h = cc
show_reference-parse_reference (text (c ∷ s)) r h = elim (Bool-cases (nat_beq c reference_prefix)) [
  | inl yes_prefix ↦
      let found = rw yes_prefix at h in
      let (q, e, parts, good) =
        reference_of-eq-ok (c ∷ s) (split segment_separator s) (some r)
          (split-All-IsFree segment_separator s) found in
      let same : r ≡ q = cc in
      let whole : s ≡ join segment_separator (q.pipeline ∷ q.address.node ∷ q.address.param ∷ []) =
        sym (join-split segment_separator s) ∙ ap (join segment_separator) parts in
      (
        cc (same, whole, (nat_beq_iff c reference_prefix).0 yes_prefix),
        subst IsReference (sym same) good,
      )
  | inr no_prefix ↦ ground arith
]

-- What is not a string, and a string without the prefix, is a plain value.
pub parse_reference_plain :
    (v : Value) → ((s : Text) → v ≢ text (reference_prefix ∷ s)) → parse_reference v ≡ ok none
unfolding parse_reference
parse_reference_plain (text []) h = refl
parse_reference_plain (text (c ∷ s)) h = ground (arith, nat_beq_iff c reference_prefix, h s)
parse_reference_plain _ h = refl
