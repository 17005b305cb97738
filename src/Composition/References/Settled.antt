-- ===== src/Composition/References/Settled.antt =====
-- What the loop of `_resolve_leg_references` leaves of each node, one round at a time.
use tz_oss_interop.Prelude.{
  ◌≡◌, refl, sym, ◌∙◌, ap, subst, ◌⊎◌, inl, inr, true, false, Option, none, some, List, [], ◌∷◌,
  ◌++◌, map, arith, if◌then◌else◌, ◌==◌, ◌&&◌, Bool-cases, Option-cases,
}
use tz_oss_interop.Prelude.Text.{Text, text_eq, text_beq_iff}
use tz_oss_interop.Prelude.Dict.{lookup, lookup-insert}
use tz_oss_interop.Errors.{Result, ok, >>=-eq-ok}
use tz_oss_interop.Spec.{Value, Params, NodeSpec}
use tz_oss_interop.Composition.Addressing.{ParamAddress, Reference, parse_reference, rewrite}
use tz_oss_interop.Composition.Addressing.Access.{name-rewrite}
use tz_oss_interop.Composition.References.{Entry, entries_of_params, visit, for_pending}

-- Inversion of one round of the loop.
pub for_pending-cons {ℓ} :
    {S : Type ℓ} (body : S → ParamAddress → Reference → Result S) (s : S) (entry : Entry)
    (entries : List Entry) {t : S}
    → for_pending body s (entry ∷ entries) ≡ ok t
    → (pending : Option Reference) × (u : S) × (parse_reference entry.value ≡ ok pending)
      × (visit body s entry.address pending ≡ ok u)
      × (for_pending body u entries ≡ ok t)
unfolding for_pending
for_pending-cons body s entry entries h =
    let (pending, parsed, rest) = >>=-eq-ok (parse_reference entry.value) _ h in
    let (u, visited, more) = >>=-eq-ok (visit body s entry.address pending) _ rest in
    (pending, u, parsed, visited, more)

-- Some entry of the list has the address and holds a reference.
abbrev pub IsPending : ParamAddress → List Entry → Type 0
IsPending a [] = ⊥
IsPending a (entry ∷ entries) =
    ((entry.address ≡ a) × ((r : Reference) × (parse_reference entry.value ≡ ok (some r))))
    ⊎ IsPending a entries

-- Some entry of the list has the address and the value.
abbrev pub Holds : ParamAddress → Value → List Entry → Type 0
Holds a v [] = ⊥
Holds a v (entry ∷ entries) = ((entry.address ≡ a) × (entry.value ≡ v)) ⊎ Holds a v entries

pub Holds-append_left :
    (a : ParamAddress) (v : Value) (xs ys : List Entry) → Holds a v xs → Holds a v (xs ++ ys)
Holds-append_left a v [] ys h = absurd h
Holds-append_left a v (x ∷ xs) ys (inl h) = inl h
Holds-append_left a v (x ∷ xs) ys (inr h) = inr (Holds-append_left a v xs ys h)

pub Holds-append_right :
    (a : ParamAddress) (v : Value) (xs ys : List Entry) → Holds a v ys → Holds a v (xs ++ ys)
Holds-append_right a v [] ys h = h
Holds-append_right a v (x ∷ xs) ys h = inr (Holds-append_right a v xs ys h)

abbrev pub address_at : Text → Text → ParamAddress
address_at node param = record { node = node; param = param }

pub lookup-Holds :
    (node param : Text) (v : Value) (params : Params)
    → lookup param params ≡ some v
    → Holds (address_at node param) v (entries_of_params node params)
unfolding lookup
lookup-Holds node param v [] h = absurd (cc h)
lookup-Holds node param v ((key, w) ∷ params) h = elim (Bool-cases (key == param)) [
  | inl here ↦
      let same : key ≡ param = (text_beq_iff key param).0 here in
      let value : some w ≡ some v = rw here at h in inl (ap (address_at node) same, cc value)
  | inr there ↦ inr (lookup-Holds node param v params (rw there at h))
]

-- What a finished loop says of a value that an entry held.
pub IsPending-or_plain :
    {S : Type 0} (body : S → ParamAddress → Reference → Result S) (a : ParamAddress) (v : Value)
    (entries : List Entry) (s t : S)
    → for_pending body s entries ≡ ok t
    → Holds a v entries
    → (parse_reference v ≡ ok none) ⊎ IsPending a entries
IsPending-or_plain body a v [] s t h held = absurd held
IsPending-or_plain body a v (entry ∷ entries) s t h (inl (address, value)) =
    let (pending, u, parsed, _, _) = for_pending-cons body s entry entries h in
    elim (Option-cases pending) [
      | inl plain ↦ inl (cc (parsed, value, plain))
      | inr (r, e) ↦ inr (inl (address, (r, cc (parsed, e))))
    ]
IsPending-or_plain body a v (entry ∷ entries) s t h (inr held) =
    let (pending, u, _, _, more) = for_pending-cons body s entry entries h in
    elim (IsPending-or_plain body a v entries u t more held) [
      | inl plain ↦ inl plain
      | inr later ↦ inr (inr later)
    ]

-- What the loop over the entries has made of a node: a param whose value may still be a reference
-- is one that the node had, at an address that was not pending.
pub record IsSettled (entries : List Entry) (before after : NodeSpec) : Type 0 where
  pub name : after.name ≡ before.name
  pub param :
      (p : Text) (v : Value)
      → lookup p after.params ≡ some v
      → (parse_reference v ≡ ok none)
        ⊎ ((lookup p before.params ≡ some v) × ¬ IsPending (address_at before.name p) entries)

-- Nodes taken in pairs.
abbrev pub Paired : (NodeSpec → NodeSpec → Type 0) → List NodeSpec → List NodeSpec → Type 0
Paired R [] [] = Unit
Paired R [] (m ∷ ms) = ⊥
Paired R (n ∷ ns) [] = ⊥
Paired R (n ∷ ns) (m ∷ ms) = R n m × Paired R ns ms

pub Paired-imp :
    (R Q : NodeSpec → NodeSpec → Type 0) (f : NodeSpec → NodeSpec)
    → ((n m : NodeSpec) → R (f n) m → Q n m)
    → (ns ms : List NodeSpec) → Paired R (map f ns) ms
    → Paired Q ns ms
Paired-imp R Q f g [] [] h = tt
Paired-imp R Q f g [] (m ∷ ms) h = h
Paired-imp R Q f g (n ∷ ns) [] h = h
Paired-imp R Q f g (n ∷ ns) (m ∷ ms) h = (g n m h.0, Paired-imp R Q f g ns ms h.1)

pub Paired-weaken :
    (R Q : NodeSpec → NodeSpec → Type 0)
    → ((n m : NodeSpec) → R n m → Q n m)
    → (ns ms : List NodeSpec) → Paired R ns ms
    → Paired Q ns ms
Paired-weaken R Q g [] [] h = tt
Paired-weaken R Q g [] (m ∷ ms) h = h
Paired-weaken R Q g (n ∷ ns) [] h = h
Paired-weaken R Q g (n ∷ ns) (m ∷ ms) h = (g n m h.0, Paired-weaken R Q g ns ms h.1)

pub IsSettled-nil : (ns : List NodeSpec) → Paired (IsSettled []) ns ns
IsSettled-nil [] = tt
IsSettled-nil (n ∷ ns) =
    (record { name = refl; param = λ p v h. inr (h, λ none_left. none_left) }, IsSettled-nil ns)

pub IsSettled-plain :
    (entry : Entry) (entries : List Entry) (n m : NodeSpec)
    → parse_reference entry.value ≡ ok none
    → IsSettled entries n m
    → IsSettled (entry ∷ entries) n m
IsSettled-plain entry entries n m plain h = record {
  name = h.name;
  param = λ p v found. elim (h.param p v found) [
    | inl settled ↦ inl settled
    | inr (had, free) ↦ inr (
      had,
      elim [
        | inl (_, (r, is_reference)) ↦ absurd (cc (plain, is_reference))
        | inr later ↦ free later
      ],
    )
  ];
}

lookup-rewrite :
    (a : ParamAddress) (w : Value) (n : NodeSpec) (p : Text)
    → lookup p (rewrite a w n).params
      ≡ (if n.name == a.node && a.param == p then some w else lookup p n.params)
unfolding rewrite
lookup-rewrite a w n p = ground (arith, lookup-insert a.param p w n.params)

pub IsSettled-set :
    (entry : Entry) (w : Value) (entries : List Entry) (n m : NodeSpec)
    → parse_reference w ≡ ok none
    → IsSettled entries (rewrite entry.address w n) m
    → IsSettled (entry ∷ entries) n m
IsSettled-set entry w entries n m plain h = record {
  name = h.name ∙ name-rewrite a w n;
  param = λ p v found. elim (h.param p v found) [
    | inl settled ↦ inl settled
    | inr (had, free) ↦ elim (Bool-cases (n.name == a.node && a.param == p)) [
      | inl here ↦ inl (set_here p v had here)
      | inr other ↦ inr (sym (elsewhere p other) ∙ had, still_free p other free)
    ]
  ];
}
  where
    a : ParamAddress
    a = entry.address

    set_here :
        (p : Text) (v : Value)
        → lookup p (rewrite a w n).params ≡ some v
        → (n.name == a.node && a.param == p) ≡ true
        → parse_reference v ≡ ok none
    set_here p v had here =
        let same : some w ≡ some v = rw here at (sym (lookup-rewrite a w n p) ∙ had) in
        cc (same, plain)

    elsewhere :
        (p : Text)
        → (n.name == a.node && a.param == p) ≡ false
        → lookup p (rewrite a w n).params ≡ lookup p n.params
    elsewhere p other = rw other at (lookup-rewrite a w n p)

    still_free :
        (p : Text)
        → (n.name == a.node && a.param == p) ≡ false
        → ¬ IsPending (address_at (rewrite a w n).name p) entries
        → ¬ IsPending (address_at n.name p) (entry ∷ entries)
    still_free p other free = elim [
      | inl (same, _) ↦ ground (arith, text_beq_iff n.name a.node, text_beq_iff a.param p)
      | inr later ↦
          free
            (subst (λ name. IsPending (address_at name p) entries) (sym (name-rewrite a w n)) later)
    ]
