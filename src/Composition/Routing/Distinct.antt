-- ===== src/Composition/Routing/Distinct.antt =====
-- No two legs of a run write to the same hand-off directory.
use tz_oss_interop.Prelude.{
  ℕ, ◌+◌, ◌<◌, ◌≡◌, ◌≢◌, refl, sym, ◌∙◌, ap, subst, Bool, true, false, Option, none, some, List, [],
  ◌∷◌, ◌++◌, map, arith, nat_beq, inl, inr, if◌then◌else◌, All,
}
use tz_oss_interop.Prelude.Text.{
  Text, codes, decimal, decimal_injective, decimal-IsFree, split, split-append, IsFree,
}
use tz_oss_interop.Errors.{ok}
use tz_oss_interop.Composition.Legs.{LegKind, mapping, translation, PlannedLeg}
use tz_oss_interop.Composition.Routing.{
  handoff_directory, Seen, count_of, count_one, route_from, none_seen, route_handoffs,
}
use tz_oss_interop.Composition.Routing.Chain.{route_handoffs-eq-ok}

dash : ℕ
dash = b'-'

-- The parts of a directory's name between the dashes.
split-directory_translation :
    (i : ℕ) (l : PlannedLeg)
    → l.kind ≡ translation
    → split dash (handoff_directory i l) ≡ decimal i ∷ split dash l.pipeline
unfolding handoff_directory dash
split-directory_translation i l h =
    rw h (split-append b'-' (decimal i) l.pipeline (decimal-IsFree b'-' i (inl (omega arith))))

split-directory_mapping :
    (i : ℕ) (l : PlannedLeg)
    → l.kind ≡ mapping
    → split dash (handoff_directory i l) ≡ codes "mapping" ∷ decimal i ∷ split dash l.pipeline
unfolding handoff_directory dash
split-directory_mapping i l h = rw h (
    split-append b'-' (codes "mapping") (decimal i ++ b'-' ∷ l.pipeline) refl
    ∙ ap (λ ss. codes "mapping" ∷ ss)
        (split-append b'-' (decimal i) l.pipeline (decimal-IsFree b'-' i (inl (omega arith)))))

decimal-ne-mapping : (i : ℕ) → decimal i ≢ codes "mapping"
decimal-ne-mapping i e =
    let free = subst (IsFree b'm') e (decimal-IsFree b'm' i (inr (omega arith))) in cc free

handoff_directory_kinds :
    (i j : ℕ) (l m : PlannedLeg)
    → l.kind ≡ mapping
    → m.kind ≡ translation
    → handoff_directory i l ≢ handoff_directory j m
handoff_directory_kinds i j l m hl hm e =
    let parts =
      sym (split-directory_mapping i l hl)
      ∙ ap (split dash) e
      ∙ split-directory_translation j m hm in
    decimal-ne-mapping j (cc parts)

-- The name of a directory tells the kind of the leg that writes it and the leg's position among
-- the legs of its kind.
handoff_directory_injective :
    (i j : ℕ) (l m : PlannedLeg)
    → handoff_directory i l ≡ handoff_directory j m
    → (l.kind ≡ m.kind) × (i ≡ j)
handoff_directory_injective i j l m e = go l.kind m.kind refl refl
  where
    go : (a b : LegKind) → l.kind ≡ a → m.kind ≡ b → (l.kind ≡ m.kind) × (i ≡ j)
    go mapping translation hl hm = absurd (handoff_directory_kinds i j l m hl hm e)
    go translation mapping hl hm = absurd (handoff_directory_kinds j i m l hm hl (sym e))
    go mapping mapping hl hm =
        let parts =
          sym (split-directory_mapping i l hl)
          ∙ ap (split dash) e
          ∙ split-directory_mapping j m hm in
        (cc, decimal_injective i j (cc parts))
    go translation translation hl hm =
        let parts =
          sym (split-directory_translation i l hl)
          ∙ ap (split dash) e
          ∙ split-directory_translation j m hm in
        (cc, decimal_injective i j (cc parts))

-- Two ends that are not one directory.
abbrev pub Apart : Option Text → Option Text → Type 0
Apart none other = Unit
Apart (some directory) other = other ≢ some directory

-- No directory stands twice in a list of ends.
abbrev pub IsDistinct : List (Option Text) → Type 0
IsDistinct [] = Unit
IsDistinct (end ∷ ends) = All (Apart end) ends × IsDistinct ends

abbrev pub writes_of : List PlannedLeg → List (Option Text)
writes_of legs = map (λ leg. leg.writes_handoff_to) legs

end_apart : (is_final : Bool) (d d' : Text) → d ≢ d' → (if is_final then none else some d) ≢ some d'
end_apart true d d' h = cc
end_apart false d d' h = λ e. h (cc e)

All-Apart :
    (is_final : Bool) (d : Text) (ends : List (Option Text))
    → All (Apart (some d)) ends
    → All (Apart (if is_final then none else some d)) ends
All-Apart true d [] h = tt
All-Apart true d (end ∷ ends) h = (tt, All-Apart true d ends h.1)
All-Apart false d ends h = h

count_of-count_one :
    (i : ℕ) (seen : Seen) (k kind : LegKind)
    → i < count_of seen kind
    → i < count_of (count_one seen k) kind
count_of-count_one i seen mapping mapping h = omega arith
count_of-count_one i seen mapping translation h = h
count_of-count_one i seen translation mapping h = h
count_of-count_one i seen translation translation h = omega arith

count_of-count_one_self :
    (seen : Seen) (kind : LegKind) → count_of seen kind < count_of (count_one seen kind) kind
count_of-count_one_self seen mapping = omega arith
count_of-count_one_self seen translation = omega arith

-- The ends still to come are apart from the directory of a leg that is counted already.
later-Apart :
    (i : ℕ) (l : PlannedLeg) (final index : ℕ) (upstream : Option Text) (seen : Seen)
    (legs : List PlannedLeg)
    → i < count_of seen l.kind
    → All
        (Apart (some (handoff_directory i l)))
        (writes_of (route_from final index upstream seen legs))
unfolding route_from
later-Apart i l final index upstream seen [] h = tt
later-Apart i l final index upstream seen (m ∷ ms) h = (
  end_apart (nat_beq index final) (handoff_directory (count_of seen m.kind) m)
      (handoff_directory i l)
      (λ e.
        let (kinds, numbers) = handoff_directory_injective (count_of seen m.kind) i m l e in
        let again : count_of seen m.kind ≡ count_of seen l.kind = ap (count_of seen) kinds in
        absurd (omega arith)),
  later-Apart i l final (index + 1) _ (count_one seen m.kind) ms
      (count_of-count_one i seen m.kind l.kind h),
)

route_from-IsDistinct :
    (final index : ℕ) (upstream : Option Text) (seen : Seen) (legs : List PlannedLeg)
    → IsDistinct (writes_of (route_from final index upstream seen legs))
unfolding route_from
route_from-IsDistinct final index upstream seen [] = tt
route_from-IsDistinct final index upstream seen (leg ∷ legs) =
    let rest = route_from final (index + 1) _ (count_one seen leg.kind) legs in
    (
      All-Apart (nat_beq index final) (handoff_directory (count_of seen leg.kind) leg)
          (writes_of rest)
          (later-Apart (count_of seen leg.kind) leg final (index + 1) _ (count_one seen leg.kind)
            legs (count_of-count_one_self seen leg.kind)),
      route_from-IsDistinct final (index + 1) _ (count_one seen leg.kind) legs,
    )

-- No two legs of a routed run write to one directory, whatever the names of their pipelines are.
pub route_handoffs-IsDistinct :
    (planned routed : List PlannedLeg)
    → route_handoffs planned ≡ ok routed
    → IsDistinct (writes_of routed)
route_handoffs-IsDistinct planned routed e =
    let (final, _, same) = route_handoffs-eq-ok planned routed e in
    subst (λ ls. IsDistinct (writes_of ls)) same
      (route_from-IsDistinct final 0 none none_seen planned)
