-- ===== src/Composition/Routing/Chain.antt =====
-- The hand-offs of a routed run form one chain.
use tz_oss_interop.Prelude.{
  ℕ, ◌+◌, ◌≤◌, ◌<◌, ◌≡◌, refl, ◌∙◌, ap, ap₂, subst, true, false, Option, none, some, List, [], ◌∷◌,
  ◌++◌, arith, nat_beq, nat_beq_iff, if◌then◌else◌, length, All,
}
use tz_oss_interop.Prelude.Text.{Text}
use tz_oss_interop.Errors.{ok, >>=-eq-ok}
use tz_oss_interop.Composition.Legs.{LegKind, mapping, translation, PlannedLeg, is_translation}
use tz_oss_interop.Composition.Legs.Order.{
  Outline, outlines, pipelines_of, specs_of, bodies_of, IsMappings, IsTranslations, IsRunOrder,
}
use tz_oss_interop.Composition.Routing.Indexes.{final_translation-eq-ok}
use tz_oss_interop.Composition.Routing.{
  handoff_directory, Seen, count_of, count_one, route_leg, route_from, none_seen, final_translation,
  route_handoffs,
}

-- Each leg reads the directory that the leg before it writes, the first one reads `upstream`, and
-- the last one writes none.
abbrev pub IsLinked : Option Text → List Outline → Type 0
IsLinked upstream [] = Unit
IsLinked upstream (leg ∷ []) = (leg.reads_handoff_from ≡ upstream) × (leg.writes_handoff_to ≡ none)
IsLinked upstream (leg ∷ next ∷ legs) =
    (leg.reads_handoff_from ≡ upstream)
    × ((directory : Text) × (leg.writes_handoff_to ≡ some directory)
        × IsLinked (some directory) (next ∷ legs))

-- A mapping leg reads no hand-off and writes to a directory.
abbrev pub StandsAlone : Outline → Type 0
StandsAlone leg =
    (leg.reads_handoff_from ≡ none)
    × ((directory : Text) × (leg.writes_handoff_to ≡ some directory))

route_translations :
    (final index : ℕ) (upstream : Option Text) (seen : Seen) (ts : List PlannedLeg)
    → IsTranslations ts
    → final + 1 ≡ index + length ts
    → IsLinked upstream (outlines (route_from final index upstream seen ts))
unfolding route_from
route_translations final index upstream seen [] h e = tt
route_translations final index upstream seen (t ∷ []) h e =
    let here : nat_beq index final ≡ true = (nat_beq_iff index final).1 (omega arith) in
    (rw h.0, rw here)
route_translations final index upstream seen (t ∷ u ∷ ts) h e =
    let directory = handoff_directory (count_of seen t.kind) t in
    let upstream' = if is_translation t then some directory else upstream in
    let rest = route_from final (index + 1) upstream' (count_one seen t.kind) (u ∷ ts) in
    let is_next : upstream' ≡ some directory = ground (arith, h.0) in
    let more : nat_beq index final ≡ false = ground arith in
    let ih =
      route_translations final (index + 1) upstream' (count_one seen t.kind) (u ∷ ts) h.1
        (omega arith) in
    (
      ground (arith, h.0),
      (directory, ground (arith, more), subst (λ up. IsLinked up (outlines rest)) is_next ih),
    )

-- The counters after the legs `ms`.
abbrev count_all : Seen → List PlannedLeg → Seen
count_all seen [] = seen
count_all seen (m ∷ ms) = count_all (count_one seen m.kind) ms

route_mappings :
    (final index : ℕ) (upstream : Option Text) (seen : Seen) (ms : List PlannedLeg)
    → IsMappings ms
    → index + length ms ≤ final
    → All StandsAlone (outlines (route_from final index upstream seen ms))
unfolding route_from
route_mappings final index upstream seen [] h e = tt
route_mappings final index upstream seen (m ∷ ms) h e =
    let directory = handoff_directory (count_of seen m.kind) m in
    let upstream' = if is_translation m then some directory else upstream in
    let more : nat_beq index final ≡ false = ground arith in
    (
      (ground (arith, h.0), (directory, ground (arith, more))),
      route_mappings final (index + 1) upstream' (count_one seen m.kind) ms h.1 (omega arith),
    )

route_from-append :
    (final index : ℕ) (upstream : Option Text) (seen : Seen) (ms ts : List PlannedLeg)
    → IsMappings ms
    → route_from final index upstream seen (ms ++ ts)
      ≡ route_from final index upstream seen ms
        ++ route_from final (index + length ms) upstream (count_all seen ms) ts
unfolding route_from
route_from-append final index upstream seen [] ts h =
    ap (λ i. route_from final i upstream seen ts) (omega arith)
route_from-append final index upstream seen (m ∷ ms) ts h =
    let directory = handoff_directory (count_of seen m.kind) m in
    let upstream' = if is_translation m then some directory else upstream in
    let seen' = count_one seen m.kind in
    let same : upstream' ≡ upstream = ground (arith, h.0) in
    let leg = route_leg (nat_beq index final) upstream directory m in
    ap (λ ls. leg ∷ ls)
      (route_from-append final (index + 1) upstream' seen' ms ts h.1
        ∙ ap₂
            (λ up i.
              route_from final (index + 1) upstream' seen' ms
              ++ route_from final i up (count_all seen' ms) ts)
            same (omega arith))

pub specs_of-route_from :
    (final index : ℕ) (upstream : Option Text) (seen : Seen) (legs : List PlannedLeg)
    → specs_of (route_from final index upstream seen legs) ≡ specs_of legs
unfolding route_from
specs_of-route_from final index upstream seen [] = refl
specs_of-route_from final index upstream seen (leg ∷ legs) =
    ap (λ rest. leg.spec ∷ rest) (specs_of-route_from final (index + 1) _ _ legs)

bodies_of-route_from :
    (final index : ℕ) (upstream : Option Text) (seen : Seen) (legs : List PlannedLeg)
    → bodies_of (route_from final index upstream seen legs) ≡ bodies_of legs
unfolding route_from
bodies_of-route_from final index upstream seen [] = refl
bodies_of-route_from final index upstream seen (leg ∷ legs) =
    ap (λ rest. (leg.pipeline, leg.spec) ∷ rest) (bodies_of-route_from final (index + 1) _ _ legs)

pipelines_of-route_from :
    (final index : ℕ) (upstream : Option Text) (seen : Seen) (legs : List PlannedLeg)
    → pipelines_of (route_from final index upstream seen legs) ≡ pipelines_of legs
unfolding route_from
pipelines_of-route_from final index upstream seen [] = refl
pipelines_of-route_from final index upstream seen (leg ∷ legs) =
    ap (λ rest. leg.pipeline ∷ rest) (pipelines_of-route_from final (index + 1) _ _ legs)

All-kind-route_from :
    (kind : LegKind) (final index : ℕ) (upstream : Option Text) (seen : Seen)
    (legs : List PlannedLeg)
    → All (λ leg. leg.kind ≡ kind) legs
    → All (λ leg. leg.kind ≡ kind) (route_from final index upstream seen legs)
unfolding route_from
All-kind-route_from kind final index upstream seen [] h = tt
All-kind-route_from kind final index upstream seen (leg ∷ legs) h =
    (h.0, All-kind-route_from kind final (index + 1) _ _ legs h.1)

-- What routing does to legs in run order.
pub record IsRouted (planned : List PlannedLeg) (before : IsRunOrder planned)
    (routed : List PlannedLeg) : Type 0 where
  pub order : IsRunOrder routed
  pub mapping_pipelines : pipelines_of order.mappings ≡ pipelines_of before.mappings
  pub translation_pipelines : pipelines_of order.translations ≡ pipelines_of before.translations
  pub specs : specs_of routed ≡ specs_of planned
  pub bodies : bodies_of order.translations ≡ bodies_of before.translations
  pub alone : All StandsAlone (outlines order.mappings)
  pub linked : IsLinked none (outlines order.translations)

module _ (final : ℕ) (planned : List PlannedLeg) (h : IsRunOrder planned)
    (last : final + 1 ≡ length h.mappings + length h.translations)
    (some_translation : 0 < length h.translations) where
  routed_mappings : List PlannedLeg
  routed_mappings = route_from final 0 none none_seen h.mappings

  routed_translations : List PlannedLeg
  routed_translations =
      route_from final (0 + length h.mappings) none (count_all none_seen h.mappings) h.translations

  routed_order : IsRunOrder (route_from final 0 none none_seen planned)
  unfolding routed_mappings routed_translations
  routed_order = record {
    mappings = routed_mappings;
    translations = routed_translations;
    whole =
        ap (route_from final 0 none none_seen) h.whole
        ∙ route_from-append final 0 none none_seen h.mappings h.translations h.mapping_kinds;
    mapping_kinds = All-kind-route_from mapping final 0 none none_seen h.mappings h.mapping_kinds;
    translation_kinds =
        All-kind-route_from translation final _ none _ h.translations h.translation_kinds;
  }

  route_from-IsRouted : IsRouted planned h (route_from final 0 none none_seen planned)
  unfolding routed_order
  route_from-IsRouted = record {
    order = routed_order;
    mapping_pipelines = pipelines_of-route_from final 0 none none_seen h.mappings;
    translation_pipelines = pipelines_of-route_from final _ none _ h.translations;
    specs = specs_of-route_from final 0 none none_seen planned;
    bodies = bodies_of-route_from final _ none _ h.translations;
    alone = route_mappings final 0 none none_seen h.mappings h.mapping_kinds (omega arith);
    linked =
        route_translations final (0 + length h.mappings) none _ h.translations h.translation_kinds
          (omega arith);
  }

pub route_handoffs-eq-ok :
    (planned routed : List PlannedLeg)
    → route_handoffs planned ≡ ok routed
    → (final : ℕ) × (final_translation planned ≡ ok final)
      × (route_from final 0 none none_seen planned ≡ routed)
unfolding route_handoffs
route_handoffs-eq-ok planned routed e =
    let (final, found, same) = >>=-eq-ok (final_translation planned) _ e in (final, found, cc same)

-- Routing keeps the legs and their order, and links them: each translation leg reads what the one
-- before it writes, the first reads none and the last writes none, and each mapping leg reads none
-- and writes to a directory.
pub route_handoffs-IsRouted :
    (planned routed : List PlannedLeg) (h : IsRunOrder planned)
    → route_handoffs planned ≡ ok routed
    → IsRouted planned h routed
route_handoffs-IsRouted planned routed h e =
    let (final, found, same) = route_handoffs-eq-ok planned routed e in
    let (last, some_translation) = final_translation-eq-ok planned h final found in
    subst (IsRouted planned h) same (route_from-IsRouted final planned h last some_translation)
