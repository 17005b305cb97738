-- ===== src/Composition/Routing.antt =====
-- The hand-offs between legs, from interop/core/composition/planning.py: `_route_handoffs` gives
-- each leg the directory it reads from and the one it writes to.
pub mod Indexes
pub mod Chain
pub mod Distinct
use tz_oss_interop.Prelude.{
  ℕ, zero, suc, ◌+◌, Bool, true, false, Option, none, some, List, [], ◌∷◌, ◌++◌, nat_beq,
  if◌then◌else◌, get_last?,
}
use tz_oss_interop.Prelude.Text.{Text, codes, decimal}
use tz_oss_interop.Errors.{Result, ok, err, ◌>>=◌, index_error}
use tz_oss_interop.Composition.Legs.{
  LegKind, mapping, translation, PlannedLeg, is_translation, is_translation_kind,
}

-- `[index for index, leg in enumerate(planned) if leg.kind is LegKind.TRANSLATION]`, from `first`.
unfoldable pub translation_indexes_from : ℕ → List PlannedLeg → List ℕ
translation_indexes_from first [] = []
translation_indexes_from first (leg ∷ legs) =
    let rest = translation_indexes_from (first + 1) legs in
    if is_translation leg then first ∷ rest else rest

unfoldable pub translation_indexes : List PlannedLeg → List ℕ
unfolding translation_indexes_from
translation_indexes planned = translation_indexes_from 0 planned

abbrev pub handoff_prefix : LegKind → Text
handoff_prefix translation = []
handoff_prefix mapping = codes "mapping-"

unfoldable pub handoff_directory : ℕ → PlannedLeg → Text
handoff_directory position leg = handoff_prefix leg.kind ++ decimal position ++ b'-' ∷ leg.pipeline

-- `Counter[LegKind]`
pub record Seen : Type 0 where
  pub mappings : ℕ
  pub translations : ℕ

abbrev pub count_of : Seen → LegKind → ℕ
count_of seen mapping = seen.mappings
count_of seen translation = seen.translations

abbrev pub count_one : Seen → LegKind → Seen
count_one seen mapping = record seen { mappings = seen.mappings + 1 }
count_one seen translation = record seen { translations = seen.translations + 1 }

-- The body of the loop: the leg with its two ends.
abbrev pub route_leg : Bool → Option Text → Text → PlannedLeg → PlannedLeg
route_leg is_final upstream directory leg = record leg {
  reads_handoff_from = if is_translation leg then upstream else none;
  writes_handoff_to = if is_final then none else some directory;
}

-- The loop from index `index`.
unfoldable pub route_from :
    (final index : ℕ) → Option Text → Seen → List PlannedLeg → List PlannedLeg
route_from final index upstream seen [] = []
route_from final index upstream seen (leg ∷ legs) =
    let directory = handoff_directory (count_of seen leg.kind) leg in
    route_leg (nat_beq index final) upstream directory leg
    ∷ route_from final (index + 1) (if is_translation leg then some directory else upstream)
        (count_one seen leg.kind) legs

abbrev pub none_seen : Seen
none_seen = record { mappings = 0; translations = 0 }

abbrev pub subscript : Option ℕ → Result ℕ
subscript none = err index_error
subscript (some index) = ok index

-- `_translation_indexes(planned)[-1]`
unfoldable pub final_translation : List PlannedLeg → Result ℕ
final_translation planned = subscript (get_last? (translation_indexes planned))

unfoldable pub route_handoffs : List PlannedLeg → Result (List PlannedLeg)
unfolding route_from
route_handoffs planned = do
  final ← final_translation planned
  ok (route_from final 0 none none_seen planned)
