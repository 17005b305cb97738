-- ===== src/Composition/Routing/Indexes.antt =====
-- Where the last translation leg stands: `_translation_indexes(planned)[-1]`.
use tz_oss_interop.Prelude.{
  ℕ, suc, ◌+◌, ◌<◌, ◌≡◌, ◌≢◌, refl, sym, ◌∙◌, ap, true, false, some, List, [], ◌∷◌, ◌++◌, arith,
  length, get_last?,
}
use tz_oss_interop.Errors.{ok, ok_injective}
use tz_oss_interop.Composition.Legs.{translation, PlannedLeg, is_translation}
use tz_oss_interop.Composition.Legs.Order.{IsMappings, IsTranslations, IsRunOrder}
use tz_oss_interop.Composition.Routing.{
  translation_indexes_from, translation_indexes, subscript, final_translation,
}

indexes-append :
    (first : ℕ) (ms ts : List PlannedLeg)
    → IsMappings ms
    → translation_indexes_from first (ms ++ ts) ≡ translation_indexes_from (first + length ms) ts
unfolding translation_indexes_from
indexes-append first [] ts h = ap (λ i. translation_indexes_from i ts) (omega arith)
indexes-append first (m ∷ ms) ts h =
    let here : is_translation m ≡ false = ground (arith, h.0) in
    rw here
      (indexes-append (first + 1) ms ts h.1 ∙ ap (λ i. translation_indexes_from i ts) (omega arith))

indexes-cons :
    (first : ℕ) (t : PlannedLeg) (ts : List PlannedLeg)
    → t.kind ≡ translation
    → translation_indexes_from first (t ∷ ts) ≡ first ∷ translation_indexes_from (first + 1) ts
unfolding translation_indexes_from
indexes-cons first t ts h = ground (arith, h)

last_index :
    (first : ℕ) (t : PlannedLeg) (ts : List PlannedLeg)
    → IsTranslations (t ∷ ts)
    → get_last? (translation_indexes_from first (t ∷ ts)) ≡ some (first + length ts)
last_index first t [] h =
    rw (indexes-cons first t [] h.0) (unfold translation_indexes_from in ap some (omega arith))
last_index first t (u ∷ ts) h =
    let ih = last_index (first + 1) u ts h.1 in
    let e = indexes-cons first t (u ∷ ts) h.0 in
    let e' = indexes-cons (first + 1) u ts h.1.0 in
    ap get_last? e
    ∙ ap (λ l. get_last? (first ∷ l)) e'
    ∙ sym (ap get_last? e')
    ∙ ih
    ∙ ap some (omega arith)

-- In run order the final translation is the last leg of all, and there is one only where some leg
-- translates.
pub final_translation-eq-ok :
    (planned : List PlannedLeg) (h : IsRunOrder planned) (final : ℕ)
    → final_translation planned ≡ ok final
    → (final + 1 ≡ length h.mappings + length h.translations) × (0 < length h.translations)
unfolding final_translation translation_indexes
final_translation-eq-ok planned h final e = go h.translations h.translation_kinds (
    sym (
      ap (λ l. subscript (get_last? l))
        (ap (translation_indexes_from 0) h.whole
          ∙ indexes-append 0 h.mappings h.translations h.mapping_kinds))
    ∙ e)
  where
    go :
        (ts : List PlannedLeg)
        → IsTranslations ts
        → subscript (get_last? (translation_indexes_from (0 + length h.mappings) ts)) ≡ ok final
        → (final + 1 ≡ length h.mappings + length ts) × (0 < length ts)
    go [] kinds found = unfold translation_indexes_from in cc found
    go (t ∷ ts) kinds found =
        let here = last_index (0 + length h.mappings) t ts kinds in
        let same : ok (0 + length h.mappings + length ts) ≡ ok final =
          sym (ap subscript here) ∙ found in
        let number : 0 + length h.mappings + length ts ≡ final = ok_injective same in
        (omega arith, omega arith)

pub final_translation_total :
    (planned : List PlannedLeg) (h : IsRunOrder planned)
    → h.translations ≢ []
    → (final : ℕ) × (final_translation planned ≡ ok final)
unfolding final_translation translation_indexes
final_translation_total planned h some_translation =
    let moved =
      ap (λ l. subscript (get_last? l))
        (ap (translation_indexes_from 0) h.whole
          ∙ indexes-append 0 h.mappings h.translations h.mapping_kinds) in
    let (final, found) = go h.translations h.translation_kinds some_translation in
    (final, moved ∙ found)
  where
    go :
        (ts : List PlannedLeg)
        → IsTranslations ts
        → ts ≢ []
        → (final : ℕ) × (subscript (get_last? (translation_indexes_from (0 + length h.mappings) ts))
            ≡ ok final)
    go [] kinds nonempty = absurd (nonempty refl)
    go (t ∷ ts) kinds nonempty = (
      0 + length h.mappings + length ts,
      ap subscript (last_index (0 + length h.mappings) t ts kinds),
    )

pub indexes_of_one :
    (leg : PlannedLeg) → leg.kind ≡ translation → translation_indexes (leg ∷ []) ≡ 0 ∷ []
unfolding translation_indexes translation_indexes_from
indexes_of_one leg h = rw h

length-indexes :
    (first : ℕ) (ts : List PlannedLeg)
    → IsTranslations ts
    → length (translation_indexes_from first ts) ≡ length ts
unfolding translation_indexes_from
length-indexes first [] h = refl
length-indexes first (t ∷ ts) h =
    let here : is_translation t ≡ true = ground (arith, h.0) in
    rw here (ap suc (length-indexes (first + 1) ts h.1))

-- There are as many translation indexes as translation legs.
pub length-translation_indexes :
    (planned : List PlannedLeg) (h : IsRunOrder planned)
    → length (translation_indexes planned) ≡ length h.translations
unfolding translation_indexes
length-translation_indexes planned h =
    ap length (
      ap (translation_indexes_from 0) h.whole
      ∙ indexes-append 0 h.mappings h.translations h.mapping_kinds)
    ∙ length-indexes (0 + length h.mappings) h.translations h.translation_kinds
