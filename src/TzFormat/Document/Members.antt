-- ===== src/TzFormat/Document/Members.antt =====
-- The members of the sets of a document, and that the sets of every field's levels are among them.
use tz_oss_interop.Prelude.{
  Bool, true, false, List, [], ◌∷◌, contains, ◌==◌, map, keep_if, not, ◌≡◌, refl, arith, All, ◌&&◌,
  all, pair_eq,
}
use tz_oss_interop.Prelude.Text.{Text, text_eq, text_beq}
use tz_oss_interop.Prelude.Dict.{insert, update, keys}
use tz_oss_interop.TzFormat.{TzValue, Sets, set_of_level}
use tz_oss_interop.TzFormat.Levels.{IsDistinct}
use tz_oss_interop.TzFormat.Reference.{path_eq}
use tz_oss_interop.TzFormat.Reading.{AreDistinct}
use tz_oss_interop.TzFormat.Totality.{AreKnown}
use tz_oss_interop.TzFormat.Fields.{owner_eq, TzField}
use tz_oss_interop.TzFormat.Fields.Table.{tz_fields}
use tz_oss_interop.TzFormat.Document.{TzObject, without_repeats, build_tz_sets, build_time_sets}

contains-keep_if :
    (p : Text → Bool) (m : Text) (ms : List Text)
    → contains ms m ≡ false
    → contains (keep_if p ms) m ≡ false
contains-keep_if p m [] h = refl
contains-keep_if p m (n ∷ ms) h = ground (arith, contains-keep_if p m ms)

keep_if-IsDistinct : (p : Text → Bool) (ms : List Text) → IsDistinct ms → IsDistinct (keep_if p ms)
keep_if-IsDistinct p [] h = tt
keep_if-IsDistinct p (m ∷ ms) h =
    ground (arith, keep_if-IsDistinct p ms h.1, contains-keep_if p m ms h.0)

contains-keep_if_other :
    (m : Text) (ms : List Text) → contains (keep_if (λ n. not (n == m)) ms) m ≡ false
contains-keep_if_other m [] = refl
contains-keep_if_other m (n ∷ ms) = ground (arith, contains-keep_if_other m ms)

without_repeats-IsDistinct : (ms : List Text) → IsDistinct (without_repeats ms)
unfolding without_repeats
without_repeats-IsDistinct [] = tt
without_repeats-IsDistinct (m ∷ ms) = (
  contains-keep_if_other m (without_repeats ms),
  keep_if-IsDistinct _ (without_repeats ms) (without_repeats-IsDistinct ms),
)

without_repeats-AreDistinct :
    (sets : Sets) → AreDistinct (map (λ s. (s.0, without_repeats s.1)) sets)
without_repeats-AreDistinct [] = tt
without_repeats-AreDistinct (s ∷ sets) =
    (without_repeats-IsDistinct s.1, without_repeats-AreDistinct sets)

pub build_tz_sets-AreDistinct :
    (found : Sets) (objects : List TzObject) → AreDistinct (build_tz_sets found objects)
unfolding build_tz_sets
build_tz_sets-AreDistinct found objects = without_repeats-AreDistinct _

both_true : (b c : Bool) → (b && c) ≡ true → (b ≡ true) × (c ≡ true)
both_true b c h = ground arith

-- The sets of a document have the names of the two tables.
abbrev pub document_sets : (Text → List TzValue) → List TzObject → Sets
document_sets held objects = build_tz_sets (build_time_sets held) objects

abbrev knows : Sets → List Text → Bool
knows sets levels = all (λ level. contains (keys sets) (set_of_level level)) levels

knows-AreKnown :
    (sets : Sets) (levels : List Text) → knows sets levels ≡ true → AreKnown sets levels
knows-AreKnown sets [] h = tt
knows-AreKnown sets (level ∷ levels) h =
    let (here, more) =
      both_true (contains (keys sets) (set_of_level level)) (knows sets levels) h in
    (here, knows-AreKnown sets levels more)

fields-AreKnown :
    (sets : Sets) (fields : List TzField)
    → all (λ field. knows sets field.nesting) fields ≡ true
    → All (λ field. AreKnown sets field.nesting) fields
fields-AreKnown sets [] h = tt
fields-AreKnown sets (field ∷ fields) h =
    let (here, more) =
      both_true (knows sets field.nesting) (all (λ f. knows sets f.nesting) fields) h in
    (knows-AreKnown sets field.nesting here, fields-AreKnown sets fields more)

names_known :
    (held : Text → List TzValue) (objects : List TzObject)
    → all (λ field. knows (document_sets held objects) field.nesting) tz_fields ≡ true
unfolding build_tz_sets build_time_sets update insert set_of_level text_beq
names_known held objects = refl

-- The sets of every field's levels are among those of a document.
pub document_sets-AreKnown :
    (held : Text → List TzValue) (objects : List TzObject)
    → All (λ field. AreKnown (document_sets held objects) field.nesting) tz_fields
document_sets-AreKnown held objects =
    fields-AreKnown (document_sets held objects) tz_fields (names_known held objects)
