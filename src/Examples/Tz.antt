-- ===== src/Examples/Tz.antt =====
-- A value of the TZ format, with a wildcard and a value above the last level, and trade routes
-- between regions.
use tz_oss_interop.Prelude.{
  ◌≡◌, refl, true, List, [], ◌∷◌, ◌==◌, if◌then◌else◌, All, map, keep_if, not, some,
}
use tz_oss_interop.Prelude.Text.{Text, text_eq, text_beq, codes}
use tz_oss_interop.Prelude.Dict.{lookup, or_else}
use tz_oss_interop.Errors.{ok}
use tz_oss_interop.TzFormat.{
  whole, float, TzValue, word, numeric, nested, flag, done, child, Children, Sets, TzEntry,
  set_of_level, get_set_members, list_level_members, product, list_repeated_entries,
  list_tz_entries,
}
use tz_oss_interop.TzFormat.Reference.{path_eq, value_at, HasDistinctKeys}
use tz_oss_interop.TzFormat.Reading.{lookup-list_tz_entries}
use tz_oss_interop.TzFormat.Totality.{HasLength, list_tz_entries-Returns}
use tz_oss_interop.TzFormat.RegionPairs.{
  build_bare_value, set_default, add_reverse, change_child, mirror_pair, pairs_under,
  list_region_pairs, mirror_all, mirror_value, build_region_pairs, pair_at, AreLevels,
}
use tz_oss_interop.TzFormat.Mirror.{pair_at-build_region_pairs}
use tz_oss_interop.TzFormat.Fields.{technologies}
use tz_oss_interop.TzFormat.Document.{
  TzObject, build_stated_fields, list_field_values, tz_fields_by_key, member_of_value,
}
use tz_oss_interop.TzFormat.Document.Members.{document_sets}
use tz_oss_interop.TzFormat.Document.Stated.{
  CanBeRead, is_known, source_name, stated_as, IsRow, build_stated_fields-CanBeRead,
}

abbrev sets : Sets
sets =
    (codes "REGION", codes "N" ∷ codes "S" ∷ []) ∷ (codes "YEAR", codes "1" ∷ codes "2" ∷ []) ∷ []

abbrev levels : List Text
levels = codes "REGION" ∷ codes "YEAR" ∷ []

-- 5 in every year of S, and 7 in the year 1 of the other regions.
abbrev cost : TzValue
cost = nested (
    child (codes "S") (numeric (whole (codes "5")))
      (child (codes "*") (nested (child (codes "1") (numeric (whole (codes "7"))) done)) done))

abbrev cost_entries : List TzEntry
cost_entries =
    (codes "S" ∷ codes "1" ∷ [], numeric (whole (codes "5")))
    ∷ (codes "S" ∷ codes "2" ∷ [], numeric (whole (codes "5")))
    ∷ (codes "N" ∷ codes "1" ∷ [], numeric (whole (codes "7")))
    ∷ []

cost_read : list_tz_entries sets cost levels ≡ ok cost_entries
unfolding list_tz_entries list_repeated_entries product get_set_members set_of_level
    list_level_members lookup text_beq
cost_read = refl

cost_keys : HasDistinctKeys cost
unfolding HasDistinctKeys text_beq
cost_keys = ((refl, (refl, tt)), (tt, (((refl, tt), (tt, tt)), tt)))

lookup-list_tz_entries_example :
    lookup (codes "N" ∷ codes "1" ∷ []) cost_entries
    ≡ value_at sets cost levels (codes "N" ∷ codes "1" ∷ [])
lookup-list_tz_entries_example =
    lookup-list_tz_entries sets cost levels (codes "N" ∷ codes "1" ∷ [])
      ((unfold text_beq in (refl, (refl, tt))), ((unfold text_beq in (refl, (refl, tt))), tt))
      cost_keys cost_read

list_tz_entries-Returns_example :
    (entries : List TzEntry) × (list_tz_entries sets cost levels ≡ ok entries)
    × All (HasLength 2) entries
list_tz_entries-Returns_example =
    list_tz_entries-Returns sets cost levels (unfold set_of_level text_beq in (refl, (refl, tt)))

abbrev routes : Children
routes = child (codes "N") (nested (child (codes "S") (flag true) done)) done

abbrev both_routes : Children
both_routes =
    child (codes "N") (nested (child (codes "S") (flag true) done))
      (child (codes "S") (nested (child (codes "N") (flag true) done)) done)

routes_mirrored : build_region_pairs (nested routes) ≡ nested both_routes
unfolding build_region_pairs build_bare_value mirror_value mirror_all mirror_pair change_child
    add_reverse set_default list_region_pairs pairs_under text_beq
routes_mirrored = refl

pair_at-build_region_pairs_example :
    pair_at (codes "S") (codes "N") both_routes
    ≡ or_else (pair_at (codes "S") (codes "N") routes) (pair_at (codes "N") (codes "S") routes)
pair_at-build_region_pairs_example =
    pair_at-build_region_pairs (nested routes) routes (codes "S") (codes "N")
      (unfold build_bare_value text_beq in refl) (unfold AreLevels in (refl, tt)) (refl, tt)
      routes_mirrored

abbrev held : Text → List TzValue
held name =
    if name == codes "years"
    then numeric (float (codes "2030.0") (some (codes "2030"))) ∷ []
    else []

abbrev gas : TzObject
gas = record {
  owner = technologies;
  name = codes "GAS";
  object_keys = codes "GAS" ∷ [];
  values = (codes "capex", cost) ∷ (codes "colour", word (codes "red")) ∷ [];
}

-- A year that is a float is the member of its integer.
year_of_float :
    member_of_value (numeric (float (codes "2030.0") (some (codes "2030")))) ≡ some (codes "2030")
unfolding member_of_value
year_of_float = refl

build_stated_fields-CanBeRead_example :
    (map stated_as (build_stated_fields (gas ∷ [])).0
      ≡ keep_if (is_known tz_fields_by_key) (list_field_values (gas ∷ [])))
    × ((build_stated_fields (gas ∷ [])).1
        ≡ map source_name
            (keep_if (λ v. not (is_known tz_fields_by_key v)) (list_field_values (gas ∷ []))))
    × All
        (λ s.
          IsRow tz_fields_by_key s
          × (s.field.owner ≡ s.tz_object.owner)
          × CanBeRead (document_sets held (gas ∷ [])) s)
        (build_stated_fields (gas ∷ [])).0
build_stated_fields-CanBeRead_example = build_stated_fields-CanBeRead held (gas ∷ [])
