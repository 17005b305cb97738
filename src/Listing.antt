-- ===== src/Listing.antt =====
-- The names of the manifests on disk: `list_pipelines` and `list_results_pipelines` of
-- interop/core/runner.py. What a directory holds is an argument: for each YAML file below it, the
-- parts of its relative path and its stem.
pub mod Names
use tz_oss_interop.Prelude.{
  ℕ, Bool, true, false, not, List, [], ◌∷◌, ◌++◌, if◌then◌else◌, any, contains, ltb, ◌==◌, keep_if,
  Option, none, some,
}
use tz_oss_interop.Prelude.{nat_eq}
use tz_oss_interop.Prelude.Text.{Text, text_eq, codes}
use tz_oss_interop.Prelude.Dict.{Dict, lookup, insert}
use tz_oss_interop.Errors.{Result, ok, err, ◌>>=◌, fold_result, unknown_manifest}
use tz_oss_interop.Spec.{PipelineSpec}

pub record ManifestFile : Type 0 where
  pub parts : List Text
  pub stem : Text

abbrev pub unlisted_subdirs : List Text
unlisted_subdirs = codes "results" ∷ codes "mappings" ∷ codes "archive" ∷ []

-- Python's order of strings.
unfoldable pub text_leb : Text → Text → Bool
text_leb [] t = true
text_leb (c ∷ s) [] = false
text_leb (c ∷ s) (d ∷ t) =
    let rest = text_leb s t in if ltb c d then true else if c == d then rest else false

unfoldable pub insert_sorted : Text → List Text → List Text
insert_sorted name [] = name ∷ []
insert_sorted name (other ∷ names) =
    let rest = insert_sorted name names in
    if text_leb name other then name ∷ other ∷ names else other ∷ rest

-- `sorted(names)`
unfoldable pub sorted : List Text → List Text
sorted [] = []
sorted (name ∷ names) = insert_sorted name (sorted names)

-- `names.add(name)`
abbrev pub add : List Text → Text → List Text
add names name = if contains names name then names else name ∷ names

-- Whether the loop of `_translation_stems` keeps a file.
abbrev pub is_listed : ManifestFile → Bool
is_listed file = not (any (contains file.parts) unlisted_subdirs)

-- The stems of the files that a test keeps, in a set, from `names`.
unfoldable pub add_stems : (ManifestFile → Bool) → List ManifestFile → List Text → List Text
add_stems keep [] names = names
add_stems keep (file ∷ files) names =
    add_stems keep files (if keep file then add names file.stem else names)

unfoldable pub add_directories :
    (ManifestFile → Bool) → List (List ManifestFile) → List Text → List Text
add_directories keep [] names = names
add_directories keep (files ∷ directories) names =
    add_directories keep directories (add_stems keep files names)

-- `_translation_stems`, of what the directories hold.
unfoldable pub translation_stems : List (List ManifestFile) → List Text
translation_stems directories = sorted (add_directories is_listed directories [])

-- `_stems_in`
unfoldable pub stems_in : List (List ManifestFile) → List Text
stems_in directories = sorted (add_directories (λ file. true) directories [])

-- `_candidate_paths`, of what the directories hold, each in the order of its paths.
unfoldable pub candidate_paths : Text → List (List ManifestFile) → List ManifestFile
candidate_paths name [] = []
candidate_paths name (files ∷ directories) =
    keep_if (λ file. file.stem == name) files ++ candidate_paths name directories

-- `read_pipeline_document`: the content of the first path that is a file.
module _ {V : Type 0} (is_file : ManifestFile → Bool) (read_text : ManifestFile → Result V) where
  unfoldable pub read_first : Text → List ManifestFile → Result V
  read_first name [] = err (unknown_manifest name)
  read_first name (path ∷ paths) = if is_file path then read_text path else read_first name paths

  unfoldable pub read_pipeline_document : Text → List (List ManifestFile) → Result V
  read_pipeline_document name directories = read_first name (candidate_paths name directories)

-- `index.setdefault(key, []).append(name)`
abbrev pub append_at : Dict Text (List Text) → Text → Text → Dict Text (List Text)
append_at index key name = elim (lookup key index) [
  | none ↦ insert key (name ∷ []) index
  | some names ↦ insert key (names ++ name ∷ []) index
]

-- `for names in index.values(): names.sort()`
abbrev pub sort_values : Dict Text (List Text) → Dict Text (List Text)
sort_values [] = []
sort_values ((key, names) ∷ index) = (key, sorted names) ∷ sort_values index

-- `list_results_pipelines_by_framework`, of the names that `list_results_pipelines` gives.
unfoldable pub results_by_framework :
    (Text → Result PipelineSpec) → List Text → Result (Dict Text (List Text))
results_by_framework load_pipeline names =
    fold_result
      (λ index name. load_pipeline name >>= λ spec. ok (append_at index spec.source_framework name))
      [] names
    >>= λ index. ok (sort_values index)

-- `list_pipelines`, of what the two `pipelines` directories hold.
unfoldable pub list_pipelines : (packaged project : List ManifestFile) → List Text
list_pipelines packaged project = translation_stems (packaged ∷ project ∷ [])

-- `list_results_pipelines`, of what their `results` directories hold.
unfoldable pub list_results_pipelines : (packaged project : List ManifestFile) → List Text
list_results_pipelines packaged project = stems_in (packaged ∷ project ∷ [])
