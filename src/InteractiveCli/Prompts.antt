-- ===== src/InteractiveCli/Prompts.antt =====
-- interop/adapters/inbound/interactive_cli/schema_prompts.py. A schema is its fields; what a path is on
-- disk is an argument, and so is the user, who answers a prompt from its text, the default offered
-- and the check of a path.
use tz_oss_interop.Prelude.{
  Bool, true, false, Option, none, some, List, [], ◌∷◌, ◌++◌, if◌then◌else◌, ◌==◌, ◌||◌, nat_beq,
  ◌&&◌,
}
use tz_oss_interop.Prelude.Text.{Text, text_eq, codes}
use tz_oss_interop.Prelude.Dict.{Dict, lookup, insert}
use tz_oss_interop.Spec.{Value, null, boolean, text, Params}

-- What stands on an annotation: the markers of the ports, pydantic's `PathType` with its path type.
pub data Marker : Type 0 where
  input_file input_directory output_directory other_marker : Marker
  path_type : (of : Text) → Marker

mutual
  pub data Annotation : Type 0 where
    path_annotation bool_annotation other_annotation : Annotation
    annotated_with : (inner : Annotation) (markers : List Marker) → Annotation
    union_of : Arms → Annotation

  -- The arms of a union.
  pub data Arms : Type 0 where
    no_arm : Arms
    arm : Annotation → Arms → Arms

-- `_annotation_includes_path`
unfoldable mutual
  pub annotation_includes_path : Annotation → Bool
  annotation_includes_path path_annotation = true
  annotation_includes_path bool_annotation = false
  annotation_includes_path other_annotation = false
  annotation_includes_path (annotated_with inner markers) = annotation_includes_path inner
  annotation_includes_path (union_of arms) = any_arm_includes_path arms

  pub any_arm_includes_path : Arms → Bool
  any_arm_includes_path no_arm = false
  any_arm_includes_path (arm a arms) = annotation_includes_path a || any_arm_includes_path arms

-- `_annotation_markers`
unfoldable mutual
  pub annotation_markers : Annotation → List Marker
  annotation_markers (annotated_with inner markers) = markers
  annotation_markers (union_of arms) = markers_of_arms arms
  annotation_markers path_annotation = []
  annotation_markers bool_annotation = []
  annotation_markers other_annotation = []

  pub markers_of_arms : Arms → List Marker
  markers_of_arms no_arm = []
  markers_of_arms (arm a arms) = annotation_markers a ++ markers_of_arms arms

-- A `FieldInfo` of pydantic.
pub record FieldInfo : Type 0 where
  pub annotation : Annotation
  pub metadata : List Marker
  pub description : Option Text
  pub is_required : Bool
  pub default : Option Value

-- `_path_markers`
unfoldable pub path_markers : FieldInfo → List Marker
path_markers field_info = field_info.metadata ++ annotation_markers field_info.annotation

-- `PathFieldKind`
pub data PathFieldKind : Type 0 where
  existing_file existing_directory output_directory_path output_path : PathFieldKind

-- What a marker says of a path, if it says anything.
unfoldable pub kind_of_marker : Marker → Option PathFieldKind
kind_of_marker input_file = some existing_file
kind_of_marker input_directory = some existing_directory
kind_of_marker (path_type of) =
    if of == codes "file"
    then some existing_file
    else if of == codes "dir"
    then some existing_directory
    else none
kind_of_marker output_directory = some output_directory_path
kind_of_marker other_marker = none

unfoldable pub first_kind : List Marker → PathFieldKind
first_kind [] = output_path
first_kind (marker ∷ markers) = elim (kind_of_marker marker) [
  | some kind ↦ kind
  | none ↦ first_kind markers
]

-- `_get_field_type`
unfoldable pub get_field_type : FieldInfo → PathFieldKind
get_field_type field_info = first_kind (path_markers field_info)

-- What a path is on disk: `Path.is_dir`, `Path.is_file` and `Path.exists`.
pub record Disk : Type 0 where
  pub is_dir : Text → Bool
  pub is_file : Text → Bool
  pub exists : Text → Bool

-- What `_find_path_error` says of an answer.
pub data PathError : Type 0 where
  is_a_directory is_missing is_no_file is_a_file is_no_directory : PathError

-- `_does_user_want_default`
unfoldable pub does_user_want_default : Text → Bool
does_user_want_default [] = true
does_user_want_default (c ∷ answer) = false

-- `"://" in answer`
unfoldable pub is_url : Text → Bool
is_url (a ∷ b ∷ c ∷ rest) =
    (nat_beq a b':' && (nat_beq b b'/' && nat_beq c b'/')) || is_url (b ∷ c ∷ rest)
is_url _ = false

-- `_find_path_error`
unfoldable pub find_path_error : Disk → Text → PathFieldKind → Option PathError
find_path_error disk answer existing_file =
    if does_user_want_default answer
    then none
    else if is_url answer
    then none
    else if disk.is_dir answer
    then some is_a_directory
    else if disk.exists answer
    then (if disk.is_file answer then none else some is_no_file)
    else some is_missing
find_path_error disk answer existing_directory =
    if does_user_want_default answer
    then none
    else if disk.is_file answer
    then some is_a_file
    else if disk.exists answer
    then (if disk.is_dir answer then none else some is_no_directory)
    else some is_missing
find_path_error disk answer output_directory_path =
    if does_user_want_default answer
    then none
    else if is_url answer
    then none
    else if disk.is_file answer
    then some is_a_file
    else none
find_path_error disk answer output_path =
    if does_user_want_default answer
    then none
    else if is_url answer
    then none
    else if disk.is_dir answer
    then some is_a_directory
    else none

-- The answer to a prompt: a confirmation, a text (`none` where the user gives up), and for a path the
-- check that its answer passes.
pub record User : Type 0 where
  pub confirms : (prompt : Text) (default : Bool) → Option Bool
  pub gives_path : (prompt default : Text) (validate : Text → Option PathError) → Option Text
  pub gives_text : (prompt default : Text) → Option Text

abbrev pub is_bool : Annotation → Bool
is_bool bool_annotation = true
is_bool annotation = false

-- The answer that is an override: none where the user gives up or gives an empty one.
unfoldable pub kept_answer : Option Text → Option Value
kept_answer none = none
kept_answer (some answer) = if does_user_want_default answer then none else some (text answer)

-- A value that is not `None`.
unfoldable pub not_null : Option Value → Option Value
not_null (some null) = none
not_null value = value

-- The text of a field's prompt.
abbrev pub prompt_text : Text → Text → FieldInfo → Text
prompt_text prefix name field_info =
    let label = prefix ++ b'.' ∷ name in
    elim field_info.description [
      | none ↦ label ++ codes "?"
      | some [] ↦ label ++ codes "?"
      | some (c ∷ words) ↦ label ++ codes " (" ++ (c ∷ words) ++ codes ")?"
    ]

-- `replay_params.get(name, yaml_params.get(name))`
unfoldable pub offered : Params → Params → Text → Option Value
offered yaml_params replay_params name = elim (lookup name replay_params) [
  | none ↦ not_null (lookup name yaml_params)
  | some value ↦ not_null (some value)
]

-- `truth` is `bool(value)`, and `shown` is `str(value)`.
module _ (disk : Disk) (user : User) (truth : Value → Bool) (shown : Value → Text) where
  unfoldable pub default_text : FieldInfo → Option Value → Text
  default_text field_info (some value) = shown value
  default_text field_info none =
      if field_info.is_required
      then []
      else (elim (not_null field_info.default) [ none ↦ [] | some value ↦ shown value ])

  unfoldable pub default_truth : Option Value → Bool
  default_truth none = false
  default_truth (some value) = truth value

  unfoldable pub confirmed : Option Bool → Option Value
  confirmed none = none
  confirmed (some answer) = some (boolean answer)

  -- `_choose_path_validator`: `none` where the answer is valid.
  unfoldable pub choose_path_validator : FieldInfo → Text → Option PathError
  choose_path_validator field_info answer = find_path_error disk answer (get_field_type field_info)

  -- `_prompt_for_field`
  unfoldable pub prompt_for_field : Text → FieldInfo → Option Value → Option Value
  prompt_for_field prompt field_info default_value =
      if is_bool field_info.annotation
      then confirmed (user.confirms prompt (default_truth default_value))
      else kept_answer (
          if annotation_includes_path field_info.annotation
          then user.gives_path (prompt ++ codes "  (Tab to list files)")
              (default_text field_info default_value) (choose_path_validator field_info)
          else user.gives_text prompt (default_text field_info default_value))

  -- The loop of `collect_node_params`.
  unfoldable pub collect_from : Params → Params → Text → Dict Text FieldInfo → Params → Params
  collect_from yaml_params replay_params prefix [] overrides = overrides
  collect_from yaml_params replay_params prefix ((name, field_info) ∷ fields) overrides =
      collect_from yaml_params replay_params prefix fields
        (elim (prompt_for_field (prompt_text prefix name field_info) field_info
          (offered yaml_params replay_params name)) [
            | none ↦ overrides
            | some answer ↦ insert name answer overrides
          ])

  -- `collect_node_params`
  unfoldable pub collect_node_params :
      Option (Dict Text FieldInfo) → Params → Text → Option Params → Params
  collect_node_params none yaml_params prefix replay_params = []
  collect_node_params (some fields) yaml_params prefix none =
      collect_from yaml_params [] prefix fields []
  collect_node_params (some fields) yaml_params prefix (some replay_params) =
      collect_from yaml_params replay_params prefix fields []
