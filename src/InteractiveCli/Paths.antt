-- ===== src/InteractiveCli/Paths.antt =====
-- Which answers the check of a path lets through, and what the answers to the prompts become.
use tz_oss_interop.Prelude.{
  Bool, true, false, Option, none, some, [], ◌∷◌, ◌||◌, not, ◌≡◌, ◌↔◌, refl, sym, ap, ◌∙◌, arith,
  Option-cases, inl, inr,
}
use tz_oss_interop.Prelude.Text.{Text, text_eq}
use tz_oss_interop.Prelude.Dict.{
  Dict, lookup, insert, IsDict, lookup-insert, lookup_absent, or_else,
}
use tz_oss_interop.Spec.{Value, Params}
use tz_oss_interop.InteractiveCli.Prompts.{
  FieldInfo, PathFieldKind, existing_file, existing_directory, output_directory_path, output_path,
  Disk, does_user_want_default, is_url, find_path_error, User, prompt_for_field, prompt_text,
  not_null, offered, collect_from, collect_node_params,
}

-- What a kind of path asks of an answer on disk.
unfoldable pub is_fit : Disk → Text → PathFieldKind → Bool
is_fit disk answer existing_file = is_url answer || disk.is_file answer
is_fit disk answer existing_directory = disk.is_dir answer
is_fit disk answer output_directory_path = is_url answer || not (disk.is_file answer)
is_fit disk answer output_path = is_url answer || not (disk.is_dir answer)

-- An answer is let through exactly where it is empty or fits its kind: an existing file is a URL or a
-- regular file, an existing directory is a directory, and a place to write is a URL or not what it
-- must not be, a file for a directory and a directory for a file. This holds on a disk where files
-- and directories exist and a file is no directory.
pub find_path_error_iff :
    (disk : Disk) (answer : Text) (kind : PathFieldKind)
    → ((path : Text) → disk.is_file path ≡ true → disk.exists path ≡ true)
    → ((path : Text) → disk.is_dir path ≡ true → disk.exists path ≡ true)
    → ((path : Text) → disk.is_file path ≡ true → disk.is_dir path ≡ false)
    → (find_path_error disk answer kind ≡ none)
      ↔ ((does_user_want_default answer || is_fit disk answer kind) ≡ true)
unfolding find_path_error is_fit
find_path_error_iff disk answer existing_file files dirs apart =
    ground (arith, files answer, dirs answer, apart answer)
find_path_error_iff disk answer existing_directory files dirs apart =
    ground (arith, files answer, dirs answer, apart answer)
find_path_error_iff disk answer output_directory_path files dirs apart =
    ground (arith, files answer, dirs answer, apart answer)
find_path_error_iff disk answer output_path files dirs apart =
    ground (arith, files answer, dirs answer, apart answer)

-- What is offered is the replayed value where there is one, and the pipeline's where there is none.
offered-or_else :
    (yaml_params replay_params : Params) (name : Text)
    → offered yaml_params replay_params name
      ≡ not_null (or_else (lookup name replay_params) (lookup name yaml_params))
unfolding offered
offered-or_else yaml_params replay_params name = elim (Option-cases (lookup name replay_params)) [
  | inl absent ↦ rw (absent, offered) refl
  | inr (value, present) ↦ rw (present, offered) refl
]

or_else-none : (o : Option Value) → or_else o none ≡ o
or_else-none o = ground arith

module _ (disk : Disk) (user : User) (truth : Value → Bool) (shown : Value → Text)
    (yaml_params replay_params : Params) (prefix : Text) where
  -- The answer to the prompt of a field that offers the replayed value of its name, or the pipeline's
  -- where none is replayed, and offers no value that is null.
  abbrev pub answer_of : Text → FieldInfo → Option Value
  answer_of name field_info =
      prompt_for_field disk user truth shown (prompt_text prefix name field_info) field_info
        (not_null (or_else (lookup name replay_params) (lookup name yaml_params)))

  -- The same answer, as the loop asks for it.
  abbrev asked : Text → FieldInfo → Option Value
  asked name field_info =
      prompt_for_field disk user truth shown (prompt_text prefix name field_info) field_info
        (offered yaml_params replay_params name)

  answer_of-asked :
      (name : Text) (field_info : FieldInfo) → answer_of name field_info ≡ asked name field_info
  answer_of-asked name field_info =
      ap (prompt_for_field disk user truth shown (prompt_text prefix name field_info) field_info)
        (sym (offered-or_else yaml_params replay_params name))

  abbrev pub answer_at : Text → Option FieldInfo → Option Value
  answer_at name none = none
  answer_at name (some field_info) = answer_of name field_info

  lookup-collect_from :
      (name : Text) (fields : Dict Text FieldInfo) (overrides : Params)
      → IsDict fields
      → lookup name
          (collect_from disk user truth shown yaml_params replay_params prefix fields overrides)
        ≡ or_else (answer_at name (lookup name fields)) (lookup name overrides)
  unfolding collect_from lookup
  lookup-collect_from name [] overrides distinct = refl
  lookup-collect_from name ((n, field_info) ∷ fields) overrides distinct =
      elim (Option-cases (asked n field_info)) [
        | inl given_up ↦ rw given_up (
            ground (
              arith,
              answer_of-asked n field_info,
              given_up,
              lookup-collect_from name fields overrides distinct.1,
              lookup_absent n fields distinct.0,
              text_eq.agrees n name,
            ))
        | inr (answer, given) ↦ rw given (
            ground (
              arith,
              answer_of-asked n field_info,
              given,
              lookup-collect_from name fields (insert n answer overrides) distinct.1,
              lookup-insert n name answer overrides,
              lookup_absent n fields distinct.0,
              text_eq.agrees n name,
            ))
      ]

  pub lookup-collect_node_params :
      (name : Text) (fields : Dict Text FieldInfo)
      → IsDict fields
      → lookup name (
          collect_node_params disk user truth shown
            (some fields)
            yaml_params
            prefix
            (some replay_params))
        ≡ answer_at name (lookup name fields)
  unfolding collect_node_params lookup
  lookup-collect_node_params name fields distinct =
      lookup-collect_from name fields [] distinct
      ∙ or_else-none (answer_at name (lookup name fields))
