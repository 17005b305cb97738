-- ===== src/Examples/Cli.antt =====
-- A session with a history, an answer that is checked and a prompt.
use tz_oss_interop.Prelude.{
  ◌≡◌, ◌≤◌, ◌↔◌, refl, true, false, Bool, none, some, List, [], ◌∷◌, ◌==◌, length, ◌||◌,
}
use tz_oss_interop.Prelude.Text.{Text, text_eq, codes}
use tz_oss_interop.Prelude.Dict.{lookup}
use tz_oss_interop.Errors.{Result, ok}
use tz_oss_interop.Spec.{Value, text}
use tz_oss_interop.InteractiveCli.History.{
  Invocation, History, history_limit, take_last, record_each,
}
use tz_oss_interop.InteractiveCli.Newest.{record_each_lem}
use tz_oss_interop.InteractiveCli.Prompts.{
  input_file, path_annotation, FieldInfo, existing_file, Disk, does_user_want_default,
  find_path_error, User, collect_node_params,
}
use tz_oss_interop.InteractiveCli.Paths.{
  is_fit, find_path_error_iff, answer_at, lookup-collect_node_params,
}

abbrev translate : Invocation
translate = record { command = codes "translate"; timestamp = codes "t"; details = none }

abbrev compare : Invocation
compare = record { command = codes "compare"; timestamp = codes "u"; details = some [] }

abbrev empty_history : History (List Invocation)
empty_history = record { invocations = []; file = none }

-- A file that holds the invocations themselves.
abbrev dumps : List Invocation → List Invocation
dumps held = held

abbrev loads : List Invocation → Result (List Invocation)
loads held = ok held

record_each_lem_example :
    ((record_each dumps loads empty_history (translate ∷ compare ∷ [])).invocations
      ≡ take_last history_limit (translate ∷ compare ∷ []))
    × (length (record_each dumps loads empty_history (translate ∷ compare ∷ [])).invocations
        ≤ history_limit)
    × ((record_each dumps loads empty_history (translate ∷ compare ∷ [])).file
        ≡ some (dumps (take_last history_limit (translate ∷ compare ∷ []))))
record_each_lem_example = record_each_lem dumps loads empty_history translate (compare ∷ [])

-- A disk with one file.
abbrev disk : Disk
disk = record {
  is_dir = λ path. false;
  is_file = λ path. path == codes "a";
  exists = λ path. path == codes "a";
}

find_path_error_iff_example :
    (find_path_error disk (codes "b") existing_file ≡ none)
    ↔ ((does_user_want_default (codes "b") || is_fit disk (codes "b") existing_file) ≡ true)
find_path_error_iff_example =
    find_path_error_iff disk (codes "b") existing_file (λ path is_file. is_file)
      (λ path is_dir. absurd (cc is_dir)) (λ path is_file. refl)

abbrev input_path : FieldInfo
input_path = record {
  annotation = path_annotation;
  metadata = input_file ∷ [];
  description = some (codes "where");
  is_required = true;
  default = none;
}

-- A user who takes what is offered.
abbrev user : User
user = record {
  confirms = λ prompt default. some default;
  gives_path = λ prompt default validate. some default;
  gives_text = λ prompt default. some default;
}

abbrev shown : Value → Text
shown value = codes "x"

abbrev truth : Value → Bool
truth value = true

lookup-collect_node_params_example :
    lookup (codes "p") (
      collect_node_params disk user truth shown
        (some ((codes "p", input_path) ∷ []))
        ((codes "p", text (codes "a")) ∷ [])
        (codes "source")
        (some []))
    ≡ answer_at disk user truth shown
        ((codes "p", text (codes "a")) ∷ [])
        []
        (codes "source")
        (codes "p")
        (lookup (codes "p") ((codes "p", input_path) ∷ []))
lookup-collect_node_params_example =
    lookup-collect_node_params disk user truth shown ((codes "p", text (codes "a")) ∷ []) []
      (codes "source") (codes "p") ((codes "p", input_path) ∷ []) (refl, tt)
