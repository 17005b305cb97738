-- ===== src/Discovery/Scanning.antt =====
-- interop/di/discovery.py: the walks that find plugins. What `pkgutil` lists of a package, the
-- syntax trees of its modules, the classes that an import yields, the entry points and the files of
-- a project are arguments; a walk registers what it finds, in order.
use tz_oss_interop.Prelude.{
  Bool, false, Option, none, some, List, [], ◌∷◌, ◌++◌, if◌then◌else◌, any, ◌==◌, nat_beq, keep_if,
}
use tz_oss_interop.Prelude.Text.{Text, text_eq, codes}
use tz_oss_interop.Errors.{Result, ok, err, ◌>>=◌, fold_result, not_a_class}
use tz_oss_interop.Discovery.{
  Category, sources, steps, sinks, validators, adapters, launchers, category_value, PluginClass,
  Registry, empty_registry, add, add_lazy,
}

-- The expression that a statement assigns: a constant string, or anything else.
pub data Expression : Type 0 where
  string_constant : (value : Text) → Expression
  other_expression : Expression

-- A statement of the body of a class. A target is `none` where it is not a plain name.
pub data Statement : Type 0 where
  annotated : (target : Option Text) (value : Expression) → Statement
  assigned : (targets : List (Option Text)) (value : Expression) → Statement
  other_statement : Statement

-- A node at the top of a module: a class or something else.
pub data TopLevel : Type 0 where
  class_definition : (name : Text) (body : List Statement) → TopLevel
  other_node : TopLevel

-- What `pkgutil.iter_modules` lists of a directory: a module is a syntax tree and what an import of
-- it yields, the classes among the values of its namespace, each with whether it is defined there.
mutual
  pub data Modules : Type 0 where
    no_more : Modules
    and_module : (first : Module) (rest : Modules) → Modules

  pub data Module : Type 0 where
    package_of : (name : Text) (modules : Modules) → Module
    file_of :
        (name : Text) (tree : Result (List TopLevel)) (namespace : Result (List PluginClass))
        → Module

-- `_is_private`
unfoldable pub is_private : Text → Bool
is_private [] = false
is_private (c ∷ name) = nat_beq c b'_'

-- The assignment of a statement, if it is one to a plain name.
unfoldable pub assignment_of : Statement → Option (Text × Expression)
assignment_of (annotated (some target) value) = some (target, value)
assignment_of (annotated none value) = none
assignment_of (assigned (some target ∷ []) value) = some (target, value)
assignment_of (assigned _ value) = none
assignment_of other_statement = none

-- The plugin name that an assignment states: a string that is not empty, assigned to `name`.
unfoldable pub name_stated : Option (Text × Expression) → Option Text
name_stated (some (target, string_constant (c ∷ name))) =
    if target == codes "name" then some (c ∷ name) else none
name_stated _ = none

-- `_declared_plugin_name`
unfoldable pub declared_plugin_name : List Statement → Option Text
declared_plugin_name [] = none
declared_plugin_name (statement ∷ body) = elim (name_stated (assignment_of statement)) [
  | some name ↦ some name
  | none ↦ declared_plugin_name body
]

-- The classes of a tree whose body declares a plugin name, each with that name.
unfoldable pub declared_classes : List TopLevel → List (Text × Text)
declared_classes [] = []
declared_classes (other_node ∷ nodes) = declared_classes nodes
declared_classes (class_definition name body ∷ nodes) = elim (declared_plugin_name body) [
  | none ↦ declared_classes nodes
  | some plugin_name ↦ (name, plugin_name) ∷ declared_classes nodes
]

-- `_plugin_classes_in_source`: reading and parsing the file may fail.
unfoldable pub plugin_classes_in_source : Result (List TopLevel) → Result (List (Text × Text))
plugin_classes_in_source tree = tree >>= λ nodes. ok (declared_classes nodes)

abbrev pub dotted : Text → Text → Text
dotted package_name name = package_name ++ b'.' ∷ name

-- `import_class` is `getattr(importlib.import_module(module), class_name)`, with `none` for a value
-- that is no class.
module _ (import_class : (module_name class_name : Text) → Result (Option PluginClass)) where
  -- `_class_loader`
  unfoldable pub class_loader : Text → Text → Result PluginClass
  class_loader module_name class_name = import_class module_name class_name >>= λ found.
      elim found [ none ↦ err (not_a_class module_name class_name) | some cls ↦ ok cls ]

  unfoldable pub add_lazy_class : Category → Text → Registry → Text × Text → Result Registry
  add_lazy_class category full registry declared =
      add_lazy category declared.1 full (class_loader full declared.0) registry

  -- `_scan_lazy_pipeline_nodes`, and its loop's body.
  unfoldable mutual
    pub scan_lazy_pipeline_nodes : Category → Text → Modules → Registry → Result Registry
    scan_lazy_pipeline_nodes category package_name no_more registry = ok registry
    scan_lazy_pipeline_nodes category package_name (and_module first rest) registry =
        scan_lazy_module category package_name first registry >>= λ scanned.
        scan_lazy_pipeline_nodes category package_name rest scanned

    pub scan_lazy_module : Category → Text → Module → Registry → Result Registry
    scan_lazy_module category package_name (package_of name modules) registry =
        let inside =
          scan_lazy_pipeline_nodes category (dotted package_name name) modules registry in
        if is_private name then ok registry else inside
    scan_lazy_module category package_name (file_of name tree namespace) registry =
        if is_private name
        then ok registry
        else (plugin_classes_in_source tree >>= λ classes.
            fold_result (add_lazy_class category (dotted package_name name)) registry classes)

-- `_register_module_classes`: the classes that the module itself defines.
unfoldable pub register_module_classes :
    Category → Text → List PluginClass → Text → Registry → Result Registry
register_module_classes category module_name namespace location registry =
    fold_result (λ before cls. add category cls location before) registry
      (keep_if (λ cls. cls.module_name == module_name) namespace)

-- `_scan_and_register_packages`, and its loop's body.
unfoldable mutual
  pub scan_and_register_packages : Category → Text → Modules → Registry → Result Registry
  scan_and_register_packages category package_name no_more registry = ok registry
  scan_and_register_packages category package_name (and_module first rest) registry =
      scan_and_register_module category package_name first registry >>= λ scanned.
      scan_and_register_packages category package_name rest scanned

  pub scan_and_register_module : Category → Text → Module → Registry → Result Registry
  scan_and_register_module category package_name (package_of name modules) registry =
      let inside =
        scan_and_register_packages category (dotted package_name name) modules registry in
      if is_private name then ok registry else inside
  scan_and_register_module category package_name (file_of name tree namespace) registry =
      if is_private name
      then ok registry
      else (namespace >>= λ classes.
          register_module_classes category (dotted package_name name) classes
            (dotted package_name name) registry)

-- An entry point: `none` is a load that gives no class.
pub record EntryPoint : Type 0 where
  pub name : Text
  pub loaded : Result (Option PluginClass)

-- A Python file below a category's directory of a project: the parts of its path there, the same
-- path dotted and without its suffix, and what running it yields.
pub record LocalFile : Type 0 where
  pub path : Text
  pub parts : List Text
  pub dotted_subpath : Text
  pub namespace : Result (List PluginClass)

-- `_ENTRY_POINT_GROUP`
abbrev pub entry_point_categories : List Category
entry_point_categories = sources ∷ steps ∷ sinks ∷ validators ∷ adapters ∷ []

abbrev pub entry_point_group : Category → Text
entry_point_group category = codes "interop." ++ category_value category

unfoldable pub add_entry_point : Category → Registry → EntryPoint → Result Registry
add_entry_point category registry entry_point = entry_point.loaded >>= λ loaded. elim loaded [
  | none ↦ ok registry
  | some cls ↦
      add category cls
        (codes "entry-point " ++ entry_point_group category ++ b':' ∷ entry_point.name) registry
]

-- The name under which `_load_path` runs a file.
abbrev pub synthetic_name : Category → LocalFile → Text
synthetic_name category file =
    dotted (dotted (codes "_interop_local_plugins") (category_value category)) file.dotted_subpath

unfoldable pub add_local_file : Category → Registry → LocalFile → Result Registry
add_local_file category registry file =
    if any is_private file.parts
    then ok registry
    else (file.namespace >>= λ classes.
        register_module_classes category (synthetic_name category file) classes file.path registry)

-- What discovery reads. `shelf` and `local` are `none` at a directory that is missing, and the files
-- of a project are in sorted order.
pub record Installation : Type 0 where
  pub shelf : Category → Option Modules
  pub outbound : Modules
  pub inbound : Modules
  pub entry_points : Category → List EntryPoint
  pub local : Option (Category → Option (List LocalFile))

-- `for category in Category`
abbrev pub categories : List Category
categories = sources ∷ steps ∷ sinks ∷ validators ∷ adapters ∷ launchers ∷ []

module _ (import_class : (module_name class_name : Text) → Result (Option PluginClass))
    (installation : Installation) where
  unfoldable pub scan_shelf : Registry → Category → Result Registry
  scan_shelf registry category = elim (installation.shelf category) [
    | none ↦ ok registry
    | some modules ↦
        scan_lazy_pipeline_nodes import_class category
          (dotted (codes "interop.plugins") (category_value category)) modules registry
  ]

  -- `_discover_off_the_shelf_plugins`
  unfoldable pub discover_off_the_shelf_plugins : Registry → Result Registry
  discover_off_the_shelf_plugins registry = do
    shelved ← fold_result scan_shelf registry (sources ∷ steps ∷ sinks ∷ validators ∷ [])
    adapted ←
        scan_and_register_packages adapters (codes "interop.adapters.outbound")
          installation.outbound shelved
    scan_and_register_packages launchers (codes "interop.adapters.inbound") installation.inbound
        adapted

  -- `_discover_entry_points`
  unfoldable pub discover_entry_points : Registry → Result Registry
  discover_entry_points registry =
      fold_result
        (λ before category.
          fold_result (add_entry_point category) before (installation.entry_points category))
        registry entry_point_categories

  -- `_discover_project_local`
  unfoldable pub discover_project_local : Registry → Result Registry
  discover_project_local registry = elim installation.local [
    | none ↦ ok registry
    | some files_of ↦
        fold_result
          (λ before category. elim (files_of category) [
            | none ↦ ok before
            | some files ↦ fold_result (add_local_file category) before files
          ])
          registry categories
  ]

  -- `discover`
  unfoldable pub discover : Result Registry
  discover = do
    shelved ← discover_off_the_shelf_plugins empty_registry
    pointed ← discover_entry_points shelved
    discover_project_local pointed
