-- ===== src/Discovery/Asked.antt =====
-- What each part of a walk asks to register.
use tz_oss_interop.Prelude.{
  Option, none, some, List, [], ◌∷◌, ◌++◌, if◌then◌else◌, any, ◌==◌, map, keep_if, refl, sym,
}
use tz_oss_interop.Prelude.Text.{Text, text_eq, codes}
use tz_oss_interop.Errors.{Result, ok, >>=-ok, fold_result}
use tz_oss_interop.Discovery.{Category, PluginClass, add}
use tz_oss_interop.Discovery.Contract.{Registration, eager, lazily, register}
use tz_oss_interop.Discovery.Scanning.{
  Modules, no_more, and_module, Module, package_of, file_of, is_private, dotted,
  plugin_classes_in_source, class_loader, add_lazy_class, scan_lazy_pipeline_nodes,
  scan_lazy_module, register_module_classes, scan_and_register_packages, scan_and_register_module,
  EntryPoint, entry_point_group, add_entry_point, LocalFile, synthetic_name, add_local_file,
}
use tz_oss_interop.Discovery.Walks.{
  asked, asked_if, Walks, Walks-nothing, Walks->>=, Walks-map, Walks-if, Walks-of, Walks-unless,
}

unfoldable pub asked_of_classes : Category → Text → List PluginClass → Text → List Registration
asked_of_classes category module_name namespace location =
    map (λ cls. eager category cls location)
      (keep_if (λ cls. cls.module_name == module_name) namespace)

pub register_module_classes-Walks :
    (category : Category) (module_name : Text) (namespace : List PluginClass) (location : Text)
    → Walks
        (register_module_classes category module_name namespace location)
        (asked_of_classes category module_name namespace location)
unfolding register_module_classes asked_of_classes register
register_module_classes-Walks category module_name namespace location =
    Walks-map (λ before cls. add category cls location before) (λ cls. eager category cls location)
      (λ cls registry. refl) (keep_if (λ cls. cls.module_name == module_name) namespace)

module _ (import_class : (module_name class_name : Text) → Result (Option PluginClass)) where
  unfoldable pub asked_of_class : Category → Text → Text × Text → Registration
  asked_of_class category full declared =
      lazily category declared.1 full (class_loader import_class full declared.0)

  unfoldable mutual
    pub asked_of_shelf : Category → Text → Modules → List Registration
    asked_of_shelf category package_name no_more = []
    asked_of_shelf category package_name (and_module first rest) =
        asked_of_shelf_module category package_name first
        ++ asked_of_shelf category package_name rest

    pub asked_of_shelf_module : Category → Text → Module → List Registration
    asked_of_shelf_module category package_name (package_of name modules) =
        let inside = asked_of_shelf category (dotted package_name name) modules in
        if is_private name then [] else inside
    asked_of_shelf_module category package_name (file_of name tree namespace) =
        if is_private name
        then []
        else asked (map (asked_of_class category (dotted package_name name)))
            (plugin_classes_in_source tree)

  pub add_classes-Walks :
      (category : Category) (full : Text) (classes : List (Text × Text))
      → Walks
          (λ registry. fold_result (add_lazy_class import_class category full) registry classes)
          (map (asked_of_class category full) classes)
  unfolding add_lazy_class register asked_of_class
  add_classes-Walks category full =
      Walks-map (add_lazy_class import_class category full) (asked_of_class category full)
        (λ declared registry. refl)

  mutual
    unfolding asked_of_shelf scan_lazy_pipeline_nodes

    pub scan_lazy_pipeline_nodes-Walks :
        (category : Category) (package_name : Text) (modules : Modules)
        → Walks
            (scan_lazy_pipeline_nodes import_class category package_name modules)
            (asked_of_shelf category package_name modules)
    scan_lazy_pipeline_nodes-Walks category package_name no_more = Walks-nothing
    scan_lazy_pipeline_nodes-Walks category package_name (and_module first rest) =
        Walks->>= (scan_lazy_module import_class category package_name first)
          (scan_lazy_pipeline_nodes import_class category package_name rest)
          (scan_lazy_module-Walks category package_name first)
          (scan_lazy_pipeline_nodes-Walks category package_name rest)

    pub scan_lazy_module-Walks :
        (category : Category) (package_name : Text) (module' : Module)
        → Walks
            (scan_lazy_module import_class category package_name module')
            (asked_of_shelf_module category package_name module')
    scan_lazy_module-Walks category package_name (package_of name modules) =
        Walks-unless (is_private name)
          (scan_lazy_pipeline_nodes import_class category (dotted package_name name) modules)
          (scan_lazy_pipeline_nodes-Walks category (dotted package_name name) modules)
    scan_lazy_module-Walks category package_name (file_of name tree namespace) =
        Walks-unless (is_private name) _ (
          Walks-of
            (λ classes registry.
              fold_result (add_lazy_class import_class category (dotted package_name name)) registry
                classes)
            (map (asked_of_class category (dotted package_name name)))
            (add_classes-Walks category (dotted package_name name)) (plugin_classes_in_source tree))

unfoldable mutual
  pub asked_of_packages : Category → Text → Modules → List Registration
  asked_of_packages category package_name no_more = []
  asked_of_packages category package_name (and_module first rest) =
      asked_of_package category package_name first ++ asked_of_packages category package_name rest

  pub asked_of_package : Category → Text → Module → List Registration
  asked_of_package category package_name (package_of name modules) =
      let inside = asked_of_packages category (dotted package_name name) modules in
      if is_private name then [] else inside
  asked_of_package category package_name (file_of name tree namespace) =
      if is_private name
      then []
      else asked
          (λ classes.
            asked_of_classes category (dotted package_name name) classes (dotted package_name name))
          namespace

mutual
  unfolding asked_of_packages scan_and_register_packages

  pub scan_and_register_packages-Walks :
      (category : Category) (package_name : Text) (modules : Modules)
      → Walks
          (scan_and_register_packages category package_name modules)
          (asked_of_packages category package_name modules)
  scan_and_register_packages-Walks category package_name no_more = Walks-nothing
  scan_and_register_packages-Walks category package_name (and_module first rest) =
      Walks->>= (scan_and_register_module category package_name first)
        (scan_and_register_packages category package_name rest)
        (scan_and_register_module-Walks category package_name first)
        (scan_and_register_packages-Walks category package_name rest)

  pub scan_and_register_module-Walks :
      (category : Category) (package_name : Text) (scanned : Module)
      → Walks
          (scan_and_register_module category package_name scanned)
          (asked_of_package category package_name scanned)
  scan_and_register_module-Walks category package_name (package_of name modules) =
      Walks-unless (is_private name)
        (scan_and_register_packages category (dotted package_name name) modules)
        (scan_and_register_packages-Walks category (dotted package_name name) modules)
  scan_and_register_module-Walks category package_name (file_of name tree namespace) =
      Walks-unless (is_private name) _ (
        Walks-of
          (λ classes.
            register_module_classes category (dotted package_name name) classes
              (dotted package_name name))
          (λ classes.
            asked_of_classes category (dotted package_name name) classes (dotted package_name name))
          (λ classes.
            register_module_classes-Walks category (dotted package_name name) classes
              (dotted package_name name))
          namespace)

unfoldable pub asked_of_entry_point : Category → EntryPoint → List Registration
asked_of_entry_point category entry_point =
    asked
      (asked_if λ cls.
        eager category cls
          (codes "entry-point " ++ entry_point_group category ++ b':' ∷ entry_point.name)
        ∷ [])
      entry_point.loaded

pub add-Walks :
    (category : Category) (cls : PluginClass) (location : Text)
    → Walks (add category cls location) (eager category cls location ∷ [])
unfolding register
add-Walks category cls location = record {
  walks = λ registry. sym (>>=-ok (add category cls location registry));
}

pub add_entry_point-Walks :
    (category : Category) (entry_point : EntryPoint)
    → Walks
        (λ registry. add_entry_point category registry entry_point)
        (asked_of_entry_point category entry_point)
unfolding add_entry_point asked_of_entry_point
add_entry_point-Walks category entry_point =
    Walks-of
      (λ loaded registry. elim loaded [
        | none ↦ ok registry
        | some cls ↦
            add category cls
              (codes "entry-point " ++ entry_point_group category ++ b':' ∷ entry_point.name)
              registry
      ])
      _ (Walks-if (λ cls. add category cls _) _ (λ cls. add-Walks category cls _))
      entry_point.loaded

unfoldable pub asked_of_file : Category → LocalFile → List Registration
asked_of_file category file =
    if any is_private file.parts
    then []
    else asked
        (λ classes. asked_of_classes category (synthetic_name category file) classes file.path)
        file.namespace

pub add_local_file-Walks :
    (category : Category) (file : LocalFile)
    → Walks (λ registry. add_local_file category registry file) (asked_of_file category file)
unfolding add_local_file asked_of_file
add_local_file-Walks category file = Walks-unless (any is_private file.parts) _ (
    Walks-of
      (λ classes. register_module_classes category (synthetic_name category file) classes file.path)
      (λ classes. asked_of_classes category (synthetic_name category file) classes file.path)
      (λ classes.
        register_module_classes-Walks category (synthetic_name category file) classes file.path)
      file.namespace)
