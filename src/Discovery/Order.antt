-- ===== src/Discovery/Order.antt =====
-- The walks of discovery as one flat list of registrations, in order; so what holds of any
-- registrations holds of discovery.
use tz_oss_interop.Prelude.{true, Option, some, List, [], ◌∷◌, ◌++◌, ◌≡◌, sym, ◌∙◌, subst}
use tz_oss_interop.Prelude.Text.{Text, text_eq, codes}
use tz_oss_interop.Errors.{Result, ok, fold_result}
use tz_oss_interop.Discovery.{
  Category, sources, steps, sinks, validators, adapters, launchers, category_value, PluginClass,
  Registry, empty_registry,
}
use tz_oss_interop.Discovery.Slots.{Slot, Entry, entry_at}
use tz_oss_interop.Discovery.Contract.{Registration, Refines, register_all, declare_all}
use tz_oss_interop.Discovery.Refinement.{register_all-Refines}
use tz_oss_interop.Discovery.Heirs.{inherits}
use tz_oss_interop.Discovery.Inheritance.{register_all-inherits}
use tz_oss_interop.Discovery.Scanning.{
  dotted, scan_lazy_pipeline_nodes, entry_point_categories, LocalFile, add_local_file, Installation,
  categories, scan_shelf, discover_off_the_shelf_plugins, discover_entry_points,
  discover_project_local, discover,
}
use tz_oss_interop.Discovery.Walks.{asked_each, asked_if, Walks, Walks->>=, Walks-each, Walks-if}
use tz_oss_interop.Discovery.Asked.{
  asked_of_shelf, scan_lazy_pipeline_nodes-Walks, asked_of_packages,
  scan_and_register_packages-Walks, asked_of_entry_point, add_entry_point-Walks, asked_of_file,
  add_local_file-Walks,
}

module _ (import_class : (module_name class_name : Text) → Result (Option PluginClass))
    (installation : Installation) where
  unfoldable pub asked_of_category : Category → List Registration
  asked_of_category category =
      asked_if
        (asked_of_shelf import_class category
          (dotted (codes "interop.plugins") (category_value category)))
        (installation.shelf category)

  unfoldable pub asked_of_local :
      (Category → Option (List LocalFile)) → Category → List Registration
  asked_of_local files_of category =
      asked_if (asked_each (asked_of_file category)) (files_of category)

  -- Everything that discovery asks for: the plugins on the shelf, the adapters and the launchers,
  -- then the entry points, then the files of the project.
  unfoldable pub asked_of_discovery : List Registration
  asked_of_discovery =
      (asked_each asked_of_category (sources ∷ steps ∷ sinks ∷ validators ∷ [])
        ++ (asked_of_packages adapters (codes "interop.adapters.outbound") installation.outbound
            ++ asked_of_packages launchers (codes "interop.adapters.inbound") installation.inbound))
      ++ (asked_each
            (λ category.
              asked_each (asked_of_entry_point category) (installation.entry_points category))
            entry_point_categories
          ++ asked_if (λ files_of. asked_each (asked_of_local files_of) categories)
              installation.local)

  scan_shelf-Walks :
      (category : Category)
      → Walks
          (λ registry. scan_shelf import_class installation registry category)
          (asked_of_category category)
  unfolding scan_shelf asked_of_category
  scan_shelf-Walks category =
      Walks-if
        (scan_lazy_pipeline_nodes import_class category
          (dotted (codes "interop.plugins") (category_value category)))
        _
        (scan_lazy_pipeline_nodes-Walks import_class category
          (dotted (codes "interop.plugins") (category_value category)))
        (installation.shelf category)

  discover_project_local-Walks :
      Walks
        (discover_project_local import_class installation)
        (asked_if (λ files_of. asked_each (asked_of_local files_of) categories) installation.local)
  unfolding discover_project_local asked_of_local
  discover_project_local-Walks =
      Walks-if _ _
        (λ files_of.
          Walks-each _ _
            (λ category.
              Walks-if (λ files registry. fold_result (add_local_file category) registry files) _
                (Walks-each _ _ (add_local_file-Walks category)) (files_of category))
            categories)
        installation.local

  -- Discovery is the registration, into an empty registry and in this order, of the classes that the
  -- modules of the shelf declare, packages first to last and private names left out, of the
  -- adapters, the launchers, the entry points and the files of the project; a failure to read one
  -- of them stops it there.
  pub discover-register_all : discover import_class installation ≡ register_all asked_of_discovery
  unfolding discover discover_off_the_shelf_plugins discover_entry_points register_all
      asked_of_discovery
  discover-register_all =
      (Walks->>= _ _
          (Walks->>= _ _
            (Walks-each _ _ scan_shelf-Walks (sources ∷ steps ∷ sinks ∷ validators ∷ []))
            (Walks->>= _ _
              (scan_and_register_packages-Walks adapters (codes "interop.adapters.outbound")
                installation.outbound)
              (scan_and_register_packages-Walks launchers (codes "interop.adapters.inbound")
                installation.inbound)))
          (Walks->>= _ _
            (Walks-each _ _
              (λ category.
                Walks-each _ _ (add_entry_point-Walks category)
                  (installation.entry_points category))
              entry_point_categories)
            discover_project_local-Walks)).walks
        empty_registry

  -- Discovery does, from an empty registry, what its registrations do in order to one map from slots:
  -- each takes the slot of its category and name (an adapter's, of its port and name), which must be
  -- free, and the registry that discovery returns holds the entries of the map with their locations;
  -- it fails with the error of the map, or on neither side.
  pub discover-Refines :
      Refines (discover import_class installation) (declare_all asked_of_discovery)
  discover-Refines =
      subst (λ r. Refines r (declare_all asked_of_discovery)) (sym discover-register_all)
        (register_all-Refines asked_of_discovery)

  -- Whatever discovery registers at a slot inherits from what the slot asks for: an adapter from its
  -- port, a launcher from the launchers' base, and a pipeline node, if it resolves at all, resolves
  -- to a class that inherits from the base of its category.
  pub discover-inherits :
      (slot : Slot) {registry : Registry} {entry : Entry}
      → discover import_class installation ≡ ok registry
      → entry_at registry slot ≡ some entry
      → inherits slot entry ≡ true
  discover-inherits slot returned =
      register_all-inherits asked_of_discovery slot (sym discover-register_all ∙ returned)
