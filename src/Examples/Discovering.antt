-- ===== src/Examples/Discovering.antt =====
-- An installation with a step on the shelf, an adapter and an entry point, and discovery on it.
use tz_oss_interop.Prelude.{◌≡◌, refl, true, none, some, Option, [], ◌∷◌, ◌==◌, if◌then◌else◌}
use tz_oss_interop.Prelude.Text.{Text, text_eq, text_beq, codes}
use tz_oss_interop.Prelude.Dict.{lookup, insert}
use tz_oss_interop.Errors.{Result, ok, err, raised}
use tz_oss_interop.Discovery.{
  steps, category_eq, PluginClass, LazyPlugin, lazy_plugin, Registry, empty_registry, required_base,
  require_base, resolve, step_protocol, pipeline_node_bucket, put_in_bucket, place_node,
  add_pipeline_node, adapter_bucket, place_adapter, add_adapter_to, add_adapter, add_named, add,
  add_lazy,
}
use tz_oss_interop.Discovery.Slots.{node_slot, deferred, entry_at, bucket_at}
use tz_oss_interop.Discovery.Contract.{Refines, declare_all}
use tz_oss_interop.Discovery.Heirs.{inherits}
use tz_oss_interop.Discovery.Scanning.{
  string_constant, annotated, other_statement, class_definition, other_node, Modules, no_more,
  and_module, package_of, file_of, is_private, assignment_of, name_stated, declared_plugin_name,
  declared_classes, plugin_classes_in_source, class_loader, add_lazy_class,
  scan_lazy_pipeline_nodes, register_module_classes, scan_and_register_packages, add_entry_point,
  Installation, scan_shelf, discover_off_the_shelf_plugins, discover_entry_points,
  discover_project_local, discover,
}
use tz_oss_interop.Discovery.Order.{
  asked_of_discovery, discover-register_all, discover-Refines, discover-inherits,
}
use tz_oss_interop.Discovery.Contract.{register_all}

abbrev step_class : PluginClass
step_class = record {
  identity = 10;
  module_name = codes "m";
  qualname = codes "S";
  name = some (codes "s");
  port = none;
  mro = 10 ∷ step_protocol ∷ [];
}

abbrev adapter_class : PluginClass
adapter_class = record {
  identity = 11;
  module_name = codes "interop.adapters.outbound.disk";
  qualname = codes "Disk";
  name = some (codes "disk");
  port = some 20;
  mro = 11 ∷ 20 ∷ [];
}

abbrev import_class : Text → Text → Result (Option PluginClass)
import_class module_name class_name = ok (some step_class)

-- A step in the package `p`, beside a private module.
abbrev shelf_steps : Modules
shelf_steps = and_module (file_of (codes "_base") (err (raised 1)) (err (raised 2))) (
    and_module
      (package_of (codes "p") (
        and_module
          (file_of (codes "s")
            (ok (
              other_node
              ∷ class_definition (codes "S") (
                  other_statement
                  ∷ annotated (some (codes "name")) (string_constant (codes "s"))
                  ∷ [])
              ∷ class_definition (codes "Helper") []
              ∷ []))
            (ok []))
          no_more))
      no_more)

abbrev installation : Installation
installation = record {
  shelf = λ category. if category == steps then some shelf_steps else none;
  outbound = and_module (file_of (codes "disk") (ok []) (ok (adapter_class ∷ []))) no_more;
  inbound = no_more;
  entry_points = λ category.
      if category == steps then record { name = codes "n"; loaded = ok none } ∷ [] else [];
  local = none;
}

discover-register_all_example :
    discover import_class installation ≡ register_all (asked_of_discovery import_class installation)
discover-register_all_example = discover-register_all import_class installation

discover-Refines_example :
    Refines
      (discover import_class installation)
      (declare_all (asked_of_discovery import_class installation))
discover-Refines_example = discover-Refines import_class installation

abbrev step_plugin : LazyPlugin
step_plugin = lazy_plugin steps (codes "s") (codes "interop.plugins.steps.p.s") (ok step_class)

abbrev found : Registry
found = record empty_registry {
  steps = (codes "s", step_plugin) ∷ [];
  adapters = (20, (codes "disk", adapter_class) ∷ []) ∷ [];
  locations = ((steps, codes "s"), codes "interop.plugins.steps.p.s") ∷ [];
  adapter_locations = ((20, codes "disk"), codes "interop.adapters.outbound.disk") ∷ [];
}

discovered : discover import_class installation ≡ ok found
unfolding discover discover_off_the_shelf_plugins discover_entry_points discover_project_local
    scan_shelf scan_lazy_pipeline_nodes plugin_classes_in_source declared_classes
    declared_plugin_name name_stated assignment_of is_private class_loader add_lazy_class add_lazy
    add_pipeline_node pipeline_node_bucket place_node put_in_bucket scan_and_register_packages
    register_module_classes add add_named add_adapter add_adapter_to require_base place_adapter
    adapter_bucket add_entry_point lookup insert text_beq
discovered = refl

step_here : entry_at found (node_slot steps (codes "s")) ≡ some (deferred step_plugin)
unfolding entry_at bucket_at lookup text_beq
step_here = refl

discover-inherits_example : inherits (node_slot steps (codes "s")) (deferred step_plugin) ≡ true
discover-inherits_example =
    discover-inherits import_class installation (node_slot steps (codes "s")) discovered step_here

abbrev resolved_step : LazyPlugin
resolved_step = record step_plugin { resolved = some step_class }

step_resolves : resolve step_plugin ≡ ok (step_class, resolved_step)
unfolding resolve required_base require_base
step_resolves = refl
