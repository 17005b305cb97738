-- ===== src/Examples/Manifests.antt =====
-- A chain in the manner of docs/developer_documentation/pipeline-composition.md: a mapping
-- pipeline, then PLEXOS to Sienna, then Sienna to PyPSA.
use tz_oss_interop.Prelude.{none, some, [], ◌∷◌, if◌then◌else◌, ◌==◌}
use tz_oss_interop.Prelude.Text.{Text, codes, text_eq}
use tz_oss_interop.Errors.{ok, err, raised}
use tz_oss_interop.Spec.{
  text, Params, NodeSpec, PipelineSpec, LegSpec, ComposedPipelineSpec, composed, no_overrides,
  NodeOverrides,
}
use tz_oss_interop.Composition.Legs.{
  mapping, translation, TranslationPlan, SpecLoader, CompositionRequest,
}

abbrev pub node : Text → Params → NodeSpec
node name params = record { name = name; params = params }

abbrev pub to_sienna : PipelineSpec
to_sienna = record {
  source_framework = codes "plexos";
  destination_framework = codes "sienna";
  source = node (codes "stage") ((codes "path", text (codes "model.xml")) ∷ []);
  steps = node (codes "map") [] ∷ [];
  sinks = node (codes "emit") [] ∷ [];
  validators = [];
}

abbrev pub to_pypsa : PipelineSpec
to_pypsa = record {
  source_framework = codes "sienna";
  destination_framework = codes "pypsa";
  source = node (codes "read") [];
  steps = [];
  sinks = node (codes "write") ((codes "out", text (codes "net.nc")) ∷ []) ∷ [];
  validators = [];
}

abbrev pub derive : PipelineSpec
derive = record {
  source_framework = codes "plexos";
  destination_framework = codes "mappings";
  source = node (codes "scan") [];
  steps = [];
  sinks = node (codes "save") ((codes "out", text (codes "maps.yaml")) ∷ []) ∷ [];
  validators = [];
}

abbrev pub load : SpecLoader
load name =
    if name == codes "p2s"
    then ok to_sienna
    else if name == codes "s2p"
    then ok to_pypsa
    else if name == codes "derive"
    then ok derive
    else err (raised 404)

abbrev pub leg : Text → Params → LegSpec
leg name params = record { pipeline = name; params = params }

abbrev pub hand_over : Params
hand_over = (codes "emit.file", text (codes "system.json")) ∷ []

abbrev pub read_back : Params
read_back = (codes "read.file", text (codes "$p2s.emit.file")) ∷ []

abbrev pub chain : ComposedPipelineSpec
chain = record {
  source_framework = codes "plexos";
  destination_framework = codes "pypsa";
  mappings = leg (codes "derive") [] ∷ [];
  compose = leg (codes "p2s") hand_over ∷ leg (codes "s2p") read_back ∷ [];
}

abbrev pub given_path : NodeOverrides
given_path = record no_overrides { source = (codes "path", text (codes "other.xml")) ∷ [] }

abbrev pub request : CompositionRequest
request = record { pipeline = codes "p2p"; document = composed chain; overrides = given_path }

abbrev pub plan : TranslationPlan
plan = record {
  mappings =
      record {
        pipeline = codes "derive";
        spec = derive;
        kind = mapping;
        reads_handoff_from = none;
        writes_handoff_to = some (codes "mapping-0-derive");
      }
      ∷ [];
  legs =
      record {
        pipeline = codes "p2s";
        spec = record to_sienna {
          source = node (codes "stage") ((codes "path", text (codes "other.xml")) ∷ []);
          sinks = node (codes "emit") ((codes "file", text (codes "system.json")) ∷ []) ∷ [];
        };
        kind = translation;
        reads_handoff_from = none;
        writes_handoff_to = some (codes "0-p2s");
      }
      ∷ record {
        pipeline = codes "s2p";
        spec = record to_pypsa {
          source = node (codes "read") ((codes "file", text (codes "system.json")) ∷ []);
        };
        kind = translation;
        reads_handoff_from = some (codes "0-p2s");
        writes_handoff_to = none;
      }
      ∷ [];
}
