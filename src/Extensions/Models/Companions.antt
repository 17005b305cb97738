-- ===== src/Extensions/Models/Companions.antt =====
-- The companion files of interop/core/extensions.py, which hold the series of a kind beside the
-- sidecar.
use tz_oss_interop.Prelude.{Bool, true, false, Option, none, some, List, [], ◌∷◌, any}
use tz_oss_interop.Prelude.Text.{Text, text_eq, codes}
use tz_oss_interop.Prelude.Dict.{lookup}
use tz_oss_interop.Errors.{Result, ok, err, no_companion}
use tz_oss_interop.Extensions.{ExtensionRecord}
use tz_oss_interop.Extensions.Kinds.{ExtensionKind, generator, storage, reserve}

pub record Companion : Type 0 where
  pub filename : Text
  pub series_fields : List Text

-- `_COMPANIONS.get(kind)`
abbrev pub companion_of : ExtensionKind → Option Companion
companion_of generator = some (record {
  filename = codes "generators.parquet";
  series_fields = codes "marginal_cost_series" ∷ [];
})
companion_of reserve = some (record {
  filename = codes "reserves.parquet";
  series_fields = codes "requirement_series" ∷ [];
})
companion_of storage = some (record {
  filename = codes "storage.parquet";
  series_fields = codes "inflow_series" ∷ codes "rating_series" ∷ [];
})
companion_of _ = none

unfoldable pub companion_filename : ExtensionKind → Result Text
companion_filename kind = elim (companion_of kind) [
  | none ↦ err no_companion
  | some companion ↦ ok companion.filename
]

-- `getattr(record, series_field, None) is not None`
abbrev pub states_field : ExtensionRecord → Text → Bool
states_field r name = elim (lookup name r.attributes) [ none ↦ false | some value ↦ true ]

unfoldable pub names_companion_series : ExtensionKind → List ExtensionRecord → Bool
names_companion_series kind records = elim (companion_of kind) [
  | none ↦ false
  | some companion ↦ any (λ r. any (states_field r) companion.series_fields) records
]
