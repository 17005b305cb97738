-- ===== src/Documents/Loading.antt =====
-- Which manifests can be legs.
use tz_oss_interop.Prelude.{◌≡◌, ◌↔◌, ◌∙◌, ap}
use tz_oss_interop.Prelude.Text.{Text}
use tz_oss_interop.Errors.{Result, ok, ◌>>=◌, >>=-eq-ok, ok_injective}
use tz_oss_interop.Spec.{
  Value, PipelineSpec, ComposedPipelineSpec, PipelineDocument, single, composed,
}
use tz_oss_interop.Documents.{only_single, load_pipeline_document, load_leg_spec}

only_single-eq-ok :
    (name : Text) (document : PipelineDocument) (spec : PipelineSpec)
    → only_single name document ≡ ok spec
    → document ≡ single spec
only_single-eq-ok name (single s) spec h = ap single (ok_injective h)
only_single-eq-ok name (composed s) spec h = absurd (cc h)

module _ (read_pipeline_document : Text → Result Value)
    (as_composed : Value → Result ComposedPipelineSpec)
    (as_single : Value → Result PipelineSpec) where
  -- A manifest loads as a leg exactly where it loads as a pipeline that composes nothing.
  pub load_leg_spec_iff :
      (name : Text) (spec : PipelineSpec)
      → (load_leg_spec read_pipeline_document as_composed as_single name ≡ ok spec) ↔ (
          load_pipeline_document read_pipeline_document as_composed as_single name
          ≡ ok (single spec))
  unfolding load_leg_spec
  load_leg_spec_iff name spec = (
    (λ h.
        let (document, loaded, rest) =
          >>=-eq-ok (load_pipeline_document read_pipeline_document as_composed as_single name)
            (only_single name) h in
        loaded ∙ ap ok (only_single-eq-ok name document spec rest)),
    λ h. ap (λ r. r >>= only_single name) h,
  )
