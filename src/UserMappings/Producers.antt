-- ===== src/UserMappings/Producers.antt =====
-- One producer for each schema: `fold_produced_mappings` returns what the sinks declare, in order,
-- exactly where no schema is declared twice.
use tz_oss_interop.Prelude.{
  ◌≡◌, refl, sym, ◌∙◌, ap, subst, Option, none, some, List, [], ◌∷◌, ◌++◌, arith, append-nil,
  append_assoc,
}
use tz_oss_interop.Prelude.Text.{Text, text_eq}
use tz_oss_interop.Prelude.Dict.{Dict, lookup, insert, IsDict, insert-IsDict}
use tz_oss_interop.Errors.{ok, >>=-eq-ok, ok_injective, fold_result}
use tz_oss_interop.Spec.{NodeSpec}
use tz_oss_interop.UserMappings.{
  UserMappingsOutput, NodeLookups, LabelledSpec, MappingsProducer, add_producer, add_declared,
  reject_second_producer, fold_produced_mappings,
}

-- What one sink declares.
abbrev pub declared :
    NodeSpec → Option Text → Option UserMappingsOutput → Dict Text MappingsProducer
declared node pipeline none = []
declared node pipeline (some o) =
    (
      o.schema,
      record { address = record { node = node.name; param = o.path_param }; pipeline = pipeline },
    )
    ∷ []

module _ (node_lookups : NodeLookups) where
  abbrev pub Declares : Option Text → List NodeSpec → Dict Text MappingsProducer → Type 0
  Declares pipeline [] entries = entries ≡ []
  Declares pipeline (node ∷ nodes) entries =
      (output : Option UserMappingsOutput) × (rest : Dict Text MappingsProducer)
      × (node_lookups.sink node.name ≡ ok output)
      × Declares pipeline nodes rest
      × (entries ≡ declared node pipeline output ++ rest)

  insert_absent :
      (k : Text) (v : MappingsProducer) (d : Dict Text MappingsProducer)
      → lookup k d ≡ none
      → insert k v d ≡ d ++ (k, v) ∷ []
  unfolding lookup insert
  insert_absent k v [] h = refl
  insert_absent k v ((j, w) ∷ d) h = ground (arith, insert_absent k v d)

  abbrev pub DeclaresAll : List LabelledSpec → Dict Text MappingsProducer → Type 0
  DeclaresAll [] entries = entries ≡ []
  DeclaresAll (labelled ∷ rest) entries =
      (here later : Dict Text MappingsProducer) × Declares labelled.pipeline labelled.spec.sinks
        here
      × DeclaresAll rest later
      × (entries ≡ here ++ later)

  add_declared-eq-ok :
      (pipeline : Option Text) (before after : Dict Text MappingsProducer) (node : NodeSpec)
      (output : Option UserMappingsOutput)
      → add_declared pipeline before node output ≡ ok after
      → (after ≡ before ++ declared node pipeline output) × (IsDict before → IsDict after)
  add_declared-eq-ok pipeline before after node none h =
      (sym (ok_injective h) ∙ sym (append-nil before), λ fine. subst IsDict (ok_injective h) fine)
  add_declared-eq-ok pipeline before after node (some o) h =
      let producer : MappingsProducer = record {
        address = record { node = node.name; param = o.path_param };
        pipeline = pipeline;
      } in
      let (u, fresh, made) =
        >>=-eq-ok (reject_second_producer before o.schema)
          (λ _. ok (insert o.schema producer before)) h in
      let absent : lookup o.schema before ≡ none = ground arith in
      (
        sym (ok_injective made) ∙ insert_absent o.schema producer before absent,
        λ fine. subst IsDict (ok_injective made) (insert-IsDict o.schema producer before fine),
      )

  fold_sinks-eq-ok :
      (pipeline : Option Text) (nodes : List NodeSpec) (before after : Dict Text MappingsProducer)
      → fold_result (add_producer node_lookups pipeline) before nodes ≡ ok after
      → (entries : Dict Text MappingsProducer) × Declares pipeline nodes entries
        × (after ≡ before ++ entries)
        × (IsDict before → IsDict after)
  unfolding add_producer
  fold_sinks-eq-ok pipeline [] before after h = (
    [],
    refl,
    sym (ok_injective h) ∙ sym (append-nil before),
    λ fine. subst IsDict (ok_injective h) fine,
  )
  fold_sinks-eq-ok pipeline (node ∷ nodes) before after h =
      let (middle, added, rest) =
        >>=-eq-ok (add_producer node_lookups pipeline before node)
          (λ m. fold_result (add_producer node_lookups pipeline) m nodes) h in
      let (output, found, one) =
        >>=-eq-ok (node_lookups.sink node.name) (add_declared pipeline before node) added in
      let (same, fine) = add_declared-eq-ok pipeline before middle node output one in
      let (entries, declares, same', fine') = fold_sinks-eq-ok pipeline nodes middle after rest in
      (
        declared node pipeline output ++ entries,
        (output, entries, found, declares, refl),
        same'
            ∙ ap (λ d. d ++ entries) same
            ∙ append_assoc before (declared node pipeline output) entries,
        λ dict. fine' (fine dict),
      )

  fold_specs-eq-ok :
      (labelled_specs : List LabelledSpec) (before after : Dict Text MappingsProducer)
      → fold_result
          (λ producers (labelled : LabelledSpec).
            fold_result (add_producer node_lookups labelled.pipeline) producers labelled.spec.sinks)
          before
          labelled_specs
        ≡ ok after
      → (entries : Dict Text MappingsProducer) × DeclaresAll labelled_specs entries
        × (after ≡ before ++ entries)
        × (IsDict before → IsDict after)
  fold_specs-eq-ok [] before after h = (
    [],
    refl,
    sym (ok_injective h) ∙ sym (append-nil before),
    λ fine. subst IsDict (ok_injective h) fine,
  )
  fold_specs-eq-ok (labelled ∷ rest) before after h =
      let (middle, first, others) =
        >>=-eq-ok
          (fold_result (add_producer node_lookups labelled.pipeline) before labelled.spec.sinks) _
          h in
      let (here, declares, same, fine) =
        fold_sinks-eq-ok labelled.pipeline labelled.spec.sinks before middle first in
      let (later, declares', same', fine') = fold_specs-eq-ok rest middle after others in
      (
        here ++ later,
        (here, later, declares, declares', refl),
        same' ∙ ap (λ d. d ++ later) same ∙ append_assoc before here later,
        λ dict. fine' (fine dict),
      )

  -- The producers that are returned are those that the sinks of the specs declare, each one of them,
  -- in order, with the sink's own param address and the label of its spec; and no schema has two.
  pub fold_produced_mappings-DeclaresAll :
      (labelled_specs : List LabelledSpec) (producers : Dict Text MappingsProducer)
      → fold_produced_mappings node_lookups labelled_specs ≡ ok producers
      → DeclaresAll labelled_specs producers × IsDict producers
  unfolding fold_produced_mappings
  fold_produced_mappings-DeclaresAll labelled_specs producers h =
      let (entries, declares, same, fine) = fold_specs-eq-ok labelled_specs [] producers h in
      (subst (DeclaresAll labelled_specs) (sym same) declares, fine tt)
