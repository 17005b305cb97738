-- ===== src/Reporting/Scopes.antt =====
-- What nested scopes stamp on an event.
use tz_oss_interop.Prelude.{◌≡◌, refl, Option, none, some, List, [], ◌∷◌}
use tz_oss_interop.Prelude.Text.{Text}
use tz_oss_interop.Reporting.{
  TranslationEvent, EventRecorder, scoped_recorder, or_text, append_event,
}

or_text_assoc : (a b c : Option Text) → or_text (or_text a b) c ≡ or_text a (or_text b c)
or_text_assoc none b c = refl
or_text_assoc (some []) b c = refl
or_text_assoc (some (x ∷ s)) b c = refl

-- Two nested scopes stamp as one whose step and pipeline are the inner wrapper's where it states
-- them and the outer log's wrapper's otherwise: what is stamped first stays.
pub append_event_nested :
    (log : EventRecorder) (step step' pipeline pipeline' : Option Text) (event : TranslationEvent)
    (events : List TranslationEvent)
    → append_event
        (scoped_recorder (scoped_recorder log step' pipeline') step pipeline)
        event
        events
      ≡ append_event
          (scoped_recorder log (or_text step step') (or_text pipeline pipeline'))
          event
          events
unfolding append_event
append_event_nested log step step' pipeline pipeline' event events =
    cc (or_text_assoc event.step step step', or_text_assoc event.pipeline pipeline pipeline')
