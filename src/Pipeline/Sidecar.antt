-- ===== src/Pipeline/Sidecar.antt =====
-- The consumption of a hop is opened once.
use tz_oss_interop.Prelude.{◌≡◌, refl}
use tz_oss_interop.Reporting.{EventRecorder}
use tz_oss_interop.Pipeline.{State, extension_reader}

module _ {B : Type 0} where
  -- Every step of a hop gets the same consumption from its reader, whatever recorder it passes: the
  -- first step to ask fixes the recorder that drops are reported through.
  pub extension_reader_shared :
      (first later : EventRecorder) (state : State B)
      → extension_reader later (extension_reader first state).1 ≡ extension_reader first state
  unfolding extension_reader
  extension_reader_shared first later state = refl
