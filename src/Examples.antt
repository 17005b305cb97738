-- ===== src/Examples.antt =====
-- Tests on small inputs, and each theorem applied at an input.
mod Manifests
mod Composing
mod Rules
mod Running
mod Sidecar
mod Mappings
mod Cases
mod Discovering
mod Tz
mod Cli
mod Units
