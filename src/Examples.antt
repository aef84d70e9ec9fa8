-- ===== src/Examples.antt =====
-- Runs of the theorems at concrete inputs, and tests of the definitions.
mod Flash
mod Color
mod Effects
mod Store
mod Renderer
mod Cluster
mod Ota
mod Operator
mod Console
