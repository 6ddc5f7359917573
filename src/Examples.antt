-- ===== src/Examples.antt =====
-- The theorems at concrete inputs, over the platform that writes expressions down.
mod Geometry
mod Forms
mod Graph
mod Devices
mod Exact
mod Program
mod Page
mod Numbers
mod Runs
pub mod Data
