-- ===== src/Main.antt =====
-- Computergrafik/src/szenegraph/index.ts: the scene of the solar system, and the frame loop.
pub mod Setup
pub mod Frame
