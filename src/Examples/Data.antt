-- ===== src/Examples/Data.antt =====
-- Inputs that the examples share.
use fhmuenster.Base.{false, [], ◌∷◌}
use fhmuenster.Platform.Symbolic.{Matrix, symbolic, whole, identity}
use fhmuenster.WebGl.{Gl}
use fhmuenster.MatrixStack.{Matrices}
use fhmuenster.SgNode.{Scene, plain, planet}
use fhmuenster.Scenegraph.{World}

-- A page on which nothing has been drawn.
abbrev pub blank : Gl symbolic
blank = record {
  started = false;
  width = whole 0;
  height = whole 0;
  buffers = 0;
  textures = 0;
  log = [];
}

-- A root with the same planet for a child twice.
abbrev pub twice : Scene symbolic
twice = record {
  nodes =
      record { trafo = identity; children = 1 ∷ 1 ∷ []; kind = plain }
      ∷ record {
        trafo = identity;
        children = [];
        kind = planet (record { tilt_rad = whole 2; rotation_period = whole 3 });
      }
      ∷ [];
  gl = blank;
}

abbrev pub one_matrix : Matrices Matrix
one_matrix = record { next = 1; cell = λ _. identity; items = 0 ∷ [] }

abbrev pub twice_world : World symbolic
twice_world = record { scene = twice; matrices = one_matrix }
