-- ===== src/Lib.antt =====
-- The solar system of Computergrafik/src, with a small sketch and the search index of another
-- project of the repository beside it. The solar system is a scene graph of a camera, orbits,
-- planets, spheres, a cube, materials, textures and a light, drawn with WebGL in every animation
-- frame.
--
-- How the parts work together. `szenegraph/index.ts` creates all nodes, joins them to a graph with
-- the camera for its root, and asks for an animation frame. Each frame reads the clock (`Timer`),
-- clears the canvas of the singleton `WebGLStart`, moves the camera by the gamepad
-- (`GameController`), and draws the graph (`Scenegraph`), which multiplies the nodes' matrices on a
-- `MatrixStack` and calls each node's `draw`. Between two frames the browser delivers key events,
-- gamepad events and the end of an image's loading.
--
-- Which file models which part (paths below Computergrafik/src):
--   MatrixStack   matrixstack/matrixstack.ts. Matrices lie on a heap, since the code tells a matrix
--                 from its clone by writing to one of them.
--   Scenegraph    szenegraph/scenegraph.ts. `draw_traversal` is `drawTraversal`: `enter` is its use of
--                 the stack up to the children, `show` its uniforms with `node.draw`, and
--                 `draw_children` its loop.
--   SgNode        szenegraph/sgnode.ts and component.ts. A node is named by its number; the class
--                 that extends `SGNode` is its `Kind`, on which `draw_kind` chooses the `draw`.
--   Camera, Orbit, Planet, Timer, Framerate, Sphere (sphereNode.ts), CubeNode
--                 the file of that name in szenegraph/, one function per method.
--   Square, Triangle, WebGlStart, Light, Material, Texture, GameController
--                 forms/square.ts, triangle/triangle.ts, triangle/webglstart.ts, the two files of
--                 materiallights/, texture/texture.ts and keyboard/gamecontroller.ts.
--   FlatSphere    szenegraph/sphere.ts, the older sphere, which the program does not use.
--   Cube          forms/cube.ts, the older cube, which the program does not use.
--   Main.Setup, Main.Setup.Materials, Main.Setup.Images
--                 szenegraph/index.ts up to the scene graph: `make_scene` creates the nodes in the
--                 order of the script and joins them.
--   Main.Frame    its `drawScene` and the browser's events: `on_input` for one of them, `run` in
--                 Main.Frame.Run for any sequence of them.
--   Sketch        Projekt_Systementwicklung/cmake-build-debug/docroot/extern/sketch.js (from the
--                 repository's root), a page of its own on the library p5.
--   Docs          the index and the menu of the web server's documentation, in
--                 Projekt_Systementwicklung/html (from the root), as tables: Docs.Index has a
--                 definition for each page of search/ and for searchdata.js, Docs.Menu is
--                 menudata.js. The scripts that read them are Doxygen's, so nothing is stated here.
--   WebGl         the calls made of WebGL, as a log with the latest call first. WebGl.Bindings reads
--                 off a log what is bound, stored and set.
--   Platform      what comes from outside the repository, as parameters: the numbers with `Math`,
--                 the matrices of gl-matrix, and the browser's answers. Platform.Symbolic is an
--                 instance that writes expressions down.
--   Base, Base.Blocks
--                 lists, options and Boolean tests that the modules share.
--   Examples      each theorem at concrete inputs.
-- A module below a part holds what is proved of it. Scenegraph.Motions is a set of numbers and
-- matrices closed under what the program computes; Main.Setup.Sound, Main.Frame.Steer and
-- Scenegraph.Depth show that the script, the input devices and a frame keep to it. The modules
-- called Requests count the animation frames that are asked for; those called Painting follow the
-- three matrices, the material, the texture and the light in force: WebGl.Paint at the draw calls
-- of a log, Scenegraph.Painting in a walk over the graph that stands for the traversal.
-- Main.Setup.Dress and Main.Frame.Files follow the image files from the script's planets to what
-- their textures hold. Main.Setup.Courses has the ten bodies with the places that the frames give
-- them, and Main.Frame.Pose what the inputs make of the days, the camera, the gamepad in use, the
-- light and the textures. Those called Supply compare the draw calls with what the buffers hold.
-- Scenegraph.Holds and Main.Setup.Script carry a property over a traversal and over the script, by
-- the records IsKept and KeepsNodes of what its steps have to keep.
--
-- State and errors. A method that changes its object takes it and returns it; a method that calls
-- WebGL takes and returns `Gl`. `none` is a TypeError, `Result` tells it from the RangeError of too
-- deep a recursion. Nothing catches an exception in a frame, so that it ends the frame loop, and
-- carries no state; in a listener it leaves the object as it is. A node's matrix is kept by value,
-- since only its own node writes to it. `drawTraversal` takes fuel for its depth: a frame gives 8,
-- and the graph of the script is at most six nodes deep.
--
-- Taken for granted: the page has the canvas and WebGL gives a context; locations are the names
-- that they are looked up with; buffers and textures are numbered in the order of their creation;
-- the clock reads whole numbers. Where a theorem uses a law of exact arithmetic, it says so.
--
-- Not modelled: the shaders in GLSL, the declarations of assets, triang-index.ts (comments only),
-- webpack's configuration, the scripts of Doxygen and jQuery beside the index, and
-- keyboarddemo.ts, whose method is commented out. The repository's other directories hold other
-- programs.
pub mod Base
pub mod Platform
pub mod WebGl
pub mod WebGlStart
pub mod Sphere
pub mod FlatSphere
pub mod Triangle
pub mod Square
pub mod CubeNode
pub mod Cube
pub mod Light
pub mod Material
pub mod Texture
pub mod MatrixStack
pub mod Camera
pub mod Orbit
pub mod Planet
pub mod SgNode
pub mod Scenegraph
pub mod GameController
pub mod Timer
pub mod Main
pub mod Sketch
pub mod Docs
pub mod Framerate
mod Examples
