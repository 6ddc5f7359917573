-- ===== src/Platform.antt =====
-- What Computergrafik/src takes from outside the repository: JavaScript numbers with `Math`, the
-- matrices of the package gl-matrix, and what the browser answers. All of it is a parameter.
pub mod Symbolic
use fhmuenster.Base.{ℕ, ◌%◌, Bool, Option, List, map}

-- `vec4` and `vec3` of gl-matrix: arrays of four and of three numbers.
pub record Vec4 (R : Type 0) : Type 0 where
  pub x : R
  pub y : R
  pub z : R
  pub w : R

pub record Vec3 (R : Type 0) : Type 0 where
  pub x : R
  pub y : R
  pub z : R

pub record Platform : Type 1 where
  -- numbers; `decimal m k` is the literal m·10⁻ᵏ, and `fround` the rounding of a typed array
  pub R : Type 0
  pub of_ℕ : ℕ → R
  pub decimal : ℕ → ℕ → R
  pub fround : R → R
  pub is_zero : R → Bool
  pub add : R → R → R
  pub sub : R → R → R
  pub mul : R → R → R
  pub div : R → R → R
  pub rem : R → R → R
  pub neg : R → R
  pub sin : R → R
  pub cos : R → R
  pub pi : R
  pub nan : R
  -- `mat4` and `mat3`; `none` is the `null` that gl-matrix returns for a singular matrix
  pub Mat4 : Type 0
  pub Mat3 : Type 0
  pub create : Mat4
  pub multiply : Mat4 → Mat4 → Mat4
  pub translate : Mat4 → Vec3 R → Mat4
  pub rotate_x : Mat4 → R → Mat4
  pub rotate_y : Mat4 → R → Mat4
  pub rotate_z : Mat4 → R → Mat4
  pub perspective : R → R → R → R → Mat4
  pub invert : Mat4 → Option Mat4
  pub normal_from_mat4 : Mat4 → Option Mat3
  -- `mat4.mul` on two arrays of length four: the image of the vector
  pub transform : Mat4 → Vec4 R → Vec4 R
  -- `vec4.fromValues`, `vec3.fromValues`, `vec3.sub` and `vec3.cross`
  pub vec4 : R → R → R → R → Vec4 R
  pub vec3 : R → R → R → Vec3 R
  pub subtract3 : Vec3 R → Vec3 R → Vec3 R
  pub cross3 : Vec3 R → Vec3 R → Vec3 R
  -- the browser: the window's size, and whether the shader program links
  pub inner_width : R
  pub inner_height : R
  pub links : Bool

-- `new Uint16Array(data)` and `new Float32Array(data)`.
unfoldable pub uint16_array : List ℕ → List ℕ
uint16_array = map λ n. n % 65_536

unfoldable pub float32_array : (p : Platform) → List p.R → List p.R
float32_array p = map p.fround
