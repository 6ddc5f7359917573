-- ===== src/Platform/Symbolic.antt =====
-- A platform that writes expressions down instead of computing them, for examples.
use fhmuenster.Base.{ℕ, zero, suc, Bool, true, false, some}
use fhmuenster.Platform.{Platform, Vec3}

pub data Number : Type 0 where
  whole : ℕ → Number
  decimal : ℕ → ℕ → Number
  pi nan width height : Number
  sum difference product quotient remainder : Number → Number → Number
  negative sine cosine : Number → Number
  part : ℕ → Number → Number

pub data Matrix : Type 0 where
  identity : Matrix
  product : Matrix → Matrix → Matrix
  translated : Matrix → Number → Number → Number → Matrix
  rotated_x rotated_y rotated_z : Matrix → Number → Matrix
  lens : Number → Number → Number → Number → Matrix
  inverse normal : Matrix → Matrix

abbrev pub is_zero : Number → Bool
is_zero (whole zero) = true
is_zero (whole (suc n)) = false
is_zero _ = false

abbrev vec : Number → Number → Number → Vec3 Number
vec a b c = record { x = a; y = b; z = c }

abbrev pub symbolic : Platform
symbolic = record {
  R = Number;
  of_ℕ = whole;
  decimal = decimal;
  fround = λ a. a;
  is_zero = is_zero;
  add = sum;
  sub = difference;
  mul = Number.product;
  div = quotient;
  rem = remainder;
  neg = negative;
  sin = sine;
  cos = cosine;
  pi = pi;
  nan = nan;
  Mat4 = Matrix;
  Mat3 = Matrix;
  create = identity;
  multiply = Matrix.product;
  translate = λ m v. translated m v.x v.y v.z;
  rotate_x = rotated_x;
  rotate_y = rotated_y;
  rotate_z = rotated_z;
  perspective = lens;
  invert = λ m. some (inverse m);
  normal_from_mat4 = λ m. some (normal m);
  transform = λ m v. v;
  vec4 = λ a b c d. record { x = a; y = b; z = c; w = d };
  vec3 = vec;
  subtract3 = λ a b. vec (difference a.x b.x) (difference a.y b.y) (difference a.z b.z);
  cross3 = λ a b.
      vec (difference (Number.product a.y b.z) (Number.product a.z b.y))
        (difference (Number.product a.z b.x) (Number.product a.x b.z))
        (difference (Number.product a.x b.y) (Number.product a.y b.x));
  inner_width = width;
  inner_height = height;
  links = true;
}
