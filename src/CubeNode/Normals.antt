-- ===== src/CubeNode/Normals.antt =====
-- The normals of the twelve triangles of `class CubeNode`.
use fhmuenster.Base.{◌≡◌, refl, ap, ◌∙◌, List, [], ◌∷◌, map}
use fhmuenster.Platform.{Platform, Vec3}
use fhmuenster.WebGl.{Gl}
use fhmuenster.WebGlStart.{get_instance}
use fhmuenster.Triangle.{Triangle, new_triangle, coordinates}
use fhmuenster.Triangle
use fhmuenster.Square.{Square, new_square, init_buffer}
use fhmuenster.CubeNode.{Face, corners, faces, new_squares, init_tex, new_cube_node}

-- gl-matrix on vectors of three numbers, and the laws of exact arithmetic that its results meet.
pub record IsExact (p : Platform) : Type 0 where
  pub vec3_parts : (a b c : p.R) → p.vec3 a b c ≡ record { x = a; y = b; z = c }
  pub subtract3_parts :
      (u v : Vec3 p.R)
      → p.subtract3 u v ≡ record { x = p.sub u.x v.x; y = p.sub u.y v.y; z = p.sub u.z v.z }
  pub cross3_parts :
      (u v : Vec3 p.R)
      → p.cross3 u v ≡ record {
        x = p.sub (p.mul u.y v.z) (p.mul u.z v.y);
        y = p.sub (p.mul u.z v.x) (p.mul u.x v.z);
        z = p.sub (p.mul u.x v.y) (p.mul u.y v.x);
      }
  pub sub_self : (a : p.R) → p.sub a a ≡ p.of_ℕ 0
  pub sub_zero : (a : p.R) → p.sub a (p.of_ℕ 0) ≡ a
  pub zero_sub : (a : p.R) → p.sub (p.of_ℕ 0) a ≡ p.neg a
  pub sub_swap : (a b : p.R) → p.sub b a ≡ p.neg (p.sub a b)
  pub mul_zero : (a : p.R) → p.mul a (p.of_ℕ 0) ≡ p.of_ℕ 0
  pub zero_mul : (a : p.R) → p.mul (p.of_ℕ 0) a ≡ p.of_ℕ 0
  pub mul_neg : (a b : p.R) → p.mul a (p.neg b) ≡ p.neg (p.mul a b)
  pub neg_mul : (a b : p.R) → p.mul (p.neg a) b ≡ p.neg (p.mul a b)
  pub neg_neg : (a : p.R) → p.neg (p.neg a) ≡ a

module _ (p : Platform) where
  open p use {R, of_ℕ, mul, div, sub, neg}

  -- One normal for each of a triangle's three vertices.
  abbrev pub thrice : Vec3 R → List R
  thrice v = coordinates v (coordinates v (coordinates v []))

  -- The normals of the two triangles of each square.
  abbrev pub normals : List (Square p) → List (List R × List R)
  normals [] = []
  normals (s ∷ ss) = ((s.triangle0).normal, (s.triangle1).normal) ∷ normals ss

  -- The length of a side from one corner to the opposite one.
  abbrev pub side : R → R
  side a = sub (div a (of_ℕ 2)) (div (neg a) (of_ℕ 2))

  abbrev cross : (v1 v2 v3 : Vec3 R) → Vec3 R
  cross v1 v2 v3 = p.cross3 (p.subtract3 v2 v1) (p.subtract3 v3 v1)

  abbrev face_normals : Face R → List R × List R
  face_normals f = (thrice (cross f.a f.b f.c), thrice (cross f.c f.d f.a))

  normals-new_squares :
      (fs : List (Face R)) (g : Gl p) → normals (new_squares fs g).0 ≡ map face_normals fs
  unfolding new_squares new_square init_buffer new_triangle Triangle.init_buffers
  normals-new_squares [] g = refl
  normals-new_squares (f ∷ fs) g =
      ap (λ t. face_normals f ∷ t) (normals-new_squares fs (new_square f.a f.b f.c f.d g).1)

  abbrev both : R → R → R → List R × List R
  both a b c = (thrice (record { x = a; y = b; z = c }), thrice (record { x = a; y = b; z = c }))

  -- The normals of a box with these sides, along -z, z, x, y, -y and -x.
  abbrev pub outward : (h w d : R) → List (List R × List R)
  outward h w d =
      both (of_ℕ 0) (of_ℕ 0) (neg (mul w h))
      ∷ both (of_ℕ 0) (of_ℕ 0) (mul w h)
      ∷ both (mul w d) (of_ℕ 0) (of_ℕ 0)
      ∷ both (of_ℕ 0) (mul d h) (of_ℕ 0)
      ∷ both (of_ℕ 0) (neg (mul d h)) (of_ℕ 0)
      ∷ both (neg (mul w d)) (of_ℕ 0) (of_ℕ 0)
      ∷ []

  module _ (E : IsExact p) where
    six_normals :
        (heigth width depth : R)
        → map face_normals (faces (corners p heigth width depth))
          ≡ outward (side heigth) (side width) (side depth)
    unfolding faces corners
    six_normals heigth width depth =
        let H = div heigth (of_ℕ 2) in
        let NH = div (neg heigth) (of_ℕ 2) in
        let W = div width (of_ℕ 2) in
        let NW = div (neg width) (of_ℕ 2) in
        let D = div depth (of_ℕ 2) in
        let ND = div (neg depth) (of_ℕ 2) in
        simp (
          E.vec3_parts,
          E.subtract3_parts,
          E.cross3_parts,
          E.sub_self,
          E.sub_zero,
          E.zero_sub,
          E.mul_zero,
          E.zero_mul,
          E.mul_neg,
          E.neg_mul,
          E.neg_neg,
          E.sub_swap H NH,
          E.sub_swap W NW,
          E.sub_swap D ND,
        )

    -- If gl-matrix computes differences and cross products by their formulas and the laws of exact
    -- arithmetic hold, the two triangles of each of the six squares have the same normal at all
    -- vertices: along the axes -z, z, x, y, -y and -x in the order of the squares, with the product
    -- of two sides for its length.
    pub new_cube_node-outward :
        (heigth width depth : R) (g : Gl p)
        → normals (new_cube_node heigth width depth g).0.squares
          ≡ outward (side heigth) (side width) (side depth)
    unfolding new_cube_node init_tex
    new_cube_node-outward heigth width depth g =
        normals-new_squares (faces (corners p heigth width depth)) (get_instance g)
        ∙ six_normals heigth width depth
