-- ===== src/Sphere/Draw.antt =====
-- The buffers of `class Sphere`: what they hold, and what its draw call reads.
use fhmuenster.Base.{
  ℕ, ◌+◌, ◌*◌, ◌<◌, ◌≡◌, refl, ap, some, List, ◌∷◌, arith, length, All, All-map, ◌∙◌,
}
use fhmuenster.Platform.{Platform, float32_array, uint16_array}
use fhmuenster.WebGl.{Gl, draw_elements, vertex_position, normal_position, tex_coord}
use fhmuenster.WebGl.Bindings.{source, element_buffer, contents, elements}
use fhmuenster.WebGlStart.{get_instance}
use fhmuenster.Sphere.{
  Sphere, Mesh, new_sphere, draw, bind_buffers, index_data, mesh_data, init_buffers, latitude_bands,
  longitude_bands,
}
use fhmuenster.Sphere.Strip.{index_data_bounds, length-index_data, uint16_array-index_data}
use fhmuenster.Sphere.Vertices.{length-mesh_data}

module _ {p : Platform} where
  -- Whatever was bound before, `draw` ends in one `drawElements` call, over as many indices as the
  -- sphere has, and at that call each of the three attributes reads from the sphere's own buffer and
  -- the bound element buffer is the sphere's own.
  pub draw-sources :
      (s : Sphere p) (g : Gl p)
      → (draw s g).log ≡ draw_elements (length s.indices) ∷ (bind_buffers s (get_instance g)).log
        × (source vertex_position (draw s g).log ≡ some s.vertex_position_buffer)
        × (source normal_position (draw s g).log ≡ some s.normal_position_buffer)
        × (source tex_coord (draw s g).log ≡ some s.tex_coord_buffer)
        × (element_buffer (draw s g).log ≡ some s.index_buffer)
  unfolding draw bind_buffers
  draw-sources s g = (refl, refl, refl, refl, refl)

  init_buffers-contents :
      (height : p.R) (mesh : Mesh p.R) (indices : List ℕ) (g : Gl p)
      → let (s, g') = init_buffers height mesh indices g in
        (contents s.vertex_position_buffer g'.log ≡ some (float32_array p mesh.vertex_positions))
        × (contents s.normal_position_buffer g'.log ≡ some (float32_array p mesh.normal_positions))
        × (contents s.tex_coord_buffer g'.log ≡ some (float32_array p mesh.tex))
        × (elements s.index_buffer g'.log ≡ some (uint16_array indices))
  unfolding init_buffers
  init_buffers-contents height mesh indices g =
      (ground arith, ground arith, ground arith, ground arith)

  -- After the constructor the sphere's buffers hold the vertex positions, the normals, the texture
  -- coordinates and, unchanged by their storage in 16 bits, the indices.
  pub new_sphere-contents :
      (radius : p.R) (g : Gl p)
      → let (s, g') = new_sphere radius g in
        (contents s.vertex_position_buffer g'.log ≡ some (float32_array p s.mesh.vertex_positions))
        × (contents s.normal_position_buffer g'.log
            ≡ some (float32_array p s.mesh.normal_positions))
        × (contents s.tex_coord_buffer g'.log ≡ some (float32_array p s.mesh.tex))
        × (elements s.index_buffer g'.log ≡ some s.indices)
  unfolding new_sphere
  new_sphere-contents radius g =
      let c =
        init_buffers-contents (p.mul (p.of_ℕ 2) radius)
          (mesh_data p radius latitude_bands longitude_bands)
          (index_data latitude_bands longitude_bands) g in
      unfold init_buffers in
      (
        c.0,
        c.1,
        c.2,
        c.3 ∙ ap some (uint16_array-index_data latitude_bands longitude_bands (omega arith)),
      )

  -- Every index that a sphere draws names a vertex whose three coordinates, three components of a
  -- normal and two texture coordinates are in the arrays, and it draws 40000 indices.
  pub new_sphere_bounds :
      (radius : p.R) (g : Gl p)
      → let s = (new_sphere radius g).0 in
        All
          (λ k.
            (3 * k + 2 < length s.mesh.vertex_positions)
            × (3 * k + 2 < length s.mesh.normal_positions)
            × (2 * k + 1 < length s.mesh.tex))
          s.indices
        × (length s.indices ≡ 40_000)
  unfolding new_sphere init_buffers
  new_sphere_bounds radius g =
      let sizes = length-mesh_data p radius latitude_bands longitude_bands in
      (
        All-map
            (λ k (lt : k < 10_201).
              (omega (arith, sizes.0), omega (arith, sizes.1), omega (arith, sizes.2)))
            (index_data latitude_bands longitude_bands)
            (index_data_bounds latitude_bands longitude_bands),
        length-index_data latitude_bands longitude_bands,
      )
