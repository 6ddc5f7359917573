-- ===== src/Docs.antt =====
-- Projekt_Systementwicklung/html: the index by which the documentation of the web server is
-- searched, and the menu of its pages. The pages' scripts are another project's and not modelled.
pub mod Index
pub mod Menu
use Prim.Native.String.{String}
use fhmuenster.Base.{ℕ, List, [], ◌∷◌}

-- A place in the documentation: `[url, 1, scope]`.
pub record Link : Type 0 where
  pub url : String
  pub frame : ℕ
  pub scope : String

-- `[id, [name, link, …]]`.
pub record Entry : Type 0 where
  pub id : String
  pub name : String
  pub links : List Link

-- The notation of the index: every link has the frame 1.
abbrev pub link : (url scope : String) → Link
link url scope = record { url = url; frame = 1; scope = scope }

abbrev pub entry : (id name : String) → List Link → Entry
entry id name links = record { id = id; name = name; links = links }
