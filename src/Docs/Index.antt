-- ===== src/Docs/Index.antt =====
-- Projekt_Systementwicklung/html/search: which pages there are, by section and first letter.
pub mod Names0
pub mod Names1
pub mod Files
pub mod Functions
pub mod Others
use Prim.Native.String.{String}
use fhmuenster.Base.{ℕ, Option, none, some, List, [], ◌∷◌, get_elem?}
use fhmuenster.Docs.{Entry}
use fhmuenster.Docs.Index.Names0.{all_0, all_1, all_2, all_3, all_4, all_5, all_6, all_7}
use fhmuenster.Docs.Index.Names1.{all_8, all_9, all_a, all_b, all_c, all_d, all_e, all_f, all_10}
use fhmuenster.Docs.Index.Files.{
  classes_0, namespaces_0, files_0, files_1, files_2, files_3, files_4, files_5, files_6, pages_0,
  pages_1, typedefs_0,
}
use fhmuenster.Docs.Index.Functions.{
  functions_0, functions_1, functions_2, functions_3, functions_4, functions_5, functions_6,
  functions_7, functions_8, functions_9, functions_a, functions_b,
}
use fhmuenster.Docs.Index.Others.{
  variables_0, variables_1, variables_2, variables_3, variables_4, variables_5, variables_6,
  defines_0, defines_1, defines_2, defines_3,
}

abbrev pub index_sections_with_content : List String
index_sections_with_content =
    "abcdefghilmnprstv" ∷ "s" ∷ "t" ∷ "abefhrt" ∷ "bcefghlmnpsv" ∷ "cdhlprs" ∷ "s" ∷ "bilp" ∷ "pr"
    ∷ []

abbrev pub index_section_names : List String
index_section_names =
    "all" ∷ "classes" ∷ "namespaces" ∷ "files" ∷ "functions" ∷ "variables" ∷ "typedefs" ∷ "defines"
    ∷ "pages" ∷ []

abbrev pub index_section_labels : List String
index_section_labels =
    "All" ∷ "Classes" ∷ "Namespaces" ∷ "Files" ∷ "Functions" ∷ "Variables" ∷ "Typedefs" ∷ "Macros"
    ∷ "Pages" ∷ []

-- The pages of each section, in the order of their numbers.
abbrev pub sections : List (List (List Entry))
sections =
    (all_0 ∷ all_1 ∷ all_2 ∷ all_3 ∷ all_4 ∷ all_5 ∷ all_6 ∷ all_7 ∷ all_8 ∷ all_9 ∷ all_a ∷ all_b
      ∷ all_c ∷ all_d ∷ all_e ∷ all_f ∷ all_10 ∷ [])
    ∷ (classes_0 ∷ [])
    ∷ (namespaces_0 ∷ [])
    ∷ (files_0 ∷ files_1 ∷ files_2 ∷ files_3 ∷ files_4 ∷ files_5 ∷ files_6 ∷ [])
    ∷ (functions_0 ∷ functions_1 ∷ functions_2 ∷ functions_3 ∷ functions_4 ∷ functions_5
        ∷ functions_6 ∷ functions_7 ∷ functions_8 ∷ functions_9 ∷ functions_a ∷ functions_b ∷ [])
    ∷ (variables_0 ∷ variables_1 ∷ variables_2 ∷ variables_3 ∷ variables_4 ∷ variables_5
        ∷ variables_6 ∷ [])
    ∷ (typedefs_0 ∷ [])
    ∷ (defines_0 ∷ defines_1 ∷ defines_2 ∷ defines_3 ∷ [])
    ∷ (pages_0 ∷ pages_1 ∷ [])
    ∷ []
