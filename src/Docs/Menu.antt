-- ===== src/Docs/Menu.antt =====
-- Projekt_Systementwicklung/html/menudata.js: the menu of the documentation.
use Prim.Native.String.{String}

-- An item has a text, an address and the items below it.
mutual
  pub data Item : Type 0 where
    item : String → String → Items → Item

  pub data Items : Type 0 where
    end : Items
    ◌∷∷◌ : Item → Items → Items

infixr 40 ◌∷∷◌
-- The children of "All" and "Functions" under "File Members".
abbrev pub file_members_all : Items
file_members_all =
    item "b" "globals.html#index_b" end
    ∷∷ item "c" "globals.html#index_c" end
    ∷∷ item "e" "globals.html#index_e" end
    ∷∷ item "f" "globals.html#index_f" end
    ∷∷ item "g" "globals.html#index_g" end
    ∷∷ item "h" "globals.html#index_h" end
    ∷∷ item "i" "globals.html#index_i" end
    ∷∷ item "l" "globals.html#index_l" end
    ∷∷ item "m" "globals.html#index_m" end
    ∷∷ item "n" "globals.html#index_n" end
    ∷∷ item "p" "globals.html#index_p" end
    ∷∷ item "s" "globals.html#index_s" end
    ∷∷ item "v" "globals.html#index_v" end
    ∷∷ end

abbrev pub file_members_functions : Items
file_members_functions =
    item "b" "globals_func.html#index_b" end
    ∷∷ item "c" "globals_func.html#index_c" end
    ∷∷ item "e" "globals_func.html#index_e" end
    ∷∷ item "f" "globals_func.html#index_f" end
    ∷∷ item "g" "globals_func.html#index_g" end
    ∷∷ item "h" "globals_func.html#index_h" end
    ∷∷ item "l" "globals_func.html#index_l" end
    ∷∷ item "m" "globals_func.html#index_m" end
    ∷∷ item "n" "globals_func.html#index_n" end
    ∷∷ item "p" "globals_func.html#index_p" end
    ∷∷ item "s" "globals_func.html#index_s" end
    ∷∷ item "v" "globals_func.html#index_v" end
    ∷∷ end

abbrev pub menudata : Items
menudata =
    item "Main Page" "index.html" end
    ∷∷ item "Related Pages" "pages.html" end
    ∷∷ item "Namespaces" "namespaces.html" (
        item "Namespace List" "namespaces.html" end
        ∷∷ item "Namespace Members" "namespacemembers.html" (
            item "All" "namespacemembers.html" end
            ∷∷ item "Variables" "namespacemembers_vars.html" end
            ∷∷ end)
        ∷∷ end)
    ∷∷ item "Classes" "annotated.html" (
        item "Class List" "annotated.html" end
        ∷∷ item "Class Index" "classes.html" end
        ∷∷ item "Class Members" "functions.html"
            (item "All" "functions.html" end ∷∷ item "Variables" "functions_vars.html" end ∷∷ end)
        ∷∷ end)
    ∷∷ item "Files" "files.html" (
        item "File List" "files.html" end
        ∷∷ item "File Members" "globals.html" (
            item "All" "globals.html" file_members_all
            ∷∷ item "Functions" "globals_func.html" file_members_functions
            ∷∷ item "Typedefs" "globals_type.html" end
            ∷∷ item "Macros" "globals_defs.html" end
            ∷∷ end)
        ∷∷ end)
    ∷∷ end
