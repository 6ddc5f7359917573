-- ===== src/Docs/Index/Files.antt =====
-- Projekt_Systementwicklung/html/search: the pages of classes, namespaces, files, documents and type definitions.
use fhmuenster.Base.{List, [], ◌∷◌}
use fhmuenster.Docs.{Entry, entry, link}

abbrev pub classes_0 : List Entry
classes_0 = entry "string" "string" (link "../structstring.html" "" ∷ []) ∷ []

abbrev pub namespaces_0 : List Entry
namespaces_0 = entry "test" "test" (link "../namespacetest.html" "" ∷ []) ∷ []

abbrev pub files_0 : List Entry
files_0 =
    entry "authentication_5fhandeling_2ec" "authentication_handeling.c"
      (link "../authentication__handeling_8c.html" "" ∷ [])
    ∷ entry "authentication_5fhandeling_2eh" "authentication_handeling.h"
        (link "../authentication__handeling_8h.html" "" ∷ [])
    ∷ []

abbrev pub files_1 : List Entry
files_1 =
    entry "base64_2ec" "base64.c" (link "../base64_8c.html" "" ∷ [])
    ∷ entry "base64_2eh" "base64.h" (link "../base64_8h.html" "" ∷ [])
    ∷ []

abbrev pub files_2 : List Entry
files_2 =
    entry "echo_5fserver_2ec" "echo_server.c" (link "../echo__server_8c.html" "" ∷ [])
    ∷ entry "error_5fhandeling_2ec" "error_handeling.c" (link "../error__handeling_8c.html" "" ∷ [])
    ∷ entry "error_5fhandeling_2eh" "error_handeling.h" (link "../error__handeling_8h.html" "" ∷ [])
    ∷ []

abbrev pub files_3 : List Entry
files_3 =
    entry "file_5fhandeling_2ec" "file_handeling.c" (link "../file__handeling_8c.html" "" ∷ [])
    ∷ entry "file_5fhandeling_2eh" "file_handeling.h" (link "../file__handeling_8h.html" "" ∷ [])
    ∷ []

abbrev pub files_4 : List Entry
files_4 =
    entry "httplib_2ec" "httplib.c" (link "../httplib_8c.html" "" ∷ [])
    ∷ entry "httplib_2eh" "httplib.h" (link "../httplib_8h.html" "" ∷ [])
    ∷ []

abbrev pub files_5 : List Entry
files_5 =
    entry "readme_2emd" "README.md" (link "../README_8md.html" "" ∷ [])
    ∷ entry "request_5fhandeling_2ec" "request_handeling.c"
        (link "../request__handeling_8c.html" "" ∷ [])
    ∷ entry "request_5fhandeling_2eh" "request_handeling.h"
        (link "../request__handeling_8h.html" "" ∷ [])
    ∷ []

abbrev pub files_6 : List Entry
files_6 = entry "test_2epy" "test.py" (link "../test_8py.html" "" ∷ []) ∷ []

abbrev pub pages_0 : List Entry
pages_0 = entry "pse_201_20pg_2004" "PSE 1 pg 04" (link "../index.html" "" ∷ []) ∷ []

abbrev pub pages_1 : List Entry
pages_1 = entry "readme" "README" (link "../md_README.html" "" ∷ []) ∷ []

abbrev pub typedefs_0 : List Entry
typedefs_0 =
    entry "string" "string"
      (link "../httplib_8h.html#a63e2e3ee7db5274c6a3929edfc07c6c9" "httplib.h" ∷ [])
    ∷ []
