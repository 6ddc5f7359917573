-- ===== src/Docs/Index/Others.antt =====
-- Projekt_Systementwicklung/html/search: the pages of variables and macros.
use fhmuenster.Base.{List, [], ◌∷◌}
use fhmuenster.Docs.{Entry, entry, link}

abbrev pub variables_0 : List Entry
variables_0 =
    entry "cannon" "cannon"
      (link "../namespacetest.html#aea2c5b406fd55ca008f933b31d7e1b79" "test" ∷ [])
    ∷ []

abbrev pub variables_1 : List Entry
variables_1 =
    entry "description" "description"
      (link "../namespacetest.html#a1c2a3a63faa9854257983fbb3de9e11d" "test" ∷ [])
    ∷ []

abbrev pub variables_2 : List Entry
variables_2 =
    entry "host" "host" (link "../namespacetest.html#a710c77c79d209ca30844f425e2a6da9c" "test" ∷ [])
    ∷ []

abbrev pub variables_3 : List Entry
variables_3 =
    entry "len" "len" (link "../structstring.html#aa6bcf0353fd5cf2f374a9b1dd0e4a73a" "string" ∷ [])
    ∷ []

abbrev pub variables_4 : List Entry
variables_4 =
    entry "port" "port" (link "../namespacetest.html#a2880a99db732f3bb2fe666a71b11dd22" "test" ∷ [])
    ∷ entry "pos" "pos"
        (link "../structstring.html#ad4825919cd4ed84341ebbf45d5f2a570" "string" ∷ [])
    ∷ []

abbrev pub variables_5 : List Entry
variables_5 =
    entry "request" "request"
      (link "../namespacetest.html#a703669935ef02c5fb867b192d3022cbd" "test" ∷ [])
    ∷ entry "response" "response"
        (link "../namespacetest.html#a98a0304b79197483bccc095b6b49d773" "test" ∷ [])
    ∷ []

abbrev pub variables_6 : List Entry
variables_6 =
    entry "str" "str" (link "../structstring.html#a29a7f93a22a1825df1f0586581c02278" "string" ∷ [])
    ∷ []

abbrev pub defines_0 : List Entry
defines_0 =
    entry "buffer_5fsize" "BUFFER_SIZE"
      (link "../echo__server_8c.html#a6b20d41d6252e9871430c242cb1a56e7" "echo_server.c" ∷ [])
    ∷ []

abbrev pub defines_1 : List Entry
defines_1 =
    entry "init_5fsize" "INIT_SIZE" (
      link "../echo__server_8c.html#a7ab9c9406d6e8432e3786bd89ec79695"
        "INIT_SIZE():&#160;echo_server.c"
      ∷ link "../httplib_8h.html#a7ab9c9406d6e8432e3786bd89ec79695" "INIT_SIZE():&#160;httplib.h"
      ∷ [])
    ∷ []

abbrev pub defines_2 : List Entry
defines_2 =
    entry "leeres_5fbody" "LEERES_BODY" (
      link "../echo__server_8c.html#acf2e0a95b22a22cc5d7a3234c164a884"
        "LEERES_BODY():&#160;echo_server.c"
      ∷ link "../httplib_8h.html#acf2e0a95b22a22cc5d7a3234c164a884" "LEERES_BODY():&#160;httplib.h"
      ∷ [])
    ∷ []

abbrev pub defines_3 : List Entry
defines_3 =
    entry "port" "PORT"
      (link "../echo__server_8c.html#a614217d263be1fb1a5f76e2ff7be19a2" "echo_server.c" ∷ [])
    ∷ []
