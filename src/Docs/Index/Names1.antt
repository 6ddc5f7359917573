-- ===== src/Docs/Index/Names1.antt =====
-- Projekt_Systementwicklung/html/search: the other pages of all names.
use fhmuenster.Base.{List, [], ◌∷◌}
use fhmuenster.Docs.{Entry, entry, link}

abbrev pub all_8 : List Entry
all_8 =
    entry "init_5fsize" "INIT_SIZE" (
      link "../echo__server_8c.html#a7ab9c9406d6e8432e3786bd89ec79695"
        "INIT_SIZE():&#160;echo_server.c"
      ∷ link "../httplib_8h.html#a7ab9c9406d6e8432e3786bd89ec79695" "INIT_SIZE():&#160;httplib.h"
      ∷ [])
    ∷ []

abbrev pub all_9 : List Entry
all_9 =
    entry "leeres_5fbody" "LEERES_BODY" (
      link "../echo__server_8c.html#acf2e0a95b22a22cc5d7a3234c164a884"
        "LEERES_BODY():&#160;echo_server.c"
      ∷ link "../httplib_8h.html#acf2e0a95b22a22cc5d7a3234c164a884" "LEERES_BODY():&#160;httplib.h"
      ∷ [])
    ∷ entry "len" "len"
        (link "../structstring.html#aa6bcf0353fd5cf2f374a9b1dd0e4a73a" "string" ∷ [])
    ∷ entry "lower" "lower" (
        link "../httplib_8c.html#a5e7ea27a6572f41f35039e01d074f6e8"
          "lower(string *src):&#160;httplib.c"
        ∷ link "../httplib_8h.html#a5e7ea27a6572f41f35039e01d074f6e8"
            "lower(string *src):&#160;httplib.c"
        ∷ [])
    ∷ []

abbrev pub all_a : List Entry
all_a =
    entry "main" "main"
      (link "../echo__server_8c.html#a0ddf1224851353fc92bfbff6f499fa97" "echo_server.c" ∷ [])
    ∷ []

abbrev pub all_b : List Entry
all_b =
    entry "new_5fstring" "new_string" (
      link "../httplib_8c.html#a14adbd968c785a8f0782fa5071136b06"
        "new_string(size_t len):&#160;httplib.c"
      ∷ link "../httplib_8h.html#a1ecfda510e0a45c83785fa3a377e0353"
          "new_string(size_t):&#160;httplib.c"
      ∷ [])
    ∷ []

abbrev pub all_c : List Entry
all_c =
    entry "pse_201_20pg_2004" "PSE 1 pg 04" (link "../index.html" "" ∷ [])
    ∷ entry "port" "PORT" (
        link "../echo__server_8c.html#a614217d263be1fb1a5f76e2ff7be19a2"
          "PORT():&#160;echo_server.c"
        ∷ link "../namespacetest.html#a2880a99db732f3bb2fe666a71b11dd22" "test.port()"
        ∷ [])
    ∷ entry "pos" "pos"
        (link "../structstring.html#ad4825919cd4ed84341ebbf45d5f2a570" "string" ∷ [])
    ∷ entry "process" "process"
        (link "../echo__server_8c.html#aacebf039d8ecd2b99a9e64453266b7f3" "echo_server.c" ∷ [])
    ∷ entry "pswd_5fvergleich" "pswd_vergleich" (
        link "../authentication__handeling_8c.html#ae2880532892f5976a6475dbd323e2f82"
          "pswd_vergleich(char *passwort, char *dateipfad):&#160;authentication_handeling.c"
        ∷ link "../authentication__handeling_8h.html#ae2880532892f5976a6475dbd323e2f82"
            "pswd_vergleich(char *passwort, char *dateipfad):&#160;authentication_handeling.c"
        ∷ [])
    ∷ []

abbrev pub all_d : List Entry
all_d =
    entry "readme" "README" (link "../md_README.html" "" ∷ [])
    ∷ entry "readme_2emd" "README.md" (link "../README_8md.html" "" ∷ [])
    ∷ entry "request" "request"
        (link "../namespacetest.html#a703669935ef02c5fb867b192d3022cbd" "test" ∷ [])
    ∷ entry "request_5fhandeling_2ec" "request_handeling.c"
        (link "../request__handeling_8c.html" "" ∷ [])
    ∷ entry "request_5fhandeling_2eh" "request_handeling.h"
        (link "../request__handeling_8h.html" "" ∷ [])
    ∷ entry "response" "response"
        (link "../namespacetest.html#a98a0304b79197483bccc095b6b49d773" "test" ∷ [])
    ∷ []

abbrev pub all_e : List Entry
all_e =
    entry "schickmachen" "schickmachen" (
      link "../base64_8c.html#af1d9f96b9abf2571944713312f9bf008"
        "schickmachen(unsigned char *data, size_t *out_len):&#160;base64.c"
      ∷ link "../base64_8h.html#af1d9f96b9abf2571944713312f9bf008"
          "schickmachen(unsigned char *data, size_t *out_len):&#160;base64.c"
      ∷ [])
    ∷ entry "statcode_5fto_5fstring" "statcode_to_string" (
        link "../error__handeling_8c.html#ad58059b26bb00c6d44cf00587531d35c"
          "statcode_to_string(string *erstelinie, string *cntlen, string *body, const char *char_const):&#160;error_handeling.c"
        ∷ link "../error__handeling_8h.html#ad58059b26bb00c6d44cf00587531d35c"
            "statcode_to_string(string *erstelinie, string *cntlen, string *body, const char *char_const):&#160;error_handeling.c"
        ∷ [])
    ∷ entry "str" "str"
        (link "../structstring.html#a29a7f93a22a1825df1f0586581c02278" "string" ∷ [])
    ∷ entry "str_5fcat" "str_cat" (
        link "../httplib_8c.html#afcca4cee18a312639416055cd773b430"
          "str_cat(string *dest, const char *src, size_t len):&#160;httplib.c"
        ∷ link "../httplib_8h.html#afcca4cee18a312639416055cd773b430"
            "str_cat(string *dest, const char *src, size_t len):&#160;httplib.c"
        ∷ [])
    ∷ entry "string" "string" (
        link "../structstring.html" "string"
        ∷ link "../httplib_8h.html#a63e2e3ee7db5274c6a3929edfc07c6c9" "string():&#160;httplib.h"
        ∷ [])
    ∷ []

abbrev pub all_f : List Entry
all_f =
    entry "test" "test" (link "../namespacetest.html" "" ∷ [])
    ∷ entry "test_2epy" "test.py" (link "../test_8py.html" "" ∷ [])
    ∷ []

abbrev pub all_10 : List Entry
all_10 =
    entry "verschlusseln" "verschlusseln" (
      link "../base64_8c.html#ae85c0b851d54f6788920a974a77642df"
        "verschlusseln(unsigned char *data, size_t *out_len):&#160;base64.c"
      ∷ link "../base64_8h.html#ae85c0b851d54f6788920a974a77642df"
          "verschlusseln(unsigned char *data, size_t *out_len):&#160;base64.c"
      ∷ [])
    ∷ []
