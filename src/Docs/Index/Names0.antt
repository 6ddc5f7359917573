-- ===== src/Docs/Index/Names0.antt =====
-- Projekt_Systementwicklung/html/search: the pages of all names, the first eight.
use fhmuenster.Base.{List, [], ◌∷◌}
use fhmuenster.Docs.{Entry, entry, link}

abbrev pub all_0 : List Entry
all_0 =
    entry "authentication_5fhandeling_2ec" "authentication_handeling.c"
      (link "../authentication__handeling_8c.html" "" ∷ [])
    ∷ entry "authentication_5fhandeling_2eh" "authentication_handeling.h"
        (link "../authentication__handeling_8h.html" "" ∷ [])
    ∷ []

abbrev pub all_1 : List Entry
all_1 =
    entry "b_5fp_5fausgabe" "B_P_ausgabe" (
      link "../authentication__handeling_8c.html#a885612a1012fc26c6bcc2d3acae7df66"
        "B_P_ausgabe(char *B_P):&#160;authentication_handeling.c"
      ∷ link "../authentication__handeling_8h.html#a885612a1012fc26c6bcc2d3acae7df66"
          "B_P_ausgabe(char *B_P):&#160;authentication_handeling.c"
      ∷ [])
    ∷ entry "base64_2ec" "base64.c" (link "../base64_8c.html" "" ∷ [])
    ∷ entry "base64_2eh" "base64.h" (link "../base64_8h.html" "" ∷ [])
    ∷ entry "base64_5fcleanup" "base64_cleanup" (
        link "../base64_8c.html#a24c1b02f2e403468ce12faa8374877c1" "base64_cleanup():&#160;base64.c"
        ∷ link "../base64_8h.html#a24c1b02f2e403468ce12faa8374877c1"
            "base64_cleanup():&#160;base64.c"
        ∷ [])
    ∷ entry "base64_5fdecode" "base64_decode" (
        link "../base64_8c.html#a093de76493e254154a5ccee90672244b"
          "base64_decode(const char *data, size_t input_length, size_t *output_length):&#160;base64.c"
        ∷ link "../base64_8h.html#a093de76493e254154a5ccee90672244b"
            "base64_decode(const char *data, size_t input_length, size_t *output_length):&#160;base64.c"
        ∷ [])
    ∷ entry "base64_5fencode" "base64_encode" (
        link "../base64_8c.html#aab78ff2ac8c7390cd6755ce3a55eaa21"
          "base64_encode(const unsigned char *data, size_t input_length, size_t *output_length):&#160;base64.c"
        ∷ link "../base64_8h.html#aab78ff2ac8c7390cd6755ce3a55eaa21"
            "base64_encode(const unsigned char *data, size_t input_length, size_t *output_length):&#160;base64.c"
        ∷ [])
    ∷ entry "buffer_5fsize" "BUFFER_SIZE"
        (link "../echo__server_8c.html#a6b20d41d6252e9871430c242cb1a56e7" "echo_server.c" ∷ [])
    ∷ entry "build_5fdecoding_5ftable1" "build_decoding_table1" (
        link "../base64_8c.html#afc1c382e496a1949a4bf13fe1cadbea7"
          "build_decoding_table1():&#160;base64.c"
        ∷ link "../base64_8h.html#afc1c382e496a1949a4bf13fe1cadbea7"
            "build_decoding_table1():&#160;base64.c"
        ∷ [])
    ∷ []

abbrev pub all_2 : List Entry
all_2 =
    entry "cannon" "cannon"
      (link "../namespacetest.html#aea2c5b406fd55ca008f933b31d7e1b79" "test" ∷ [])
    ∷ entry "cpy_5fstr" "cpy_str" (
        link "../httplib_8c.html#a531528eaa7276490632a44a0358a57db"
          "cpy_str(const char *src, size_t len):&#160;httplib.c"
        ∷ link "../httplib_8h.html#a531528eaa7276490632a44a0358a57db"
            "cpy_str(const char *src, size_t len):&#160;httplib.c"
        ∷ [])
    ∷ []

abbrev pub all_3 : List Entry
all_3 =
    entry "description" "description"
      (link "../namespacetest.html#a1c2a3a63faa9854257983fbb3de9e11d" "test" ∷ [])
    ∷ []

abbrev pub all_4 : List Entry
all_4 =
    entry "echo_5fserver_2ec" "echo_server.c" (link "../echo__server_8c.html" "" ∷ [])
    ∷ entry "entschlusseln" "entschlusseln" (
        link "../base64_8c.html#a5bca649c89fe292ba02ba4acc970bd6b"
          "entschlusseln(unsigned char *data, size_t *out_len):&#160;base64.c"
        ∷ link "../base64_8h.html#a5bca649c89fe292ba02ba4acc970bd6b"
            "entschlusseln(unsigned char *data, size_t *out_len):&#160;base64.c"
        ∷ [])
    ∷ entry "error_5fhandeling_2ec" "error_handeling.c" (link "../error__handeling_8c.html" "" ∷ [])
    ∷ entry "error_5fhandeling_2eh" "error_handeling.h" (link "../error__handeling_8h.html" "" ∷ [])
    ∷ []

abbrev pub all_5 : List Entry
all_5 =
    entry "file_5fhandeling_2ec" "file_handeling.c" (link "../file__handeling_8c.html" "" ∷ [])
    ∷ entry "file_5fhandeling_2eh" "file_handeling.h" (link "../file__handeling_8h.html" "" ∷ [])
    ∷ entry "filetobody" "fileTobody" (
        link "../file__handeling_8c.html#a22b3b243a361e1bf2c6cac7a8f256cad"
          "fileTobody(char *fname):&#160;file_handeling.c"
        ∷ link "../file__handeling_8h.html#a22b3b243a361e1bf2c6cac7a8f256cad"
            "fileTobody(char *fname):&#160;file_handeling.c"
        ∷ [])
    ∷ entry "free_5fstr" "free_str" (
        link "../httplib_8c.html#ae988132fd8cdb8fc75ef5a2c639e41dc"
          "free_str(string *str):&#160;httplib.c"
        ∷ link "../httplib_8h.html#ae988132fd8cdb8fc75ef5a2c639e41dc"
            "free_str(string *str):&#160;httplib.c"
        ∷ [])
    ∷ []

abbrev pub all_6 : List Entry
all_6 =
    entry "get_5fchar_5fstr" "get_char_str" (
      link "../httplib_8c.html#a5f7ca8bf8a55e587615357e574e94832"
        "get_char_str(string *str):&#160;httplib.c"
      ∷ link "../httplib_8h.html#a5f7ca8bf8a55e587615357e574e94832"
          "get_char_str(string *str):&#160;httplib.c"
      ∷ [])
    ∷ entry "get_5fhost" "get_host" (
        link "../request__handeling_8c.html#a4a98bdd9a460251dfc882614e29b6b67"
          "get_host(string *request):&#160;request_handeling.c"
        ∷ link "../request__handeling_8h.html#a4a98bdd9a460251dfc882614e29b6b67"
            "get_host(string *request):&#160;request_handeling.c"
        ∷ [])
    ∷ entry "get_5flength" "get_length" (
        link "../httplib_8c.html#a6d71a368e3ca5be66f239b6daae663e1"
          "get_length(string *str):&#160;httplib.c"
        ∷ link "../httplib_8h.html#a6d71a368e3ca5be66f239b6daae663e1"
            "get_length(string *str):&#160;httplib.c"
        ∷ [])
    ∷ entry "get_5fpart" "get_part" (
        link "../request__handeling_8c.html#a961f6a72b9c281b956da86e235b00877"
          "get_part(string *str, size_t start_position):&#160;request_handeling.c"
        ∷ link "../request__handeling_8h.html#a961f6a72b9c281b956da86e235b00877"
            "get_part(string *str, size_t start_position):&#160;request_handeling.c"
        ∷ [])
    ∷ entry "get_5fstatus_5fcode" "get_status_code" (
        link "../error__handeling_8c.html#a492816d15debeb8a19075d9293c5431d"
          "get_status_code(char *ress, char *meth, char *host, char *protocol, char *DOC_ROOT_INTERN, char *DOC_ROOT_EXTERN, char *DOC_ROOT_DEFAULT, char *startDir, char *dateipfad):&#160;error_handeling.c"
        ∷ link "../error__handeling_8h.html#a492816d15debeb8a19075d9293c5431d"
            "get_status_code(char *ress, char *meth, char *host, char *protocol, char *DOC_ROOT_INTERN, char *DOC_ROOT_EXTERN, char *DOC_ROOT_DEFAULT, char *startDir, char *dateipfad):&#160;error_handeling.c"
        ∷ [])
    ∷ entry "getpw" "getPw" (
        link "../authentication__handeling_8c.html#acfdd409b55aecc6573d2f7eeff437259"
          "getPw(char *data):&#160;authentication_handeling.c"
        ∷ link "../authentication__handeling_8h.html#acfdd409b55aecc6573d2f7eeff437259"
            "getPw(char *data):&#160;authentication_handeling.c"
        ∷ [])
    ∷ entry "getrequestauthorization" "getRequestAuthorization" (
        link "../authentication__handeling_8c.html#a35dd1f4950b2a11d98cb0913dd33b89e"
          "getRequestAuthorization(const string *request):&#160;authentication_handeling.c"
        ∷ link "../authentication__handeling_8h.html#a35dd1f4950b2a11d98cb0913dd33b89e"
            "getRequestAuthorization(const string *request):&#160;authentication_handeling.c"
        ∷ [])
    ∷ []

abbrev pub all_7 : List Entry
all_7 =
    entry "hexreplace" "hexReplace" (
      link "../httplib_8c.html#abe7cb398e2d9a71315fcf9e2b3a7319b"
        "hexReplace(string *src):&#160;httplib.c"
      ∷ link "../httplib_8h.html#abe7cb398e2d9a71315fcf9e2b3a7319b"
          "hexReplace(string *src):&#160;httplib.c"
      ∷ [])
    ∷ entry "hextoascii" "hexToAscii"
        (link "../httplib_8c.html#a1aa581fa3868d282a0681b341d9a2aa5" "httplib.c" ∷ [])
    ∷ entry "hextoint" "hexToInt"
        (link "../httplib_8c.html#ab64ca52a775a7e810f8e594b235c4c76" "httplib.c" ∷ [])
    ∷ entry "host" "host"
        (link "../namespacetest.html#a710c77c79d209ca30844f425e2a6da9c" "test" ∷ [])
    ∷ entry "httplib_2ec" "httplib.c" (link "../httplib_8c.html" "" ∷ [])
    ∷ entry "httplib_2eh" "httplib.h" (link "../httplib_8h.html" "" ∷ [])
    ∷ []
