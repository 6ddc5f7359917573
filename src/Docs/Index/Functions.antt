-- ===== src/Docs/Index/Functions.antt =====
-- Projekt_Systementwicklung/html/search: the pages of functions.
use fhmuenster.Base.{List, [], ◌∷◌}
use fhmuenster.Docs.{Entry, entry, link}

abbrev pub functions_0 : List Entry
functions_0 =
    entry "b_5fp_5fausgabe" "B_P_ausgabe" (
      link "../authentication__handeling_8c.html#a885612a1012fc26c6bcc2d3acae7df66"
        "B_P_ausgabe(char *B_P):&#160;authentication_handeling.c"
      ∷ link "../authentication__handeling_8h.html#a885612a1012fc26c6bcc2d3acae7df66"
          "B_P_ausgabe(char *B_P):&#160;authentication_handeling.c"
      ∷ [])
    ∷ entry "base64_5fcleanup" "base64_cleanup" (
        link "../base64_8c.html#a24c1b02f2e403468ce12faa8374877c1" "base64_cleanup():&#160;base64.c"
        ∷ link "../base64_8h.html#a24c1b02f2e403468ce12faa8374877c1"
            "base64_cleanup():&#160;base64.c"
        ∷ [])
    ∷ entry "base64_5fdecode" "base64_decode" (
        link "../base64_8c.html#a093de76493e254154a5ccee90672244b"
          "base64_decode(const char *data, size_t input_length, size_t *output_length):&#160;base64.c"
        ∷ link "../base64_8h.html#a093de76493e254154a5ccee90672244b"
            "base64_decode(const char *data, size_t input_length, size_t *output_length):&#160;base64.c"
        ∷ [])
    ∷ entry "base64_5fencode" "base64_encode" (
        link "../base64_8c.html#aab78ff2ac8c7390cd6755ce3a55eaa21"
          "base64_encode(const unsigned char *data, size_t input_length, size_t *output_length):&#160;base64.c"
        ∷ link "../base64_8h.html#aab78ff2ac8c7390cd6755ce3a55eaa21"
            "base64_encode(const unsigned char *data, size_t input_length, size_t *output_length):&#160;base64.c"
        ∷ [])
    ∷ entry "build_5fdecoding_5ftable1" "build_decoding_table1" (
        link "../base64_8c.html#afc1c382e496a1949a4bf13fe1cadbea7"
          "build_decoding_table1():&#160;base64.c"
        ∷ link "../base64_8h.html#afc1c382e496a1949a4bf13fe1cadbea7"
            "build_decoding_table1():&#160;base64.c"
        ∷ [])
    ∷ []

abbrev pub functions_1 : List Entry
functions_1 =
    entry "cpy_5fstr" "cpy_str" (
      link "../httplib_8c.html#a531528eaa7276490632a44a0358a57db"
        "cpy_str(const char *src, size_t len):&#160;httplib.c"
      ∷ link "../httplib_8h.html#a531528eaa7276490632a44a0358a57db"
          "cpy_str(const char *src, size_t len):&#160;httplib.c"
      ∷ [])
    ∷ []

abbrev pub functions_2 : List Entry
functions_2 =
    entry "entschlusseln" "entschlusseln" (
      link "../base64_8c.html#a5bca649c89fe292ba02ba4acc970bd6b"
        "entschlusseln(unsigned char *data, size_t *out_len):&#160;base64.c"
      ∷ link "../base64_8h.html#a5bca649c89fe292ba02ba4acc970bd6b"
          "entschlusseln(unsigned char *data, size_t *out_len):&#160;base64.c"
      ∷ [])
    ∷ []

abbrev pub functions_3 : List Entry
functions_3 =
    entry "filetobody" "fileTobody" (
      link "../file__handeling_8c.html#a22b3b243a361e1bf2c6cac7a8f256cad"
        "fileTobody(char *fname):&#160;file_handeling.c"
      ∷ link "../file__handeling_8h.html#a22b3b243a361e1bf2c6cac7a8f256cad"
          "fileTobody(char *fname):&#160;file_handeling.c"
      ∷ [])
    ∷ entry "free_5fstr" "free_str" (
        link "../httplib_8c.html#ae988132fd8cdb8fc75ef5a2c639e41dc"
          "free_str(string *str):&#160;httplib.c"
        ∷ link "../httplib_8h.html#ae988132fd8cdb8fc75ef5a2c639e41dc"
            "free_str(string *str):&#160;httplib.c"
        ∷ [])
    ∷ []

abbrev pub functions_4 : List Entry
functions_4 =
    entry "get_5fchar_5fstr" "get_char_str" (
      link "../httplib_8c.html#a5f7ca8bf8a55e587615357e574e94832"
        "get_char_str(string *str):&#160;httplib.c"
      ∷ link "../httplib_8h.html#a5f7ca8bf8a55e587615357e574e94832"
          "get_char_str(string *str):&#160;httplib.c"
      ∷ [])
    ∷ entry "get_5fhost" "get_host" (
        link "../request__handeling_8c.html#a4a98bdd9a460251dfc882614e29b6b67"
          "get_host(string *request):&#160;request_handeling.c"
        ∷ link "../request__handeling_8h.html#a4a98bdd9a460251dfc882614e29b6b67"
            "get_host(string *request):&#160;request_handeling.c"
        ∷ [])
    ∷ entry "get_5flength" "get_length" (
        link "../httplib_8c.html#a6d71a368e3ca5be66f239b6daae663e1"
          "get_length(string *str):&#160;httplib.c"
        ∷ link "../httplib_8h.html#a6d71a368e3ca5be66f239b6daae663e1"
            "get_length(string *str):&#160;httplib.c"
        ∷ [])
    ∷ entry "get_5fpart" "get_part" (
        link "../request__handeling_8c.html#a961f6a72b9c281b956da86e235b00877"
          "get_part(string *str, size_t start_position):&#160;request_handeling.c"
        ∷ link "../request__handeling_8h.html#a961f6a72b9c281b956da86e235b00877"
            "get_part(string *str, size_t start_position):&#160;request_handeling.c"
        ∷ [])
    ∷ entry "get_5fstatus_5fcode" "get_status_code" (
        link "../error__handeling_8c.html#a492816d15debeb8a19075d9293c5431d"
          "get_status_code(char *ress, char *meth, char *host, char *protocol, char *DOC_ROOT_INTERN, char *DOC_ROOT_EXTERN, char *DOC_ROOT_DEFAULT, char *startDir, char *dateipfad):&#160;error_handeling.c"
        ∷ link "../error__handeling_8h.html#a492816d15debeb8a19075d9293c5431d"
            "get_status_code(char *ress, char *meth, char *host, char *protocol, char *DOC_ROOT_INTERN, char *DOC_ROOT_EXTERN, char *DOC_ROOT_DEFAULT, char *startDir, char *dateipfad):&#160;error_handeling.c"
        ∷ [])
    ∷ entry "getpw" "getPw" (
        link "../authentication__handeling_8c.html#acfdd409b55aecc6573d2f7eeff437259"
          "getPw(char *data):&#160;authentication_handeling.c"
        ∷ link "../authentication__handeling_8h.html#acfdd409b55aecc6573d2f7eeff437259"
            "getPw(char *data):&#160;authentication_handeling.c"
        ∷ [])
    ∷ entry "getrequestauthorization" "getRequestAuthorization" (
        link "../authentication__handeling_8c.html#a35dd1f4950b2a11d98cb0913dd33b89e"
          "getRequestAuthorization(const string *request):&#160;authentication_handeling.c"
        ∷ link "../authentication__handeling_8h.html#a35dd1f4950b2a11d98cb0913dd33b89e"
            "getRequestAuthorization(const string *request):&#160;authentication_handeling.c"
        ∷ [])
    ∷ []

abbrev pub functions_5 : List Entry
functions_5 =
    entry "hexreplace" "hexReplace" (
      link "../httplib_8c.html#abe7cb398e2d9a71315fcf9e2b3a7319b"
        "hexReplace(string *src):&#160;httplib.c"
      ∷ link "../httplib_8h.html#abe7cb398e2d9a71315fcf9e2b3a7319b"
          "hexReplace(string *src):&#160;httplib.c"
      ∷ [])
    ∷ entry "hextoascii" "hexToAscii"
        (link "../httplib_8c.html#a1aa581fa3868d282a0681b341d9a2aa5" "httplib.c" ∷ [])
    ∷ entry "hextoint" "hexToInt"
        (link "../httplib_8c.html#ab64ca52a775a7e810f8e594b235c4c76" "httplib.c" ∷ [])
    ∷ []

abbrev pub functions_6 : List Entry
functions_6 =
    entry "lower" "lower" (
      link "../httplib_8c.html#a5e7ea27a6572f41f35039e01d074f6e8"
        "lower(string *src):&#160;httplib.c"
      ∷ link "../httplib_8h.html#a5e7ea27a6572f41f35039e01d074f6e8"
          "lower(string *src):&#160;httplib.c"
      ∷ [])
    ∷ []

abbrev pub functions_7 : List Entry
functions_7 =
    entry "main" "main"
      (link "../echo__server_8c.html#a0ddf1224851353fc92bfbff6f499fa97" "echo_server.c" ∷ [])
    ∷ []

abbrev pub functions_8 : List Entry
functions_8 =
    entry "new_5fstring" "new_string" (
      link "../httplib_8c.html#a14adbd968c785a8f0782fa5071136b06"
        "new_string(size_t len):&#160;httplib.c"
      ∷ link "../httplib_8h.html#a1ecfda510e0a45c83785fa3a377e0353"
          "new_string(size_t):&#160;httplib.c"
      ∷ [])
    ∷ []

abbrev pub functions_9 : List Entry
functions_9 =
    entry "process" "process"
      (link "../echo__server_8c.html#aacebf039d8ecd2b99a9e64453266b7f3" "echo_server.c" ∷ [])
    ∷ entry "pswd_5fvergleich" "pswd_vergleich" (
        link "../authentication__handeling_8c.html#ae2880532892f5976a6475dbd323e2f82"
          "pswd_vergleich(char *passwort, char *dateipfad):&#160;authentication_handeling.c"
        ∷ link "../authentication__handeling_8h.html#ae2880532892f5976a6475dbd323e2f82"
            "pswd_vergleich(char *passwort, char *dateipfad):&#160;authentication_handeling.c"
        ∷ [])
    ∷ []

abbrev pub functions_a : List Entry
functions_a =
    entry "schickmachen" "schickmachen" (
      link "../base64_8c.html#af1d9f96b9abf2571944713312f9bf008"
        "schickmachen(unsigned char *data, size_t *out_len):&#160;base64.c"
      ∷ link "../base64_8h.html#af1d9f96b9abf2571944713312f9bf008"
          "schickmachen(unsigned char *data, size_t *out_len):&#160;base64.c"
      ∷ [])
    ∷ entry "statcode_5fto_5fstring" "statcode_to_string" (
        link "../error__handeling_8c.html#ad58059b26bb00c6d44cf00587531d35c"
          "statcode_to_string(string *erstelinie, string *cntlen, string *body, const char *char_const):&#160;error_handeling.c"
        ∷ link "../error__handeling_8h.html#ad58059b26bb00c6d44cf00587531d35c"
            "statcode_to_string(string *erstelinie, string *cntlen, string *body, const char *char_const):&#160;error_handeling.c"
        ∷ [])
    ∷ entry "str_5fcat" "str_cat" (
        link "../httplib_8c.html#afcca4cee18a312639416055cd773b430"
          "str_cat(string *dest, const char *src, size_t len):&#160;httplib.c"
        ∷ link "../httplib_8h.html#afcca4cee18a312639416055cd773b430"
            "str_cat(string *dest, const char *src, size_t len):&#160;httplib.c"
        ∷ [])
    ∷ []

abbrev pub functions_b : List Entry
functions_b =
    entry "verschlusseln" "verschlusseln" (
      link "../base64_8c.html#ae85c0b851d54f6788920a974a77642df"
        "verschlusseln(unsigned char *data, size_t *out_len):&#160;base64.c"
      ∷ link "../base64_8h.html#ae85c0b851d54f6788920a974a77642df"
          "verschlusseln(unsigned char *data, size_t *out_len):&#160;base64.c"
      ∷ [])
    ∷ []
