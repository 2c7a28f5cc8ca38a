-- ===== src/AuthPlugin.antt =====
-- src/myopenvpn/myopenvpn.c: the plugin that checks a client's user name and password against the
-- billing database. A C string is its list of bytes without the final NUL; NULL is `none`. The MySQL
-- client library and malloc are arguments. The outer `none` of a result is a crash of the process.
pub mod Grant
pub mod Tests
use par_diff_vpn.Prelude.{
  ℕ, zero, suc, ◌+◌, ◌-◌, ◌*◌, Bool, true, false, not, ◌&&◌, ◌||◌, Option, none, some, List, [],
  ◌∷◌, ◌++◌, guard, ◌>>=◌, ◌>>◌, ltb, leb, ◌==◌, if◌then◌else◌, length, drop, take,
}

abbrev pub Text : Type 0
Text = List ℕ

unfoldable pub text_equal : Text → Text → Bool
text_equal [] [] = true
text_equal [] (y ∷ ys) = false
text_equal (x ∷ xs) [] = false
text_equal (x ∷ xs) (y ∷ ys) = x == y && text_equal xs ys

-- strncmp over the length of the name gives 0.
unfoldable pub starts_with : Text → Text → Bool
starts_with [] ys = true
starts_with (x ∷ xs) [] = false
starts_with (x ∷ xs) (y ∷ ys) = x == y && starts_with xs ys

-- The value of an environment entry that starts with the name, if `=` follows.
unfoldable pub value_after : Text → Option Text
value_after [] = none
value_after (c ∷ cs) = if c == 61 then some cs else none

-- The loop of get_env.
unfoldable pub get_env_from : Text → List Text → Option Text
get_env_from name [] = none
get_env_from name (e ∷ es) =
    let rest = get_env_from name es in
    if starts_with name e
    then elim (value_after (drop (length name) e)) [ some v ↦ some v | none ↦ rest ]
    else rest

-- get_env
unfoldable pub get_env : Text → Option (List Text) → Option Text
get_env name none = none
get_env name (some envp) = get_env_from name envp

-- The characters that as_mysql_validate lets through.
unfoldable pub is_plain : ℕ → Bool
is_plain c =
    leb 97 c && leb c 122
    || leb 65 c && leb c 90
    || leb 48 c && leb c 57
    || c == 32
    || c == 45
    || c == 95
    || c == 46
    || c == 58
    || c == 64

unfoldable pub all_plain : Text → Bool
all_plain [] = true
all_plain (c ∷ cs) = is_plain c && all_plain cs

-- as_mysql_validate gives 0.
unfoldable pub validate : Option Text → Bool
validate none = false
validate (some []) = false
validate (some (c ∷ cs)) = all_plain (c ∷ cs)

-- What mysql_store_result gives: the number of columns, and the first column of the first row. The
-- outer `none` is a NULL from mysql_fetch_row, the inner one a NULL in the column.
pub record Stored : Type 0 where
  pub num_fields : ℕ
  pub row : Option (Option Text)

-- The client library and the allocator: whether mysql_init gives a handle and not NULL, whether
-- mysql_real_connect succeeds with that handle, mysql_escape_string, whether malloc succeeds, whether mysql_query gives 0, and mysql_store_result.
pub record Library : Type 0 where
  pub initializes : Bool
  pub connects : Bool
  pub escape : Text → Text
  pub allocates : ℕ → Bool
  pub answers : Text → Bool
  pub store_result : Text → Option Stored

-- as_mysql_escape_string; the loop that overwrites the heap is the outer `none`.
unfoldable pub escape_string : Library → Option Text → Option (Option Text)
escape_string lib none = some none
escape_string lib (some text) =
    if lib.allocates (length text * 2 + 1 + 2)
    then (if leb (length text * 2 + 1) (length (lib.escape text))
        then none
        else some (some (lib.escape text)))
    else some none

-- The pieces of the format of the query, around its two `%s`.
unfoldable pub select_password : Text
select_password =
    83 ∷ 69 ∷ 76 ∷ 69 ∷ 67 ∷ 84 ∷ 32 ∷ 117 ∷ 115 ∷ 101 ∷ 114 ∷ 110 ∷ 97 ∷ 109 ∷ 101 ∷ 32 ∷ 70 ∷ 82
    ∷ 79 ∷ 77 ∷ 32 ∷ 108 ∷ 111 ∷ 103 ∷ 105 ∷ 110 ∷ 32 ∷ 87 ∷ 72 ∷ 69 ∷ 82 ∷ 69 ∷ 32 ∷ 112 ∷ 97 ∷ 115
    ∷ 115 ∷ 119 ∷ 111 ∷ 114 ∷ 100 ∷ 61 ∷ 39 ∷ []

unfoldable pub and_username : Text
and_username =
    39 ∷ 32 ∷ 65 ∷ 78 ∷ 68 ∷ 32 ∷ 117 ∷ 115 ∷ 101 ∷ 114 ∷ 110 ∷ 97 ∷ 109 ∷ 101 ∷ 61 ∷ 39 ∷ []

unfoldable pub and_active : Text
and_active =
    39 ∷ 32 ∷ 65 ∷ 78 ∷ 68 ∷ 32 ∷ 99 ∷ 114 ∷ 101 ∷ 100 ∷ 105 ∷ 116 ∷ 32 ∷ 62 ∷ 32 ∷ 48 ∷ 32 ∷ 65
    ∷ 78 ∷ 68 ∷ 32 ∷ 97 ∷ 99 ∷ 99 ∷ 111 ∷ 117 ∷ 110 ∷ 116 ∷ 95 ∷ 115 ∷ 116 ∷ 97 ∷ 116 ∷ 101 ∷ 32
    ∷ 61 ∷ 32 ∷ 39 ∷ 65 ∷ 67 ∷ 84 ∷ 73 ∷ 86 ∷ 69 ∷ 39 ∷ []

-- The text that the format stands for.
unfoldable pub query_text : Text → Text → Text
query_text password username =
    select_password ++ (password ++ (and_username ++ (username ++ and_active)))

-- The size `lenq` of the buffer: the lengths of the two values and of the format with its `%s`.
unfoldable pub query_size : Text → Text → ℕ
query_size password username =
    length username
    + length password
    + (length select_password + 2 + length and_username + 2 + length and_active)

-- snprintf keeps what fits before the final NUL.
unfoldable pub query : Text → Text → Text
query password username = take (query_size password username - 1) (query_text password username)

-- The end of openvpn_plugin_func_v1: what the answer to the query says of the user. strcmp with a
-- NULL column crashes.
unfoldable pub check_answer : Library → Text → Text → Option Bool
check_answer lib username text =
    if lib.answers text
    then elim (lib.store_result text) [
      | none ↦ some false
      | some res ↦
          (if res.num_fields == 0 then some false else elim res.row [
            | none ↦ some false
            | some column ↦ elim column [
              | none ↦ none
              | some first ↦ some (text_equal username first)
            ]
          ])
    ]
    else some false

abbrev pub username_name : Text
username_name = 117 ∷ 115 ∷ 101 ∷ 114 ∷ 110 ∷ 97 ∷ 109 ∷ 101 ∷ []

abbrev pub password_name : Text
password_name = 112 ∷ 97 ∷ 115 ∷ 115 ∷ 119 ∷ 111 ∷ 114 ∷ 100 ∷ []

-- openvpn_plugin_func_v1 once it is connected: escaping, the query and its answer.
unfoldable pub ask : Library → Text → Text → Option Bool
ask lib username password = do
  u ← escape_string lib (some username)
  elim u [
    | none ↦ some false
    | some escaped_username ↦ (do
      p ← escape_string lib (some password)
      elim p [
        | none ↦ some false
        | some escaped_password ↦
            check_answer lib username (query escaped_password escaped_username)
      ])
  ]

-- openvpn_plugin_func_v1 for a user name and a password that were found. mysql_real_connect with the
-- NULL of a failed mysql_init crashes.
unfoldable pub verify : Library → Text → Text → Option Bool
verify lib username password =
    if validate (some username) && validate (some password)
    then (if lib.initializes
        then (if lib.connects then ask lib username password else some false)
        else none)
    else some false

-- openvpn_plugin_func_v1: true is OPENVPN_PLUGIN_FUNC_SUCCESS.
unfoldable pub func : Library → Option (List Text) → Option Bool
func lib envp = elim (get_env username_name envp) [
  | none ↦ some false
  | some username ↦ elim (get_env password_name envp) [
    | none ↦ some false
    | some password ↦ verify lib username password
  ]
]
