-- ===== src/AuthPlugin/Grant.antt =====
-- When openvpn_plugin_func_v1 lets a client in.
use par_diff_vpn.Prelude.{
  ℕ, zero, suc, ◌+◌, ◌-◌, ◌*◌, ◌≤◌, ◌≡◌, ◌≢◌, refl, sym, ap, ◌∙◌, Bool, true, false, ◌&&◌, Option,
  none, some, List, [], ◌∷◌, ◌++◌, leb, ◌==◌, length, length-append, take, arith, Bool-cases,
  Option-cases, inl, inr, ◌⊎◌,
}
use par_diff_vpn.AuthPlugin.{
  Text, text_equal, is_plain, all_plain, validate, Stored, Library, escape_string, select_password,
  and_username, and_active, query_text, query_size, query, check_answer, ask, verify, func, get_env,
  username_name, password_name,
}

take_all {ℓ} : {A : Type ℓ} (n : ℕ) (xs : List A) → length xs ≤ n → take n xs ≡ xs
take_all zero [] h = refl
take_all (suc n) [] h = refl
take_all zero (x ∷ xs) h = absurd (omega arith)
take_all (suc n) (x ∷ xs) h = ap (λ t. x ∷ t) (take_all n xs (omega arith))

-- The buffer of the query is large enough: snprintf cuts nothing off.
pub query-query_text :
    (password username : Text) → query password username ≡ query_text password username
unfolding query query_size query_text
query-query_text password username =
    let whole : Text =
      select_password ++ (password ++ (and_username ++ (username ++ and_active))) in
    let fits : length whole
        ≤ length username
          + length password
          + (length select_password + 2 + length and_username + 2 + length and_active)
          - 1 =
      omega (
        arith,
        length-append select_password (password ++ (and_username ++ (username ++ and_active))),
        length-append password (and_username ++ (username ++ and_active)),
        length-append and_username (username ++ and_active),
        length-append username and_active,
      ) in
    take_all (query_size password username - 1) whole fits

-- No character of the text ends a quoted string of SQL or escapes the next character.
abbrev pub IsQuotable : Text → Type 0
IsQuotable [] = Unit
IsQuotable (c ∷ cs) = (c ≢ 39) × (c ≢ 34) × (c ≢ 92) × (c ≢ 0) × IsQuotable cs

all_plain-IsQuotable : (text : Text) → all_plain text ≡ true → IsQuotable text
unfolding all_plain is_plain
all_plain-IsQuotable [] h = tt
all_plain-IsQuotable (c ∷ cs) h =
    let plain : is_plain c ≡ true = ground (arith, Bool-cases (is_plain c)) in
    (
      λ e. ground (arith, plain, e),
      λ e. ground (arith, plain, e),
      λ e. ground (arith, plain, e),
      λ e. ground (arith, plain, e),
      all_plain-IsQuotable cs (ground (arith, Bool-cases (is_plain c))),
    )

-- What as_mysql_validate lets through can stand between quotes.
pub validate-IsQuotable : (text : Text) → validate (some text) ≡ true → IsQuotable text
unfolding validate
validate-IsQuotable [] h = tt
validate-IsQuotable (c ∷ cs) h = all_plain-IsQuotable (c ∷ cs) h

text_equal_sound : (xs ys : Text) → text_equal xs ys ≡ true → xs ≡ ys
unfolding text_equal
text_equal_sound [] [] h = refl
text_equal_sound [] (y ∷ ys) h = absurd (cc)
text_equal_sound (x ∷ xs) [] h = absurd (cc)
text_equal_sound (x ∷ xs) (y ∷ ys) h =
    let head : x ≡ y = ground (arith, Bool-cases (x == y)) in
    let tail : text_equal xs ys ≡ true = ground (arith, Bool-cases (x == y)) in
    rw head (ap (λ t. y ∷ t) (text_equal_sound xs ys tail))

text_equal_refl : (xs : Text) → text_equal xs xs ≡ true
unfolding text_equal
text_equal_refl [] = refl
text_equal_refl (x ∷ xs) = ground (arith, text_equal_refl xs)

-- The database answers the query of the password and the name, both in quotes, with a row whose first
-- column is `column`.
abbrev pub IsAnswered : Library → Text → Text → Option Text → Type 0
IsAnswered lib username password column =
    (lib.answers (query_text password username) ≡ true)
    × (res : Stored) × (lib.store_result (query_text password username) ≡ some res)
    × (res.num_fields ≢ 0)
    × (res.row ≡ some column)

-- The row starts with the name.
abbrev pub IsConfirmed : Library → Text → Text → Type 0
IsConfirmed lib username password = IsAnswered lib username password (some username)

-- What makes the plugin crash: mysql_init gives NULL, or the row starts with a NULL.
abbrev pub HasNull : Library → Text → Text → Type 0
HasNull lib username password =
    (lib.initializes ≡ false) ⊎ ((lib.connects ≡ true) × IsAnswered lib username password none)

-- The client library escapes no text of plain characters.
abbrev pub KeepsPlain : Library → Type 0
KeepsPlain lib = (text : Text) → all_plain text ≡ true → lib.escape text ≡ text

check_answer-cases :
    (lib : Library) (username password : Text)
    → ((check_answer lib username (query_text password username) ≡ none)
        × IsAnswered lib username password none)
      ⊎ ((granted : Bool) × (check_answer lib username (query_text password username)
            ≡ some granted)
          × (granted ≡ true → IsConfirmed lib username password))
unfolding check_answer
check_answer-cases lib username password =
    let text = query_text password username in
    elim (Bool-cases (lib.answers text)) [
      | inr refused ↦ inr (false, rw (check_answer, refused), λ a. absurd (cc))
      | inl answered ↦ elim (Option-cases (lib.store_result text)) [
        | inl nothing ↦ inr (false, rw (check_answer, answered, nothing), λ a. absurd (cc))
        | inr (res, stored) ↦ elim (Bool-cases (res.num_fields == 0)) [
          | inl empty_row ↦
              inr (false, rw (check_answer, answered, stored, empty_row), λ a. absurd (cc))
          | inr some_fields ↦
              (let fields : res.num_fields ≢ 0 = λ e. ground (arith, some_fields, e) in
                elim (Option-cases res.row) [
                  | inl no_row ↦ inr (
                    false,
                    rw (check_answer, answered, stored, some_fields, no_row),
                    λ a. absurd (cc),
                  )
                  | inr (column, row) ↦ elim (Option-cases column) [
                    | inl null ↦ inl (
                      rw (check_answer, answered, stored, some_fields, row, null),
                      (answered, res, stored, fields, row ∙ ap some null),
                    )
                    | inr (first, filled) ↦ inr (
                      text_equal username first,
                      rw (check_answer, answered, stored, some_fields, row, filled),
                      λ same. (
                        answered,
                        res,
                        stored,
                        fields,
                        row
                            ∙ ap some
                                (filled ∙ ap some (sym (text_equal_sound username first same))),
                      ),
                    )
                  ]
                ])
        ]
      ]
    ]

validate-all_plain : (text : Text) → validate (some text) ≡ true → all_plain text ≡ true
unfolding validate
validate-all_plain [] h = absurd (cc)
validate-all_plain (c ∷ cs) h = h

escape_string_cases :
    (lib : Library) (text : Text)
    → KeepsPlain lib
    → validate (some text) ≡ true
    → (escape_string lib (some text) ≡ some none)
      ⊎ (escape_string lib (some text) ≡ some (some text))
unfolding escape_string
escape_string_cases lib text keeps plain =
    let same = keeps text (validate-all_plain text plain) in
    elim (Bool-cases (lib.allocates (length text * 2 + 1 + 2))) [
      | inr out_of_memory ↦ inl (rw (escape_string, out_of_memory))
      | inl room ↦
          (let small : leb (length text * 2 + 1) (length text) ≡ false = ground arith in
            inr (rw (escape_string, room, same, small)))
    ]

-- What a part of openvpn_plugin_func_v1 with the result `r` says of a name and a password.
abbrev IsJudged : Option Bool → Type 0 → Type 0 → Type 0
IsJudged r Crash Grant =
    ((r ≡ none) × Crash) ⊎ ((granted : Bool) × (r ≡ some granted) × (granted ≡ true → Grant))

ask-IsJudged :
    (lib : Library) (username password : Text)
    → KeepsPlain lib
    → validate (some username) ≡ true
    → validate (some password) ≡ true
    → IsJudged
        (ask lib username password)
        (IsAnswered lib username password none)
        (IsConfirmed lib username password)
unfolding ask
ask-IsJudged lib username password keeps u p = elim (escape_string_cases lib username keeps u) [
  | inl full ↦ inr (false, rw (ask, full), λ a. absurd (cc))
  | inr escaped ↦ elim (escape_string_cases lib password keeps p) [
    | inl full ↦ inr (false, rw (ask, escaped, full), λ a. absurd (cc))
    | inr escaped' ↦
        (let asked : ask lib username password
              ≡ check_answer lib username (query_text password username) =
            rw (ask, escaped, escaped', query-query_text password username) in
          elim (check_answer-cases lib username password) [
            | inl (crash, null) ↦ inl (asked ∙ crash, null)
            | inr (granted, answer, confirmed) ↦ inr (granted, asked ∙ answer, confirmed)
          ])
  ]
]

-- The conditions under which a client is let in.
abbrev IsGranted : Library → Text → Text → Type 0
IsGranted lib username password =
    (validate (some username) ≡ true)
    × (validate (some password) ≡ true)
    × (lib.initializes ≡ true)
    × (lib.connects ≡ true)
    × IsConfirmed lib username password

verify-IsJudged :
    (lib : Library) (username password : Text)
    → KeepsPlain lib
    → IsJudged
        (verify lib username password)
        ((validate (some username) ≡ true)
          × (validate (some password) ≡ true)
          × HasNull lib username password)
        (IsGranted lib username password)
unfolding verify
verify-IsJudged lib username password keeps =
    elim (Bool-cases (validate (some username) && validate (some password))) [
      | inr refused ↦ inr (false, rw (verify, refused), λ a. absurd (cc))
      | inl valid ↦
          (let u : validate (some username) ≡ true =
              ground (arith, Bool-cases (validate (some username))) in
            let p : validate (some password) ≡ true =
              ground (arith, Bool-cases (validate (some password)), u) in
            elim (Bool-cases lib.initializes) [
              | inr null ↦ inl (rw (verify, valid, null), (u, p, inl null))
              | inl handle ↦ elim (Bool-cases lib.connects) [
                | inr offline ↦ inr (false, rw (verify, valid, handle, offline), λ a. absurd (cc))
                | inl online ↦
                    (let asked : verify lib username password ≡ ask lib username password =
                        rw (verify, valid, handle, online) in
                      elim (ask-IsJudged lib username password keeps u p) [
                        | inl (crash, null) ↦ inl (asked ∙ crash, (u, p, inr (online, null)))
                        | inr (granted, answer, confirmed) ↦
                            inr (granted, asked ∙ answer, λ a. (u, p, handle, online, confirmed a))
                      ])
              ]
            ])
    ]

-- With a client library that escapes no text of plain characters, openvpn_plugin_func_v1 answers,
-- or crashes. It crashes only for a name and a password that are given and have no quote, backslash or
-- NUL, when mysql_init gives NULL or the database answers with a row that starts with a NULL. When
-- it lets a client in, the environment has a name and a password, neither has a quote, a
-- backslash or a NUL, the connection was made, and the database confirmed them.
pub func-IsConfirmed :
    (lib : Library) (envp : Option (List Text))
    → KeepsPlain lib
    → ((func lib envp ≡ none)
        × (username password : Text) × (get_env username_name envp ≡ some username)
        × (get_env password_name envp ≡ some password)
        × IsQuotable username
        × IsQuotable password
        × HasNull lib username password)
      ⊎ ((granted : Bool) × (func lib envp ≡ some granted)
          × (granted ≡ true
              → (username password : Text) × (get_env username_name envp ≡ some username)
                × (get_env password_name envp ≡ some password)
                × IsQuotable username
                × IsQuotable password
                × (lib.initializes ≡ true)
                × (lib.connects ≡ true)
                × IsConfirmed lib username password))
unfolding func
func-IsConfirmed lib envp keeps = elim (Option-cases (get_env username_name envp)) [
  | inl nobody ↦ inr (false, rw (func, nobody), λ a. absurd (cc))
  | inr (username, named) ↦ elim (Option-cases (get_env password_name envp)) [
    | inl nothing ↦ inr (false, rw (func, named, nothing), λ a. absurd (cc))
    | inr (password, given) ↦
        (let reached : func lib envp ≡ verify lib username password = rw (func, named, given) in
          elim (verify-IsJudged lib username password keeps) [
            | inl (crash, (u, p, null)) ↦ inl (
              reached ∙ crash,
              username,
              password,
              named,
              given,
              validate-IsQuotable username u,
              validate-IsQuotable password p,
              null,
            )
            | inr (granted, answer, confirmed) ↦ inr (
              granted,
              reached ∙ answer,
              λ accepted.
                  let (u, p, i, c, all) = confirmed accepted in
                  (
                    username,
                    password,
                    named,
                    given,
                    validate-IsQuotable username u,
                    validate-IsQuotable password p,
                    i,
                    c,
                    all,
                  ),
            )
          ])
  ]
]
