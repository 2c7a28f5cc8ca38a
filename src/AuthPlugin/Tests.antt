-- ===== src/AuthPlugin/Tests.antt =====
-- The theorems on the plugin at concrete inputs.
use par_diff_vpn.Prelude.{◌≡◌, refl, Bool, true, false, none, ◌⊎◌, some, List, [], ◌∷◌}
use par_diff_vpn.AuthPlugin.{
  Text, Library, func, get_env, username_name, password_name, get_env_from, starts_with,
  value_after, verify, validate, all_plain, is_plain, ask, escape_string, query, query_size,
  query_text, select_password, and_username, and_active, check_answer, text_equal,
}
use par_diff_vpn.AuthPlugin.Grant.{IsQuotable, HasNull, IsConfirmed, func-IsConfirmed}

-- A client library that escapes nothing, before a database that knows one user.
abbrev one_user : Library
one_user = record {
  initializes = true;
  connects = true;
  escape = λ text. text;
  allocates = λ n. true;
  answers = λ text. true;
  store_result = λ text. some (record { num_fields = 1; row = some (some (98 ∷ 111 ∷ 98 ∷ [])) });
}

abbrev login : List Text
login =
    (117 ∷ 115 ∷ 101 ∷ 114 ∷ 110 ∷ 97 ∷ 109 ∷ 101 ∷ 61 ∷ 98 ∷ 111 ∷ 98 ∷ [])
    ∷ (112 ∷ 97 ∷ 115 ∷ 115 ∷ 119 ∷ 111 ∷ 114 ∷ 100 ∷ 61 ∷ 120 ∷ [])
    ∷ []

lets_in : func one_user (some login) ≡ some true
unfolding func get_env get_env_from starts_with value_after verify validate all_plain is_plain ask
    escape_string query query_size query_text select_password and_username and_active check_answer
    text_equal
lets_in = refl

-- Without memory for a handle the plugin crashes.
crashes : func (record one_user { initializes = false }) (some login) ≡ none
unfolding func get_env get_env_from starts_with value_after verify validate all_plain is_plain
crashes = refl

func-IsConfirmed_example :
    ((func one_user (some login) ≡ none)
      × (username password : Text) × (get_env username_name (some login) ≡ some username)
      × (get_env password_name (some login) ≡ some password)
      × IsQuotable username
      × IsQuotable password
      × HasNull one_user username password)
    ⊎ ((granted : Bool) × (func one_user (some login) ≡ some granted)
        × (granted ≡ true
            → (username password : Text) × (get_env username_name (some login) ≡ some username)
              × (get_env password_name (some login) ≡ some password)
              × IsQuotable username
              × IsQuotable password
              × (one_user.initializes ≡ true)
              × (one_user.connects ≡ true)
              × IsConfirmed one_user username password))
func-IsConfirmed_example = func-IsConfirmed one_user (some login) (λ text plain. refl)
