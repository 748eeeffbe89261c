-- ===== src/AuthGate/Contract.antt =====
-- app/core/auth_contract.py: the API key and the switch of the authentication, from the environment
-- and the configuration.
use xzcccc_smart_media.Base.{
  List, [], ◌∷◌, Bool, true, false, if◌then◌else◌, String, str_eq, Option, none, some, any,
}

-- What the code takes from Python's text operations: `s.strip()`, `s.lower()` and `s.split()`.
pub record AuthTexts : Type 0 where
  pub strip : String → String
  pub lower : String → String
  pub words : String → List String

-- `os.getenv`
abbrev pub Env : Type 0
Env = String → Option String

-- The value, unless it is missing or empty: Python's test of an optional text.
abbrev pub given_text : Option String → Option String
given_text none = none
given_text (some s) = if str_eq s "" then none else some s

abbrev pub or_key : Option String → Option String → Option String
or_key none other = other
or_key (some s) other = some s

abbrev pub api_key_env_priority : List String
api_key_env_priority = "SMART_MEDIA_SECURITY_API_KEY" ∷ "SMART_MEDIA_API_KEY" ∷ "API_KEY" ∷ []

unfoldable pub first_set : Env → List String → Option String
first_set getenv [] = none
first_set getenv (env_name ∷ rest) = or_key (given_text (getenv env_name)) (first_set getenv rest)

unfoldable pub get_api_key_env_override : Env → Option String
get_api_key_env_override getenv = first_set getenv api_key_env_priority

abbrev pub text_or_empty : Option String → String
text_or_empty none = ""
text_or_empty (some s) = s

unfoldable pub get_require_api_key_env_override : AuthTexts → Env → Option Bool
get_require_api_key_env_override texts getenv =
    let raw_value = texts.lower (texts.strip (text_or_empty (getenv "REQUIRE_API_KEY"))) in
    if any (str_eq raw_value) ("true" ∷ "1" ∷ "yes" ∷ [])
    then some true
    else if any (str_eq raw_value) ("false" ∷ "0" ∷ "no" ∷ [])
    then some false
    else none

-- `security.api_key` and `security.require_api_key`, none where the configuration cannot be read or
-- has no such section.
abbrev pub SecurityConfig : Type 0
SecurityConfig = Option (Option String × Bool)

-- `_load_security_config`
unfoldable pub load_security_config : SecurityConfig → Option String × Bool
load_security_config none = (none, false)
load_security_config (some (api_key, require)) = (given_text api_key, require)

unfoldable pub resolve_expected_api_key : Env → Option String → Option String
resolve_expected_api_key getenv config_key = or_key (get_api_key_env_override getenv) config_key

-- The key that is expected, and whether authentication is required.
unfoldable pub resolve_auth_configuration :
    AuthTexts → Env → Option String × Bool → Option String × Bool
resolve_auth_configuration texts getenv (config_api_key, config_require) =
    let expected = or_key (get_api_key_env_override getenv) config_api_key in
    elim (get_require_api_key_env_override texts getenv) [
      | some required ↦ (expected, required)
      | none ↦ elim (given_text expected) [
        | some key ↦ (expected, true)
        | none ↦ (expected, config_require)
      ]
    ]
