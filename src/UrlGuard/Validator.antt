-- ===== src/UrlGuard/Validator.antt =====
-- `URLValidator` of app/core/url_validator.py. The text operations of Python, `urlparse` and `ipaddress`
-- are a parameter.
use Prim.Native.String.{[] as nil, ◌∷◌ as ◌▸◌, ◌++◌ as ◌⧺◌}
use text.Mathlib.Text.{starts_with}
use xzcccc_smart_media.Base.{
  ℕ, [], ◌∷◌, List, map, Bool, true, false, ltb, leb, ◌&&◌, ◌||◌, not, if◌then◌else◌, String,
  str_eq, Option, none, some, any, length,
}
use xzcccc_smart_media.Text.Split.{split}
use xzcccc_smart_media.UrlGuard.Address.{Address, v4, octets, is_private_ip}

pub record ParsedUrl : Type 0 where
  pub scheme : String
  pub hostname : Option String

-- `urlparse` and `ip_address` are none where they raise, and so is `int_of base s`, also where the number
-- is negative: no caller tells the two apart. `ip_text` is `str(ip)`.
pub record NetTexts : Type 0 where
  pub strip : String → String
  pub lower : String → String
  pub is_digit : String → Bool
  pub int_of : ℕ → String → Option ℕ
  pub urlparse : String → Option ParsedUrl
  pub ip_address : String → Option Address
  pub ip_text : Address → String

pub record UrlValidator : Type 0 where
  pub allowed_domains : List String
  pub allowed_private_ips : List String
  pub allow_private_by_default : Bool

pub data UrlError : Type 0 where
  url_required : UrlError
  url_empty : UrlError
  invalid_format : UrlError
  invalid_scheme : UrlError
  no_hostname : UrlError
  dangerous_hostname : UrlError
  domain_not_allowed : UrlError
  private_address : UrlError

pub data UrlVerdict : Type 0 where
  accepted : UrlVerdict
  rejected : UrlError → UrlVerdict

abbrev pub dangerous_hostnames : List String
dangerous_hostnames =
    "localhost" ∷ "local" ∷ "internal" ∷ "intranet" ∷ "private" ∷ "corp" ∷ "lan" ∷ "home" ∷ "host"
    ∷ "gateway" ∷ "router" ∷ []

-- `s.endswith(suffix)`
unfoldable pub has_suffix : String → String → Bool
has_suffix suffix nil = str_eq nil suffix
has_suffix suffix (c ▸ s) = str_eq (c ▸ s) suffix || has_suffix suffix s

-- The hostname is the domain or stands below it.
abbrev pub matches_domain : String → String → Bool
matches_domain hostname domain = str_eq hostname domain || has_suffix ("." ⧺ domain) hostname

unfoldable pub is_dangerous : String → Bool
is_dangerous hostname =
    any (str_eq hostname) dangerous_hostnames || any (matches_domain hostname) dangerous_hostnames

unfoldable pub is_domain_allowed : UrlValidator → String → Bool
is_domain_allowed v hostname = any (matches_domain hostname) v.allowed_domains

-- `s[1:-1]` from the second character on
abbrev pub but_last_char : String → String
but_last_char nil = nil
but_last_char (c ▸ nil) = nil
but_last_char (c ▸ d ▸ s) = c ▸ but_last_char (d ▸ s)

abbrev pub inner : String → String
inner nil = nil
inner (c ▸ s) = but_last_char s

module _ (texts : NetTexts) where
  -- A part of a dotted address: octal where it begins with 0.
  abbrev pub part_value : String → Option ℕ
  part_value part =
      if starts_with part "0" && not (str_eq part "0")
      then texts.int_of 8 part
      else texts.int_of 10 part

  -- The address of four parts that are octets.
  unfoldable pub address_of : Option ℕ → Option ℕ → Option ℕ → Option ℕ → Option Address
  address_of (some a) (some b) (some c) (some d) =
      if leb a 255 && leb b 255 && leb c 255 && leb d 255 then some (v4 (octets a b c d)) else none
  address_of (some a) (some b) (some c) none = none
  address_of (some a) (some b) none d = none
  address_of (some a) none c d = none
  address_of none b c d = none

  unfoldable pub dotted_address : List String → Option Address
  dotted_address (a ∷ b ∷ c ∷ d ∷ []) =
      address_of (part_value a) (part_value b) (part_value c) (part_value d)
  dotted_address _ = none

  abbrev pub by_number : Option ℕ → Option Address → Option Address
  by_number none other = none
  by_number (some n) other = if leb n 4294967295 then some (v4 n) else other

  unfoldable pub other_forms : String → Option Address
  other_forms hostname =
      let dotted = dotted_address (split "." hostname) in
      let hex =
        if starts_with hostname "0x" || starts_with hostname "0X"
        then by_number (texts.int_of 16 hostname) dotted
        else dotted in
      if texts.is_digit hostname then by_number (texts.int_of 10 hostname) hex else hex

  unfoldable pub try_parse_ip : String → Option Address
  try_parse_ip hostname = elim (texts.ip_address hostname) [
    | some ip ↦ some ip
    | none ↦
        let bracketed =
          if starts_with hostname "[" && has_suffix "]" hostname
          then texts.ip_address (inner hostname)
          else none in
        elim bracketed [ some ip ↦ some ip | none ↦ other_forms hostname ]
  ]

  -- Whether the address is kept out: `_check_ip_address` raises.
  unfoldable pub check_ip_address : UrlValidator → String → Bool → Bool
  check_ip_address v hostname allow_private = elim (try_parse_ip hostname) [
    | none ↦ false
    | some ip ↦
        if any (str_eq (texts.ip_text ip)) v.allowed_private_ips
        then false
        else if allow_private || v.allow_private_by_default
        then false
        else is_private_ip ip
  ]

  unfoldable pub check_hostname : UrlValidator → Bool → String → UrlVerdict
  check_hostname v allow_private hostname =
      if is_dangerous hostname
      then rejected dangerous_hostname
      else if ltb 0 (length v.allowed_domains) && not (is_domain_allowed v hostname)
      then rejected domain_not_allowed
      else if check_ip_address v hostname allow_private
      then rejected private_address
      else accepted

  unfoldable pub check_parsed : UrlValidator → Bool → ParsedUrl → UrlVerdict
  check_parsed v allow_private parsed =
      if not
        (str_eq (texts.lower parsed.scheme) "http" || str_eq (texts.lower parsed.scheme) "https")
      then rejected invalid_scheme
      else elim parsed.hostname [
        | none ↦ rejected no_hostname
        | some hostname ↦
            if str_eq hostname ""
            then rejected no_hostname
            else check_hostname v allow_private (texts.lower hostname)
      ]

  unfoldable pub validate : UrlValidator → Option String → Bool → UrlVerdict
  validate v none allow_private = rejected url_required
  validate v (some url) allow_private =
      if str_eq url ""
      then rejected url_required
      else if str_eq (texts.strip url) ""
      then rejected url_empty
      else elim (texts.urlparse (texts.strip url)) [
        | none ↦ rejected invalid_format
        | some parsed ↦ check_parsed v allow_private parsed
      ]

  -- `URLValidator(…)`: addresses that do not parse are skipped.
  abbrev pub parsed_ips : List String → List String
  parsed_ips [] = []
  parsed_ips (s ∷ rest) = elim (texts.ip_address s) [
    | none ↦ parsed_ips rest
    | some ip ↦ texts.ip_text ip ∷ parsed_ips rest
  ]

  unfoldable pub new_validator : List String → List String → Bool → UrlValidator
  new_validator domains private_ips allow_private = record {
    allowed_domains = map texts.lower domains;
    allowed_private_ips = parsed_ips private_ips;
    allow_private_by_default = allow_private;
  }

  abbrev pub quark_validator : UrlValidator
  quark_validator = new_validator ("quark.cn" ∷ []) [] false

  abbrev pub emby_validator : UrlValidator
  emby_validator = new_validator [] [] true

  abbrev pub general_validator : UrlValidator
  general_validator = new_validator [] [] false
