-- ===== src/UrlGuard/Accepted.antt =====
-- What the validators let through.
use Prim.Native.String.{◌++◌ as ◌⧺◌}
use text.Mathlib.Text.{starts_with}
use xzcccc_smart_media.Base.{
  ℕ, ◌<◌, ◌≡◌, refl, sym, ◌∙◌, [], ◌∷◌, List, true, false, leb, ◌&&◌, ◌||◌, if◌then◌else◌, String,
  str_eq, eq_iff, none, some, any, All, arith, Bool-cases, Option-cases, inl, inr,
}
use mathlib.Core.Path.{subst}
use xzcccc_smart_media.Text.Split.{split, onto_first}
use xzcccc_smart_media.UrlGuard.Address.{v4, octets, is_private_v4}
use xzcccc_smart_media.UrlGuard.Validator.{
  ParsedUrl, NetTexts, accepted, rejected, private_address, dangerous_hostnames, is_dangerous,
  address_of, dotted_address, part_value, try_parse_ip, other_forms, check_ip_address,
  check_hostname, check_parsed, validate, has_suffix, general_validator, new_validator,
}
use xzcccc_smart_media.UrlGuard.Private.{private_octets, is_private_v4-octets}

-- How a hostname can spell an IPv4 address: as `ipaddress` reads it, as one decimal or hexadecimal number,
-- or as four parts of which those that begin with 0 are octal.
pub data Spells (texts : NetTexts) (h : String) (n : ℕ) : Type 0 where
  plain : texts.ip_address h ≡ some (v4 n) → Spells texts h n
  decimal :
      texts.ip_address h ≡ none
      → starts_with h "[" ≡ false
      → texts.is_digit h ≡ true
      → texts.int_of 10 h ≡ some n
      → leb n 4294967295 ≡ true
      → Spells texts h n
  hexadecimal :
      texts.ip_address h ≡ none
      → starts_with h "[" ≡ false
      → texts.is_digit h ≡ false
      → starts_with h "0x" ≡ true
      → texts.int_of 16 h ≡ some n
      → leb n 4294967295 ≡ true
      → Spells texts h n
  dotted :
      (p q r s : String) (a b c d : ℕ)
      → texts.ip_address h ≡ none
      → starts_with h "[" ≡ false
      → texts.is_digit h ≡ false
      → (starts_with h "0x" || starts_with h "0X") ≡ false
      → split "." h ≡ p ∷ q ∷ r ∷ s ∷ []
      → part_value texts p ≡ some a
      → part_value texts q ≡ some b
      → part_value texts r ≡ some c
      → part_value texts s ≡ some d
      → (leb a 255 && leb b 255 && leb c 255 && leb d 255) ≡ true
      → n ≡ octets a b c d
      → Spells texts h n

module _ (texts : NetTexts) where
  try_parse_ip-other :
      (h : String)
      → texts.ip_address h ≡ none
      → starts_with h "[" ≡ false
      → try_parse_ip texts h ≡ other_forms texts h
  unfolding try_parse_ip
  try_parse_ip-other h unknown bare = elim (Option-cases (other_forms texts h)) [
    | inl e ↦ ground (arith, unknown, bare, e)
    | inr (ip, e) ↦ ground (arith, unknown, bare, e)
  ]

  try_parse_ip-Spells : (h : String) (n : ℕ) → Spells texts h n → try_parse_ip texts h ≡ some (v4 n)
  unfolding try_parse_ip other_forms dotted_address address_of
  try_parse_ip-Spells h n (plain e) = ground (arith, e)
  try_parse_ip-Spells h n (decimal unknown bare digits value fits) =
      try_parse_ip-other h unknown bare ∙ ground (arith, digits, value, fits)
  try_parse_ip-Spells h n (hexadecimal unknown bare digits hex value fits) =
      try_parse_ip-other h unknown bare ∙ ground (arith, digits, hex, value, fits)
  try_parse_ip-Spells h n
        (dotted p q r s a b c d unknown bare digits hex parts e f g k fits whole) =
      let address : dotted_address texts (split "." h) ≡ some (v4 n) =
        rw parts (rw e (rw f (rw g (rw k (rw fits (rw whole refl)))))) in
      try_parse_ip-other h unknown bare ∙ ground (arith, digits, hex, address)

  check_ip_address-general :
      (h : String) (n : ℕ)
      → try_parse_ip texts h ≡ some (v4 n)
      → check_ip_address texts (general_validator texts) h false ≡ is_private_v4 n
  unfolding check_ip_address new_validator any
  check_ip_address-general h n e = ground (arith, e)

  -- A URL that the general validator has to judge, without leave for private addresses: its text is not
  -- empty, its scheme is http or https, and its hostname is not among the dangerous ones nor below one. If
  -- the hostname spells an IPv4 address, in its usual form, as a decimal or a hexadecimal number, or with
  -- octal parts, then the URL is rejected when the first two octets lie in a private range, and it is
  -- accepted otherwise.
  pub validate-Spells :
      (url : String) (parsed : ParsedUrl) (hostname : String) (a b c d : ℕ)
      → str_eq url "" ≡ false
      → str_eq (texts.strip url) "" ≡ false
      → texts.urlparse (texts.strip url) ≡ some parsed
      → (str_eq (texts.lower parsed.scheme) "http" || str_eq (texts.lower parsed.scheme) "https")
        ≡ true
      → parsed.hostname ≡ some hostname
      → str_eq hostname "" ≡ false
      → is_dangerous (texts.lower hostname) ≡ false
      → b < 256
      → c < 256
      → d < 256
      → Spells texts (texts.lower hostname) (octets a b c d)
      → validate texts (general_validator texts) (some url) false
        ≡ (if private_octets a b then rejected private_address else accepted)
  unfolding validate check_parsed check_hostname new_validator
  validate-Spells url parsed hostname a b c d given full e scheme f named safe hb hc hd spelled =
      let test : check_ip_address texts (general_validator texts) (texts.lower hostname) false
          ≡ private_octets a b =
        check_ip_address-general (texts.lower hostname) (octets a b c d)
          (try_parse_ip-Spells (texts.lower hostname) (octets a b c d) spelled)
        ∙ is_private_v4-octets a b c d hb hc hd in
      let judged : check_hostname texts (general_validator texts) false (texts.lower hostname)
          ≡ (if private_octets a b then rejected private_address else accepted) =
        rw safe (rw test refl) in
      rw given (rw full (rw e (rw scheme (rw f (rw named judged)))))

  -- The names are tested as they are written: none is caught with a dot at its end.
  abbrev Dotted : String → Type 0
  Dotted name =
      (is_dangerous (name ⧺ ".") ≡ false)
      × (dotted_address texts (split "." (name ⧺ ".")) ≡ none)
      × (starts_with (name ⧺ ".") "0x" ≡ false)
      × (starts_with (name ⧺ ".") "0X" ≡ false)
      × (starts_with (name ⧺ ".") "[" ≡ false)
      × (str_eq (name ⧺ ".") "" ≡ false)

  dangerous_hostnames-Dotted : All Dotted dangerous_hostnames
  unfolding is_dangerous has_suffix any split onto_first dotted_address
  dangerous_hostnames-Dotted = (
    (refl, refl, refl, refl, refl, refl),
    (
      (refl, refl, refl, refl, refl, refl),
      (
        (refl, refl, refl, refl, refl, refl),
        (
          (refl, refl, refl, refl, refl, refl),
          (
            (refl, refl, refl, refl, refl, refl),
            (
              (refl, refl, refl, refl, refl, refl),
              (
                (refl, refl, refl, refl, refl, refl),
                (
                  (refl, refl, refl, refl, refl, refl),
                  (
                    (refl, refl, refl, refl, refl, refl),
                    (
                      (refl, refl, refl, refl, refl, refl),
                      ((refl, refl, refl, refl, refl, refl), tt),
                    ),
                  ),
                ),
              ),
            ),
          ),
        ),
      ),
    ),
  )

  -- The property of a name that is in a list.
  All-any :
      (P : String → Type 0) (xs : List String) (x : String)
      → All P xs
      → any (str_eq x) xs ≡ true
      → P x
  unfolding any
  All-any P [] x h found = ground (arith, found)
  All-any P (y ∷ ys) x (own, h) found = elim (Bool-cases (str_eq x y)) [
    | inl same ↦ subst P (sym ((eq_iff x y).0 same)) own
    | inr other ↦ All-any P ys x h (ground (arith, found, other))
  ]

  -- For each dangerous hostname, localhost among them, the general validator accepts the URL whose
  -- hostname is this name with a dot at its end, which names the same host: where the scheme is http or
  -- https, and the name with its dot is in lower case and is no address for `ipaddress` and no number.
  pub validate-dotted :
      (url : String) (parsed : ParsedUrl) (name : String)
      → str_eq url "" ≡ false
      → str_eq (texts.strip url) "" ≡ false
      → texts.urlparse (texts.strip url) ≡ some parsed
      → (str_eq (texts.lower parsed.scheme) "http" || str_eq (texts.lower parsed.scheme) "https")
        ≡ true
      → parsed.hostname ≡ some (name ⧺ ".")
      → any (str_eq name) dangerous_hostnames ≡ true
      → texts.lower (name ⧺ ".") ≡ name ⧺ "."
      → texts.ip_address (name ⧺ ".") ≡ none
      → texts.is_digit (name ⧺ ".") ≡ false
      → validate texts (general_validator texts) (some url) false ≡ accepted
  unfolding validate check_parsed check_hostname check_ip_address other_forms new_validator
  validate-dotted url parsed name given full e scheme f dangerous lower unknown letters =
      let (safe, no_parts, hex, hex', bare, named) =
        All-any Dotted dangerous_hostnames name dangerous_hostnames-Dotted dangerous in
      let no_address : try_parse_ip texts (name ⧺ ".") ≡ none =
        try_parse_ip-other (name ⧺ ".") unknown bare
        ∙ rw no_parts (rw hex (rw hex' (rw letters refl))) in
      let judged : check_hostname texts (general_validator texts) false (name ⧺ ".") ≡ accepted =
        rw safe (ground (arith, no_address)) in
      rw given (rw full (rw e (rw scheme (rw f (rw named (rw lower judged))))))
