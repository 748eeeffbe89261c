-- ===== src/UrlGuard/Tests.antt =====
-- Runs of the validator's code, and instances of its theorems.
use xzcccc_smart_media.Base.{
  ◌≡◌, refl, true, false, if◌then◌else◌, String, str_eq, none, some, any, arith,
}
use xzcccc_smart_media.UrlGuard.Address.{is_private_v4, is_private_v6, private_ipv6_ranges}
use xzcccc_smart_media.UrlGuard.Validator.{
  ParsedUrl, NetTexts, accepted, rejected, private_address, is_dangerous, has_suffix, validate,
  general_validator,
}
use xzcccc_smart_media.UrlGuard.Private.{private_octets}
use xzcccc_smart_media.UrlGuard.Accepted.{decimal, validate-Spells, validate-dotted}

-- A URL stands for its hostname here.
abbrev host_of_url : String → ParsedUrl
host_of_url url = record { scheme = "http"; hostname = some url }

abbrev sample_texts : NetTexts
sample_texts = record {
  strip = λ s. s;
  lower = λ s. s;
  is_digit = λ s. str_eq s "2130706433";
  int_of = λ base s. if str_eq s "2130706433" then some 2130706433 else none;
  urlparse = λ url. some (host_of_url url);
  ip_address = λ s. none;
  ip_text = λ ip. "";
}

-- ::1, fd00::1 and ::ffff:8.8.8.8 are private for the validator, 2001:db8::1 is not.
loopback_v6 : is_private_v6 1 ≡ true
unfolding is_private_v6 private_ipv6_ranges is_private_v4 any
loopback_v6 = refl

mapped_v6 : is_private_v6 281470816487432 ≡ true
unfolding is_private_v6 private_ipv6_ranges is_private_v4 any
mapped_v6 = refl

public_v6 : is_private_v6 42540766411282592856903984951653826561 ≡ false
unfolding is_private_v6 private_ipv6_ranges is_private_v4 any
public_v6 = refl

validate-Spells_example :
    validate sample_texts (general_validator sample_texts) (some "2130706433") false
    ≡ (if private_octets 127 0 then rejected private_address else accepted)
unfolding is_dangerous has_suffix any
validate-Spells_example =
    validate-Spells sample_texts "2130706433" (host_of_url "2130706433") "2130706433" 127 0 0 1 refl
      refl refl refl refl refl refl (omega arith) (omega arith) (omega arith)
      (decimal refl refl refl refl refl)

validate-dotted_example :
    validate sample_texts (general_validator sample_texts) (some "localhost.") false ≡ accepted
unfolding any
validate-dotted_example =
    validate-dotted sample_texts "localhost." (host_of_url "localhost.") "localhost" refl refl refl
      refl refl refl refl refl refl
