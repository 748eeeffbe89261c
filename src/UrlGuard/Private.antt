-- ===== src/UrlGuard/Private.antt =====
-- The private ranges, read as octets.
use xzcccc_smart_media.Base.{ℕ, ◌<◌, ◌≡◌, Bool, false, leb, ◌&&◌, ◌||◌, ◌==◌, any, arith}
use xzcccc_smart_media.UrlGuard.Address.{in_network, octets, is_private_v4}

-- 10.*, 172.16.* to 172.31.*, 192.168.*, 127.*, 169.254.* and 0.*
abbrev pub private_octets : ℕ → ℕ → Bool
private_octets a b =
    a == 10
    || (a == 172 && leb 16 b && leb b 31)
    || (a == 192 && b == 168)
    || a == 127
    || (a == 169 && b == 254)
    || a == 0

-- A network of whole first octets.
in_network-first :
    (n a b c d : ℕ)
    → b < 256
    → c < 256
    → d < 256
    → in_network (octets a b c d) (octets n 0 0 0, 16777216) ≡ (a == n)
in_network-first n a b c d hb hc hd = ground arith

in_network-second :
    (n m a b c d : ℕ)
    → b < 256
    → c < 256
    → d < 256
    → m < 256
    → in_network (octets a b c d) (octets n m 0 0, 65536) ≡ (a == n && b == m)
in_network-second n m a b c d hb hc hd hm = ground arith

six_tests :
    (p q r s t u p' q' r' s' t' u' : Bool)
    → p ≡ p'
    → q ≡ q'
    → r ≡ r'
    → s ≡ s'
    → t ≡ t'
    → u ≡ u'
    → (p || (q || (r || (s || (t || (u || false)))))) ≡ (p' || q' || r' || s' || t' || u')
six_tests p q r s t u p' q' r' s' t' u' hp hq hr hs ht hu = ground arith

-- An IPv4 address is private for the validator exactly when its first two octets say so.
pub is_private_v4-octets :
    (a b c d : ℕ)
    → b < 256
    → c < 256
    → d < 256
    → is_private_v4 (octets a b c d) ≡ private_octets a b
unfolding is_private_v4 any
is_private_v4-octets a b c d hb hc hd =
    let twelve : in_network (octets a b c d) (octets 172 16 0 0, 1048576)
        ≡ (a == 172 && leb 16 b && leb b 31) =
      ground arith in
    six_tests _ _ _ _ _ _ _ _ _ _ _ _ (in_network-first 10 a b c d hb hc hd) twelve
      (in_network-second 192 168 a b c d hb hc hd (omega arith))
      (in_network-first 127 a b c d hb hc hd)
      (in_network-second 169 254 a b c d hb hc hd (omega arith))
      (in_network-first 0 a b c d hb hc hd)
