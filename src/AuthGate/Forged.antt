-- ===== src/AuthGate/Forged.antt =====
-- The dedicated Emby proxy of app/core/emby_proxy_request.py, and a Host header that the client makes up.
use Prim.Native.String.{◌++◌ as ◌⧺◌}
use xzcccc_smart_media.Base.{
  ◌≡◌, ◌≢◌, refl, [], true, false, if◌then◌else◌, String, str_eq, eq_iff, Option, some, arith,
}
use xzcccc_smart_media.AuthGate.Contract.{text_or_empty}
use xzcccc_smart_media.AuthGate.Proxy.{
  Url, HttpRequest, has_text, host_of, parse_host_port, is_dedicated_emby_proxy_request,
  is_emby_proxy_path, request_host_port,
}
use xzcccc_smart_media.AuthGate.Gate.{World, is_public_path, passed, dispatch}

-- The headers with this Host header.
abbrev pub with_host : String → (String → Option String) → String → Option String
with_host value header name = if str_eq name "host" then some value else header name

-- What the address of a request is taken to be, when its Host header has been replaced.
forged_host_port :
    (w : World) (r : HttpRequest) (value : String) (u : Url)
    → w.texts.strip value ≡ value
    → value ≢ ""
    → has_text "://" value ≡ false
    → w.urlparse (r.url.scheme ⧺ "://" ⧺ value) ≡ some u
    → u.port ≡ some (some 18097)
    → w.texts.lower (text_or_empty u.hostname) ≢ ""
    → request_host_port w.texts w.urlparse (record r { header = with_host value r.header })
      ≡ some (w.texts.lower (text_or_empty u.hostname), 18097)
unfolding request_host_port parse_host_port host_of
forged_host_port w r value u plain some_value bare parsed port named =
    let given : str_eq value "" ≡ false = ground (arith, eq_iff value "") in
    let host : str_eq (w.texts.lower (text_or_empty u.hostname)) "" ≡ false =
      ground (arith, eq_iff (w.texts.lower (text_or_empty u.hostname)) "") in
    simp (plain, given, bare, parsed, host, port) refl

-- Any request below the prefixes of the Emby proxy, `/api/emby/items` among them, passes once its Host
-- header is replaced by a text such as `media:18097`: one that strip leaves as it is, is not empty and
-- has no `://`, and in which urlparse finds, after the request's scheme and `://`, a host that is not
-- empty and the port 18097. So it is with every configuration, without a token, and on whichever port
-- the server was reached.
pub forged_host_passes :
    (w : World) (r : HttpRequest) (value : String) (u : Url)
    → is_emby_proxy_path w.texts r.path ≡ true
    → w.texts.strip value ≡ value
    → value ≢ ""
    → has_text "://" value ≡ false
    → w.urlparse (r.url.scheme ⧺ "://" ⧺ value) ≡ some u
    → u.port ≡ some (some 18097)
    → w.texts.lower (text_or_empty u.hostname) ≢ ""
    → dispatch w (record r { header = with_host value r.header }) ≡ (passed, [])
unfolding dispatch is_public_path is_dedicated_emby_proxy_request
forged_host_passes w r value u path plain some_value bare parsed port named =
    let address = forged_host_port w r value u plain some_value bare parsed port named in
    ground (arith, address, eq_iff (w.texts.lower (text_or_empty u.hostname)) "")
