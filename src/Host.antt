-- ===== src/Host.antt =====
-- What the browser gives the program: the WHATWG `URL` parser, as a parameter, and the fields of a
-- parsed URL that the program reads. `is_http_url` is the helper that ext/viewer-url.mjs and
-- shim/bridge.mjs both declare.
use browsception.Prelude.{Text, codes, text_eq, Bool, false, ◌||◌, Option, none, some}

pub record Url : Type 0 where
  pub href : Text
  pub protocol : Text
  pub username : Text
  pub password : Text
  pub hostname : Text
  pub port : Text

-- `new URL(s)`: `none` where the constructor throws.
abbrev pub UrlParser : Type 0
UrlParser = Text → Option Url

abbrev pub http_protocol : Text
http_protocol = codes "http:"

abbrev pub https_protocol : Text
https_protocol = codes "https:"

unfoldable pub has_http_scheme : Url → Bool
has_http_scheme u = text_eq u.protocol http_protocol || text_eq u.protocol https_protocol

unfoldable pub is_http_url : UrlParser → Text → Bool
is_http_url parse url = elim (parse url) [ none ↦ false | some u ↦ has_http_scheme u ]
