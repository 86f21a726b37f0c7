-- ===== src/Store/Uri.antt =====
-- persista/store/uri.py. The functions of urllib.parse are an interface, with what is used of them as
-- laws.
use persista.Common.{
  Bool, true, String, text_keys, ◌==◌, ==_refl, ◌≡◌, Result, ok, err, value_error, if◌then◌else◌,
  ◌∙◌, ap,
}
use Prim.Native.String as Text

-- the scheme, the netloc and the path of urlsplit
pub record Parts : Type 0 where
  pub scheme : String
  pub netloc : String
  pub path : String

pub record Urls : Type 0 where
  -- urlsplit(uri), and urlunsplit((scheme, "", path, "", ""))
  pub urlsplit : String → Result Parts
  pub urlunsplit : String → String → String
  -- quote(path, safe="/")
  pub quote : String → String
  pub unquote : String → String

-- A uri that was joined of a scheme and a quoted path is split into them, if they are plain: then the
-- scheme is in lower case, and the path does not look as if it had a netloc.
pub record IsUrls (urls : Urls) (is_plain : String → String → Bool) : Type 0 where
  pub joined :
      (scheme path : String)
      → is_plain scheme (urls.quote path) ≡ true
      → (parts : Parts) × (urls.urlsplit (urls.urlunsplit scheme (urls.quote path)) ≡ ok parts)
        × (parts.scheme ≡ scheme)
        × (Text.◌++◌ parts.netloc parts.path ≡ urls.quote path)
  pub unquoted : (path : String) → urls.unquote (urls.quote path) ≡ path

module _ (urls : Urls) where
  unfoldable pub encode_path_uri : String → String → String
  encode_path_uri scheme path = urls.urlunsplit scheme (urls.quote path)

  unfoldable pub decode_path_uri : String → String → Result String
  decode_path_uri uri expected_scheme = elim (urls.urlsplit uri) [
    | err e ↦ err e
    | ok parts ↦
        if parts.scheme == expected_scheme
        then ok (urls.unquote (Text.◌++◌ parts.netloc parts.path))
        else err value_error
  ]

  module _ {is_plain : String → String → Bool} (laws : IsUrls urls is_plain) where
    pub decode-encode :
        (scheme path : String)
        → is_plain scheme (urls.quote path) ≡ true
        → decode_path_uri (encode_path_uri scheme path) scheme ≡ ok path
    unfolding decode_path_uri encode_path_uri
    decode-encode scheme path plain =
        let j = laws.joined scheme path plain in
        rw (decode_path_uri, encode_path_uri, j.1, j.2, ==_refl scheme)
          (ap ok (ap urls.unquote j.3 ∙ laws.unquoted path))
