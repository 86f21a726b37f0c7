-- ===== src/Tests/Registry.antt =====
-- The registry of schemes, with uris of the form "file+json:" and the path.
use persista.Common.{
  Bool, true, false, String, text_keys, List, [], ◌∷◌, ◌==◌, ◌≡◌, refl, ok, err, pure, Exec,
  value_error, sym,
}
use Prim.Native.String.append
use persista.Dict
use persista.Store.Uri.{Urls, IsUrls}
use persista.Store.Registry.{
  StoreClass, schemes, Classes, register_scheme, store_from_uri, path_to_uri, path_from_uri,
  store_from_uri-path_to_uri,
}

-- every uri has the scheme "file+json", and the rest is its path
abbrev urls : Urls
urls = record {
  urlsplit = λ uri. ok (record { scheme = "file+json"; netloc = ""; path = uri });
  urlunsplit = λ scheme path. path;
  quote = λ path. path;
  unquote = λ path. path;
}

same_scheme : (scheme : String) → (scheme == "file+json") ≡ true → "file+json" ≡ scheme
same_scheme scheme h = sym ((text_keys.test_iff scheme "file+json").0 h)

urls-IsUrls : IsUrls urls (λ scheme path. scheme == "file+json")
urls-IsUrls = record {
  joined = λ scheme path plain. (
    record { scheme = "file+json"; netloc = ""; path = path },
    refl,
    same_scheme scheme plain,
    append.nil path,
  );
  unquoted = λ path. refl;
}

-- a store is its path, and the world is the list of those that are open
abbrev construct : String → Bool → Exec (List String) String
construct path read_only = pure path

abbrev classes : Classes StoreClass String (List String)
classes = record {
  from_uri = λ store_cls uri. path_from_uri urls construct "file+json" uri;
  open_store = λ path opened. (ok tt, path ∷ opened);
}

unknown : (store_from_uri urls classes [] "a" false []).0 ≡ err value_error
unfolding store_from_uri Dict.get
unknown = refl

store_from_uri-path_to_uri_example :
    store_from_uri urls classes
      (register_scheme "file+json" StoreClass.json_file_store schemes).1
      (path_to_uri urls "file+json" "data")
      false
      []
    ≡ (ok "data", "data" ∷ [])
store_from_uri-path_to_uri_example =
    store_from_uri-path_to_uri urls classes urls-IsUrls schemes "file+json" "data"
      StoreClass.json_file_store construct false [] refl (λ uri w. refl)
