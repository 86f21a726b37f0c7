-- ===== src/Http/HttpClient.antt =====
-- `HttpClient` of persista/http/httpx/client.py: `send_request` with a cache before it. The cached
-- value is a dict of the three parts of a response; base64 keeps the content, so it stands for itself.
pub mod Laws
pub mod Hits
use persista.Common.{
  ℕ, ℤ, Bool, true, false, String, text_keys, Option, none, some, List, [], ◌∷◌, map, ◌&&◌, Result,
  ok, err, type_error, Exec, pure, lift, ◌>>=◌, ◌>>◌, if◌then◌else◌,
}
use Prim.Native.String as Text
use persista.Dict.{Dict}
use persista.Store.Base.{BaseStore}
use persista.Store.Conflicts.{member}
use persista.Cache
use persista.Cache.Types.{Value, null, time, obj, Ttl, unset}
use persista.Cache.Keys.{Serializers, make_key}
use persista.Http.{Httpx}
use persista.Http.Retry.{send_request}
use persista.Http.Methods.{send_request_async}

-- {"status_code": ..., "headers": ..., "content": ...}
pub record Stored (Content : Type 0) : Type 0 where
  pub status_code : ℕ
  pub headers : Dict String String
  pub content : Content

-- What one request is sent with: the overrides of the defaults, and the other keyword arguments.
pub record Overrides : Type 0 where
  pub timeout : Option ℕ
  pub max_retries : Option ℤ
  pub retry_status_codes : Option (List ℕ)

-- The attributes of a client, without the cache's own: `cache` has the cache's default ttl, if there
-- is a cache.
pub record HttpClient (Client : Type 0) : Type 0 where
  pub client : Client
  pub timeout : ℕ
  pub max_retries : ℤ
  pub retry_status_codes : List ℕ
  pub cache : Option (Option ℤ)
  pub cacheable_methods : List String

-- override if override is not None else default
abbrev pub or_default : {A : Type 0} → Option A → A → A
or_default none default = default
or_default (some override) default = override

-- The rest of the environment: `str.upper`, and how keyword arguments are handed on.
pub record Context (x : Httpx) (P Raw : Type 0) : Type 0 where
  pub upper : String → String
  pub serializers : Serializers P Raw
  pub kwargs_of : Dict String P → x.Kwargs

module _ (x : Httpx) where
  -- _response_to_entry
  unfoldable pub response_to_entry : x.Response → Stored x.Content
  response_to_entry r = record {
    status_code = x.status_code r;
    headers = x.headers r;
    content = x.content r;
  }

  -- _entry_to_response
  unfoldable pub entry_to_response : Stored x.Content → Result x.Response
  entry_to_response entry = x.make_response entry.status_code entry.headers entry.content

module _ {S T : Type 0} where
  -- an action on one of two states
  abbrev pub on_first : {R : Type 0} → Exec S R → Exec (S × T) R
  on_first m (s, t) = ((m s).0, ((m s).1, t))

  abbrev pub on_second : {R : Type 0} → Exec T R → Exec (S × T) R
  on_second m (s, t) = ((m t).0, (s, (m t).1))

module _ (x : Httpx) {P Raw : Type 0} (context : Context x P Raw) where
  open context use {upper, serializers, kwargs_of}

  -- __init__
  unfoldable pub init :
      x.Client → ℕ → ℤ → List ℕ → Option (Option ℤ) → List String → HttpClient x.Client
  init client timeout max_retries codes cache cacheable_methods = record {
    client = client;
    timeout = timeout;
    max_retries = max_retries;
    retry_status_codes = codes;
    cache = cache;
    cacheable_methods = map upper cacheable_methods;
  }

  -- _cache_key
  unfoldable pub cache_key : String → String → Dict String P → Result String
  unfolding make_key
  cache_key method url kwargs =
      make_key serializers (Text.◌++◌ (upper method) (Text.◌++◌ " " url)) [] kwargs "json" true

  -- _cache_key(method, url, kwargs) if cacheable else None
  unfoldable pub key_if : Bool → String → String → Dict String P → Result (Option String)
  unfolding cache_key
  key_if false method url kwargs = ok none
  key_if true method url kwargs = elim (cache_key method url kwargs) [
    | err e ↦ err e
    | ok key ↦ ok (some key)
  ]

  -- cache is not None and method in self._cacheable_methods
  abbrev pub is_cacheable : HttpClient x.Client → String → Bool
  is_cacheable c method = elim c.cache [
    | none ↦ false
    | some default_ttl ↦ member c.cacheable_methods method
  ]

  module _ (b : BaseStore (Value (Stored x.Content))) (c : HttpClient x.Client) where
    -- the call of send_request
    unfoldable pub send :
        String → String → Overrides → Dict String P → Exec (x.World × b.State) x.Response
    unfolding send_request
    send method url o kwargs = on_first (
        send_request x method url (or_default o.timeout c.timeout)
          (or_default o.max_retries c.max_retries)
          (or_default o.retry_status_codes c.retry_status_codes) (some c.client) (kwargs_of kwargs))

    -- if ... response.is_success: cache.set(key, _response_to_entry(response))
    unfoldable pub keep : Option ℤ → ℕ → String → x.Response → Exec (x.World × b.State) x.Response
    unfolding response_to_entry
    keep default_ttl later key r =
        if x.is_success r
        then (do
          on_second (Cache.set b default_ttl later key (obj (response_to_entry x r)) unset)
          pure r)
        else pure r

    -- what follows the lookup
    unfoldable pub answer :
        Option ℤ
        → ℕ
        → String
        → String
        → String
        → Overrides
        → Dict String P
        → Value (Stored x.Content)
        → Exec (x.World × b.State) x.Response
    unfolding send keep entry_to_response
    answer default_ttl later key method url o kwargs null = do
      r ← send method url o kwargs
      keep default_ttl later key r
    answer default_ttl later key method url o kwargs (time t) = lift (err type_error)
    answer default_ttl later key method url o kwargs (obj entry) = lift (entry_to_response x entry)

    -- `request` with the method in upper case and its key. A cache that has no entry answers None.
    unfoldable pub request_keyed :
        ℕ
        → ℕ
        → Option (Option ℤ)
        → Option String
        → String
        → String
        → Overrides
        → Dict String P
        → Exec (x.World × b.State) x.Response
    unfolding answer send
    request_keyed now later (some default_ttl) (some key) method url o kwargs = do
      value ← on_second (Cache.get b now key null)
      answer default_ttl later key method url o kwargs value
    request_keyed now later _ _ method url o kwargs = send method url o kwargs

    -- `request`, at the times that the two calls of the cache read
    unfoldable pub request :
        ℕ → ℕ → String → String → Overrides → Dict String P → Exec (x.World × b.State) x.Response
    unfolding key_if request_keyed
    request now later method url o kwargs = do
      key ← lift (key_if (is_cacheable c (upper method)) (upper method) url kwargs)
      request_keyed now later c.cache key (upper method) url o kwargs

    -- what the methods for one HTTP method are handed
    abbrev pub Requests : Type 0
    Requests = ℕ → ℕ → String → Overrides → Dict String P → Exec (x.World × b.State) x.Response

    unfoldable pub get : Requests
    unfolding request
    get now later = request now later "GET"

    unfoldable pub post : Requests
    unfolding request
    post now later = request now later "POST"

    unfoldable pub put : Requests
    unfolding request
    put now later = request now later "PUT"

    unfoldable pub patch : Requests
    unfolding request
    patch now later = request now later "PATCH"

    unfoldable pub delete : Requests
    unfolding request
    delete now later = request now later "DELETE"
