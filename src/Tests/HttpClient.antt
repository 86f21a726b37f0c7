-- ===== src/Tests/HttpClient.antt =====
-- The cache of persista/http/httpx/client.py before a network that has its replies in store.
use persista.Store.Conflicts.{member}
use persista.Common.{
  ℕ, pos, true, false, String, text_keys, none, some, [], ◌∷◌, ◌≡◌, refl, Result, ok, err,
  decoding_error, arith,
}
use persista.Dict
use persista.Dict.Laws
use persista.Dict.{Dict}
use persista.Store.Batching.{chunks}
use persista.Store.Base.{BaseStore, IsStore}
use persista.Store.Types.{Object}
use persista.Store.InMemory.{InMemoryStore}
use persista.Store.InMemory.Laws.{view}
use persista.Store.InMemory.Contract.{in_memory, in_memory-IsStore}
use persista.Cache.{resolve_ttl}
use persista.Cache.Types.{Value, null, unset}
use persista.Cache.Spec.{Entries, live, Holds}
use persista.Cache.Expiry.{is_alive}
use persista.Cache.Keys.{Serializers}
use persista.Http.{response}
use persista.Http.Retry.{default_retry_status_codes}
use persista.Http.HttpClient.{
  Stored, Overrides, HttpClient, Context, is_cacheable, key_if, request, send,
}
use persista.Http.HttpClient.Hits.{
  IsHttpx, IsDecoding, both, sent, request_twice, request_undecodable,
}
use persista.Http.HttpClient.Laws.{request_timeout}
use persista.Tests.Network.{
  Content, Network, Response, busy, fine, is_encoded, make, network, zipped, with_length,
}

-- arguments are texts, and every one can be serialized
abbrev serializers : Serializers String String
serializers = record {
  json_value = λ v. ok v;
  json_call = λ name args kwargs. ok name;
  pickle_value = λ v. ok v;
  pickle_call = λ name args kwargs. ok name;
  hash_bytes = λ raw. raw;
  json_cached = λ v. none;
  pickle_cached = λ v. none;
}

abbrev context : Context network String String
context = record { upper = λ text. text; serializers = serializers; kwargs_of = λ kwargs. tt }

abbrev StoredValue : Type 0
StoredValue = Value (Stored Content)

-- `==` on cached values is not used by a cache
instance abbrev stored_object : Object StoredValue
stored_object = record { none_value = null; equals = λ a b. false }

abbrev store : BaseStore StoredValue
store = in_memory chunks

abbrev law : IsStore store view
law = in_memory-IsStore chunks

abbrev empty_store : InMemoryStore StoredValue
empty_store = record { entries = []; closed = false }

abbrev no_entries : Entries (Stored Content)
no_entries k = none

empty_store-Holds : Holds law empty_store no_entries
unfolding Dict.get
empty_store-Holds = record { is_open = refl; holds = λ k. ground arith }

abbrev cached_client : HttpClient (Unit {0})
cached_client = record {
  client = tt;
  timeout = 10;
  max_retries = pos 3;
  retry_status_codes = default_retry_status_codes;
  cache = some none;
  cacheable_methods = "GET" ∷ [];
}

abbrev defaults : Overrides
defaults = record { timeout = none; max_retries = none; retry_status_codes = none }

keyed :
    key_if network context (is_cacheable network context cached_client "GET") "GET" "u" []
    ≡ ok (some "GET u")
unfolding key_if member
keyed = refl

missing : live 3 (no_entries "GET u") ≡ none
unfolding live
missing = refl

accepted : resolve_ttl none unset ≡ ok none
unfolding resolve_ttl
accepted = refl

alive : is_alive 4 none 9 ≡ true
unfolding is_alive
alive = refl

-- a network that has two replies, the second of which is an error
abbrev serves : Response → Network
serves r = record { replies = response r ∷ response busy ∷ []; requests = 0; sleeps = [] }

first_of : Response → Result Response × (Network × InMemoryStore StoredValue)
unfolding sent
first_of r =
    sent network context context store law empty_store no_entries empty_store-Holds cached_client 3
      4 9 10 "GET" "u" defaults defaults [] "GET u" none (serves r) r refl keyed keyed missing
      accepted alive

fine_first : (first_of fine).0 ≡ ok fine
unfolding first_of sent send
fine_first = refl

zipped_first : (first_of zipped).0 ≡ ok zipped
unfolding first_of sent send
zipped_first = refl

make_plain :
    (status : ℕ) (headers : Dict String String) (content : Content)
    → Dict.get headers "content-encoding" ≡ none
    → make status headers content
      ≡ ok (record { status = status; headers = with_length headers; content = content })
unfolding make
make_plain status headers content plain = rw (make, plain) refl

get-with_length :
    (headers : Dict String String) (name value : String)
    → Dict.get headers name ≡ some value
    → Dict.get (with_length headers) name ≡ some value
unfolding with_length
get-with_length headers name value h = ground (
  arith,
  Laws.get-set headers "content-length" name "5",
  text_keys.test_iff "content-length" name,
)

make_undecodable :
    (status : ℕ) (headers : Dict String String) (content : Content) (encoding : String)
    → Dict.get headers "content-encoding" ≡ some encoding
    → is_encoded encoding content ≡ false
    → make status headers content ≡ err decoding_error
unfolding make
make_undecodable status headers content encoding named decoded = rw (make, named, decoded) refl

laws : IsHttpx network
laws = record {
  made = λ status headers content plain. (
    record { status = status; headers = with_length headers; content = content },
    make_plain status headers content plain,
    refl,
    get-with_length headers,
    refl,
  );
}

decoding : IsDecoding network
decoding = record { is_encoded = is_encoded; undecodable = make_undecodable }

fine_plain : Dict.get fine.headers "content-encoding" ≡ none
unfolding Dict.get
fine_plain = refl

zipped_named : Dict.get zipped.headers "content-encoding" ≡ some "gzip"
unfolding Dict.get
zipped_named = refl

-- a request, and the same request again
abbrev twice : Response → Result Response × (Network × InMemoryStore StoredValue)
twice r =
    request network context store cached_client 9 10 "GET" "u" defaults []
      (request network context store cached_client 3 4 "GET" "u" defaults []
        (serves r, empty_store)).1

request_twice_example :
    (r' : Response) × ((twice fine).0 ≡ ok r')
    × ((twice fine).1.0 ≡ (first_of fine).1.0)
    × (r'.status ≡ 200)
    × ((name value : String)
        → Dict.get fine.headers name ≡ some value
        → Dict.get r'.headers name ≡ some value)
    × (r'.content ≡ fine.content)
unfolding both first_of
request_twice_example =
    request_twice network context context store law empty_store no_entries empty_store-Holds
      cached_client 3 4 9 10 "GET" "u" defaults defaults [] "GET u" none (serves fine) fine refl
      keyed keyed missing accepted alive fine_first refl laws fine_plain

request_undecodable_example : (twice zipped).0 ≡ err decoding_error
unfolding both first_of decoding is_encoded
request_undecodable_example =
    request_undecodable network context context store law empty_store no_entries empty_store-Holds
      cached_client 3 4 9 10 "GET" "u" defaults defaults [] "GET u" none (serves zipped) zipped refl
      keyed keyed missing accepted alive zipped_first refl decoding "gzip" zipped_named refl

request_timeout_example :
    request network context store
      (record cached_client { timeout = 1 })
      3
      4
      "GET"
      "u"
      (record defaults { timeout = some 2 })
      []
      (serves fine, empty_store)
    ≡ request network context store cached_client 3 4 "GET" "u" defaults []
        (serves fine, empty_store)
request_timeout_example =
    request_timeout network context store cached_client defaults 1 (some 2) 3 4 "GET" "u" []
      (serves fine, empty_store)
