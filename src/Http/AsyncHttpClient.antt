-- ===== src/Http/AsyncHttpClient.antt =====
-- `AsyncHttpClient` of persista/http/httpx/client.py, whose text is that of `HttpClient` with `await`
-- at the calls of the cache and of send_request_async. Awaited calls run one after the other, with no
-- other task between them.
use persista.Common.{ℕ, ℤ, String, List, Option, Exec}
use persista.Dict.{Dict}
use persista.Store.Base.{BaseStore}
use persista.Cache.Types.{Value}
use persista.Http.{Httpx}
use persista.Http.HttpClient
use persista.Http.HttpClient.{Stored, Overrides, Context, Requests}

abbrev pub AsyncHttpClient : Type 0 → Type 0
AsyncHttpClient = HttpClient.HttpClient

module _ (x : Httpx) {P Raw : Type 0} (context : Context x P Raw) where
  -- __init__
  unfoldable pub init :
      x.Client → ℕ → ℤ → List ℕ → Option (Option ℤ) → List String → AsyncHttpClient x.Client
  unfolding HttpClient.init
  init = HttpClient.init x context

  module _ (b : BaseStore (Value (Stored x.Content))) (c : AsyncHttpClient x.Client) where
    unfoldable pub request :
        ℕ → ℕ → String → String → Overrides → Dict String P → Exec (x.World × b.State) x.Response
    unfolding HttpClient.request
    request = HttpClient.request x context b c

    unfoldable pub get : Requests x context b c
    unfolding request
    get now later = request now later "GET"

    unfoldable pub post : Requests x context b c
    unfolding request
    post now later = request now later "POST"

    unfoldable pub put : Requests x context b c
    unfolding request
    put now later = request now later "PUT"

    unfoldable pub patch : Requests x context b c
    unfolding request
    patch now later = request now later "PATCH"

    unfoldable pub delete : Requests x context b c
    unfolding request
    delete now later = request now later "DELETE"
