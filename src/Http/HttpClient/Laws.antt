-- ===== src/Http/HttpClient/Laws.antt =====
-- What the cache of persista/http/httpx/client.py answers in place of the network.
use persista.Common.{ℕ, ℤ, String, text_keys, Option, none, some, ◌≡◌, refl, ap}
use persista.Common.Actions.{continue}
use persista.Dict.{Dict}
use mathlib.Core.Path.{fun_ext}
use persista.Store.Base.{BaseStore}
use persista.Cache.Types.{Value, null, time, obj}
use persista.Cache
use persista.Cache.{resolve_ttl}
use persista.Http.{Httpx}
use persista.Http.HttpClient.{
  Stored, Overrides, HttpClient, Context, key_if, is_cacheable, answer, request_keyed, request,
}

module _ (x : Httpx) {P Raw : Type 0} (context : Context x P Raw)
    (b : BaseStore (Value (Stored x.Content))) where
  module _ (c : HttpClient x.Client) (o : Overrides) (t : ℕ) (u : Option ℕ) where
    -- the same client and overrides with other timeouts
    abbrev retimed : HttpClient x.Client
    retimed = record c { timeout = t }

    abbrev overrides : Overrides
    overrides = record o { timeout = u }

    answer_timeout :
        (default_ttl : Option ℤ) (later : ℕ) (key method url : String) (kwargs : Dict String P)
        (v : Value (Stored x.Content)) (state : x.World × b.State)
        → answer x context b retimed default_ttl later key method url overrides kwargs v state
          ≡ answer x context b c default_ttl later key method url o kwargs v state
    unfolding answer
    answer_timeout default_ttl later key method url kwargs null state = refl
    answer_timeout default_ttl later key method url kwargs (time n) state = refl
    answer_timeout default_ttl later key method url kwargs (obj e) state = refl

    keyed_timeout :
        (now later : ℕ) (cache : Option (Option ℤ)) (key : Option String) (method url : String)
        (kwargs : Dict String P) (state : x.World × b.State)
        → request_keyed x context b retimed now later cache key method url overrides kwargs state
          ≡ request_keyed x context b c now later cache key method url o kwargs state
    unfolding request_keyed
    keyed_timeout now later none key method url kwargs state = refl
    keyed_timeout now later (some d) none method url kwargs state = refl
    keyed_timeout now later (some d) (some key) method url kwargs (w, s) =
        ap (λ f. continue (Cache.get b now key null s).0 (w, (Cache.get b now key null s).1) f)
          (fun_ext (λ v. fun_ext (λ state. answer_timeout d later key method url kwargs v state)))

    -- The timeouts of a client and of its requests make no difference, since its requests are sent
    -- with a client that is given.
    pub request_timeout :
        (now later : ℕ) (method url : String) (kwargs : Dict String P) (state : x.World × b.State)
        → request x context b
            (record c { timeout = t })
            now
            later
            method
            url
            (record o { timeout = u })
            kwargs
            state
          ≡ request x context b c now later method url o kwargs state
    unfolding request
    request_timeout now later method url kwargs state =
        ap
          (λ f.
            continue
              (key_if x context (is_cacheable x context c (context.upper method))
                (context.upper method) url kwargs)
              state f)
          (fun_ext (λ key. fun_ext (λ state'.
            keyed_timeout now later c.cache key (context.upper method) url kwargs state')))
