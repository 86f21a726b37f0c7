-- ===== src/Http/HttpClient/Hits.antt =====
-- The second of two equal requests of persista/http/httpx/client.py: what the cache answers.
use persista.Store.Spec.{View}
use persista.Common.{
  ℕ, ℤ, Bool, true, false, String, text_keys, Option, none, some, ◌≡◌, refl, Result, ok, err,
  decoding_error, arith, ◌∙◌,
}
use persista.Dict
use persista.Dict.{Dict}
use persista.Store.Base.{BaseStore, IsStore}
use persista.Cache.Types.{Value, null, obj, unset}
use persista.Cache.Spec.{Entries, Holds, live}
use persista.Cache
use persista.Cache.{resolve_ttl}
use persista.Cache.Refines.{get-Answers, set-Answers}
use persista.Cache.Expiry.{is_alive, get-set_self}
use persista.Http.{Httpx}
use persista.Http.HttpClient.{
  Stored, Overrides, HttpClient, Context, response_to_entry, entry_to_response, key_if,
  is_cacheable, send, keep, answer, request_keyed, request,
}

-- What is used of httpx.Response: if the headers name no content encoding, it has the status and the
-- content that it is made of, and the headers, to which it may add others.
pub record IsHttpx (x : Httpx) : Type 0 where
  pub made :
      (status : ℕ) (headers : Dict String String) (content : x.Content)
      → Dict.get headers "content-encoding" ≡ none
      → (r : x.Response) × (x.make_response status headers content ≡ ok r)
        × (x.status_code r ≡ status)
        × ((name value : String)
            → Dict.get headers name ≡ some value
            → Dict.get (x.headers r) name ≡ some value)
        × (x.content r ≡ content)

-- It decodes its content, which fails if that is not in the encoding that the headers name.
pub record IsDecoding (x : Httpx) : Type 0 where
  pub is_encoded : String → x.Content → Bool
  pub undecodable :
      (status : ℕ) (headers : Dict String String) (content : x.Content) (encoding : String)
      → Dict.get headers "content-encoding" ≡ some encoding
      → is_encoded encoding content ≡ false
      → x.make_response status headers content ≡ err decoding_error

module _ (x : Httpx) {P Raw : Type 0} (context context' : Context x P Raw)
    (b : BaseStore (Value (Stored x.Content))) {view : b.State → View (Value (Stored x.Content))}
    (h : IsStore b view) (s : b.State) (entries : Entries (Stored x.Content))
    (rep : Holds h s entries) (c : HttpClient x.Client) (now later again last : ℕ)
    (method url : String) (o o' : Overrides) (kwargs : Dict String P) (key : String)
    (default_ttl : Option ℤ) {resolved_ttl : Option ℤ} (w : x.World) (r : x.Response)
    (cached : c.cache ≡ some default_ttl)
    (keyed : key_if x context
        (is_cacheable x context c (context.upper method))
        (context.upper method)
        url
        kwargs
      ≡ ok (some key))
    (keyed' : key_if x context'
        (is_cacheable x context' c (context'.upper method))
        (context'.upper method)
        url
        kwargs
      ≡ ok (some key))
    (miss : live now (entries key) ≡ none)
    (accepted : resolve_ttl default_ttl unset ≡ ok resolved_ttl)
    (alive : is_alive later resolved_ttl again ≡ true) where
  -- the state after the lookup that misses
  unfoldable pub s1 : b.State
  s1 = (Cache.get b now key null s).1

  -- the sending of the first request, which succeeds
  unfoldable pub sent : Result x.Response × (x.World × b.State)
  sent = send x context b c (context.upper method) url o kwargs (w, s1)

  first_misses : Cache.get b now key null s ≡ (ok null, s1)
  unfolding s1 live
  first_misses =
      let got = get-Answers b h s entries rep now key null in ground (arith, got.result, miss)

  value : Value (Stored x.Content)
  value = obj (response_to_entry x r)

  module _ (responded : sent.0 ≡ ok r) (success : x.is_success r ≡ true) where
    stores :
        Cache.set b default_ttl later key value unset s1
        ≡ (ok tt, (Cache.set b default_ttl later key value unset s1).1)
    unfolding s1
    stores =
        let got = get-Answers b h s entries rep now key null in
        let set = set-Answers b h s1 _ got.leaves default_ttl later key value unset accepted in
        ground (arith, set.result)

    first :
        request x context b c now later method url o kwargs (w, s)
        ≡ (ok r, (sent.1.0, (Cache.set b default_ttl later key value unset s1).1))
    unfolding request request_keyed answer keep sent send value
    first =
        rw (request, keyed, cached, request_keyed, first_misses, responded, success, stores) refl

    reads :
        (Cache.get b again key null (Cache.set b default_ttl later key value unset s1).1).0
        ≡ ok value
    unfolding s1
    reads =
        let got = get-Answers b h s entries rep now key null in
        ground (
          arith,
          get-set_self b h s1 _ got.leaves default_ttl later key value unset accepted again null,
          alive,
        )

    -- what the two requests leave
    unfoldable pub both : Result x.Response × (x.World × b.State)
    both =
        request x context' b c again last method url o' kwargs
          (request x context b c now later method url o kwargs (w, s)).1

    both-answers : (both.0 ≡ entry_to_response x (response_to_entry x r)) × (both.1.0 ≡ sent.1.0)
    unfolding both request answer value
    both-answers = (
      rw (first, request, keyed', cached, request_keyed, reads) refl,
      rw (first, request, keyed', cached, request_keyed, reads) refl,
    )

    pub request_twice :
        IsHttpx x
        → Dict.get (x.headers r) "content-encoding" ≡ none
        → (r' : x.Response) × (both.0 ≡ ok r')
          × (both.1.0 ≡ sent.1.0)
          × (x.status_code r' ≡ x.status_code r)
          × ((name value : String)
              → Dict.get (x.headers r) name ≡ some value
              → Dict.get (x.headers r') name ≡ some value)
          × (x.content r' ≡ x.content r)
    unfolding entry_to_response response_to_entry
    request_twice laws plain =
        let m = laws.made (x.status_code r) (x.headers r) (x.content r) plain in
        (m.0, both-answers.0 ∙ m.1, both-answers.1, m.2, m.3, m.4)

    -- In the same case, but where the headers name an encoding that the content is not in, as it has
    -- been decoded, the request made again raises a decoding error.
    pub request_undecodable :
        (laws : IsDecoding x) (encoding : String)
        → Dict.get (x.headers r) "content-encoding" ≡ some encoding
        → laws.is_encoded encoding (x.content r) ≡ false
        → both.0 ≡ err decoding_error
    unfolding entry_to_response response_to_entry
    request_undecodable laws encoding named decoded =
        both-answers.0
        ∙ laws.undecodable (x.status_code r) (x.headers r) (x.content r) encoding named decoded
