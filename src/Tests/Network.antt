-- ===== src/Tests/Network.antt =====
-- A network for the tests of persista/http/httpx that has its replies in store.
use persista.Common.{
  ℕ, zero, suc, Bool, false, String, text_keys, none, some, List, [], ◌∷◌, ◌++◌, Result, ok, err,
  decoding_error, http_status_error, ltb, if◌then◌else◌, ◌==◌,
}
use persista.Dict
use persista.Dict.{Dict}
use persista.Http.{Httpx, Reply, response, lost}

-- content, and whether it is in the encoding gzip
abbrev pub Content : Type 0
Content = Bool × String

pub record Response : Type 0 where
  pub status : ℕ
  pub headers : Dict String String
  pub content : Content

-- the replies to come, the number of requests so far, and what was slept
pub record Network : Type 0 where
  pub replies : List (Reply Response)
  pub requests : ℕ
  pub sleeps : List ℕ

abbrev pub nth : List (Reply Response) → ℕ → Reply Response
nth [] i = lost
nth (r ∷ rs) zero = r
nth (r ∷ rs) (suc i) = nth rs i

abbrev pub tail : List (Reply Response) → List (Reply Response)
tail [] = []
tail (r ∷ rs) = rs

unfoldable pub is_encoded : String → Content → Bool
is_encoded encoding c = c.0

-- the headers, with a length unless they have one
unfoldable pub with_length : Dict String String → Dict String String
unfolding Dict.get Dict.set
with_length headers = elim (Dict.get headers "content-length") [
  | none ↦ Dict.set headers "content-length" "5"
  | some length ↦ headers
]

unfoldable pub make : ℕ → Dict String String → Content → Result Response
unfolding is_encoded Dict.get with_length
make status headers content = elim (Dict.get headers "content-encoding") [
  | none ↦ ok (record { status = status; headers = with_length headers; content = content })
  | some encoding ↦
      if is_encoded encoding content
      then ok (record { status = status; headers = headers; content = (false, content.1) })
      else err decoding_error
]

abbrev pub network : Httpx
network = record {
  World = Network;
  Client = Unit {0};
  Response = Response;
  Kwargs = Unit {0};
  Content = Content;
  Seconds = ℕ;
  new_client = λ timeout w. (tt, w);
  request = λ client method url kwargs w. (
    nth w.replies 0,
    record { replies = tail w.replies; requests = suc w.requests; sleeps = w.sleeps },
  );
  close_client = λ client w. w;
  default_timeout = λ timeout kwargs. kwargs;
  status_code = λ r. r.status;
  retry_after = λ r. Dict.get r.headers "retry-after";
  raise_for_status = λ r. if ltb r.status 400 then ok tt else err http_status_error;
  is_success = λ r. ltb r.status 300;
  headers = λ r. r.headers;
  content = λ r. r.content;
  make_response = make;
  sleep = λ delay w. (
    ok tt,
    record { replies = w.replies; requests = w.requests; sleeps = w.sleeps ++ delay ∷ [] },
  );
  float_of = λ text. if text == "7" then some 7 else none;
  seconds = λ n. n;
}

abbrev pub busy : Response
busy = record { status = 503; headers = ("retry-after", "7") ∷ []; content = (false, "") }

abbrev pub fine : Response
fine = record { status = 200; headers = ("etag", "1") ∷ []; content = (false, "hello") }

abbrev pub zipped : Response
zipped = record {
  status = 200;
  headers = ("content-encoding", "gzip") ∷ [];
  content = (false, "hello");
}

-- one reply is lost, one says to come back later, and one is fine
abbrev pub unreliable : Network
unreliable = record {
  replies = lost ∷ response busy ∷ response fine ∷ [];
  requests = 0;
  sleeps = [];
}
