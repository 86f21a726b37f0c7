-- ===== src/Http.antt =====
-- persista/http/httpx: the client library httpx, which is not part of the program, as an interface.
-- `World` is all that the calls act on: the network, the clients and the clock.
pub mod Retry
pub mod Methods
pub mod HttpClient
pub mod AsyncHttpClient
use persista.Common.{ℕ, Bool, String, Option, List, Result, Exec, Error}
use persista.Dict.{Dict}

-- what a request ends with: a response, `httpx.TransportError`, or another exception
pub data Reply (R : Type 0) : Type 0 where
  response : R → Reply R
  lost : Reply R
  raises : Error → Reply R

pub record Httpx : Type 1 where
  pub World : Type 0
  pub Client : Type 0
  pub Response : Type 0
  pub Kwargs : Type 0
  pub Content : Type 0
  pub Seconds : Type 0
  -- httpx.Client(timeout=timeout), client.request(method, url, **kwargs), client.close()
  pub new_client : ℕ → World → Client × World
  pub request : Client → String → String → Kwargs → World → Reply Response × World
  pub close_client : Client → World → World
  -- kwargs.setdefault("timeout", timeout)
  pub default_timeout : ℕ → Kwargs → Kwargs
  -- response.status_code, .headers.get("Retry-After"), .raise_for_status(), .is_success
  pub status_code : Response → ℕ
  pub retry_after : Response → Option String
  pub raise_for_status : Response → Result (Unit {0})
  pub is_success : Response → Bool
  -- dict(response.headers), response.content, and httpx.Response(...) of the three
  pub headers : Response → Dict String String
  pub content : Response → Content
  pub make_response : ℕ → Dict String String → Content → Result Response
  -- time.sleep, float(text) if it is a number, and the number of a natural number
  pub sleep : Seconds → Exec World (Unit {0})
  pub float_of : String → Option Seconds
  pub seconds : ℕ → Seconds
