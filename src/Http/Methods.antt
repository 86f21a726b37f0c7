-- ===== src/Http/Methods.antt =====
-- The functions of persista/http/httpx/method.py for one method each, and the async twins, whose text
-- is that of the sync functions with `await` at the request, the sleep and the close.
use persista.Common.{ℕ, ℤ, String, List, Option, Exec}
use persista.Http.{Httpx}
use persista.Http.Retry.{send_request}

module _ (x : Httpx) where
  -- what the functions for one method are handed beside the url
  abbrev pub Sends : Type 0
  Sends = String → ℕ → ℤ → List ℕ → Option x.Client → x.Kwargs → Exec x.World x.Response

  unfoldable pub get_response : Sends
  unfolding send_request
  get_response = send_request x "GET"

  unfoldable pub post_response : Sends
  unfolding send_request
  post_response = send_request x "POST"

  unfoldable pub put_response : Sends
  unfolding send_request
  put_response = send_request x "PUT"

  unfoldable pub patch_response : Sends
  unfolding send_request
  patch_response = send_request x "PATCH"

  unfoldable pub delete_response : Sends
  unfolding send_request
  delete_response = send_request x "DELETE"

  unfoldable pub send_request_async : String → Sends
  unfolding send_request
  send_request_async = send_request x

  unfoldable pub get_response_async : Sends
  unfolding send_request_async
  get_response_async = send_request_async "GET"

  unfoldable pub post_response_async : Sends
  unfolding send_request_async
  post_response_async = send_request_async "POST"

  unfoldable pub put_response_async : Sends
  unfolding send_request_async
  put_response_async = send_request_async "PUT"

  unfoldable pub patch_response_async : Sends
  unfolding send_request_async
  patch_response_async = send_request_async "PATCH"

  unfoldable pub delete_response_async : Sends
  unfolding send_request_async
  delete_response_async = send_request_async "DELETE"
