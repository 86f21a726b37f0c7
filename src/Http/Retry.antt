-- ===== src/Http/Retry.antt =====
-- `send_request` and `_get_retry_delay` of persista/http/httpx/method.py, and the functions that call
-- them with a method. That httpx is installed is taken for granted.
pub mod Runs
pub mod Scripted
use persista.Common.{
  ℕ, zero, suc, ◌+◌, ◌-◌, ℤ, pos, negsuc, Bool, true, false, String, Option, none, some, List, [],
  ◌∷◌, ◌&&◌, ◌||◌, Result, ok, err, transport_error, out_of_rounds, Exec, ltb, nat_beq,
  if◌then◌else◌,
}
use Prim.Native.Nat.{◌^◌}
use persista.Http.{Httpx, Reply, response, lost, raises}

-- DEFAULT_RETRY_STATUS_CODES
abbrev pub default_retry_status_codes : List ℕ
default_retry_status_codes = 429 ∷ 500 ∷ 502 ∷ 503 ∷ 504 ∷ []

-- attempt < max_retries
abbrev pub is_below : ℕ → ℤ → Bool
is_below attempt (pos max_retries) = ltb attempt max_retries
is_below attempt (negsuc n) = false

-- the number of retries that `max_retries` allows
abbrev pub retries : ℤ → ℕ
retries (pos n) = n
retries (negsuc n) = 0

-- status_code in retry_status_codes
unfoldable pub has_code : List ℕ → ℕ → Bool
has_code [] status_code = false
has_code (c ∷ codes) status_code = nat_beq c status_code || has_code codes status_code

-- How a round of the loop ends: `continue`, or with what the function returns or raises.
pub data Round (R W : Type 0) : Type 0 where
  again : W → Round R W
  ends : Result R → W → Round R W

-- after time.sleep
abbrev pub after_sleep : {R W : Type 0} → Result (Unit {0}) × W → Round R W
after_sleep (ok _, w) = again w
after_sleep (err e, w) = ends (err e) w

module _ (x : Httpx) where
  open x use {World, Client, Response, Kwargs, Seconds, request, status_code, sleep, seconds}

  -- _get_retry_delay, for an attempt that is at least 1
  unfoldable pub get_retry_delay : Response → ℕ → Seconds
  get_retry_delay r attempt = elim (x.retry_after r) [
    | none ↦ seconds (2 ^ (attempt - 1))
    | some text ↦ elim (x.float_of text) [ none ↦ seconds (2 ^ (attempt - 1)) | some delay ↦ delay ]
  ]

  -- response.raise_for_status(); return response
  abbrev pub finish : Response → Result Response
  finish r = elim (x.raise_for_status r) [ err e ↦ err e | ok _ ↦ ok r ]

  module _ (max_retries : ℤ) (retry_status_codes : List ℕ) where
    -- what follows the request of a round
    unfoldable pub on_reply : ℕ → Reply Response → World → Round Response World
    unfolding get_retry_delay has_code
    on_reply attempt (response r) w =
        if has_code retry_status_codes (status_code r) && is_below attempt max_retries
        then after_sleep (sleep (get_retry_delay r (suc attempt)) w)
        else ends (finish r) w
    on_reply attempt lost w =
        if is_below attempt max_retries
        then after_sleep (sleep (seconds (2 ^ attempt)) w)
        else ends (err transport_error) w
    on_reply attempt (raises e) w = ends (err e) w

    module _ (client : Client) (method url : String) (kwargs : Kwargs) where
      -- one round of the loop
      unfoldable pub round : ℕ → World → Round Response World
      unfolding on_reply
      round attempt w =
          let reply = request client method url kwargs w in on_reply attempt reply.0 reply.1

      -- the loop, with the rounds it may take
      unfoldable pub attempts : ℕ → ℕ → World → Result Response × World
      unfolding round
      attempts zero attempt w = (err out_of_rounds, w)
      attempts (suc rounds) attempt w = elim (round attempt w) [
        | again w' ↦ attempts rounds (suc attempt) w'
        | ends result w' ↦ (result, w')
      ]

  -- `kwargs.setdefault` in each round is the same as once before the first.
  unfoldable pub send_request :
      String → String → ℕ → ℤ → List ℕ → Option Client → Kwargs → Exec World Response
  unfolding attempts
  send_request method url timeout max_retries codes none kwargs w =
      let (client, w1) = x.new_client timeout w in
      let (result, w2) =
        attempts max_retries codes client method url (x.default_timeout timeout kwargs)
          (suc (retries max_retries)) 0 w1 in
      (result, x.close_client client w2)
  send_request method url timeout max_retries codes (some client) kwargs w =
      attempts max_retries codes client method url kwargs (suc (retries max_retries)) 0 w
