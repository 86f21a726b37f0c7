-- ===== src/Tests/Http.antt =====
-- The retries of persista/http/httpx/method.py, run over a network that has its replies in store.
use persista.Common.{
  ℕ, suc, ◌≤◌, ℤ, pos, text_keys, some, List, [], ◌∷◌, ◌≡◌, refl, Result, ok, arith,
}
use persista.Dict
use persista.Dict.{Dict}
use persista.Http.{Reply}
use persista.Http.Retry.{default_retry_status_codes, retries, send_request}
use persista.Http.Retry.Runs.{Runs, send_request-Runs}
use persista.Http.Retry.Scripted.{Script, IsScripted, Decided, send_request-Decided}
use persista.Tests.Network.{Network, Response, fine, network, nth, tail, unreliable}

abbrev script : Script network
script = record { pending = λ w. nth w.replies; sent = λ w. w.requests; slept = λ w. w.sleeps }

nth-tail : (rs : List (Reply Response)) (i : ℕ) → nth (tail rs) i ≡ nth rs (suc i)
nth-tail [] i = refl
nth-tail (r ∷ rs) i = refl

scripted : IsScripted network script tt
scripted = record {
  replies = λ method url kwargs w. refl;
  advances = λ method url kwargs w i. nth-tail w.replies i;
  counts = λ method url kwargs w. refl;
  request_keeps = λ method url kwargs w. refl;
  sleeps = λ delay w. refl;
  sleep_pending = λ delay w i. refl;
  sleep_sent = λ delay w. refl;
  sleep_slept = λ delay w. refl;
}

abbrev sends : ℤ → Result Response × Network
sends max_retries =
    send_request network "GET" "u" 10 max_retries default_retry_status_codes (some tt) tt unreliable

send_request-Runs_example :
    (requests : ℕ) × (1 ≤ requests)
    × (requests ≤ suc (retries (pos 5)))
    × Runs network
        (pos 5)
        default_retry_status_codes
        tt
        "GET"
        "u"
        tt
        0
        unreliable
        requests
        (sends (pos 5))
send_request-Runs_example =
    send_request-Runs network (pos 5) default_retry_status_codes tt "GET" "u" tt 10 unreliable

send_request-Decided_example :
    Decided network script
      (pos 5)
      default_retry_status_codes
      tt
      scripted
      "GET"
      "u"
      tt
      (retries (pos 5))
      0
      unreliable
      (sends (pos 5))
send_request-Decided_example =
    send_request-Decided network script (pos 5) default_retry_status_codes tt scripted "GET" "u" tt
      10 unreliable

-- the three requests, with the delays of 2 ^ 0 and of the header
sends_all : (sends (pos 5)) ≡ (ok fine, record { replies = []; requests = 3; sleeps = 1 ∷ 7 ∷ [] })
unfolding send_request Dict.get
sends_all = ground arith

sends_one : (sends (pos 0)).1.requests ≡ 1
unfolding send_request Dict.get
sends_one = ground arith
