-- ===== src/Http/Retry/Runs.antt =====
-- The runs of the loop of persista/http/httpx/method.py, with no bound on the rounds.
use persista.Common.{
  ℕ, zero, suc, ◌+◌, ◌≤◌, ◌<◌, ℤ, pos, negsuc, true, String, some, List, ◌≡◌, refl, Result, arith,
}
use persista.Http.{Httpx, Reply, response, lost, raises}
use persista.Http.Retry.{
  Round, again, ends, is_below, retries, on_reply, round, attempts, send_request,
}

module _ (x : Httpx) (max_retries : ℤ) (codes : List ℕ) (client : x.Client) (method url : String)
    (kwargs : x.Kwargs) where
  -- From this attempt on, the loop makes so many requests and ends so.
  pub data Runs : ℕ → x.World → ℕ → Result x.Response × x.World → Type 0 where
    stop :
        {attempt : ℕ} {w w' : x.World} {result : Result x.Response}
        → round x max_retries codes client method url kwargs attempt w ≡ ends result w'
        → Runs attempt w 1 (result, w')
    next :
        {attempt requests : ℕ} {w w' : x.World} {out : Result x.Response × x.World}
        → round x max_retries codes client method url kwargs attempt w ≡ again w'
        → Runs (suc attempt) w' requests out
        → Runs attempt w (suc requests) out

  below-lt : (attempt : ℕ) (m : ℤ) → is_below attempt m ≡ true → attempt < retries m
  below-lt attempt (pos n) h = ground arith
  below-lt attempt (negsuc n) h = cc

  -- only an attempt below the number of retries is followed by another
  on_reply-lt :
      (attempt : ℕ) (reply : Reply x.Response) (w w' : x.World)
      → on_reply x max_retries codes attempt reply w ≡ again w'
      → attempt < retries max_retries
  unfolding on_reply
  on_reply-lt attempt (response r) w w' e = ground (arith, below-lt attempt max_retries)
  on_reply-lt attempt lost w w' e = ground (arith, below-lt attempt max_retries)
  on_reply-lt attempt (raises y) w w' e = cc

  Runs-pos :
      {attempt requests : ℕ} {w : x.World} {out : Result x.Response × x.World}
      → Runs attempt w requests out
      → 1 ≤ requests
  Runs-pos (stop e) = omega arith
  Runs-pos (next e r) = omega arith

  -- the loop with enough rounds does a run of at most that many requests
  Ends : ℕ → ℕ → x.World → Type 0
  Ends rounds attempt w =
      (requests : ℕ) × (requests ≤ rounds)
      × Runs attempt w requests
          (attempts x max_retries codes client method url kwargs rounds attempt w)

  by_round :
      (rounds attempt : ℕ) (w : x.World) (r : Round x.Response x.World)
      → round x max_retries codes client method url kwargs attempt w ≡ r
      → (attempt < retries max_retries → (w' : x.World) → Ends rounds (suc attempt) w')
      → Ends (suc rounds) attempt w
  unfolding attempts Ends round
  by_round rounds attempt w (ends result w') e rest =
      let q : attempts x max_retries codes client method url kwargs (suc rounds) attempt w
          ≡ (result, w') =
        ground arith in
      (1, omega arith, rw q (stop e))
  by_round rounds attempt w (again w') e rest =
      let q : attempts x max_retries codes client method url kwargs (suc rounds) attempt w
          ≡ attempts x max_retries codes client method url kwargs rounds (suc attempt) w' =
        ground arith in
      let reply = x.request client method url kwargs w in
      let more = rest (on_reply-lt attempt reply.0 reply.1 w' e) w' in
      (suc more.0, omega (arith, more.1), rw q (next e more.2))

  attempts-Ends :
      (rounds attempt : ℕ) (w : x.World)
      → retries max_retries ≤ rounds + attempt
      → Ends (suc rounds) attempt w
  attempts-Ends zero attempt w h =
      by_round zero attempt w _ refl (λ l w'. absurd (omega (arith, l, h)))
  attempts-Ends (suc rounds) attempt w h =
      by_round (suc rounds) attempt w _ refl
        (λ l w'. attempts-Ends rounds (suc attempt) w' (omega (arith, h)))

  -- With a client that is given, send_request returns or raises after at least one request and at most
  -- one more than the retries, with the outcome of the loop that has no bound on its rounds.
  pub send_request-Runs :
      (timeout : ℕ) (w : x.World)
      → (requests : ℕ) × (1 ≤ requests)
        × (requests ≤ suc (retries max_retries))
        × Runs 0 w requests
            (send_request x method url timeout max_retries codes (some client) kwargs w)
  unfolding send_request Ends
  send_request-Runs timeout w =
      let run = attempts-Ends (retries max_retries) 0 w (omega arith) in
      (run.0, Runs-pos run.2, run.1, run.2)
