-- ===== src/Http/Retry/Scripted.antt =====
-- What `send_request` of persista/http/httpx/method.py makes of the replies that the network has in
-- store for it.
use persista.Common.{
  ℕ, zero, suc, ◌+◌, ◌≤◌, ◌<◌, ℤ, pos, negsuc, Bool, true, false, String, some, List, [], ◌∷◌, ◌++◌,
  ◌≡◌, refl, Result, ok, err, transport_error, arith, ◌∙◌, ◌&&◌, Bool-cases, inl, inr, ap,
}
use Prim.Native.Nat.{◌^◌}
use mathlib.Core.List.{append-nil, append_assoc}
use persista.Http.{Httpx, Reply, response, lost, raises}
use persista.Http.Retry.{
  again, ends, is_below, retries, has_code, get_retry_delay, finish, on_reply, round, attempts,
  send_request,
}

-- The world has replies in store, counts the requests, and keeps what was slept; `time.sleep` accepts
-- every delay that the client is told.
pub record Script (x : Httpx) : Type 0 where
  pub pending : x.World → ℕ → Reply x.Response
  pub sent : x.World → ℕ
  pub slept : x.World → List x.Seconds

module _ (x : Httpx) (script : Script x) where
  open script use {pending, sent, slept}

  pub record IsScripted (client : x.Client) : Type 0 where
    pub replies :
        (method url : String) (kwargs : x.Kwargs) (w : x.World)
        → (x.request client method url kwargs w).0 ≡ pending w 0
    pub advances :
        (method url : String) (kwargs : x.Kwargs) (w : x.World) (i : ℕ)
        → pending (x.request client method url kwargs w).1 i ≡ pending w (suc i)
    pub counts :
        (method url : String) (kwargs : x.Kwargs) (w : x.World)
        → sent (x.request client method url kwargs w).1 ≡ suc (sent w)
    pub request_keeps :
        (method url : String) (kwargs : x.Kwargs) (w : x.World)
        → slept (x.request client method url kwargs w).1 ≡ slept w
    pub sleeps : (delay : x.Seconds) (w : x.World) → (x.sleep delay w).0 ≡ ok tt
    pub sleep_pending :
        (delay : x.Seconds) (w : x.World) (i : ℕ) → pending (x.sleep delay w).1 i ≡ pending w i
    pub sleep_sent : (delay : x.Seconds) (w : x.World) → sent (x.sleep delay w).1 ≡ sent w
    pub sleep_slept :
        (delay : x.Seconds) (w : x.World) → slept (x.sleep delay w).1 ≡ slept w ++ delay ∷ []

module _ (x : Httpx) where
  -- is the reply one to try again after?
  unfoldable pub is_transient : List ℕ → Reply x.Response → Bool
  is_transient codes (response r) = has_code codes (x.status_code r)
  is_transient codes lost = true
  is_transient codes (raises e) = false

  -- what a reply that ends the loop means
  unfoldable pub verdict : Reply x.Response → Result x.Response
  verdict (response r) = finish x r
  verdict lost = err transport_error
  verdict (raises e) = err e

  -- the delay after the reply to an attempt
  unfoldable pub delay_after : Reply x.Response → ℕ → x.Seconds
  delay_after (response r) attempt = get_retry_delay x r (suc attempt)
  delay_after _ attempt = x.seconds (2 ^ attempt)

  -- the delays after so many replies, from an attempt on
  unfoldable pub delays : (ℕ → Reply x.Response) → ℕ → ℕ → List x.Seconds
  unfolding delay_after
  delays replies zero attempt = []
  delays replies (suc n) attempt =
      delay_after (replies 0) attempt ∷ delays (λ i. replies (suc i)) n (suc attempt)

module _ (x : Httpx) (script : Script x) (max_retries : ℤ) (codes : List ℕ) (client : x.Client)
    (scripted : IsScripted x script client) (method url : String) (kwargs : x.Kwargs) where
  open script use {pending, sent, slept}

  last_reply :
      (attempt : ℕ) (reply : Reply x.Response) (w : x.World)
      → is_transient x codes reply && is_below attempt max_retries ≡ false
      → on_reply x max_retries codes attempt reply w ≡ ends (verdict x reply) w
  unfolding on_reply is_transient verdict
  last_reply attempt (response r) w h = ground arith
  last_reply attempt lost w h = ground arith
  last_reply attempt (raises e) w h = refl

  next_reply :
      (attempt : ℕ) (reply : Reply x.Response) (w : x.World)
      → is_transient x codes reply ≡ true
      → is_below attempt max_retries ≡ true
      → on_reply x max_retries codes attempt reply w
        ≡ again (x.sleep (delay_after x reply attempt) w).1
  unfolding on_reply is_transient delay_after
  next_reply attempt (response r) w t b =
      ground (arith, scripted.sleeps (get_retry_delay x r (suc attempt)) w)
  next_reply attempt lost w t b = ground (arith, scripted.sleeps (x.seconds (2 ^ attempt)) w)
  next_reply attempt (raises e) w t b = cc

  -- The loop was decided by reply number `last`, the first that is not to be tried again after, or the
  -- last that the rounds allow.
  pub record Decided (rounds attempt : ℕ) (w : x.World) (out : Result x.Response × x.World)
      : Type 0 where
    pub last : ℕ
    pub within : last ≤ rounds
    pub before : (i : ℕ) → i < last → is_transient x codes (pending w i) ≡ true
    pub at_last : last < rounds → is_transient x codes (pending w last) ≡ false
    pub result : out.0 ≡ verdict x (pending w last)
    pub requests : sent out.1 ≡ suc (sent w + last)
    pub waits : slept out.1 ≡ slept w ++ delays x (pending w) last attempt

  delays-agree :
      (f g : ℕ → Reply x.Response) (n attempt : ℕ)
      → ((i : ℕ) → f i ≡ g i)
      → delays x f n attempt ≡ delays x g n attempt
  unfolding delays
  delays-agree f g zero attempt h = refl
  delays-agree f g (suc n) attempt h =
      ground (
        arith,
        h 0,
        delays-agree (λ i. f (suc i)) (λ i. g (suc i)) n (suc attempt) (λ i. h (suc i)),
      )

  below_of_left :
      (rounds attempt : ℕ) (m : ℤ) → retries m ≡ suc rounds + attempt → is_below attempt m ≡ true
  below_of_left rounds attempt (pos n) h = ground arith
  below_of_left rounds attempt (negsuc n) h = absurd (omega (arith, h))

  none_left : (attempt : ℕ) (m : ℤ) → retries m ≡ attempt → is_below attempt m ≡ false
  none_left attempt (pos n) h = ground arith
  none_left attempt (negsuc n) h = refl

  -- the loop stops at its first reply
  Decided-at_once :
      (rounds attempt : ℕ) (w : x.World)
      → is_transient x codes (pending w 0) && is_below attempt max_retries ≡ false
      → (0 < rounds → is_transient x codes (pending w 0) ≡ false)
      → Decided rounds attempt w
          (attempts x max_retries codes client method url kwargs (suc rounds) attempt w)
  unfolding attempts round delays
  Decided-at_once rounds attempt w h t =
      let w1 = (x.request client method url kwargs w).1 in
      let q : attempts x max_retries codes client method url kwargs (suc rounds) attempt w
          ≡ (verdict x (pending w 0), w1) =
        ground
          (arith, scripted.replies method url kwargs w, last_reply attempt (pending w 0) w1 h) in
      rw q (record {
        last = 0;
        within = omega arith;
        before = λ i l. absurd (omega (arith, l));
        at_last = t;
        result = refl;
        requests = omega (arith, scripted.counts method url kwargs w);
        waits = rw append-nil (scripted.request_keeps method url kwargs w);
      })

  -- the loop goes on after its first reply
  Decided-after_more :
      (rounds attempt : ℕ) (w w2 : x.World)
      → is_transient x codes (pending w 0) ≡ true
      → ((i : ℕ) → pending w2 i ≡ pending w (suc i))
      → sent w2 ≡ suc (sent w)
      → slept w2 ≡ slept w ++ delay_after x (pending w 0) attempt ∷ []
      → {out : Result x.Response × x.World} → Decided rounds (suc attempt) w2 out
      → Decided (suc rounds) attempt w out
  unfolding delays
  Decided-after_more rounds attempt w w2 t shift counts waits {out} d = record {
    last = suc d.last;
    within = omega (arith, d.within);
    before = earlier;
    at_last = λ l. rw (← shift d.last) (d.at_last (omega (arith, l)));
    result = d.result ∙ ap (verdict x) (shift d.last);
    requests = omega (arith, d.requests, counts);
    waits = d.waits ∙ rw (waits, delays-agree _ _ d.last (suc attempt) shift, append_assoc) refl;
  }
    where
      earlier : (i : ℕ) → i < suc d.last → is_transient x codes (pending w i) ≡ true
      earlier zero l = t
      earlier (suc i) l = rw (← shift i) (d.before i (omega (arith, l)))

  -- the world after the sleep that follows the first reply
  after : ℕ → x.World → x.World
  after attempt w =
      (x.sleep (delay_after x (pending w 0) attempt) (x.request client method url kwargs w).1).1

  go_on :
      (rounds attempt : ℕ) (w : x.World)
      → is_transient x codes (pending w 0) ≡ true
      → retries max_retries ≡ suc rounds + attempt
      → Decided rounds (suc attempt) (after attempt w) (
          attempts x max_retries codes client method url kwargs
            (suc rounds)
            (suc attempt)
            (after attempt w))
      → Decided
          (suc rounds)
          attempt
          w
          (attempts x max_retries codes client method url kwargs (suc (suc rounds)) attempt w)
  unfolding attempts round after
  go_on rounds attempt w t h d =
      let w1 = (x.request client method url kwargs w).1 in
      let delay = delay_after x (pending w 0) attempt in
      let q : attempts x max_retries codes client method url kwargs (suc (suc rounds)) attempt w
          ≡ attempts x max_retries codes client method url kwargs (suc rounds) (suc attempt)
              (after attempt w) =
        ground (
          arith,
          scripted.replies method url kwargs w,
          next_reply attempt (pending w 0) w1 t (below_of_left rounds attempt max_retries h),
        ) in
      rw q (
        Decided-after_more rounds attempt w (after attempt w) t
          (λ i. scripted.sleep_pending delay w1 i ∙ scripted.advances method url kwargs w i)
          (scripted.sleep_sent delay w1 ∙ scripted.counts method url kwargs w)
          (scripted.sleep_slept delay w1
            ∙ ap (λ l. l ++ delay ∷ []) (scripted.request_keeps method url kwargs w))
          d)

  attempts-Decided :
      (rounds attempt : ℕ) (w : x.World)
      → retries max_retries ≡ rounds + attempt
      → Decided rounds attempt w
          (attempts x max_retries codes client method url kwargs (suc rounds) attempt w)
  attempts-Decided zero attempt w h =
      Decided-at_once zero attempt w
        (ground (arith, none_left attempt max_retries (omega (arith, h))))
        (λ l. absurd (omega (arith, l)))
  attempts-Decided (suc rounds) attempt w h =
      elim (Bool-cases (is_transient x codes (pending w 0))) [
        | inl t ↦
            go_on rounds attempt w t h
              (attempts-Decided rounds (suc attempt) (after attempt w) (omega (arith, h)))
        | inr t ↦ Decided-at_once (suc rounds) attempt w (ground arith) (λ l. t)
      ]

  -- With a client that is given, send_request ends with the verdict on the first reply that is not to
  -- be tried again after, or else on the reply to the last attempt; it has made no other requests, and
  -- has slept before each but the first, as get_retry_delay says or for a power of two.
  pub send_request-Decided :
      (timeout : ℕ) (w : x.World)
      → Decided
          (retries max_retries)
          0
          w
          (send_request x method url timeout max_retries codes (some client) kwargs w)
  unfolding send_request
  send_request-Decided timeout w = attempts-Decided (retries max_retries) 0 w (omega arith)
