-- ===== src/Odin/Samples.antt =====
-- The timings of the most recent requests.
use rite.Prelude.{
  ℕ, zero, suc, ◌+◌, ◌-◌, ◌%◌, ◌<◌, ◌≡◌, ◌≢◌, refl, sym, ap, ◌∙◌, subst, List, [], ◌∷◌, arith, some,
  length, take, get_elem?, set_at, length-set_at, get-set_at, get-set_at_other, get_some,
  length-replicate,
}
use rite.Odin.{
  Odin, OdinTiming, OdinHttpRequest, no_timing, ring_size, sample_size, created, sample, admin_user,
  timed, post_send,
}
use rite.Odin.Recent.{Sent, recorded, send_all, send_all-ring}

-- The ring of timings when those of `newest` have been taken, the newest first.
pub record IsSampled (newest : List OdinTiming) (o : Odin) : Type 0 where
  pub size : length o.timings ≡ sample_size
  pub index : o.timing_idx ≡ length newest % sample_size
  pub served : o.requests_served ≡ length newest
  pub recent :
      (i : ℕ) (t : OdinTiming)
      → get_elem? newest i ≡ some t
      → i < sample_size
      → get_elem? o.timings ((length newest - suc i) % sample_size) ≡ some t

created-IsSampled : IsSampled [] created
unfolding created
created-IsSampled = record {
  size = length-replicate sample_size no_timing;
  index = refl;
  served = refl;
  recent = λ i t e h. cc;
}

apart : (k i : ℕ) → suc i < sample_size → i < k → k % sample_size ≢ (k - suc i) % sample_size
apart k i small below e = omega (arith, small, below, e)

index_step : (k : ℕ) → (k % sample_size + 1) % sample_size ≡ suc k % sample_size
index_step k = omega arith

sample-IsSampled :
    (t : OdinTiming) (newest : List OdinTiming) (o : Odin)
    → IsSampled newest o
    → IsSampled (t ∷ newest) (sample t o)
unfolding sample
sample-IsSampled t newest o s = record {
  size = length-set_at o.timing_idx t o.timings ∙ s.size;
  index = ap (λ n. (n + 1) % sample_size) s.index ∙ index_step (length newest);
  served = omega (arith, s.served);
  recent = recently;
}
  where
    recently :
        (i : ℕ) (u : OdinTiming)
        → get_elem? (t ∷ newest) i ≡ some u
        → i < sample_size
        → get_elem? (set_at o.timing_idx t o.timings) ((suc (length newest) - suc i) % sample_size)
          ≡ some u
    recently zero u e h =
        let same : t ≡ u = cc in
        let place : o.timing_idx ≡ (suc (length newest) - 1) % sample_size =
          omega (arith, s.index) in
        let inside : o.timing_idx < length o.timings = omega (arith, s.index, s.size) in
        subst (λ n. get_elem? (set_at o.timing_idx t o.timings) n ≡ some u) place
          (get-set_at o.timing_idx t o.timings inside ∙ ap some same)
    recently (suc i) u e h =
        let below = get_some i u newest e in
        let shift : suc (length newest) - suc (suc i) ≡ length newest - suc i = omega arith in
        let differ : o.timing_idx ≢ (suc (length newest) - suc (suc i)) % sample_size = λ q.
          apart (length newest) i h below (sym s.index ∙ q ∙ ap (λ n. n % sample_size) shift) in
        get-set_at_other o.timing_idx ((suc (length newest) - suc (suc i)) % sample_size) t
          o.timings differ
        ∙ ap (λ n. get_elem? o.timings (n % sample_size)) shift
        ∙ s.recent i u e (omega (arith, h))

-- The timings that are taken of responses, the newest first.
pub timings_of : List Sent → List OdinTiming → List OdinTiming
timings_of [] newest = newest
timings_of ((now, ip, req, admin_user) ∷ sent) newest = timings_of sent newest
timings_of ((now, ip, req, timed t) ∷ sent) newest =
    timings_of sent (record t { flushed = now } ∷ newest)

send_all-IsSampled :
    (sent : List Sent) (newest : List OdinTiming) (o : Odin)
    → IsSampled newest o
    → IsSampled (timings_of sent newest) (send_all sent o)
unfolding timings_of post_send
send_all-IsSampled [] newest o s = s
send_all-IsSampled ((now, ip, req, admin_user) ∷ sent) newest o s =
    send_all-IsSampled sent newest o s
send_all-IsSampled ((now, ip, req, timed t) ∷ sent) newest o s =
    send_all-IsSampled sent (record t { flushed = now } ∷ newest) _
      (sample-IsSampled (record t { flushed = now }) newest _ (unchanged s))
  where
    unchanged :
        {newest : List OdinTiming} {o : Odin} {ring : List OdinHttpRequest}
        → IsSampled newest o
        → IsSampled newest (record o { ring_buffer = ring })
    unchanged s = record { size = s.size; index = s.index; served = s.served; recent = s.recent }

-- After any responses, the two rings of odin are those of an unbounded history of the requests that
-- have a timing: the ring buffer is its newest 5000 requests, the newest first; the next place of the
-- timings is their number modulo 32768, `requests_served_` is their number, and each of the newest
-- 32768 timings is at the place that its number gives.
pub send_all-created :
    (sent : List Sent)
    → IsSampled (timings_of sent []) (send_all sent created)
      × ((send_all sent created).ring_buffer ≡ take ring_size (recorded sent []))
unfolding created
send_all-created sent =
    (send_all-IsSampled sent [] created created-IsSampled, send_all-ring sent [] created refl)
