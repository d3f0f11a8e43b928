-- ===== src/Odin.antt =====
-- The extension `odin` of modules/odin: what it records of the requests, and the numbers it shows.
-- Times are those of steady_clock, in nanoseconds; the mutexes, which every method holds while it
-- uses what they guard, and the request rate, which is a float, are left out. A request that odin
-- itself serves has no timing.
pub mod Templates
pub mod Render
pub mod Pages
pub mod Recent
pub mod Samples
pub mod Percentiles
mod Tests
use rite.Prelude.{
  ℕ, zero, suc, ◌+◌, ◌-◌, ◌/◌, ◌%◌, List, [], ◌∷◌, Bool, true, false, ◌&&◌, Option, none, some, ltb,
  leb, ◌==◌, if◌then◌else◌, length, take, replicate, set_at,
}
use rite.Http.Request.{HttpRequest, HttpVersion}

pub record OdinTiming : Type 0 where
  pub received : ℕ
  pub processed : ℕ
  pub flushed : ℕ

abbrev pub no_timing : OdinTiming
no_timing = record { received = 0; processed = 0; flushed = 0 }

-- `odin_http_request`; `ip` is the address of the client, as its bytes.
pub record OdinHttpRequest : Type 0 where
  pub path : List ℕ
  pub query : List (List ℕ × List ℕ)
  pub ip : List ℕ
  pub method : ℕ
  pub request_body_len : ℕ
  pub version : HttpVersion
  pub time : ℕ
  pub processing_time : ℕ

pub record Odin : Type 0 where
  pub ring_buffer : List OdinHttpRequest
  pub timings : List OdinTiming
  pub timing_idx : ℕ
  pub requests_served : ℕ
  pub request_count : ℕ
  pub ok_count : ℕ
  pub client_error : ℕ
  pub server_error : ℕ

abbrev pub ring_size : ℕ
ring_size = 5000

abbrev pub sample_size : ℕ
sample_size = 32768

-- The constructor; the counters that it leaves alone start at 0.
pub created : Odin
created = record {
  ring_buffer = [];
  timings = replicate sample_size no_timing;
  timing_idx = 0;
  requests_served = 0;
  request_count = 0;
  ok_count = 0;
  client_error = 0;
  server_error = 0;
}

-- What `on_request` puts into the context of the request.
pub data Context : Type 0 where
  admin_user : Context
  timed : OdinTiming → Context

-- `path.starts_with(prefix)`.
unfoldable pub starts_with : List ℕ → List ℕ → Bool
starts_with [] path = true
starts_with (p ∷ prefix) [] = false
starts_with (p ∷ prefix) (c ∷ path) = p == c && starts_with prefix path

pub on_request : (admin_path : List ℕ) → (now : ℕ) → HttpRequest → Odin → Odin × Context
unfolding starts_with
on_request admin_path now req o = if starts_with admin_path req.path then (o, admin_user) else (
  record o { request_count = o.request_count + 1 },
  timed (record no_timing { received = now }),
)

abbrev within : ℕ → ℕ → ℕ → ℕ → ℕ
within low high code n = if leb low code && ltb code high then n + 1 else n

pub count_status : ℕ → Odin → Odin
count_status code o = record o {
  ok_count = within 200 300 code o.ok_count;
  client_error = within 400 500 code o.client_error;
  server_error = within 500 599 code o.server_error;
}

pub pre_send : (now : ℕ) → (code : ℕ) → Context → Odin → Odin × Context
unfolding count_status
pre_send now code admin_user o = (o, admin_user)
pre_send now code (timed t) o = (count_status code o, timed (record t { processed = now }))

-- `push_front`, and `pop_back` of a buffer that is then too long.
unfoldable pub push_recent : OdinHttpRequest → List OdinHttpRequest → List OdinHttpRequest
push_recent r ring =
    if ltb ring_size (length (r ∷ ring)) then take (length ring) (r ∷ ring) else r ∷ ring

unfoldable pub logged : (ip : List ℕ) → HttpRequest → OdinTiming → OdinHttpRequest
logged ip req t = record {
  path = req.path;
  query = req.query;
  ip = ip;
  method = req.method;
  request_body_len = length req.body;
  version = req.version;
  time = t.received;
  processing_time = (t.processed - t.received) / 1000;
}

unfoldable pub sample : OdinTiming → Odin → Odin
sample t o = record o {
  timings = set_at o.timing_idx t o.timings;
  timing_idx = (o.timing_idx + 1) % sample_size;
  requests_served = o.requests_served + 1;
}

unfoldable pub post_send : (now : ℕ) → (ip : List ℕ) → HttpRequest → Context → Odin → Odin
unfolding push_recent logged sample
post_send now ip req admin_user o = o
post_send now ip req (timed t) o =
    sample (record t { flushed = now })
      (record o { ring_buffer = push_recent (logged ip req t) o.ring_buffer })
