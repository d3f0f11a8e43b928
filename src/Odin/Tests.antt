-- ===== src/Odin/Tests.antt =====
-- The theorems on odin at concrete responses.
use rite.Prelude.{◌≡◌, List, [], ◌∷◌, take}
use rite.Text.{codes}
use rite.Http.Request.{HttpRequest, empty_request}
use rite.Odin.{Odin, no_timing, ring_size, created, admin_user, timed}
use rite.Odin.Recent.{Sent, send_all, recorded}
use rite.Odin.Samples.{IsSampled, timings_of, send_all-created}
use rite.Odin.Percentiles.{durations, IsNth, calculate_percentiles, calculate_percentiles-IsNth}

abbrev root : HttpRequest
root = record empty_request { path = codes "/" }

abbrev sent : List Sent
sent =
    (
      3000000,
      codes "::1",
      root,
      timed (record no_timing { received = 1000000; processed = 2000000 }),
    )
    ∷ (4000000, codes "::1", root, admin_user)
    ∷ []

send_all-created_example :
    IsSampled (timings_of sent []) (send_all sent created)
    × ((send_all sent created).ring_buffer ≡ take ring_size (recorded sent []))
send_all-created_example = send_all-created sent

abbrev served : Odin
served = send_all sent created

calculate_percentiles-IsNth_example :
    IsNth 16383 (durations served.timings) (calculate_percentiles served).p50
    × IsNth 24575 (durations served.timings) (calculate_percentiles served).p75
    × IsNth 29490 (durations served.timings) (calculate_percentiles served).p90
    × IsNth 32439 (durations served.timings) (calculate_percentiles served).p99
calculate_percentiles-IsNth_example =
    calculate_percentiles-IsNth served (send_all-created sent).0.size
