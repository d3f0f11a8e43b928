-- ===== src/Server/Content/Tests.antt =====
-- A response that is made from a text, with numbers in unary.
use rite.Prelude.{ℕ, ◌≡◌, ap, List, true, length, replicate, length-replicate}
use rite.Text.{codes}
use rite.Outcome.{Outcome, ok}
use rite.Server.Respond.{body_frames}
use rite.Server.Respond.Slices.{receive}
use rite.Server.Packets.{buffers}
use rite.Server.Content.{content_response, content_length}
use rite.Server.Content.Delivery.{receive-content_response}

abbrev tally : ℕ → List ℕ
tally n = replicate n b'1'

abbrev count_tally : List ℕ → Outcome ℕ
count_tally text = ok (length text)

tally_counted : (n : ℕ) → count_tally (tally n) ≡ ok n
tally_counted n = ap (λ k. ok k) (length-replicate n b'1')

receive-content_response_example :
    (content_length count_tally
        (content_response tally 404 (codes "text/html") (codes "hi")).response
      ≡ ok 2)
    × (receive
          (body_frames 1 (buffers (content_response tally 404 (codes "text/html") (codes "hi")))).0
        ≡ (codes "hi", true))
receive-content_response_example =
    receive-content_response tally count_tally tally_counted 1 404 (codes "text/html") (codes "hi")
