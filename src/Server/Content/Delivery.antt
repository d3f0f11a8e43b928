-- ===== src/Server/Content/Delivery.antt =====
-- What a client receives of a response that was made from a text.
use rite.Prelude.{ℕ, ◌≡◌, List, [], some, length}
use rite.Text.{codes}
use rite.Outcome.{Outcome, ok}
use rite.Http.Request.{header, set_header}
use rite.Http.Request.Headers.{header-set_header}
use rite.Http.Response.{HttpResponse, put_header}
use rite.Server.Respond.{body_frames}
use rite.Server.Respond.Slices.{receive, delivered, ends_filled, filled, receive-body_frames}
use rite.Server.Packets.{buffers}
use rite.Server.Content.{length_key, set_content_length, content_response, content_length}

module _ (print_number : ℕ → List ℕ) (read_number : List ℕ → Outcome ℕ)
    (reads : (n : ℕ) → read_number (print_number n) ≡ ok n) where
  set_content_length-length :
      (n : ℕ) (r : HttpResponse)
      → content_length read_number (set_content_length print_number n r) ≡ ok n
  unfolding content_length set_content_length put_header
  set_content_length-length n r =
      let found : header length_key (set_header length_key (print_number n) r.headers)
          ≡ some (print_number n) =
        header-set_header length_key (print_number n) length_key r.headers in
      rw (found, content_length) (reads n)

  -- A response that is made from a text has the length of the text as its content length, and its
  -- DATA frames carry the text, whatever its length is; they end the stream exactly when the text
  -- is not empty. std::stoll reads what std::to_string prints.
  pub receive-content_response :
      (id code : ℕ) (content_type body : List ℕ)
      → (content_length read_number (content_response print_number code content_type body).response
          ≡ ok (length body))
        × (receive
              (body_frames id (buffers (content_response print_number code content_type body))).0
            ≡ (body, filled body))
  unfolding content_response buffers delivered ends_filled
  receive-content_response id code content_type body = (
    set_content_length-length (length body) (
        put_header (codes "content-type") content_type
          (record { status_code = code; headers = [] })),
    receive-body_frames id (buffers (content_response print_number code content_type body)),
  )
