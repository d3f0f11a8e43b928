-- ===== src/Server/Application/Tests.antt =====
-- A layer behind the two servers.
use rite.Prelude.{ℕ, ◌≡◌, List, [], ◌∷◌}
use rite.Text.{codes}
use rite.Http.Endpoint.Tests.{slash_groups}
use rite.Http.Layer.Tests.{application, request}
use rite.H2.Connection.Process.Tests.{no_scan}
use rite.Server.Packets.{take_ref, id_of, on_request}
use rite.Server.Packets.Tests.{three_digits, socket}
use rite.Server.Plain.{take_peer, on_success}
use rite.Server.Plain.Tests.{peer}
use rite.Server.Application.{
  answer_of, deliver_plain, deliver_frames, handle_with, handle_with-answer_of,
}

-- Every handler delivers "h" and then "i".
abbrev hi : ℕ → List (List ℕ) × List ℕ
hi w = (codes "h" ∷ [], codes "i")

handle_with-answer_of_example :
    (handle_with slash_groups hi no_scan three_digits
        (deliver_plain slash_groups hi no_scan three_digits)
        application
        request
        3
        (take_peer peer)
      ≡ on_success no_scan three_digits (answer_of slash_groups hi application 3) request peer)
    × (handle_with slash_groups hi no_scan three_digits
          (deliver_frames slash_groups hi no_scan three_digits (id_of request))
          application
          request
          3
          (take_ref socket)
        ≡ on_request no_scan three_digits (answer_of slash_groups hi application 3) request socket)
handle_with-answer_of_example =
    handle_with-answer_of slash_groups hi no_scan three_digits application request 3 peer socket
