-- ===== src/Server/Plain/Tests.antt =====
-- A concrete read, and the theorem at it.
use rite.Prelude.{ℕ, ◌≡◌, refl, List, [], ◌∷◌, ◌++◌, Option, none, some, false}
use rite.Text.{codes}
use rite.Outcome.{ok}
use rite.Http.Parser.{
  parse_request, read_request_line, parse_line, parse_method, parse_rest, parse_headers,
  store_header, take_body, read_query,
}
use rite.Http.Stream.{
  getline, until, until_space, skip_spaces, read_word, filled, is_space, is_blank, trim_front,
  trim_back,
}
use rite.Http.Query.{parse_query, after_question}
use rite.Http.Request.{method_named, version_named}
use rite.Http.Response.{serialize_response, header_lines}
use rite.Server.Packets.{Answer, Handler, packet, buffers}
use rite.Server.Plain.{
  Peer, after_parse, on_read, on_success, after_success, deliver_to_peer, finish_response,
  write_body,
}

abbrev no_scan : List ℕ → Option ℕ
no_scan text = none

abbrev two_hundred : ℕ → List ℕ
two_hundred n = codes "200"

abbrev hello : Answer
hello = record {
  response = record { status_code = 200; headers = [] };
  chunks = codes "h" ∷ [];
  final = codes "i";
}

abbrev page : Handler
page req = (some hello, ok tt)

abbrev pub peer : Peer
peer = record { sent = []; taken = 1; released = 0; closed = false }

abbrev get_root : List ℕ
get_root = codes "GET / HTTP/1.1" ++ (13 ∷ 10 ∷ 13 ∷ 10 ∷ [])

abbrev replied_peer : Peer
replied_peer = record {
  sent = codes "HTTP/1.1 200" ++ (13 ∷ 10 ∷ 13 ∷ 10 ∷ codes "hi");
  taken = 2;
  released = 2;
  closed = false;
}

get_root_run : on_read no_scan two_hundred page (packet get_root) peer ≡ (replied_peer, ok tt)
unfolding on_read after_parse on_success after_success deliver_to_peer finish_response write_body
    parse_request read_request_line parse_line parse_method parse_rest parse_headers store_header
    take_body getline until until_space skip_spaces read_word filled is_space is_blank trim_front
    trim_back method_named version_named serialize_response header_lines read_query buffers
    parse_query after_question
get_root_run = refl
