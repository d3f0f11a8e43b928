-- ===== src/Lib.antt =====
-- The protocols of rite, a C++ web server: how a byte stream becomes frames, header lists and
-- requests, and how responses become header lists and frames.
--
-- Files, and the code that each is about:
-- - Prelude, Outcome, Text: what the others share. Numbers are native; a uint32_t or a byte is a
--   number with its wrap-around written out. Outcome is how a call of the C++ code ends.
-- - H2/VarInt: `h2::variable_integer<N>` of include/protocols/h2/hpack.hpp.
-- - H2/Frame: `h2::frame` of include/protocols/h2.hpp.
-- - H2/Huffman: the class `huffman` of include/protocols/h2/huffman.hpp; H2/Huffman/Table is the code
--   table of src/protocols/h2/huffman.cpp.
-- - H2/Headers: `h2::payload<HEADERS>` of src/protocols/h2/headers.cpp.
-- - H2/Hpack: `parser<h2::hpack>` of src/protocols/h2/hpack.cpp; H2/Hpack/Serializer is
--   `serializer<h2::hpack>`, H2/Hpack/StaticTable the static table.
--   H2/Hpack/Blocks is the header blocks of any client.
-- - H2/Connection: `connection<h2::protocol>` of src/protocols/h2/connection.cpp: reading frames from
--   packets; H2/Connection/Process is its `process`, with H2/Connection/Process/Arrival and
--   H2/Connection/Process/Reception on the request of a client; H2/Connection/Requests is its
--   `finish_stream`, and H2/Connection/Uri the function `uri_decode`.
-- - Server/Alpn: `alpn_select_cb` of include/protocols/https.hpp.
-- - Server/Accept: `on_accept` of src/https.cpp, and the kind of connection that `on_read` is given.
-- - Server/Respond: the function that `on_read` of src/https.cpp passes to the application to send a
--   response; Server/Packets is `on_read` itself, and Server/Packets/Pipelining its packets of
--   several requests.
-- - Server/Content: the constructors of `http_response` of include/http/response.hpp.
-- - Server/Slots: `connection<void>` of include/connection.hpp and the slots of include/server.hpp;
--   Server/Slots/Lifetime is the event loop and `connection_sentinel` step by step.
-- - Server/Plain: `on_read` of src/servers/http.cpp.
-- - Server/Application: `handle` behind the two servers; Http/Layer/Lifting is what it needs of a
--   layer.
-- - Http/Endpoint: `path` of include/http/endpoint.hpp; Http/Layer is `layer` of
--   include/http/behaviour.hpp.
-- - Http/Cookies: the cookie jar of include/http/request.hpp.
-- - Session: modules/session, over Http/Cookies; Session/Persistence is about its files, and
--   Session/Typed is `set` and `get` of values with a type.
-- - Odin: modules/odin; Odin/Percentiles is `calculate_percentiles`, Odin/Pages its pages and
--   Odin/Render the templates that they are made from.
-- - Http/Response: `http_response` and src/http/serializer.cpp.
-- - Http/Request, Http/Stream, Http/Query, Http/Parser: `http_request`, and how src/http/parser.cpp
--   reads it and its query from text. Http/Escape is percent-encoding, which no code of the
--   repository does: it is what the decoders are compared with.
--
-- `process` takes the bytes of a packet to a frame by `read_frame` (H2/Frame), a HEADERS frame to a
-- header list by `parse` (H2/Hpack, over H2/Headers, H2/VarInt and H2/Huffman), and a finished stream to
-- a request by `finish_stream` (with Http/Query). Server/Packets calls `process` until a packet is
-- used up, and Server/Respond sends the response through `serialize`, `finish` and `write`. What the
-- application makes of a request, and how it ends, is an argument of both `on_read`; Http/Layer is
-- the code that calls it, and Server/Application relates the two.
--
-- Loops over bytes are structural; the loop of `variable_integer::encode` is by accessibility of `<`.
-- The loop of the HPACK parser is on fuel, the length of the header block, and `stuck` is what it
-- throws when the fuel is used up; each round is meant to take a byte at least.
-- The loops of src/http/parser.cpp, of the cookie jar and of a session file are on fuel as well, the
-- length of the text, and so are the loop of `on_read` over a packet, with the number of its bytes,
-- and that of odin over a template, with one more than its length: each of its rounds but the last
-- takes a placeholder.
--
-- sscanf with the format "%x" is the parameter `scan_hex`. The TLS layer is the list of the bytes that
-- are written. The path of a session's file and whether a std::ofstream opens it are the parameters
-- `file_of` and `can_write` of Session; deleting a file is taken to succeed. What a std::ostream
-- prints for an int is the parameter `print_number`, and getnameinfo is `numeric_host`. std::regex is the parameters `search` and `groups`. What the streams of
-- pluggable.hpp print and read is a parameter as well. The request rate of odin and its style sheet
-- and the TLS layer itself are not modelled.
--
-- An unordered_map is an association list in the order of its iteration. The order of the table that
-- `search_index` walks over is a parameter of the model where it matters; the order of the
-- initialiser stands for it elsewhere. Signed chars are bytes. Output to the terminal is left out.
pub mod Prelude
pub mod Outcome
pub mod Text
pub mod Http
pub mod H2
pub mod Server
pub mod Session
pub mod Odin
