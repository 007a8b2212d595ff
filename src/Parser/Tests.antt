-- ===== src/Parser/Tests.antt =====
-- The parser on concrete requests, and its theorems at them.
use cxx_epoll_http_server.Common.{
  ◌↔◌, ℕ, ◌≡◌, refl, ◌≤◌, some, [], ◌∷◌, ◌++◌, Bytes, codes, replicate, arith, beq, to_lower,
  is_space, is_digit,
}
use cxx_epoll_http_server.Buffer
use cxx_epoll_http_server.Buffer.{Buffer, append}
use cxx_epoll_http_server.Buffer.Invariant.{IsValid}
use cxx_epoll_http_server.Buffer.Contents.{contents}
use cxx_epoll_http_server.Headers
use cxx_epoll_http_server.Decimal.{strtoll, skip_spaces}
use cxx_epoll_http_server.Http.{empty_request, HttpRequest, get_header, iequals, same_lower}
use cxx_epoll_http_server.Input.{bytes_input, buffer_input}
use cxx_epoll_http_server.Parser.{
  Ret, ok, incomplete, State, HttpParser, max_body, new_parser, parse, is_empty, find_byte,
  find_byte_from, trim_front, trim_back, trim, or_root, set_target, request_of_line,
  content_length_of, header_of_line, end_of_headers, on_header_line, is_final, go_on, peek_line,
  await_line, on_request_line, parse_request_line, header_round, parse_headers, parse_body,
  parse_state, parse_loop,
}
use cxx_epoll_http_server.Parser.Stream.{
  seen, parse_total, parse-append_ok, parse-append_incomplete,
}
use cxx_epoll_http_server.Parser.Refine.{Agrees, parse_refines}
use cxx_epoll_http_server.Parser.Bounds.{parse_ok_lem, new_parser-IsSound}
use cxx_epoll_http_server.Parser.Lines.{Parts, request_of_line_iff}
use cxx_epoll_http_server.Parser.Fields.{IsField, header_of_line_iff}

-- What a run of the parser computes with.
whole_parser : ℕ
unfolding Buffer.search_crlf Buffer.find_crlf Buffer.peek_string Buffer.retrieve
    Buffer.retrieve_as_string Headers.find Headers.set strtoll skip_spaces get_header iequals
    same_lower beq to_lower is_space is_digit parse is_empty find_byte find_byte_from trim_front
    trim_back trim or_root set_target request_of_line content_length_of header_of_line
    end_of_headers on_header_line is_final go_on peek_line await_line on_request_line
    parse_request_line header_round parse_headers parse_body parse_state parse_loop
whole_parser = 0

abbrev line_end : Bytes
line_end = 13 ∷ 10 ∷ []

-- The first bytes of a request, up to the middle of a header.
abbrev half : Buffer
half = record {
  buf = codes "PUT /e?q HTTP/1.1" ++ (line_end ++ codes "Content-Le");
  read_idx = 0;
  write_idx = 29;
}

abbrev rest_of_it : Bytes
rest_of_it = codes "ngth: 2" ++ (line_end ++ (line_end ++ codes "okGET"))

abbrev full_buffer : Buffer
full_buffer = record { buf = half.buf ++ rest_of_it; read_idx = 0; write_idx = 45 }

abbrev put_request : HttpRequest
put_request = record {
  method = codes "PUT";
  path = codes "/e";
  query = codes "q";
  version = codes "HTTP/1.1";
  headers = [];
  body = [];
}

abbrev after_line : HttpParser
after_line = record { state = State.headers; request = put_request; content_length = 0 }

abbrev after_all : HttpParser
after_all = record {
  state = State.complete;
  request = record put_request {
    headers = (codes "content-length", codes "2") ∷ [];
    body = codes "ok";
  };
  content_length = 2;
}

half_runs_out :
    parse buffer_input new_parser half
    ≡ some (incomplete, after_line, record half { read_idx = 19 })
unfolding whole_parser
half_runs_out = refl

whole_request :
    parse bytes_input new_parser (contents half ++ rest_of_it) ≡ some (ok, after_all, codes "GET")
unfolding whole_parser contents
whole_request = refl

full_runs :
    parse buffer_input new_parser full_buffer
    ≡ some (ok, after_all, record full_buffer { read_idx = 42 })
unfolding whole_parser
full_runs = refl

parse_total_example :
    (x : Ret × HttpParser × Buffer) × (parse buffer_input new_parser half ≡ some x)
parse_total_example = parse_total new_parser half (omega arith)

parse-append_incomplete_example :
    seen (parse buffer_input after_line (append (record half { read_idx = 19 }) rest_of_it))
    ≡ seen (parse buffer_input new_parser (append half rest_of_it))
parse-append_incomplete_example =
    parse-append_incomplete new_parser after_line half (record half { read_idx = 19 }) rest_of_it
      (omega arith) (omega arith) (omega arith) half_runs_out

parse-append_ok_example :
    seen (parse buffer_input new_parser (append full_buffer (codes "x")))
    ≡ some (ok, after_all, codes "GET" ++ codes "x")
unfolding contents
parse-append_ok_example =
    parse-append_ok new_parser after_all full_buffer (record full_buffer { read_idx = 42 })
      (codes "x") (omega arith) (omega arith) full_runs

parse_ok_lem_example : after_all.content_length ≤ max_body
parse_ok_lem_example =
    (parse_ok_lem new_parser after_all full_buffer (record full_buffer { read_idx = 42 })
      (omega arith) new_parser-IsSound full_runs).4

parse_refines_example :
    Agrees IsValid contents
      (parse buffer_input new_parser half)
      (parse bytes_input new_parser (contents half))
parse_refines_example = parse_refines new_parser half (omega arith)

request_of_line_iff_example :
    (request_of_line empty_request (codes "PUT /e?q HTTP/1.1") ≡ some put_request)
    ↔ Parts empty_request (codes "PUT /e?q HTTP/1.1") put_request
request_of_line_iff_example =
    request_of_line_iff empty_request put_request (codes "PUT /e?q HTTP/1.1")

abbrev with_host : HttpParser
with_host = record after_line {
  request = record put_request { headers = (codes "host", codes "a") ∷ [] };
}

header_of_line_iff_example :
    (header_of_line after_line (codes "Host: a ") ≡ some with_host)
    ↔ ((name : Bytes) × (text : Bytes) × IsField after_line with_host (codes "Host: a ") name text)
header_of_line_iff_example = header_of_line_iff after_line with_host (codes "Host: a ")

-- A header of 8193 bytes.
abbrev long_tail : Bytes
long_tail = b':' ∷ replicate 8191 b'x'

abbrev with_long : HttpParser
with_long = record after_line {
  request = record put_request { headers = (codes "a", replicate 8191 b'x') ∷ [] };
}

long_accepted : header_of_line after_line (b'a' ∷ long_tail) ≡ some with_long
unfolding whole_parser
long_accepted = refl
