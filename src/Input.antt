-- ===== src/Input.antt =====
-- What the request parser uses of a buffer, and the laws that it relies on: the operations of
-- include/ws/buffer.h that src/http_parser.cpp calls. The buffer of the program is one such input,
-- and a plain list of bytes is another, on which the parser's properties are proved.
use cxx_epoll_http_server.Common.{ℕ, ◌≤◌, ◌≡◌, sym, Option, Bytes, length, take, drop, arith}
use cxx_epoll_http_server.Buffer
use cxx_epoll_http_server.Buffer.{Buffer, search_crlf}
use cxx_epoll_http_server.Buffer.Invariant.{IsValid, retrieve-IsValid}
use cxx_epoll_http_server.Buffer.Contents.{
  contents, length-contents, peek_string-contents, contents-retrieve, retrieve_as_string_lem,
}
use cxx_epoll_http_server.Buffer.Search.{find_crlf-search}

pub record Input (B : Type 0) : Type 0 where
  pub readable_bytes : B → ℕ
  pub find_crlf : B → ℕ → Option ℕ
  pub peek_string : B → ℕ → Bytes
  pub retrieve : B → ℕ → B
  pub retrieve_as_string : B → ℕ → Bytes × B

-- The unread bytes of an input whose invariant is `P` are `view`, and the operations read them
-- from the front.
pub record IsInput {B : Type 0} (i : Input B) (P : B → Type 0) (view : B → Bytes) : Type 0 where
  pub readable : (b : B) → P b → i.readable_bytes b ≡ length (view b)
  pub finds : (b : B) → P b → i.find_crlf b 0 ≡ search_crlf (view b)
  pub peeks : (b : B) (n : ℕ) → P b → n ≤ length (view b) → i.peek_string b n ≡ take n (view b)
  pub retrieves : (b : B) (n : ℕ) → P b → view (i.retrieve b n) ≡ drop n (view b)
  pub retrieve_keeps : (b : B) (n : ℕ) → P b → P (i.retrieve b n)
  pub takes : (b : B) (n : ℕ) → P b → (i.retrieve_as_string b n).0 ≡ take n (view b)
  pub leaves : (b : B) (n : ℕ) → P b → view (i.retrieve_as_string b n).1 ≡ drop n (view b)
  pub take_keeps : (b : B) (n : ℕ) → P b → P (i.retrieve_as_string b n).1

abbrev pub buffer_input : Input Buffer
buffer_input = record {
  readable_bytes = Buffer.readable_bytes;
  find_crlf = Buffer.find_crlf;
  peek_string = Buffer.peek_string;
  retrieve = Buffer.retrieve;
  retrieve_as_string = Buffer.retrieve_as_string;
}

pub buffer_input-IsInput : IsInput buffer_input IsValid contents
buffer_input-IsInput = record {
  readable = λ b v. sym (length-contents b v);
  finds = λ b v. find_crlf-search b v;
  peeks = λ b n v h. peek_string-contents b n v (omega (arith, length-contents b v));
  retrieves = contents-retrieve;
  retrieve_keeps = retrieve-IsValid;
  takes = λ b n v. (retrieve_as_string_lem b n v).0;
  leaves = λ b n v. (retrieve_as_string_lem b n v).1;
  take_keeps = λ b n v. (retrieve_as_string_lem b n v).2;
}

abbrev pub bytes_input : Input Bytes
bytes_input = record {
  readable_bytes = length;
  find_crlf = λ s o. search_crlf s;
  peek_string = λ s n. take n s;
  retrieve = λ s n. drop n s;
  retrieve_as_string = λ s n. (take n s, drop n s);
}
