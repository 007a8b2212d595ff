-- ===== src/Server/Static.antt =====
-- Static files: which names are refused, and what the response to a name that is served holds.
use cxx_epoll_http_server.Common.{
  ℕ, ◌≡◌, ◌≢◌, ◌↔◌, refl, sym, ap, subst, ◌∙◌, true, false, ◌&&◌, some, [], ◌∷◌, ◌++◌, Bytes, codes,
  beq, beq_iff, if_false, length, ◌==◌, arith, Bool-cases, Option-cases, inl, inr,
}
use cxx_epoll_http_server.Decimal.{to_string as decimal}
use cxx_epoll_http_server.Headers
use cxx_epoll_http_server.Headers.Laws.{find-set}
use cxx_epoll_http_server.Http.{HttpRequest, HttpResponse, set_header, make}
use cxx_epoll_http_server.Server.{
  FileSystem, Stats, has_dots, content_type_of, relative_name, forbidden, not_found, file_response,
  has_method, finish, serve_static, route, handle_request,
}

-- Two dots in a row somewhere.
abbrev pub IsDotted : Bytes → Type 0
IsDotted s = (a : Bytes) × (b : Bytes) × (s ≡ a ++ b'.' ∷ b'.' ∷ b)

pub dotted-has_dots : (a b : Bytes) → has_dots (a ++ b'.' ∷ b'.' ∷ b) ≡ true
unfolding has_dots
dotted-has_dots [] b = refl
dotted-has_dots (x ∷ []) b = ground arith
dotted-has_dots (x ∷ y ∷ a) b = ground (arith, dotted-has_dots (y ∷ a) b)

has_dots-IsDotted : (s : Bytes) → has_dots s ≡ true → IsDotted s
unfolding has_dots
has_dots-IsDotted [] h = cc
has_dots-IsDotted (x ∷ []) h = cc
has_dots-IsDotted (x ∷ y ∷ s) h = elim (Bool-cases (x == b'.' && y == b'.')) [
  | inl e ↦ let q : (x ≡ b'.') × (y ≡ b'.') = ground (arith, e) in ([], s, rw (q.0, q.1) refl)
  | inr e ↦
      let (a, b, q) = has_dots-IsDotted (y ∷ s) (ground (arith, e, h)) in
      (x ∷ a, b, ap (λ r. x ∷ r) q)
]

-- A path with two dots in a row is none of the fixed ones.
dotted_ne : (s t : Bytes) → has_dots s ≡ true → has_dots t ≡ false → beq s t ≡ false
dotted_ne s t h k = elim (Bool-cases (beq s t)) [
  | inl e ↦ let q = ap has_dots ((beq_iff s t).0 e) in absurd (cc)
  | inr e ↦ e
]

slashless : (x : ℕ) (p : Bytes) → x ≢ b'/' → relative_name (x ∷ p) ≡ x ∷ p
unfolding relative_name beq
slashless x p n = ground arith

-- A response that holds a file of this name: what differs from the response before.
pub record IsFile (full content : Bytes) (resp x : HttpResponse) : Type 0 where
  pub status_ok : x.status ≡ 200
  pub body_full : x.body ≡ content
  pub type_told : Headers.find (codes "Content-Type") x.headers ≡ some (content_type_of full)
  pub length_told :
      Headers.find (codes "Content-Length") x.headers ≡ some (decimal (length content))
  pub others_kept :
      (k : Bytes)
      → k ≢ codes "Content-Type"
      → k ≢ codes "Content-Length"
      → Headers.find k x.headers ≡ Headers.find k resp.headers
  pub closing_kept : x.close_connection ≡ resp.close_connection

module _ (fs : FileSystem) (doc_root : Bytes) where
  route-dotted :
      (s : Stats) (req : HttpRequest) (resp : HttpResponse)
      → has_method req (codes "GET") ≡ true
      → has_dots req.path ≡ true
      → route fs doc_root s req resp ≡ forbidden
  unfolding route serve_static relative_name
  route-dotted s req resp g d = ground (
    arith,
    g,
    d,
    dotted_ne req.path (codes "/stats") d (unfold has_dots in refl),
    dotted_ne req.path (codes "/echo") d (unfold has_dots in refl),
    dotted_ne req.path (codes "/hello") d (unfold has_dots in refl),
    dotted_ne req.path (codes "/healthz") d (unfold has_dots in refl),
    dotted_ne req.path (codes "/") d (unfold has_dots in refl),
  )

  -- A GET for a path with two dots in a row is answered with 403 whatever the file system holds.
  pub parent_path_refused :
      (s : Stats) (req : HttpRequest) (resp : HttpResponse)
      → has_method req (codes "GET") ≡ true
      → IsDotted req.path
      → handle_request fs doc_root s req resp ≡ finish (has_method req (codes "HEAD")) forbidden
  unfolding handle_request
  parent_path_refused s req resp g (a, b, e) =
      ap (finish (has_method req (codes "HEAD")))
        (route-dotted s req resp g (ap has_dots e ∙ dotted-has_dots a b))

  served_of :
      (req : HttpRequest) (resp : HttpResponse) (content : Bytes)
      → let name = relative_name req.path in
        let full = doc_root ++ name in
        (has_dots name ≡ false)
        → fs.is_regular full ≡ true
        → fs.read_file full ≡ some content
        → serve_static fs doc_root req resp ≡ file_response full content resp
  unfolding serve_static
  served_of req resp content d r f = rw (d, r, f) refl

  -- What has to hold of a name and a file's content for the file to be served.
  pub record IsServed (name content : Bytes) : Type 0 where
    pub plain : IsDotted name → ⊥
    pub regular : fs.is_regular (doc_root ++ name) ≡ true
    pub content_read : fs.read_file (doc_root ++ name) ≡ some content

  serve_static-IsServed :
      (req : HttpRequest) (resp : HttpResponse) (content : Bytes)
      → IsServed (relative_name req.path) content
      → serve_static fs doc_root req resp
        ≡ file_response (doc_root ++ relative_name req.path) content resp
  serve_static-IsServed req resp content v = elim (Bool-cases (has_dots (relative_name req.path))) [
    | inl d ↦ absurd (v.plain (has_dots-IsDotted _ d))
    | inr d ↦ served_of req resp content d v.regular v.content_read
  ]

  status-IsServed :
      (req : HttpRequest) (resp : HttpResponse)
      → (serve_static fs doc_root req resp).status ≡ 200
      → (content : Bytes) × IsServed (relative_name req.path) content
  unfolding serve_static forbidden not_found make set_header
  status-IsServed req resp h =
      let name = relative_name req.path in
      elim (Bool-cases (has_dots name)) [
        | inl d ↦ absurd (ground (arith, h, d))
        | inr d ↦ elim (Bool-cases (fs.is_regular (doc_root ++ name))) [
          | inl r ↦ elim (Option-cases (fs.read_file (doc_root ++ name))) [
            | inl f ↦ absurd (ground (arith, h, d, r, f))
            | inr (c, f) ↦ (
              c,
              record {
                plain = λ (a, b, e). let q = sym (ap has_dots e ∙ dotted-has_dots a b) ∙ d in cc;
                regular = r;
                content_read = f;
              },
            )
          ]
          | inr r ↦ absurd (ground (arith, h, d, r))
        ]
      ]

  file_response-IsFile :
      (full content : Bytes) (resp : HttpResponse)
      → IsFile full content resp (file_response full content resp)
  unfolding file_response set_header Headers.find beq Headers.set
  file_response-IsFile full content resp = record {
    status_ok = refl;
    body_full = refl;
    type_told =
        find-set (codes "Content-Type") (codes "Content-Length") (decimal (length content)) typed
        ∙ find-set (codes "Content-Type") (codes "Content-Type") (content_type_of full)
            resp.headers;
    length_told =
        find-set (codes "Content-Length") (codes "Content-Length") (decimal (length content)) typed;
    others_kept = λ k t l.
        find-set k (codes "Content-Length") (decimal (length content)) typed
        ∙ if_false (beq (codes "Content-Length") k) _ _ (other (codes "Content-Length") k l)
        ∙ find-set k (codes "Content-Type") (content_type_of full) resp.headers
        ∙ if_false (beq (codes "Content-Type") k) _ _ (other (codes "Content-Type") k t);
    closing_kept = refl;
  }
    where
      typed : Headers.Headers
      typed = Headers.set (codes "Content-Type") (content_type_of full) resp.headers

      other : (j k : Bytes) → k ≢ j → beq j k ≡ false
      other j k n = elim (Bool-cases (beq j k)) [
        | inl e ↦ absurd (n (sym ((beq_iff j k).0 e)))
        | inr e ↦ e
      ]

  served :
      (req : HttpRequest) (resp : HttpResponse) (content : Bytes)
      → IsServed (relative_name req.path) content
      → IsFile (doc_root ++ relative_name req.path) content resp (serve_static fs doc_root req resp)
  served req resp content v =
      subst (IsFile (doc_root ++ relative_name req.path) content resp)
        (sym (serve_static-IsServed req resp content v))
        (file_response-IsFile (doc_root ++ relative_name req.path) content resp)

  -- `serveStatic` answers 200 exactly if the name has no two dots in a row, names a regular file
  -- below the document root's text, and can be read. Where it is and can, the response has the
  -- status 200, the file's content as its body, the type by the name's extension and the content's
  -- length in decimal as its headers, and the other headers that the response had before.
  pub serve_static_iff :
      (req : HttpRequest) (resp : HttpResponse)
      → (((serve_static fs doc_root req resp).status ≡ 200)
          ↔ ((content : Bytes) × IsServed (relative_name req.path) content))
        × ((content : Bytes)
            → IsServed (relative_name req.path) content
            → IsFile
                (doc_root ++ relative_name req.path)
                content
                resp
                (serve_static fs doc_root req resp))
  serve_static_iff req resp =
      ((status-IsServed req resp, λ (c, v). (served req resp c v).status_ok), served req resp)

  -- A path that does not begin with a slash, and has no two dots in a row, is joined to the
  -- document root's text as it is: if that names a regular file that can be read, its content is
  -- served.
  pub sibling_name_read :
      (req : HttpRequest) (resp : HttpResponse) (x : ℕ) (p content : Bytes)
      → req.path ≡ x ∷ p
      → x ≢ b'/'
      → IsServed (x ∷ p) content
      → serve_static fs doc_root req resp ≡ file_response (doc_root ++ x ∷ p) content resp
  sibling_name_read req resp x p content e n v =
      let q : relative_name req.path ≡ x ∷ p = ap relative_name e ∙ slashless x p n in
      serve_static-IsServed req resp content (subst (λ m. IsServed m content) (sym q) v)
      ∙ ap (λ m. file_response (doc_root ++ m) content resp) q
