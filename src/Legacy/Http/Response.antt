-- ===== src/Legacy/Http/Response.antt =====
-- What the HTTP responder answers.
use lazy_tcp.Prelude.{
  ℕ, ◌+◌, ◌%◌, ◌^◌, ◌≤◌, ◌<◌, ◌≡◌, ◌≢◌, refl, arith, Bool, true, false, ◌&&◌, Option, none, some,
  List, ◌++◌, inl, inr, leb, ◌==◌, ==_iff, if◌then◌else◌, ok, Returns, Bool-cases,
}
use lazy_tcp.Buf.{Buf, IsBytes, copy, with_bytes}
use lazy_tcp.Buf.Access.{memcpy-ok, copy-IsBytes}
use lazy_tcp.Legacy.Http.{
  File, HttpMemory, codes, length, decimal, byte_of, text, response_headers, http_serve_file,
  has_prefix, http_handle_request,
}
use lazy_tcp.Legacy.Http.Text.{
  begins, has_prefix-begins, all_bytes, byte_of-lt, all_bytes-response_headers,
}

-- the request is long enough and begins with GET
abbrev pub is_get : Buf → (data_at data_len : ℕ) → Bool
is_get b data_at data_len = leb 4 data_len && begins (codes "GET ") b.at data_at

-- the status line and the headers of a page of `n` bytes
abbrev pub ok_headers : ℕ → List ℕ
ok_headers n =
    codes "HTTP/1.1 200 OK\r\nContent-Type: text/html\r\nContent-Length: "
    ++ (decimal n ++ codes "\r\nConnection: close\r\n\r\n")

-- memory for everything, and a fresh array of bytes
pub record HasMemory (mem : HttpMemory) : Type 0 where
  pub content : mem.content_mem ≡ true
  pub response : mem.response_mem ≡ true
  pub error : mem.error_mem ≡ true
  pub fresh : IsBytes mem.fresh

-- A file of bytes whose response has at most `limit` bytes.
pub record IsServable (limit : ℕ) (f : File) : Type 0 where
  pub bytes : IsBytes f.content
  pub fits : length (ok_headers f.file_size) + f.file_size ≤ limit

-- The response: 400 for all but a GET, 404 without the file, 500 if it could not be read whole, and
-- else the headers with the file's length and the file.
pub data IsResponse (file : Option File) (get : Bool) (m : Buf) : Type 0 where
  bad_request :
      get ≡ false → m ≡ text (codes "HTTP/1.1 400 Bad Request\r\n\r\n") → IsResponse file get m
  not_found :
      get ≡ true
      → file ≡ none
      → m ≡ text (codes "HTTP/1.1 404 Not Found\r\n\r\n")
      → IsResponse file get m
  not_read :
      (f : File)
      → get ≡ true
      → file ≡ some f
      → f.read_size ≢ f.file_size
      → m ≡ text (codes "HTTP/1.1 500 Internal Server Error\r\n\r\n")
      → IsResponse file get m
  served :
      (f : File)
      → get ≡ true
      → file ≡ some f
      → f.read_size ≡ f.file_size
      → m.size ≡ length (ok_headers f.file_size) + f.file_size
      → ((j : ℕ)
          → j < length (ok_headers f.file_size)
          → m.at j ≡ byte_of (ok_headers f.file_size) j)
      → ((j : ℕ) → j < f.file_size → m.at (length (ok_headers f.file_size) + j) ≡ f.content j)
      → IsResponse file get m

-- a response to send: bytes, not empty, and at most `limit`
pub record IsMessage (limit : ℕ) (file : Option File) (get : Bool) (m : Buf) : Type 0 where
  pub says : IsResponse file get m
  pub bytes : IsBytes m.at
  pub some_bytes : 0 < m.size
  pub fits : m.size ≤ limit

text_bytes : (cs : List ℕ) → all_bytes cs ≡ true → IsBytes (text cs).at
unfolding text
text_bytes cs h i = byte_of-lt cs i h

headers_some : (n : ℕ) → 0 < length (ok_headers n)
unfolding length
headers_some n = omega arith

module _ (limit : ℕ) (mem : HttpMemory) (memory : HasMemory mem) (room : 40 ≤ limit)
    (small : limit < 2 ^ 32) where
  serve-served :
      (f : File)
      → IsServable limit f
      → f.read_size ≡ f.file_size
      → Returns (http_serve_file (some f) mem) (IsMessage limit (some f) true)
  unfolding http_serve_file text response_headers
  serve-served f h whole =
      let cs = ok_headers f.file_size in
      let n = length cs in
      let len = n + f.file_size in
      let exact : len % 2 ^ 32 ≡ len = omega (arith, h.fits) in
      let same : (f.read_size == f.file_size) ≡ true = (==_iff f.read_size f.file_size).1 whole in
      let headers = text cs in
      let content : Buf = record { size = f.file_size; at = f.content } in
      let response : Buf = record { size = len; at = mem.fresh } in
      let g1 = copy mem.fresh 0 (byte_of cs) 0 n in
      let g2 = copy g1 n f.content 0 f.file_size in
      (
        with_bytes response g2,
        rw (
          memory.content,
          same,
          memory.response,
          exact,
          memcpy-ok response 0 headers 0 n (omega arith) (omega arith),
          memcpy-ok (with_bytes response g1) n content 0 f.file_size (omega arith) (omega arith),
        ),
        record {
          says =
              served f refl refl whole refl (λ j less. unfold copy in ground arith)
                (λ j less. unfold copy in ground arith);
          bytes =
              copy-IsBytes g1 n f.content 0 f.file_size
                (copy-IsBytes mem.fresh 0 (byte_of cs) 0 n memory.fresh (λ i. byte_of-lt cs i (
                  let e : all_bytes (ok_headers f.file_size) ≡ true =
                    unfold response_headers in all_bytes-response_headers f.file_size in
                  e)))
                h.bytes;
          some_bytes = omega (arith, headers_some f.file_size);
          fits = h.fits;
        },
      )

  serve_file :
      (file : Option File)
      → ((f : File) → file ≡ some f → IsServable limit f)
      → Returns (http_serve_file file mem) (IsMessage limit file true)
  unfolding http_serve_file text length
  serve_file none servable = (
    text (codes "HTTP/1.1 404 Not Found\r\n\r\n"),
    rw memory.error,
    record {
      says = not_found refl refl refl;
      bytes = text_bytes (codes "HTTP/1.1 404 Not Found\r\n\r\n") refl;
      some_bytes = omega arith;
      fits = omega arith;
    },
  )
  serve_file (some f) servable = elim (Bool-cases (f.read_size == f.file_size)) [
    | inl whole ↦ serve-served f (servable f refl) ((==_iff f.read_size f.file_size).0 whole)
    | inr short ↦ (
      text (codes "HTTP/1.1 500 Internal Server Error\r\n\r\n"),
      rw (memory.content, short, memory.error),
      record {
        says = not_read f refl refl (λ e. ground (arith, ==_iff f.read_size f.file_size)) refl;
        bytes = text_bytes (codes "HTTP/1.1 500 Internal Server Error\r\n\r\n") refl;
        some_bytes = omega arith;
        fits = omega arith;
      },
    )
  ]

  -- For data in the buffer, memory for every allocation, room for the error responses and a file
  -- that is servable if there is one, `http_handle_request` meets no fault and returns the message
  -- of `IsMessage`.
  pub http_handle_request-IsMessage :
      (file : Option File)
      → ((f : File) → file ≡ some f → IsServable limit f)
      → (b : Buf) (data_at data_len : ℕ) → data_at + data_len ≤ b.size
      → Returns
          (http_handle_request file mem b data_at data_len)
          (IsMessage limit file (is_get b data_at data_len))
  unfolding http_handle_request text length
  http_handle_request-IsMessage file servable b data_at data_len inside =
      let test : (if leb 4 data_len then has_prefix (codes "GET ") b data_at else ok false)
          ≡ ok (is_get b data_at data_len) =
        elim (Bool-cases (leb 4 data_len)) [
          | inl long ↦ rw long (has_prefix-begins (codes "GET ") b data_at (ground arith))
          | inr short ↦ rw short
        ] in
      elim (Bool-cases (is_get b data_at data_len)) [
        | inl get ↦
            let (m, run, is) = serve_file file servable in (m, rw (test, get) run, rw get is)
        | inr get ↦ (
          text (codes "HTTP/1.1 400 Bad Request\r\n\r\n"),
          rw (test, get, memory.error),
          record {
            says = bad_request get refl;
            bytes = text_bytes (codes "HTTP/1.1 400 Bad Request\r\n\r\n") refl;
            some_bytes = omega arith;
            fits = omega arith;
          },
        )
      ]
