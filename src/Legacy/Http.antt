-- ===== src/Legacy/Http.antt =====
-- The HTTP responder of the older server (network/http/http.c). The file and the results of
-- `malloc` and `strdup` are parameters; a NULL that the code uses is a fault.
use Prim.Native.Char.{code}
use Prim.Native.String.{String}
use lazy_tcp.Prelude.{ℕ, zero, suc, ◌+◌, ◌/◌, ◌%◌, Bool, true, false, Option, none, some, ◌&&◌}
use lazy_tcp.Prelude.{List, [], ◌∷◌, ◌++◌, leb, ◌==◌, if◌then◌else◌, Run, ok, fault, ◌>>=◌}
use lazy_tcp.Word.{u32}
use lazy_tcp.Buf.{Buf, load8, memcpy}
pub mod Text
pub mod Response

-- what `fopen` finds: the size that `ftell` reports, the number of bytes that `fread` reads, and
-- the bytes
pub record File : Type 0 where
  pub file_size : ℕ
  pub read_size : ℕ
  pub content : ℕ → ℕ

-- the results of `malloc` for the content and for the response, and of `strdup`, false for NULL,
-- and what fresh memory holds
pub record HttpMemory : Type 0 where
  pub content_mem : Bool
  pub response_mem : Bool
  pub error_mem : Bool
  pub fresh : ℕ → ℕ

abbrev pub codes : String → List ℕ
codes String.[] = []
codes (String.◌∷◌ c s) = code c ∷ codes s

unfoldable pub length : List ℕ → ℕ
length [] = 0
length (x ∷ xs) = suc (length xs)

-- the bytes of a text, and zeros behind them
unfoldable pub byte_of : List ℕ → ℕ → ℕ
byte_of [] i = 0
byte_of (x ∷ xs) zero = x
byte_of (x ∷ xs) (suc i) = byte_of xs i

unfoldable pub text : List ℕ → Buf
text cs = record { size = length cs; at = byte_of cs }

-- the decimal digits of a number below 10 ^ `places`, with the digits behind it
unfoldable pub digits : (places n : ℕ) → List ℕ → List ℕ
digits zero n rest = rest
digits (suc places) n rest =
    let rest' = digits places (n / 10) ((b'0' + n % 10) ∷ rest) in
    if leb 10 n then rest' else (b'0' + n % 10) ∷ rest

-- `%ld` of a `long` that is not negative
unfoldable pub decimal : ℕ → List ℕ
unfolding digits
decimal n = digits 19 n []

unfoldable pub response_headers : (file_size : ℕ) → List ℕ
response_headers file_size =
    codes "HTTP/1.1 200 OK\r\nContent-Type: text/html\r\nContent-Length: "
    ++ (decimal file_size ++ codes "\r\nConnection: close\r\n\r\n")

-- `strdup(error)`, whose length is then taken
abbrev pub error_response : HttpMemory → String → Run Buf
error_response mem error = if mem.error_mem then ok (text (codes error)) else fault

-- The response with its length, which is kept as an `int`.
unfoldable pub http_serve_file : Option File → HttpMemory → Run Buf
http_serve_file none mem = error_response mem "HTTP/1.1 404 Not Found\r\n\r\n"
http_serve_file (some f) mem =
    if mem.content_mem
    then (if f.read_size == f.file_size
        then (let headers = text (response_headers f.file_size) in
            let content : Buf = record { size = f.file_size; at = f.content } in
            let message_len = u32 (headers.size + f.file_size) in
            let response : Buf = record { size = message_len; at = mem.fresh } in
            if mem.response_mem
            then (do
              r1 ← memcpy response 0 headers 0 headers.size
              memcpy r1 headers.size content 0 f.file_size)
            else fault)
        else error_response mem "HTTP/1.1 500 Internal Server Error\r\n\r\n")
    else fault

-- `strncmp(data, text, 4) == 0`: it reads up to the first difference
unfoldable pub has_prefix : List ℕ → Buf → (data_at : ℕ) → Run Bool
has_prefix [] b data_at = ok true
has_prefix (c ∷ cs) b data_at = do
  x ← load8 b data_at
  if x == c then has_prefix cs b (data_at + 1) else ok false

unfoldable pub http_handle_request :
    Option File → HttpMemory → Buf → (data_at data_len : ℕ) → Run Buf
http_handle_request file mem b data_at data_len = do
  get ← if leb 4 data_len then has_prefix (codes "GET ") b data_at else ok false
  if get then http_serve_file file mem else error_response mem "HTTP/1.1 400 Bad Request\r\n\r\n"
