-- ===== src/Http/Response.antt =====
-- The bytes of a response, `ApiResponse::into_bytes` of src/api.rs, and their reading by the command
-- line client, `parse_cli_response`.
use whatsrust.Prelude.{
  ℕ, zero, suc, ◌+◌, ◌*◌, ◌-◌, ◌/◌, ◌%◌, Option, none, some, List, [], ◌∷◌, ◌++◌, Bool, ◌&&◌, ltb,
  leb, ◌==◌, if◌then◌else◌, length,
}
use whatsrust.Prelude.Texts.{Text, codes, split_on}
use whatsrust.Http.{Header}
use whatsrust.Http.Lossy.{from_utf8_lossy}
use whatsrust.Http.Head.{split_head, pieces_to_lines, split_whitespace, parse_unsigned, or_zero}
pub mod Decimal
pub mod Split
pub mod Status
pub mod Reads

-- `ApiResponse`
pub record Response : Type 0 where
  pub status : ℕ
  pub content_type : Text
  pub headers : List Header
  pub body : Text

-- `Display` of an unsigned number, on fuel: a number has at most as many digits as its successor.
unfoldable pub decimal_within : ℕ → ℕ → Text
decimal_within zero n = []
decimal_within (suc fuel) n =
    let front = decimal_within fuel (n / 10) in
    if ltb n 10 then (b'0' + n) ∷ [] else front ++ ((b'0' + n % 10) ∷ [])

unfoldable pub decimal : ℕ → Text
unfolding decimal_within
decimal n = decimal_within (suc n) n

unfoldable pub status_text : ℕ → Text
status_text status =
    if status == 200
    then codes "OK"
    else if status == 202
    then codes "Accepted"
    else if status == 400
    then codes "Bad Request"
    else if status == 401
    then codes "Unauthorized"
    else if status == 403
    then codes "Forbidden"
    else if status == 404
    then codes "Not Found"
    else if status == 405
    then codes "Method Not Allowed"
    else if status == 409
    then codes "Conflict"
    else if status == 411
    then codes "Length Required"
    else if status == 413
    then codes "Content Too Large"
    else if status == 415
    then codes "Unsupported Media Type"
    else if status == 417
    then codes "Expectation Failed"
    else if status == 429
    then codes "Too Many Requests"
    else if status == 500
    then codes "Internal Server Error"
    else if status == 501
    then codes "Not Implemented"
    else if status == 503
    then codes "Service Unavailable"
    else if status == 504
    then codes "Gateway Timeout"
    else codes "Unknown"

-- The loop that pushes the extra headers.
unfoldable pub push_headers : Text → List Header → Text
push_headers header [] = header
push_headers header (h ∷ hs) =
    push_headers (header ++ (Header.name h ++ (codes ": " ++ (Header.value h ++ codes "\r\n")))) hs

unfoldable pub into_bytes : Response → Text
unfolding push_headers status_text decimal
into_bytes r =
    let line = codes "HTTP/1.1 " ++ (decimal r.status ++ (codes " " ++ status_text r.status)) in
    let header =
      line
      ++ (codes "\r\nContent-Type: "
          ++ (r.content_type
              ++ (codes "\r\nContent-Length: " ++ (decimal (length r.body) ++ codes "\r\n")))) in
    (push_headers header r.headers ++ codes "Connection: close\r\n\r\n") ++ r.body

abbrev pub status_of_words : List Text → ℕ
status_of_words [] = 0
status_of_words (w ∷ []) = 0
status_of_words (w ∷ s ∷ ws) = or_zero (parse_unsigned 16 s)

abbrev pub status_of_lines : List Text → ℕ
status_of_lines [] = 0
status_of_lines (l ∷ ls) = status_of_words (split_whitespace l)

unfoldable pub status_of : Text → ℕ
unfolding from_utf8_lossy pieces_to_lines split_on split_whitespace parse_unsigned
status_of head = status_of_lines (pieces_to_lines (split_on 10 (from_utf8_lossy head)))

-- The status and the body; `none` is the error.
unfoldable pub parse_cli_response : Text → Option (ℕ × Text)
unfolding split_head status_of
parse_cli_response raw = elim (split_head raw) [
  | none ↦ none
  | some (head, body) ↦ some (status_of head, body)
]
