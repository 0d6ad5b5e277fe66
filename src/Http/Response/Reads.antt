-- ===== src/Http/Response/Reads.antt =====
-- What the command line client reads of a response is what the server put in.
use mathlib.Core.List.{append_assoc}
use whatsrust.Prelude.{
  ℕ, ◌<◌, ◌≡◌, ◌≢◌, refl, sym, ap, ◌∙◌, some, List, [], ◌∷◌, ◌++◌, true, arith, length,
}
use whatsrust.Prelude.Table.{All}
use whatsrust.Prelude.Texts.{Text, codes, Lacks, Lacks-append}
use whatsrust.Http.{Header}
use whatsrust.Http.Response.{Response, decimal, push_headers, into_bytes, parse_cli_response}
use whatsrust.Http.Response.Split.{IsLine, wire, split_head-wire}
use whatsrust.Http.Response.Status.{
  All-imp, IsPlain, all_plain, all_plain-IsPlain, decimal-IsPlain, status_line, status_line-IsPlain,
  status_of-line,
}

abbrev pub header_line : Header → Text
header_line h = Header.name h ++ (codes ": " ++ Header.value h)

abbrev pub header_lines : List Header → List Text
header_lines [] = codes "Connection: close" ∷ []
header_lines (h ∷ hs) = header_line h ∷ header_lines hs

push_headers-wire :
    (header : Text) (hs : List Header) (body : Text)
    → (push_headers header hs ++ codes "Connection: close\r\n\r\n") ++ body
      ≡ header ++ wire (header_lines hs) body
unfolding push_headers
push_headers-wire header [] body = append_assoc header (codes "Connection: close\r\n\r\n") body
push_headers-wire header (h ∷ hs) body =
    let n = Header.name h in
    let v = Header.value h in
    let rest = wire (header_lines hs) body in
    push_headers-wire (header ++ (n ++ (codes ": " ++ (v ++ codes "\r\n")))) hs body
    ∙ append_assoc header (n ++ (codes ": " ++ (v ++ codes "\r\n"))) rest
    ∙ ap (λ t. header ++ t)
        (append_assoc n (codes ": " ++ (v ++ codes "\r\n")) rest
          ∙ ap (λ t. n ++ (codes ": " ++ t)) (append_assoc v (codes "\r\n") rest)
          ∙ sym (append_assoc n (codes ": " ++ v) (codes "\r\n" ++ rest)))

-- The lines behind the status line.
abbrev pub lines_of : Response → List Text
lines_of r =
    (codes "Content-Type: " ++ r.content_type)
    ∷ (codes "Content-Length: " ++ decimal (length r.body))
    ∷ header_lines r.headers

into_bytes-wire : (r : Response) → into_bytes r ≡ wire (status_line r.status ∷ lines_of r) r.body
unfolding into_bytes
into_bytes-wire r =
    let line = status_line r.status in
    let n = decimal (length r.body) in
    let tail = codes "\r\nContent-Length: " ++ (n ++ codes "\r\n") in
    let rest = wire (header_lines r.headers) r.body in
    push_headers-wire (line ++ (codes "\r\nContent-Type: " ++ (r.content_type ++ tail))) r.headers
      r.body
    ∙ append_assoc line (codes "\r\nContent-Type: " ++ (r.content_type ++ tail)) rest
    ∙ ap (λ t. line ++ (codes "\r\nContent-Type: " ++ t))
        (append_assoc r.content_type tail rest
          ∙ ap (λ t. r.content_type ++ (codes "\r\nContent-Length: " ++ t))
              (append_assoc n (codes "\r\n") rest))

IsPlain-Lacks : (s : Text) → All IsPlain s → Lacks 13 s
IsPlain-Lacks s h = All-imp IsPlain (λ c. c ≢ 13) (λ c k. omega arith) s h

pub literal-Lacks : (s : Text) → all_plain s ≡ true → Lacks 13 s
literal-Lacks s h = IsPlain-Lacks s (all_plain-IsPlain s h)

IsLine-append : (s t : Text) (c : ℕ) → Lacks 13 s → Lacks 13 (c ∷ t) → IsLine (s ++ c ∷ t)
IsLine-append [] t c h k = k
IsLine-append (x ∷ s) t c h k = Lacks-append 13 (x ∷ s) (c ∷ t) h k

-- No carriage return in a header.
abbrev pub IsOneLine : Header → Type 0
IsOneLine h = Lacks 13 (Header.name h) × Lacks 13 (Header.value h)

header_lines-IsLine : (hs : List Header) → All IsOneLine hs → All IsLine (header_lines hs)
header_lines-IsLine [] h = (literal-Lacks (codes "Connection: close") refl, tt)
header_lines-IsLine (x ∷ hs) h = (
  IsLine-append (Header.name x) (32 ∷ Header.value x) 58 h.0.0 (omega arith, (omega arith, h.0.1)),
  header_lines-IsLine hs h.1,
)

-- The client gets the status and the body that the server sent, for every response with a 16-bit
-- status whose content type and extra headers have no carriage return in them, the body being any
-- bytes.
pub parse_cli_response-into_bytes :
    (r : Response)
    → r.status < 65536
    → Lacks 13 r.content_type
    → All IsOneLine r.headers
    → parse_cli_response (into_bytes r) ≡ some (r.status, r.body)
unfolding parse_cli_response
parse_cli_response-into_bytes r small plain one_line =
    let first = IsPlain-Lacks (status_line r.status) (status_line-IsPlain r.status) in
    let kind =
      Lacks-append 13 (codes "Content-Type: ") r.content_type
        (literal-Lacks (codes "Content-Type: ") refl) plain in
    let size =
      Lacks-append 13 (codes "Content-Length: ") (decimal (length r.body))
        (literal-Lacks (codes "Content-Length: ") refl)
        (IsPlain-Lacks (decimal (length r.body)) (decimal-IsPlain (length r.body))) in
    let found =
      split_head-wire (status_line r.status) (lines_of r) r.body
        (first, (kind, (size, header_lines-IsLine r.headers one_line))) in
    ap parse_cli_response (into_bytes-wire r)
    ∙ rw (found, parse_cli_response) (ap (λ n. some (n, r.body)) (status_of-line r.status _ small))
