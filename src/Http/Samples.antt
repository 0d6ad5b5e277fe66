-- ===== src/Http/Samples.antt =====
-- A request to the REST listener that the tests share.
use whatsrust.Prelude.{◌≡◌, refl, true, false, some, [], ◌∷◌}
use whatsrust.Prelude.Texts.{
  Text, codes, same_text, to_lower, eq_ignore_case, is_whitespace, trim_start, hold_end, trim_end,
  trim, split_once, split_on,
}
use whatsrust.Http.{RequestHead}
use whatsrust.Http.Tokens.{utf8_char, utf8}
use whatsrust.Http.Url.{
  hex, both_digits, escape, plain_byte, decode_query_component, parse_pair, parse_query,
}
use whatsrust.Http.Head.{
  is_scalar, push_char, utf8_step, from_utf8, split_head, strip_cr, pieces_to_lines, split_by,
  split_whitespace, digits_value, parse_digits, parse_unsigned, parse_headers, content_length_of,
  path_of, head_of_words, head_of_lines, parse_head, read_head, read_request_head,
}
use whatsrust.Http.Serve.{Connection}

abbrev pub request : Text
request =
    codes
      "POST /api/send?sync=a%20b HTTP/1.1\r\nHost: localhost:1\r\nContent-Type: application/json\r\nX-API-Token: s\r\nContent-Length: 2\r\n\r\n{"

abbrev pub connection : Connection
connection = record {
  head_reads = some request ∷ [];
  body_reads = some (codes "} ") ∷ [];
  sse_permit = false;
  continue_sent = true;
}

abbrev pub sent_head : RequestHead
sent_head = record {
  method = codes "POST";
  path = codes "/api/send";
  query = (codes "sync", codes "a b") ∷ [];
  headers =
      record { name = codes "Host"; value = codes "localhost:1" }
      ∷ record { name = codes "Content-Type"; value = codes "application/json" }
      ∷ record { name = codes "X-API-Token"; value = codes "s" }
      ∷ record { name = codes "Content-Length"; value = codes "2" }
      ∷ [];
  content_length = 2;
  leftover = codes "{";
}

pub head_is_read : read_request_head (Connection.head_reads connection) ≡ some sent_head
unfolding read_request_head read_head split_head parse_head from_utf8 utf8_step is_scalar push_char
    pieces_to_lines strip_cr split_on head_of_lines split_whitespace split_by is_whitespace
    parse_headers split_once trim trim_start trim_end hold_end content_length_of eq_ignore_case
    to_lower same_text parse_unsigned parse_digits digits_value head_of_words path_of parse_query
    parse_pair decode_query_component escape both_digits hex plain_byte utf8 utf8_char
head_is_read = refl
