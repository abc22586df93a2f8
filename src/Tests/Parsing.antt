-- ===== src/Tests/Parsing.antt =====
-- The theorems about the texts that the parser accepts and the memory that it reads, at concrete inputs.
use rinha.Prelude.{
  ◌≡◌, ◌↔◌, refl, wrap_int, Bool, true, none, some, Bytes, codes, arith, replicate, length,
}
use rinha.Structs.{Transaction, Request}
use rinha.FromHttp.{to_int_loop, substring_to_int, parse_tipo, parse_json_body, from_http}
use rinha.FromHttp.Positions.{view_of}
use rinha.FromHttp.Body.{Body, IsShaped, print, amount, closed}
use rinha.FromHttp.Grammar.{parse_json_body-IsShaped}
use rinha.FromHttp.Reads.{from_http-some}
use rinha.Tests.Demo.{absl}
use rinha.Tests.Data.{sample}
use rinha.Tests.Requests.{unread}

-- What `sample` is read into.
abbrev read : Transaction
read = record (unread.transaction) {
  value = wrap_int (amount sample);
  description = closed sample.description (replicate 11 7);
}

parse_json_body-IsShaped_example :
    (parse_json_body (view_of (print sample) (codes "x")) unread.transaction ≡ some (true, read))
    ↔ ((b : Body) × IsShaped b
        × (print sample ≡ print b)
        × (read ≡ record (unread.transaction) {
          value = wrap_int (amount b);
          description = closed b.description (replicate 11 7);
        }))
parse_json_body-IsShaped_example =
    parse_json_body-IsShaped (print sample) (codes "x") unread.transaction read (omega arith) refl

-- A text that breaks off behind the comma.
abbrev broken : Bytes
broken = codes "POST /clientes/1/transacoes HTTP/1.1\r\n\r\n{\"valor\": 1,"

from_http-some_example :
    (r : Bool × Request) × (from_http absl (view_of broken (replicate 11 0)) unread ≡ some r)
    × (length r.1.transaction.description ≡ 11)
from_http-some_example =
    from_http-some absl broken (replicate 11 0) (omega arith) (omega arith) (omega arith) unread
      refl

-- With ten bytes behind it, the kind of the transaction is read behind the array.
broken_reads_behind :
    parse_json_body (view_of (codes "{\"valor\": 1,") (replicate 10 0)) unread.transaction ≡ none
unfolding parse_json_body parse_tipo substring_to_int to_int_loop
broken_reads_behind = refl
