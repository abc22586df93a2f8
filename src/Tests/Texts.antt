-- ===== src/Tests/Texts.antt =====
-- The theorems about the ring and the texts of requests and responses, each applied at a concrete
-- input.
use rinha.Prelude.{◌≡◌, add_int, some, [], ◌∷◌, ◌++◌, Bytes, codes, take}
use rinha.Structs.{Customer}
use rinha.Customers.{recent, IsRing}
use rinha.Customers.Ring.{record_transaction-recent}
use rinha.MariaDatabase.{record_transaction}
use rinha.RequestProcessor.{send_response}
use rinha.RequestProcessor.Sending.{send_response-taken, send_response-all}
use rinha.Tests.Kernel.{kernel, sink, two_takes}
use rinha.Tests.Data.{payment, regular, regular_ring}

record_transaction-recent_example :
    (c' : Customer) × (record_transaction regular payment ≡ some c')
    × (recent c' ≡ take 10 (payment ∷ recent regular))
    × (c'.balance ≡ add_int regular.balance payment.value)
    × (c'.limit ≡ regular.limit)
    × IsRing c'
record_transaction-recent_example = record_transaction-recent regular payment regular_ring

send_response-taken_example :
    (left front : Bytes) × (w' : Bytes) × (send_response kernel 7 (codes "HTTP/1.1") (codes "old")
      ≡ some (left, w'))
    × (codes "HTTP/1.1" ≡ front ++ left)
    × (sink.taken w' ≡ sink.taken (codes "old") ++ front)
send_response-taken_example = send_response-taken kernel 7 sink (codes "HTTP/1.1") (codes "old")

send_response-all_example :
    (w' : Bytes) × (send_response kernel 7 (codes "HTTP/1.1") (codes "old") ≡ some ([], w'))
    × (sink.taken w' ≡ sink.taken (codes "old") ++ codes "HTTP/1.1")
send_response-all_example =
    send_response-all kernel 7 sink two_takes (codes "HTTP/1.1") (codes "old")
