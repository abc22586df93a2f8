-- ===== src/Tests/Extracts.antt =====
-- The theorem about the bytes of a balance request, at a concrete input.
use rinha.Prelude.{
  pos, negsuc, add_int, Option, none, some, [], ◌++◌, false, List, Bytes, codes, replicate,
}
use rinha.Customers.{recent}
use rinha.ToJson.Extract.{texts}
use rinha.HandlerSocket.{id_text}
use rinha.HandlerSocket.Server.{put}
use rinha.RequestHandler.{Worker}
use rinha.RequestProcessor.{Processor, initial_buffer}
use rinha.Tests.Demo.{Memory, memory, absl}
use rinha.Tests.Data.{regular}
use rinha.Tests.Image.{full_image}
use rinha.Tests.Payments.{wire}
use rinha.Tests.Rows.{world}
use rinha.Tests.Handler.{clock}

abbrev kept : Memory
kept = record world {
  table =
      put (λ k. none) (id_text (add_int (pos 1) (negsuc 0)))
        (some (full_image.to_bytes regular, pos 4));
}

abbrev asker : Worker absl memory full_image clock
asker = record {
  shared = record { world = kept; customer_write_mutexs = replicate 5 false };
  cache = record { time_str = codes "2024-02-27 21:36" ++ replicate 4 0; last_update = 31 };
}

abbrev processor : Processor absl memory full_image clock wire
processor = record {
  worker = asker;
  response_body = [];
  transaction_result_buffer = initial_buffer;
}

abbrev extract_request : Bytes
extract_request = codes "GET /clientes/1/extrato HTTP/1.1\r\nHost: x\r\n\r\n"

abbrev listed_of : Option (List Bytes) → List Bytes
listed_of none = []
listed_of (some r) = r

abbrev listed : List Bytes
listed = listed_of (texts absl (recent regular))
