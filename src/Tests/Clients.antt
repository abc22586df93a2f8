-- ===== src/Tests/Clients.antt =====
-- The theorem about the bytes of a client, at a concrete input.
use rinha.Prelude.{[], codes, replicate}
use rinha.Os.{Os, Source}
use rinha.IoThreadPool.{Io}
use rinha.Tests.Demo.{Memory, memory, image, absl}
use rinha.Tests.Proxy.{serve, served_read}
use rinha.Tests.Payments.{wire, processor}
use rinha.Tests.Handler.{clock}
use rinha.Tests.Rows.{world}

abbrev pub line : Os Memory
line = record wire {
  read = λ fd n w. ((serve n w.input).0, record w { input = (serve n w.input).1 });
}

abbrev line_source : Source line 7
line_source = record { waiting = λ w. w.input; on_read = λ n w. served_read n w.input }

abbrev asked : Memory
asked = record world { input = codes "GET /clientes/1/extrato HTTP/1.1\r\n\r\n" }

abbrev thread : Io absl memory image clock line
thread = record {
  processor = record {
    worker = record (processor.worker) {
      shared = record (processor.worker.shared) { world = asked };
    };
    response_body = [];
    transaction_result_buffer = processor.transaction_result_buffer;
  };
  buffers = replicate 3 (replicate 1025 0);
  buffer_index = 2;
}
