-- ===== src/IoThreadPool/Clients.antt =====
-- What a thread of the server does with the bytes of a client.
use rinha.Prelude.{ℕ, Bool, Bytes, ◌==◌, if◌then◌else◌, get_elem?}
use rinha.Prelude.Stateful.{Action, pure, modify, lift, ◌>>=◌, ◌>>◌}
use rinha.Structs.{Request}
use rinha.Absl.{Absl}
use rinha.Os.{Os, Source}
use rinha.Time.{Clock}
use rinha.HandlerSocket.Interface.{Client, Layout}
use rinha.HandlerSocket.{Session}
use rinha.RequestHandler.{Unset}
use rinha.IoThreadPool.{Io, call, read_loop, process_buffer}

module _ {c : Client} (absl : Absl) (l : Layout) (clock : Clock c.World) (os : Os c.World) (fd : ℕ)
    (source : Source os fd) where
  open source use {waiting}

  abbrev pub world_of : Io absl c l clock os → c.World
  world_of t = t.processor.worker.shared.world

  abbrev current_buffer : Action (Io absl c l clock os) Bytes
  current_buffer t = lift (get_elem? t.buffers t.buffer_index) t

  -- The rest of the handler, behind the reads.
  abbrev pub handle_received :
      ℕ
      → ℕ
      → Session c
      → Unset
      → Request
      → Bytes
      → ℕ
      → Bool
      → Action (Io absl c l clock os) (Unit {0})
  handle_received fuel rows s unset fresh buffer count done =
      (if count == 0
        then pure tt
        else process_buffer absl c l clock os fuel rows s unset fresh fd buffer count)
      >> (if done then call absl c l clock os (modify (os.close fd)) else pure tt)

  abbrev reads_into :
      ℕ → ℕ → Session c → Unset → Request → Bytes → Action (Io absl c l clock os) (Unit {0})
  reads_into fuel rows s unset fresh buffer =
      call absl c l clock os (read_loop os fuel fd buffer 0) >>= λ r.
      handle_received fuel rows s unset fresh r.0 r.1 r.2
