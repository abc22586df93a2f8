-- ===== src/RequestProcessor/Extracts.antt =====
-- `ProcessRequest` on the bytes of a balance request, from the buffer of the connection to the bytes
-- that the client gets.
use rinha.Prelude.{pos, decimal, [], ◌∷◌, Bytes, codes, length}
use rinha.Absl.{Absl, concat}
use rinha.Os.{Os}
use rinha.HandlerSocket.Server.{Server}
use rinha.RequestProcessor.{k_ok_header}

-- The text of a response with a body.
abbrev pub response_with : Bytes → Bytes
response_with body =
    concat (k_ok_header ∷ decimal (pos (length body)) ∷ codes "\r\n\r\n" ∷ body ∷ [])
