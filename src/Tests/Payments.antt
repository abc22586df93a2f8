-- ===== src/Tests/Payments.antt =====
-- The theorem about the bytes of a transaction request, at a concrete input.
use rinha.Prelude.{
  zero, suc, Bool, true, false, ◌≡◌, [], ◌∷◌, ◌++◌, Bytes, codes, arith, take, drop, replicate, All,
  ◌≢◌,
}
use rinha.Os.{Os}
use rinha.RequestProcessor.{Processor, initial_buffer}
use rinha.RequestProcessor.Response.{Fields}
use rinha.Tests.Demo.{Memory, memory, image, absl}
use rinha.Tests.Kernel.{kernel_of}
use rinha.Tests.Handler.{clock, worker}
use rinha.Tests.Requests.{head}

abbrev pub writes : Memory → Bytes → Memory
writes w s = record w { output = w.output ++ s }

abbrev pub wire : Os Memory
wire = kernel_of writes

-- The buffer of a thread at its first response.
abbrev first : Fields
first = record {
  head = take 81 initial_buffer;
  limite = take 20 (drop 81 initial_buffer);
  middle = take 10 (drop 101 initial_buffer);
  saldo = take 21 (drop 111 initial_buffer);
  tail = drop 132 initial_buffer;
}

abbrev pub processor : Processor absl memory image clock wire
processor = record {
  worker = worker;
  response_body = [];
  transaction_result_buffer = initial_buffer;
}

abbrev timestamp : Bytes
timestamp = codes "2024-02-27 21:36" ++ (0 ∷ replicate 3 7)

abbrev pub all_set : Bytes → Bool
all_set [] = true
all_set (zero ∷ s) = false
all_set (suc c ∷ s) = all_set s

pub all_set-All : (s : Bytes) → all_set s ≡ true → All (λ c. c ≢ 0) s
all_set-All [] e = tt
all_set-All (zero ∷ s) e = cc
all_set-All (suc c ∷ s) e = (λ h. absurd (omega arith), all_set-All s e)
