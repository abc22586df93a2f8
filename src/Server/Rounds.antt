-- ===== src/Server/Rounds.antt =====
-- The buffers of a thread of the event loop, from its start.
use rinha.Prelude.{
  ℕ, zero, suc, ℤ, none, inl, inr, ◌⊎◌, Option-cases, ◌≡◌, ap, sym, subst, ◌∙◌, some, List, Bytes,
  length, length-replicate, get_elem?, get_elem?-lt, replicate, arith, codes, >>=-eq-some, Bool,
}
use rinha.Structs.{Request}
use rinha.Absl.{Absl}
use rinha.Os.{Os}
use rinha.Time.{Clock}
use rinha.HandlerSocket.Interface.{Client, Layout}
use rinha.HandlerSocket.{Session}
use rinha.MariaDatabase.Mysql.{Mysql}
use rinha.RequestHandler.{Unset}
use rinha.IoThreadPool.{Io, k_max_connections, k_buffer_total_size, event_round}
use rinha.IoThreadPool.Buffers.{
  Bounded, AllSized, IsSound, Keeps, >>=-Keeps, pure-Keeps, event_round-Keeps,
}
use rinha.Server.Threads.{Machine, start_thread, event_rounds, fresh_io, io_thread}

replicate-AllSized : (n : ℕ) → AllSized (replicate n (replicate {A = ℕ} k_buffer_total_size 0))
replicate-AllSized zero i b h = cc
replicate-AllSized (suc n) zero b h =
    let same : replicate {A = ℕ} k_buffer_total_size 0 ≡ b = cc in
    ap length (sym same) ∙ length-replicate {A = ℕ} k_buffer_total_size 0
replicate-AllSized (suc n) (suc i) b h = replicate-AllSized n i b h

module _ (absl : Absl) (m : Mysql) (c : Client) (l : Layout) (clock : Clock c.World)
    (os : Os c.World) (bounded : Bounded os) where
  fresh_io-IsSound :
      (mutexs : List Bool) (w : c.World)
      → IsSound absl c l clock os bounded (fresh_io absl m c l clock os mutexs w)
  fresh_io-IsSound mutexs w = record {
    number = length-replicate k_max_connections (replicate {A = ℕ} k_buffer_total_size 0);
    sizes = replicate-AllSized k_max_connections;
    inside = omega arith;
  }

  event_rounds-Keeps :
      (n fuel rows : ℕ) (s : Session c) (unset : Unset) (fresh : Request) (epoll_fd server_fd : ℕ)
      → Keeps absl c l clock os bounded
          (event_rounds absl m c l clock os n fuel rows s unset fresh epoll_fd server_fd)
  unfolding event_rounds
  event_rounds-Keeps zero fuel rows s unset fresh epoll_fd server_fd =
      pure-Keeps absl c l clock os bounded tt
  event_rounds-Keeps (suc n) fuel rows s unset fresh epoll_fd server_fd =
      >>=-Keeps absl c l clock os bounded
        (event_round absl c l clock os fuel rows s unset fresh epoll_fd server_fd) _
        (event_round-Keeps absl c l clock os bounded fuel rows s unset fresh epoll_fd server_fd)
        (λ _. event_rounds-Keeps n fuel rows s unset fresh epoll_fd server_fd)

  rounds-IsSound :
      (n fuel rows : ℕ) (unset : Unset) (fresh : Request) (epoll_fd server_fd : ℕ)
      (mutexs : List Bool) (read_id write_id : ℤ) (w : Machine m c l) (t : Io absl c l clock os)
      → io_thread absl m c l clock os n fuel rows unset fresh epoll_fd server_fd mutexs read_id
          write_id w
        ≡ some t
      → IsSound absl c l clock os bounded t
        × (b : Bytes) × (get_elem? t.buffers t.buffer_index ≡ some b)
        × (length b ≡ k_buffer_total_size)
  unfolding io_thread
  rounds-IsSound n fuel rows unset fresh epoll_fd server_fd mutexs read_id write_id w t h =
      let (r, starts, rounds) =
        >>=-eq-some (start_thread m c l fuel (codes "/") read_id write_id w) _ h in
      let (q, runs, last) =
        >>=-eq-some
          (event_rounds absl m c l clock os n fuel rows r.0 unset fresh epoll_fd server_fd
            (fresh_io absl m c l clock os mutexs r.1.handler_socket))
          _ rounds in
      let same : q.1 ≡ t = cc in
      let v : IsSound absl c l clock os bounded t = subst (IsSound absl c l clock os bounded) same (
        event_rounds-Keeps n fuel rows r.0 unset fresh epoll_fd server_fd
          (fresh_io absl m c l clock os mutexs r.1.handler_socket) q.0 q.1
          (fresh_io-IsSound mutexs r.1.handler_socket) runs) in
      let (b, found) = get_elem?-lt t.buffers t.buffer_index (omega (arith, v.number, v.inside)) in
      (v, b, found, v.sizes t.buffer_index b found)

  -- Where no `read` gives more bytes than it was asked for: a thread of the event loop, after any number of rounds,
  -- whatever its clients sent and the server did in them, has either stopped, by a fault, a failed `CHECK`, a lock
  -- that stays held or used-up fuel, or it has its 3000 buffers of 1025 bytes, and the index of the next buffer is
  -- below 3000, so that there is a buffer for the next client.
  pub io_thread-IsSound :
      (n fuel rows : ℕ) (unset : Unset) (fresh : Request) (epoll_fd server_fd : ℕ)
      (mutexs : List Bool) (read_id write_id : ℤ) (w : Machine m c l)
      → (io_thread absl m c l clock os n fuel rows unset fresh epoll_fd server_fd mutexs read_id
            write_id w
          ≡ none)
        ⊎ ((t : Io absl c l clock os) × (io_thread absl m c l clock os n fuel rows unset fresh
                epoll_fd server_fd mutexs read_id write_id w
              ≡ some t)
            × IsSound absl c l clock os bounded t
            × (b : Bytes) × (get_elem? t.buffers t.buffer_index ≡ some b)
            × (length b ≡ k_buffer_total_size))
  io_thread-IsSound n fuel rows unset fresh epoll_fd server_fd mutexs read_id write_id w =
      elim (Option-cases (
        io_thread absl m c l clock os n fuel rows unset fresh epoll_fd server_fd mutexs read_id
          write_id w)) [
            | inl stops ↦ inl stops
            | inr (t, runs) ↦
                let (v, b, found, size) =
                  rounds-IsSound n fuel rows unset fresh epoll_fd server_fd mutexs read_id write_id
                    w t runs in
                inr (t, runs, v, b, found, size)
          ]
