-- ===== src/MariaDatabase/Turns.antt =====
-- One read and one write while other processes change the row.
use rinha.Prelude.{
  ℕ, suc, ◌+◌, ◌<◌, ◌≤◌, ◌^◌, length-append, append_assoc, ◌≡◌, ap, subst, All, sym, ◌∙◌, inl, inr,
  ℤ, pos, true, false, some, ◌++◌, length, ◌==◌, if◌then◌else◌, arith,
}
use rinha.Structs.{Customer}
use rinha.Customers.Sized.{IsSized, IsSizedEntry, All-front, All-back}
use rinha.HandlerSocket.Interface.{Client, Layout}
use rinha.HandlerSocket.{Session, id_text, read_customer_hs, write_customer_hs}
use rinha.HandlerSocket.Replies.{read_customer_hs-answered, write_customer_hs-answered}
use rinha.HandlerSocket.Server.{find_request, received}
use rinha.MariaDatabase.Ledger.{
  after, after-append, after-IsSized, after-cases, after-some, after-le,
}
use rinha.MariaDatabase.Contended.{Turn, Contended}

module _ {c : Client} {s : Session c} (l : Layout) (id : ℤ) (k : Contended c s l id) where
  open c use {World, response_buf_remove}
  open k use {Idle, row, others}

  -- The versions stay in the `int`, also with what the others still store.
  abbrev pub Fits : World → Type 0
  Fits w = (row w).1 + length (others w) + 1 < 2 ^ 31

  pub front_le :
      {w w' : World} (turn : Turn c s l id row others w w')
      → length (others w) ≡ length turn.front + length (others w')
  front_le turn =
      ap length turn.split
      ∙ length-append turn.front turn.back
      ∙ ap (λ ts. length turn.front + length ts) (sym turn.left)

  pub turn_le :
      {w w' : World} (turn : Turn c s l id row others w w')
      → (after turn.front (row w)).1 + length (others w') ≤ (row w).1 + length (others w)
  turn_le {w} turn = omega (arith, after-le turn.front (row w), front_le turn)

  -- The row and what the others still store fit the fixed sizes of a `Customer`.
  abbrev pub Sized : World → Type 0
  Sized w = IsSized (row w).0 × All IsSizedEntry (others w)

  pub turn-Sized :
      {w w' : World} (turn : Turn c s l id row others w w')
      → Sized w
      → IsSized (after turn.front (row w)).0 × All IsSizedEntry (others w')
  turn-Sized {w} turn (sized, entries) =
      let split = subst (All IsSizedEntry) turn.split entries in
      (
        after-IsSized turn.front (row w) (All-front IsSizedEntry turn.front turn.back split) sized,
        subst (All IsSizedEntry) (sym turn.left) (All-back IsSizedEntry turn.front turn.back split),
      )

  -- A read: some of the others go first, and the row that they leave is the one that is read.
  pub read_turn :
      (rows : ℕ) (unset : ℤ) (out : Customer) (w : World)
      → ((x : Customer) → IsSized x → l.of_bytes (l.to_bytes x) ≡ some x)
      → Idle w
      → Fits w
      → Sized w
      → (w' : World) × (turn : Turn c s l id row others w w') × (read_customer_hs c l
            (suc (suc rows))
            s
            id
            out
            unset
            w
          ≡ some ((true, (row w').0, pos (row w').1), w'))
        × (row w' ≡ after turn.front (row w))
        × Idle w'
  read_turn rows unset out w trip idle fits sized =
      let (turn, moved, answer) = k.find_rows w idle in
      let w1 : World = received c s s.read_ptr (find_request c s (id_text id) w) in
      let (w2, reads, done, same) =
        read_customer_hs-answered s l k.fetches rows id (row w1).0 out (pos (row w1).1) unset w
          (k.find_answers w idle) (ground (arith, turn_le turn))
          (trip (row w1).0 (rw moved (turn-Sized turn sized).0)) answer in
      let (idle', row', others') = k.removed s.read_ptr w2 done in
      let stays : row (response_buf_remove s.read_ptr w2) ≡ row w1 = row' ∙ ap (λ v. v.0) same in
      (
        response_buf_remove s.read_ptr w2,
        record {
          front = turn.front;
          back = turn.back;
          split = turn.split;
          left = others' ∙ ap (λ v. v.1) same ∙ turn.left;
        },
        rw stays reads,
        stays ∙ moved,
        idle',
      )

  -- A write: some of the others go first, and it succeeds where they leave the version.
  pub write_turn :
      (rows : ℕ) (x : Customer) (version : ℕ) (w : World)
      → Idle w
      → version + 1 < 2 ^ 31
      → (w' : World) × (turn : Turn c s l id row others w w') × (write_customer_hs c l
            (suc (suc rows))
            s
            id
            x
            (pos version)
            w
          ≡ some ((after turn.front (row w)).1 == version, w'))
        × (row w' ≡ (
            if (after turn.front (row w)).1 == version
            then (x, version + 1)
            else after turn.front (row w)))
        × Idle w'
  write_turn rows x version w idle fits =
      let (turn, moved, answer) = k.update_rows w x version idle (omega arith) in
      let (w2, writes, done, same) =
        write_customer_hs-answered s l k.fetches rows id x (pos version) w
          ((after turn.front (row w)).1 == version) (k.update_answers w x version idle) answer in
      let (idle', row', others') = k.removed s.write_ptr w2 done in
      (
        response_buf_remove s.write_ptr w2,
        record {
          front = turn.front;
          back = turn.back;
          split = turn.split;
          left = others' ∙ ap (λ v. v.1) same ∙ turn.left;
        },
        writes,
        row' ∙ ap (λ v. v.0) same ∙ moved,
        idle',
      )

  -- One turn behind another is a turn.
  abbrev pub both :
      {w w' w'' : World}
      → (first : Turn c s l id row others w w') → (next : Turn c s l id row others w' w'')
      → Turn c s l id row others w w''
  both first next = record {
    front = first.front ++ next.front;
    back = next.back;
    split =
        first.split
        ∙ ap (λ ts. first.front ++ ts) (sym first.left ∙ next.split)
        ∙ sym (append_assoc first.front next.front next.back);
    left = next.left;
  }

  -- Both turns, on the row.
  pub after-both :
      {w w' w'' : World} (first : Turn c s l id row others w w')
      (next : Turn c s l id row others w' w'')
      → row w' ≡ after first.front (row w)
      → after next.front (row w') ≡ after (both first next).front (row w)
  after-both {w} first next e =
      ap (after next.front) e ∙ sym (after-append first.front next.front (row w))

  -- Whether the row still has the version that was read, after a turn.
  pub unmoved :
      {w w' : World} (turn : Turn c s l id row others w w')
      → ((after turn.front (row w)).1 == (row w).1) ≡ true
      → after turn.front (row w) ≡ row w
  unmoved {w} turn same = elim (after-cases turn.front (row w)) [
    | inl kept ↦ kept
    | inr more ↦ ground arith
  ]

  pub moved_fewer :
      {w w' : World} (turn : Turn c s l id row others w w')
      → ((after turn.front (row w)).1 == (row w).1) ≡ false
      → length (others w') < length (others w)
  moved_fewer {w} turn other = omega (arith, front_le turn, after-some turn.front (row w) other)
