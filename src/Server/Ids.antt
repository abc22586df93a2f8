-- ===== src/Server/Ids.antt =====
-- Whatever the order in which the threads of a server start, no two of its connections have the same id.
use rinha.Prelude.{
  ℕ, zero, suc, ◌+◌, ◌*◌, ◌≤◌, ◌<◌, ◌^◌, ◌-◌, ◌≡◌, ◌≢◌, refl, ap, subst, sym, ◌∙◌, ℤ, true, false,
  some, List, [], ◌∷◌, ◌++◌, Bytes, length, length-append, length-set, get_elem?, set, arith,
}
use rinha.HandlerSocket.Interface.{Client, Layout}
use rinha.HandlerSocket.{Session, count_id}
use rinha.HandlerSocket.Opening.{Opens}
use rinha.MariaDatabase.Mysql.{Mysql}
use rinha.MariaDatabase.Setup.Filling.{Database}
use rinha.Server.Threads.{Machine, start_thread}
use rinha.Server.Starting.{start_thread-some}
use rinha.Server.Launch.{
  Progress, waiting, reading, connected, Launch, LaunchStep, makes, reads, writes, at_start,
  LaunchReach, start, next, IsGiven, reading-Takes, connected-Takes, Takes-IsGiven, makes-IsGiven,
}

-- How many ids the threads have.
abbrev had : List Progress → ℕ
had [] = 0
had (waiting ∷ ts) = had ts
had (reading k ∷ ts) = 1 + had ts
had (connected k j ∷ ts) = 2 + had ts

had-snoc : (ts : List Progress) → had (ts ++ (waiting ∷ [])) ≡ had ts
had-snoc [] = refl
had-snoc (waiting ∷ ts) = had-snoc ts
had-snoc (reading k ∷ ts) = omega (arith, had-snoc ts)
had-snoc (connected k j ∷ ts) = omega (arith, had-snoc ts)

had-reading :
    (ts : List Progress) (i : ℕ) (k : ℤ)
    → get_elem? ts i ≡ some waiting
    → had (set ts i (reading k)) ≡ had ts + 1
had-reading [] i k e = cc
had-reading (waiting ∷ ts) zero k e = omega arith
had-reading (reading j ∷ ts) zero k e = cc
had-reading (connected j n ∷ ts) zero k e = cc
had-reading (waiting ∷ ts) (suc i) k e = had-reading ts i k e
had-reading (reading j ∷ ts) (suc i) k e = omega (arith, had-reading ts i k e)
had-reading (connected j n ∷ ts) (suc i) k e = omega (arith, had-reading ts i k e)

had-connected :
    (ts : List Progress) (i : ℕ) (j k : ℤ)
    → get_elem? ts i ≡ some (reading j)
    → had (set ts i (connected j k)) ≡ had ts + 1
had-connected [] i j k e = cc
had-connected (waiting ∷ ts) zero j k e = cc
had-connected (reading n ∷ ts) zero j k e = omega arith
had-connected (connected m n ∷ ts) zero j k e = cc
had-connected (waiting ∷ ts) (suc i) j k e = had-connected ts i j k e
had-connected (reading n ∷ ts) (suc i) j k e = omega (arith, had-connected ts i j k e)
had-connected (connected m n ∷ ts) (suc i) j k e = omega (arith, had-connected ts i j k e)

had_le : (ts : List Progress) → had ts ≤ 2 * length ts
had_le [] = omega arith
had_le (waiting ∷ ts) = omega (arith, had_le ts)
had_le (reading k ∷ ts) = omega (arith, had_le ts)
had_le (connected k j ∷ ts) = omega (arith, had_le ts)

abbrev Counted : Launch → Type 0
Counted s = IsGiven s (had s.threads)

LaunchStep-length : {s s' : Launch} → LaunchStep s s' → length s.threads ≤ length s'.threads
LaunchStep-length (makes s) = omega (arith, length-append s.threads (waiting ∷ []))
LaunchStep-length (reads s i mine) =
    omega (arith, length-set s.threads i (reading (count_id s.id_count).0))
LaunchStep-length (writes s i k mine) =
    omega (arith, length-set s.threads i (connected k (count_id s.id_count).0))

LaunchStep-Counted :
    {s s' : Launch} → LaunchStep s s' → 2 * length s'.threads < 2 ^ 31 - 1 → Counted s → Counted s'
unfolding count_id
LaunchStep-Counted (makes s) few h =
    subst (IsGiven (record s { threads = s.threads ++ (waiting ∷ []) })) (sym (had-snoc s.threads))
      (makes-IsGiven s (had s.threads) h)
LaunchStep-Counted (reads s i mine) few h =
    let size = length-set s.threads i (reading s.id_count) in
    subst (IsGiven _) (sym (had-reading s.threads i s.id_count mine)) (
      Takes-IsGiven s i waiting (reading s.id_count) true (had s.threads) h mine
        (reading-Takes s.id_count) (omega (arith, had_le s.threads, size, few)))
LaunchStep-Counted (writes s i k mine) few h =
    let size = length-set s.threads i (connected k s.id_count) in
    subst (IsGiven _) (sym (had-connected s.threads i k s.id_count mine)) (
      Takes-IsGiven s i (reading k) (connected k s.id_count) false (had s.threads) h mine
        (connected-Takes k s.id_count) (omega (arith, had_le s.threads, size, few)))

start-Counted : Counted at_start
start-Counted = record {
  counts = refl;
  given = λ i t b z at is. cc;
  once = λ i j t u b d z at at' is is'. cc;
}

LaunchReach-Counted : (s : Launch) → LaunchReach s → 2 * length s.threads < 2 ^ 31 - 1 → Counted s
LaunchReach-Counted _ start few = start-Counted
LaunchReach-Counted _ (next before step) few =
    LaunchStep-Counted step few
      (LaunchReach-Counted _ before (omega (arith, few, LaunchStep-length step)))

module _ (m : Mysql) (c : Client) (l : Layout) (db : Database m) (opens : Opens c) where
  open db use {down}

  -- Whatever the order in which `main` makes threads and the threads take their ids, as long as the ids fit an `int`: two
  -- threads that have both ids start, on servers that take the connections at last, with fuel for the
  -- attempts, and their four connections have four different ids.
  pub start_thread-apart :
      (s : Launch) (i j : ℕ) (a b a' b' : ℤ) (fuel : ℕ) (host host' : Bytes) (w w' : Machine m c l)
      → LaunchReach s
      → 2 * length s.threads < 2 ^ 31 - 1
      → get_elem? s.threads i ≡ some (connected a b)
      → get_elem? s.threads j ≡ some (connected a' b')
      → i ≢ j
      → down w.mysql < fuel
      → down w'.mysql < fuel
      → (one : Session c) × (two : Session c) × (w1 : Machine m c l) × (w2 : Machine m c l)
        × (start_thread m c l fuel host a b w ≡ some (one, w1))
        × (start_thread m c l fuel host' a' b' w' ≡ some (two, w2))
        × (one.read_ptr_id ≢ one.write_ptr_id)
        × (two.read_ptr_id ≢ two.write_ptr_id)
        × (one.read_ptr_id ≢ two.read_ptr_id)
        × (one.read_ptr_id ≢ two.write_ptr_id)
        × (one.write_ptr_id ≢ two.read_ptr_id)
        × (one.write_ptr_id ≢ two.write_ptr_id)
  start_thread-apart s i j a b a' b' fuel host host' w w' reach few here there differ enough
        enough' =
      let h = LaunchReach-Counted s reach few in
      let t = connected a b in
      let u = connected a' b' in
      let (one, w1, starts, r1, x1, _, _) =
        start_thread-some m c l db opens fuel host a b w enough in
      let (two, w2, starts', r2, x2, _, _) =
        start_thread-some m c l db opens fuel host' a' b' w' enough' in
      (
        one,
        two,
        w1,
        w2,
        starts,
        starts',
        λ e. apart (h.once i i t t true false a here here refl (ap some (sym x1 ∙ sym e ∙ r1))).1,
        λ e.
            apart (h.once j j u u true false a' there there refl (ap some (sym x2 ∙ sym e ∙ r2))).1,
        λ e. differ (h.once i j t u true true a here there refl (ap some (sym r2 ∙ sym e ∙ r1))).0,
        λ e. differ (h.once i j t u true false a here there refl (ap some (sym x2 ∙ sym e ∙ r1))).0,
        λ e. differ (h.once i j t u false true b here there refl (ap some (sym r2 ∙ sym e ∙ x1))).0,
        λ e.
            differ (h.once i j t u false false b here there refl (ap some (sym x2 ∙ sym e ∙ x1))).0,
      )
    where
      apart : true ≢ false
      apart e = cc
