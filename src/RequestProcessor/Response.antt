-- ===== src/RequestProcessor/Response.antt =====
-- The response to an accepted transaction.
use rinha.Prelude.{
  ℕ, ◌+◌, ◌-◌, ◌^◌, ◌≡◌, ◌≢◌, refl, ap, sym, ◌∙◌, subst, ℤ, negsuc, decimal, some, [], ◌∷◌, ◌++◌,
  append_assoc, Bytes, length, length-append, replicate, write_at-front, arith, FitsInt,
}
use rinha.Structs.{Customer}
use rinha.RequestProcessor.{memset, write_number_to_string, build_transaction_response}
use rinha.RequestProcessor.Numbers.{pad, length-pad, write_number_to_string-pad}

-- `memset` over a piece of the array.
memset-piece :
    (pre old post : Bytes) (c from : ℕ)
    → from ≡ length pre
    → memset from c (length old) (pre ++ (old ++ post))
      ≡ some (pre ++ (replicate (length old) c ++ post))
unfolding memset
memset-piece pre [] post c from e = refl
memset-piece pre (o ∷ old) post c from e =
    rw
      (
        write_at-front pre (old ++ post) o c from e,
        ← append_assoc pre (c ∷ []) (old ++ post),
        ← append_assoc pre (c ∷ []) (replicate (length old) c ++ post),
      )
      (memset-piece (pre ++ c ∷ []) old post c (from + 1)
        (omega (arith, length-append pre (c ∷ []))))

fill :
    (pre old post : Bytes) (from n : ℕ)
    → length pre ≡ from
    → length old ≡ n
    → memset from 32 n (pre ++ (old ++ post)) ≡ some (pre ++ (replicate n 32 ++ post))
fill pre old post from n place size =
    subst (λ k. memset from 32 k (pre ++ (old ++ post)) ≡ some (pre ++ (replicate k 32 ++ post)))
      size (memset-piece pre old post 32 from (sym place))

regroup : (h a m r : Bytes) → h ++ (a ++ (m ++ r)) ≡ (h ++ (a ++ m)) ++ r
regroup h a m r = simp append_assoc

-- The buffer of a thread: the two fields of 20 and 21 places, and what stands round them.
pub record Fields : Type 0 where
  pub head : Bytes
  pub limite : Bytes
  pub middle : Bytes
  pub saldo : Bytes
  pub tail : Bytes

abbrev pub layout : Fields → Bytes
layout f = f.head ++ (f.limite ++ (f.middle ++ (f.saldo ++ f.tail)))

pub record IsTemplate (f : Fields) : Type 0 where
  pub head_length : length f.head ≡ 81
  pub limite_length : length f.limite ≡ 20
  pub middle_length : length f.middle ≡ 10
  pub saldo_length : length f.saldo ≡ 21

module _ (h a m : Bytes) (place : length h + length a + length m ≡ 111) where
  front_length : length (h ++ (a ++ m)) ≡ 111
  front_length = omega (arith, length-append h (a ++ m), length-append a m)

  fill_saldo :
      (saldo tail : Bytes)
      → length saldo ≡ 21
      → memset 111 32 21 (h ++ (a ++ (m ++ (saldo ++ tail))))
        ≡ some (h ++ (a ++ (m ++ (replicate 21 32 ++ tail))))
  fill_saldo saldo tail size =
      ap (memset 111 32 21) (regroup h a m (saldo ++ tail))
      ∙ fill (h ++ (a ++ m)) saldo tail 111 21 front_length size
      ∙ ap some (sym (regroup h a m (replicate 21 32 ++ tail)))

  write_saldo :
      (z : ℤ) (tail : Bytes)
      → FitsInt z
      → z ≢ negsuc (2 ^ 31 - 1)
      → write_number_to_string z (h ++ (a ++ (m ++ (replicate 21 32 ++ tail)))) 131
        ≡ some (h ++ (a ++ (m ++ (pad 21 (decimal z) ++ tail))))
  write_saldo z tail fits least =
      ap (λ s. write_number_to_string z s 131) (regroup h a m (replicate 21 32 ++ tail))
      ∙ write_number_to_string-pad z 21 131 (h ++ (a ++ m)) tail fits least
          (omega (arith, front_length)) (omega arith)
      ∙ ap some (sym (regroup h a m (pad 21 (decimal z) ++ tail)))

-- In a buffer whose two fields stand in their places, `BuildTransactionResponse` prints the limit and
-- the balance, any `int` but the least one, right-aligned into the fields, over whatever the last
-- response left there, and changes no other byte.
pub build_transaction_response-pad :
    (f : Fields) (x : Customer)
    → IsTemplate f
    → FitsInt x.limit
    → FitsInt x.balance
    → x.limit ≢ negsuc (2 ^ 31 - 1)
    → x.balance ≢ negsuc (2 ^ 31 - 1)
    → build_transaction_response (layout f) x
      ≡ some (
          layout
            (record f { limite = pad 20 (decimal x.limit); saldo = pad 21 (decimal x.balance) }))
unfolding build_transaction_response
build_transaction_response-pad f x v limit_fits balance_fits limit_small balance_small =
    rw
      (
        fill f.head f.limite (f.middle ++ (f.saldo ++ f.tail)) 81 20 v.head_length v.limite_length,
        fill_saldo f.head (replicate 20 32) f.middle (omega (arith, v.head_length, v.middle_length))
            f.saldo f.tail v.saldo_length,
        write_number_to_string-pad x.limit 20 100 f.head (f.middle ++ (replicate 21 32 ++ f.tail))
            limit_fits limit_small (omega (arith, v.head_length)) (omega arith),
      )
      (write_saldo f.head (pad 20 (decimal x.limit)) f.middle
        (omega (
          arith,
          v.head_length,
          v.middle_length,
          length-pad x.limit 20 limit_fits limit_small (omega arith),
        ))
        x.balance f.tail balance_fits balance_small)
