-- ===== src/ToJson.antt =====
-- rinha/to_json.cc: the extract of a customer.
pub mod Extract
pub mod Statement
use rinha.Prelude.{
  ℕ, zero, suc, ◌+◌, ◌-◌, ◌%◌, pos, ltb_ℤ, neg_int, not, Option, none, some, List, [], ◌∷◌, ◌>>=◌,
  Bytes, codes, ltb, ◌==◌, if◌then◌else◌, get_elem?,
}
use rinha.Structs.{Transaction, Customer}
use rinha.Absl.{Absl}

abbrev pub k_total : Bytes
k_total = codes "{\"saldo\":{\"total\":"

abbrev pub k_data : Bytes
k_data = codes ",\"data_extrato\":\""

abbrev pub k_limite : Bytes
k_limite = codes "\",\"limite\":"

abbrev pub k_ultimas : Bytes
k_ultimas = codes "},\"ultimas_transacoes\":["

abbrev pub k_transacao_valor : Bytes
k_transacao_valor = codes "{\"valor\":"

abbrev pub k_transacao_tipo : Bytes
k_transacao_tipo = codes ",\"tipo\":\""

abbrev pub k_transacao_descricao : Bytes
k_transacao_descricao = codes "\",\"descricao\":\""

abbrev pub k_transacao_realizada : Bytes
k_transacao_realizada = codes "\",\"realizada_em\":\""

abbrev pub k_transacao_end : Bytes
k_transacao_end = codes "\"}"

abbrev pub k_end : Bytes
k_end = codes "]}"

-- The C string in an array: a read past an array with no zero byte is a fault.
unfoldable pub c_str : Bytes → Option Bytes
c_str [] = none
c_str (c ∷ s) = let rest = (c_str s >>= λ t. some (c ∷ t)) in if c == 0 then some [] else rest

module _ (absl : Absl) where
  -- `to_json(const Transaction &)`
  unfoldable pub transaction_to_json : Transaction → Option Bytes
  unfolding c_str
  transaction_to_json t = do
    description ← c_str t.description
    timestamp ← c_str t.timestamp
    some (
        absl.str_cat (
          k_transacao_valor
          ∷ absl.of_int (if ltb_ℤ (pos 0) t.value then t.value else neg_int t.value)
          ∷ k_transacao_tipo
          ∷ (if ltb_ℤ (pos 0) t.value then codes "c" else codes "d")
          ∷ k_transacao_descricao
          ∷ description
          ∷ k_transacao_realizada
          ∷ timestamp
          ∷ k_transacao_end
          ∷ []))

  -- `for (int i = next_transaction_index - 1; i >= 0; i--)`, by the rounds left, `i + 1`.
  pub down_loop : List Transaction → ℕ → Bytes → Option Bytes
  down_loop transactions zero json = some json
  down_loop transactions (suc i) json = do
    t ← get_elem? transactions i
    text ← transaction_to_json t
    let json' = absl.str_append json text
    down_loop transactions i (if not (i == 0) then absl.str_append json' (codes ",") else json')

  -- `for (int j = 0; j < 10; j++)`, by the rounds left, with `j` and the index `i` into the ring.
  pub ring_loop : List Transaction → ℕ → ℕ → ℕ → Bytes → Option Bytes
  ring_loop transactions zero j i json = some json
  ring_loop transactions (suc n) j i json = do
    t ← get_elem? transactions i
    text ← transaction_to_json t
    let json' = absl.str_append json text
    ring_loop transactions n (j + 1) ((i + 10 - 1) % 10)
        (if not (j == 9) then absl.str_append json' (codes ",") else json')

  -- `to_json(const Transaction[], int, int)`
  pub transactions_to_json : List Transaction → ℕ → ℕ → Option Bytes
  transactions_to_json transactions transaction_count next_transaction_index =
      if ltb transaction_count 10
      then down_loop transactions next_transaction_index []
      else ring_loop transactions 10 0 ((next_transaction_index + 10 - 1) % 10) []

  -- `CustomerToJson`
  unfoldable pub customer_to_json : Customer → Bytes → Option Bytes
  unfolding transactions_to_json
  customer_to_json customer data_extrato = do
    transactions ←
        transactions_to_json customer.transactions customer.transaction_count
          customer.next_transaction_index
    some (
        absl.str_cat (
          k_total
          ∷ absl.of_int customer.balance
          ∷ k_data
          ∷ data_extrato
          ∷ k_limite
          ∷ absl.of_int customer.limit
          ∷ k_ultimas
          ∷ transactions
          ∷ k_end
          ∷ []))
