-- ===== src/Structs.antt =====
-- rinha/structs.h: the records that every part passes on.
use rinha.Prelude.{ℕ, ℤ, Bytes, List}

pub data TransactionResult : Type 0 where
  success limit_exceeded not_found : TransactionResult

pub data RequestType : Type 0 where
  transaction balance : RequestType

pub data Result : Type 0 where
  success invalid_request not_found : Result

-- `description` is an array of 11 bytes and `timestamp` one of 20; the text in each ends at its
-- first zero byte.
pub record Transaction : Type 0 where
  pub value : ℤ
  pub description : Bytes
  pub timestamp : Bytes

-- The two `char` fields are small counters that are never negative. Customers.Sized says which of
-- these records fit the fixed sizes of the struct.
pub record Customer : Type 0 where
  pub limit : ℤ
  pub balance : ℤ
  pub transactions : List Transaction
  pub transaction_count : ℕ
  pub next_transaction_index : ℕ

pub record Request : Type 0 where
  pub type : RequestType
  pub id : ℤ
  pub transaction : Transaction
