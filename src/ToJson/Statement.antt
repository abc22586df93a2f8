-- ===== src/ToJson/Statement.antt =====
-- The whole extract of a customer.
use rinha.Prelude.{
  ◌≡◌, refl, ap, inl, inr, some, List, [], ◌∷◌, Bytes, decimal, ◌>>=◌, Option-cases,
}
use rinha.Structs.{Customer}
use rinha.Customers.{recent, IsRing}
use rinha.Absl.{Absl, Laws, concat}
use rinha.ToJson.{k_total, k_data, k_limite, k_ultimas, k_end, customer_to_json}
use rinha.ToJson.Extract.{texts, join, transactions_to_json-recent}

-- The pieces of the text, with the listed transactions.
abbrev pub pieces : Customer → Bytes → List Bytes → List Bytes
pieces x data_extrato listed =
    k_total
    ∷ decimal x.balance
    ∷ k_data
    ∷ data_extrato
    ∷ k_limite
    ∷ decimal x.limit
    ∷ k_ultimas
    ∷ join listed
    ∷ k_end
    ∷ []

pub customer_to_json-recent :
    (absl : Absl) (x : Customer) (data_extrato : Bytes)
    → Laws absl
    → IsRing x
    → customer_to_json absl x data_extrato
      ≡ (texts absl (recent x) >>= λ listed. some (concat (pieces x data_extrato listed)))
unfolding customer_to_json
customer_to_json-recent absl x data_extrato laws v = elim (Option-cases (texts absl (recent x))) [
  | inl fails ↦ rw (transactions_to_json-recent absl x laws v, fails) refl
  | inr (listed, found) ↦
      rw
        (
          transactions_to_json-recent absl x laws v,
          found,
          laws.of_int-eq x.balance,
          laws.of_int-eq x.limit,
        )
        (ap some (laws.str_cat-eq (pieces x data_extrato listed)))
]
