-- ===== src/FromHttp/Grammar.antt =====
-- The bodies that `ParseJsonBody` accepts are exactly the shaped ones.
use rinha.Prelude.{
  ℕ, ◌^◌, ◌<◌, ◌≡◌, ◌↔◌, ap, sym, ◌∙◌, wrap_int, Bool, true, Option, some, Bytes, length, add_size,
}
use rinha.Structs.{Transaction}
use rinha.FromHttp.{View, find_char, substring_to_int, parse_json_body}
use rinha.FromHttp.Positions.{view_of}
use rinha.FromHttp.Body.{Body, IsShaped, print, amount, closed, parse_json_body-wraps}
use rinha.FromHttp.Accepts.{find_char-split, number_passed, tipo_passed, description_passed}
use rinha.FromHttp.Pieces.{assembled}

same_transaction :
    {t t' : Transaction}
    → ◌≡◌ {A = Option (Bool × Transaction)} (some (true, t)) (some (true, t'))
    → t ≡ t'
same_transaction h = cc

told :
    (b : Body) (v : IsShaped b) (text rest : Bytes) (t t' : Transaction)
    → length t.description ≡ 11
    → text ≡ print b
    → parse_json_body (view_of text rest) t ≡ some (true, t')
    → t'
      ≡ record t { value = wrap_int (amount b); description = closed b.description t.description }
told b v text rest t t' room e h =
    same_transaction (
      sym h
      ∙ ap (λ s. parse_json_body (view_of s rest) t) e
      ∙ parse_json_body-wraps b v rest t room)

accepted-IsShaped :
    (text rest : Bytes) (t t' : Transaction)
    → length text < 2 ^ 32
    → length t.description ≡ 11
    → parse_json_body (view_of text rest) t ≡ some (true, t')
    → (b : Body) × IsShaped b
      × (text ≡ print b)
      × (t' ≡ record t {
        value = wrap_int (amount b);
        description = closed b.description t.description;
      })
unfolding substring_to_int
accepted-IsShaped text rest t t' small room h =
    let (found, z, digits, h1) = number_passed body t t' h in
    let (ds, ys, at_digits, clean, place) = find_char-split b',' text rest 10 found in
    let (c, at_c, known, t1, h2) = tipo_passed body comma _ t' h1 in
    let (found', ends, brace, some_text, short) =
      description_passed body (add_size comma 11) t1 t' h2 in
    let (desc, zs, at_desc, unquoted, place') =
      find_char-split b'"' text rest (add_size (add_size comma 11) 18) found' in
    let (b, v, e) =
      assembled text rest ds ys desc zs _ _ c z small place at_digits digits at_c known at_desc
        unquoted place' ends brace some_text short in
    (b, v, e, told b v text rest t t' room e h)
  where
    body : View
    body = view_of text rest

    comma : ℕ
    comma = find_char body b',' 10

-- With an array of 11 bytes for the description, `ParseJsonBody` accepts a text of less than 2 ^ 32 bytes with a
-- transaction, whatever stands behind it in the memory, exactly where the text is the one of a shaped
-- body, and the transaction is that of the body: the signed value, wrapped around to an `int`, and
-- the description closed by a zero.
pub parse_json_body-IsShaped :
    (text rest : Bytes) (t t' : Transaction)
    → length text < 2 ^ 32
    → length t.description ≡ 11
    → (parse_json_body (view_of text rest) t ≡ some (true, t')) ↔ (
        (b : Body) × IsShaped b
        × (text ≡ print b)
        × (t' ≡ record t {
          value = wrap_int (amount b);
          description = closed b.description t.description;
        }))
parse_json_body-IsShaped text rest t t' small room = (
  accepted-IsShaped text rest t t' small room,
  λ (b, v, e, told_eq).
      ap (λ s. parse_json_body (view_of s rest) t) e
      ∙ parse_json_body-wraps b v rest t room
      ∙ ap (λ u. some (true, u)) (sym told_eq),
)
