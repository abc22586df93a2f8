-- ===== src/FromHttp/Body.antt =====
-- The body that the clients send, and what `ParseJsonBody` makes of it.
use rinha.Prelude.{
  ℕ, value, ◌+◌, ◌-◌, ◌^◌, ◌≤◌, ◌≡◌, refl, ap, ◌∙◌, inl, pos, true, some, [], ◌∷◌, ◌++◌, Bytes,
  length, arith, neg, append_assoc, wrap_int, wrap_int_id, FitsInt,
}
use rinha.Structs.{Transaction}
use rinha.FromHttp.{View, substring_to_int, parse_description, parse_tipo, parse_json_body}
use rinha.FromHttp.Positions.{
  drop_next, drop-append, view_of, find_char-front, find_char-ge, to_int_loop-digits,
}
pub use rinha.FromHttp.Shape.{
  Body, IsShaped, IsWellFormed, from_gap, from_gap', print, amount, closed,
}
use rinha.FromHttp.Shape.{no_char, at_digits, at_tipo, at_description, at_quote, length-print}
use rinha.FromHttp.Stages.{
  description_accepted, copy_description_lem, char_at-view_of, tipo_accepted, number_accepted,
  signed_amount,
}

module _ (b : Body) (v : IsShaped b) (rest : Bytes) where
  abbrev comma : ℕ
  comma = 10 + length b.digits

  abbrev body_view : View
  body_view = view_of (print b) rest

  reads_digits :
      substring_to_int body_view 10 comma ≡ some (true, wrap_int (pos (value 0 b.digits)))
  unfolding substring_to_int wrap_int
  reads_digits =
      let rounds : comma - 10 ≡ length b.digits = omega arith in
      rw rounds (
        to_int_loop-digits (print b ++ rest) 10 0 b.digits ((b',' ∷ from_gap b) ++ rest)
          (drop-append (print b) rest 10 (omega (arith, length-print b v)) (at_digits b v)
            ∙ append_assoc b.digits (b',' ∷ from_gap b) rest)
          v.all_digits)

  number_stage :
      (t : Transaction)
      → parse_json_body body_view t
        ≡ parse_tipo body_view comma (record t { value = wrap_int (pos (value 0 b.digits)) })
  number_stage t =
      number_accepted body_view comma _ (wrap_int (pos (value 0 b.digits))) t
        (find_char-front b',' (print b) rest 10 b.digits (from_gap b) (at_digits b v)
          (no_char b',' b.digits (inl (omega arith)) v.all_digits))
        refl
        (find_char-ge b'.' (print b) rest 10 b.digits _ (at_digits b v)
          (no_char b'.' b.digits (inl (omega arith)) v.all_digits) (omega (arith, v.small)))
        (omega (arith, v.small)) reads_digits

  tipo_stage :
      (t : Transaction)
      → parse_tipo body_view comma (record t { value = wrap_int (pos (value 0 b.digits)) })
        ≡ parse_description body_view (comma + 11) (record t { value = wrap_int (amount b) })
  tipo_stage t =
      tipo_accepted body_view comma b.tipo _
        (char_at-view_of (print b) rest (comma + 11) (at_tipo b v)
          (omega (arith, length-print b v)))
        v.known (omega (arith, v.small))
      ∙ ap (parse_description body_view (comma + 11)) (signed_amount b t)

  description_stage :
      (t : Transaction)
      → length t.description ≡ 11
      → parse_description body_view (comma + 11) t
        ≡ some (true, record t { description = closed b.description t.description })
  description_stage t room =
      description_accepted body_view (comma + 11) (comma + 11 + 18)
        (comma + 11 + 18 + length b.description) t (omega (arith, v.small))
        (find_char-front b'"' (print b) rest (comma + 11 + 18) b.description (b'}' ∷ [])
          (at_description b v) v.unquoted)
        (omega (arith, length-print b v))
        (char_at-view_of (print b) rest _ (drop_next (print b) _ (at_quote b v))
          (omega (arith, length-print b v)))
        (omega (arith, v.some_text)) (omega (arith, v.short)) (omega (arith, v.small, v.short))
      ∙ copy_description_lem (print b) rest (comma + 11 + 18)
          (comma + 11 + 18 + length b.description) b.description _ t (at_description b v)
          (omega (arith, length-print b v)) refl (omega (arith, v.small, v.short))
          (omega (arith, v.short, room))

  -- A shaped body is accepted, whatever stands in the places that the code skips and behind the text:
  -- the transaction gets the signed value, wrapped around to an `int`, and the text of the description.
  pub parse_json_body-wraps :
      (t : Transaction)
      → length t.description ≡ 11
      → parse_json_body (view_of (print b) rest) t
        ≡ some (
          true,
          record t {
            value = wrap_int (amount b);
            description = closed b.description t.description;
          },
        )
  parse_json_body-wraps t room =
      number_stage t
      ∙ tipo_stage t
      ∙ description_stage (record t { value = wrap_int (amount b) }) room

amount-FitsInt : (b : Body) → value 0 b.digits ≤ 2 ^ 31 - 1 → FitsInt (amount b)
unfolding neg
amount-FitsInt b fits = ground arith

-- A well-formed body is accepted, whatever stands in the places that the code skips and behind
-- the text: the transaction gets the signed value and the text of the description.
pub parse_json_body-print :
    (b : Body) (v : IsWellFormed b) (rest : Bytes) (t : Transaction)
    → length t.description ≡ 11
    → parse_json_body (view_of (print b) rest) t
      ≡ some (true, record t { value = amount b; description = closed b.description t.description })
parse_json_body-print b v rest t room =
    parse_json_body-wraps b v.shaped rest t room
    ∙ ap
        (λ z. some (true, record t { value = z; description = closed b.description t.description }))
        (wrap_int_id (amount b) (amount-FitsInt b v.fits))
