-- ===== src/FromHttp/Stages.antt =====
-- The tests of `ParseJsonBody`, each on a body that passes it.
use rinha.Prelude.{
  ℕ, value, ◌+◌, ◌-◌, ◌^◌, ◌≤◌, ◌<◌, ◌≡◌, ap, sym, ◌∙◌, ◌⊎◌, inl, inr, ℤ, pos, true, some, [], ◌∷◌,
  ◌++◌, Bytes, ◌==◌, if◌then◌else◌, length, take, drop, arith, neg, neg_int, Bool-cases,
  append_assoc, wrap_int, take-drop, length-take, drop-cons, write_at, write_at-front, add_size,
  sub_size, npos, ◌>>=◌,
}
use rinha.Structs.{Transaction}
use rinha.FromHttp.{
  View, find_char, char_at, substring_to_int, copy_loop, copy_description, parse_description,
  parse_tipo, parse_json_body,
}
use rinha.FromHttp.Positions.{get_elem?-drop, drop-append, view_of, copy_loop-piece}
use rinha.FromHttp.Shape.{Body, amount, closed}

pub description_accepted :
    (body : View) (tipo_idx start end : ℕ) (t : Transaction)
    → add_size tipo_idx 18 ≡ start
    → find_char body b'"' start ≡ end
    → end + 2 ≡ body.size
    → char_at body (end + 1) ≡ some b'}'
    → start + 1 ≤ end
    → end ≤ start + 10
    → end < 2 ^ 63
    → parse_description body tipo_idx t ≡ copy_description body start end t
unfolding parse_description
description_accepted body tipo_idx start end t at_start at_end ends brace long short small =
    rw (at_start, at_end) (ground arith)

pub copied :
    (mem : Bytes) (start : ℕ) (cs behind d : Bytes)
    → drop start mem ≡ cs ++ behind
    → length cs < length d
    → copy_loop mem (length cs) start start d ≡ some (cs ++ drop (length cs) d)
copied mem start cs behind d at room =
    ap (copy_loop mem (length cs) start start) (sym (take-drop (length cs) d))
    ∙ copy_loop-piece mem start start cs behind [] (take (length cs) d) (drop (length cs) d) at
        (omega arith) (length-take (length cs) d (omega arith))

pub closing :
    (cs d : Bytes) (k : ℕ)
    → k ≡ length cs
    → length cs < length d
    → write_at (cs ++ drop (length cs) d) k 0 ≡ some (closed cs d)
closing cs d k e room =
    let (o, next) = drop-cons (length cs) d room in
    rw next (write_at-front cs (drop (length cs + 1) d) o 0 k e)

pub copy_description_lem :
    (text rest : Bytes) (start end : ℕ) (cs behind : Bytes) (t : Transaction)
    → drop start text ≡ cs ++ behind
    → start ≤ length text
    → end ≡ start + length cs
    → end < 2 ^ 63
    → length cs < length t.description
    → copy_description (view_of text rest) start end t
      ≡ some (true, record t { description = closed cs t.description })
unfolding copy_description
copy_description_lem text rest start end cs behind t at inside place small room =
    let rounds : end - start ≡ length cs = omega arith in
    let at' : drop start (text ++ rest) ≡ cs ++ (behind ++ rest) =
      drop-append text rest start inside at ∙ append_assoc cs behind rest in
    rw (rounds, copied (text ++ rest) start cs (behind ++ rest) t.description at' room)
      (ap (λ m. m >>= λ d. some (true, record t { description = d }))
        (closing cs t.description (sub_size end start) (omega arith) room))

pub char_at-view_of :
    (text rest : Bytes) (i : ℕ) {c : ℕ} {s : Bytes}
    → drop i text ≡ c ∷ s
    → i ≤ length text
    → char_at (view_of text rest) i ≡ some c
char_at-view_of text rest i at inside =
    get_elem?-drop (text ++ rest) i (drop-append text rest i inside at)

pub tipo_accepted :
    (body : View) (comma tipo : ℕ) (t : Transaction)
    → char_at body (comma + 11) ≡ some tipo
    → (tipo ≡ b'c') ⊎ (tipo ≡ b'd')
    → comma < 2 ^ 63
    → parse_tipo body comma t
      ≡ parse_description body
          (comma + 11)
          (if tipo == b'd' then record t { value = neg_int t.value } else t)
unfolding parse_tipo
tipo_accepted body comma tipo t at known small =
    let e : add_size comma 11 ≡ comma + 11 = omega arith in rw (e, at) (ground arith)

pub number_accepted :
    (body : View) (comma dot : ℕ) (n : ℤ) (t : Transaction)
    → find_char body b',' 10 ≡ comma
    → find_char body b'.' 10 ≡ dot
    → comma ≤ dot
    → comma < npos
    → substring_to_int body 10 comma ≡ some (true, n)
    → parse_json_body body t ≡ parse_tipo body comma (record t { value = n })
unfolding parse_json_body
number_accepted body comma dot n t at_comma at_dot order small digits =
    rw (at_comma, at_dot, digits) (ground arith)

opposite : (n : ℕ) → neg_int (wrap_int (pos n)) ≡ wrap_int (neg (pos n))
unfolding neg_int wrap_int neg
opposite n = ground arith

-- The sign that `tipo` gives.
pub signed_amount :
    (b : Body) (t : Transaction)
    → (if b.tipo == b'd'
        then record t { value = neg_int (wrap_int (pos (value 0 b.digits))) }
        else record t { value = wrap_int (pos (value 0 b.digits)) })
      ≡ record t { value = wrap_int (amount b) }
signed_amount b t = elim (Bool-cases (b.tipo == b'd')) [
  | inl debit ↦ rw (debit, opposite (value 0 b.digits))
  | inr credit ↦ rw credit
]
