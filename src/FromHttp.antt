-- ===== src/FromHttp.antt =====
-- rinha/from_http.cc: the request line, the id and the body of a request.
-- A `string_view` is the memory from its first byte to the end of the array that it points into,
-- with its size: `operator[]` is not checked, so a read behind the size meets the rest of the array,
-- and a read behind the array is a fault.
pub mod Positions
pub mod Shape
pub mod Stages
pub mod Body
pub mod Accepts
pub mod Pieces
pub mod Grammar
pub mod Bounds
pub mod Reads
pub mod Requests
use rinha.Prelude.{
  ℕ, zero, suc, ◌+◌, ◌-◌, ℤ, pos, Bool, true, false, not, ◌&&◌, ◌||◌, Option, none, some, [], ◌∷◌,
  ◌>>=◌, Bytes, codes, ltb, leb, ◌==◌, if◌then◌else◌, length, get_elem?, take, drop, write_at,
  add_int, mul_int, neg_int, npos, add_size, sub_size,
}
use rinha.Structs.{Transaction, Request, RequestType}
use rinha.Absl.{Absl, is_prefix}

pub record View : Type 0 where
  pub mem : Bytes
  pub size : ℕ

abbrev pub chars : View → Bytes
chars v = take v.size v.mem

abbrev pub char_at : View → ℕ → Option ℕ
char_at v i = get_elem? v.mem i

-- `absl::string_view(v.data() + from, size)`
abbrev pub view_from : View → ℕ → ℕ → View
view_from v from size = record { mem = drop from v.mem; size = size }

-- All the bytes of a view, for a call that reads them.
abbrev pub read_chars : View → Option Bytes
read_chars v = if leb v.size (length v.mem) then some (chars v) else none

abbrev pub index_of : ℕ → Bytes → Option ℕ
index_of c [] = none
index_of c (x ∷ s) = if x == c then some 0 else (index_of c s >>= λ k. some (k + 1))

abbrev pub index_of_text : Bytes → Bytes → Option ℕ
index_of_text p [] = if is_prefix p [] then some 0 else none
index_of_text p (x ∷ s) =
    if is_prefix p (x ∷ s) then some 0 else (index_of_text p s >>= λ k. some (k + 1))

abbrev pub position : Option ℕ → ℕ
position none = npos
position (some k) = k

-- `v.find(c, from)`
abbrev pub find_char : View → ℕ → ℕ → ℕ
find_char v c from = position (index_of c (drop from (chars v)) >>= λ k. some (from + k))

-- `v.find(text)`
abbrev pub find_text : View → Bytes → ℕ
find_text v p = position (index_of_text p (chars v))

-- The loop of `SubstringToInt`, with the rounds left, the index `i` and `*x`.
unfoldable pub to_int_loop : Bytes → ℕ → ℕ → ℤ → Option (Bool × ℤ)
to_int_loop mem zero i x = some (true, x)
to_int_loop mem (suc n) i x = do
  c ← get_elem? mem i
  let rest = to_int_loop mem n (i + 1) (add_int (mul_int x 10) (pos (c - b'0')))
  if ltb c b'0' || ltb b'9' c then some (false, x) else rest

unfoldable pub substring_to_int : View → ℕ → ℕ → Option (Bool × ℤ)
unfolding to_int_loop
substring_to_int body start end = to_int_loop body.mem (end - start) start (pos 0)

-- The loop that copies the description, with the rounds left and the index `i` into the body.
pub copy_loop : Bytes → ℕ → ℕ → ℕ → Bytes → Option Bytes
copy_loop mem zero i start description = some description
copy_loop mem (suc n) i start description = do
  c ← get_elem? mem i
  description' ← write_at description (i - start) c
  copy_loop mem n (i + 1) start description'

-- The end of `ParseJsonBody`, once the bounds of the description are accepted.
pub copy_description : View → ℕ → ℕ → Transaction → Option (Bool × Transaction)
unfolding copy_loop
copy_description body start end t = do
  copied ← copy_loop body.mem (end - start) start start t.description
  closed ← write_at copied (sub_size end start) 0
  some (true, record t { description = closed })

pub parse_description : View → ℕ → Transaction → Option (Bool × Transaction)
unfolding copy_description
parse_description body tipo_idx t =
    let start = add_size tipo_idx 18 in
    let end = find_char body b'"' start in
    if end == npos
    then some (false, t)
    else if not (add_size end 2 == body.size)
    then some (false, t)
    else do
      c ← char_at body (end + 1)
      if not (c == b'}')
          then some (false, t)
          else if ltb 10 (sub_size end start) || ltb (sub_size end start) 1
          then some (false, t)
          else copy_description body start end t

unfoldable pub parse_tipo : View → ℕ → Transaction → Option (Bool × Transaction)
unfolding parse_description
parse_tipo body num_end_idx t =
    let tipo_idx = add_size num_end_idx 11 in
    do
      c ← char_at body tipo_idx
      if not (c == b'c') && not (c == b'd')
          then some (false, t)
          else parse_description body tipo_idx
              (if c == b'd' then record t { value = neg_int t.value } else t)

-- `ParseJsonBody`: what it returns, and the transaction as it leaves it.
unfoldable pub parse_json_body : View → Transaction → Option (Bool × Transaction)
unfolding substring_to_int parse_tipo
parse_json_body body t =
    let num_end_idx = find_char body b',' 10 in
    let num_dot_idx = find_char body b'.' 10 in
    if ltb num_dot_idx num_end_idx || num_end_idx == npos then some (false, t) else do
      r ← substring_to_int body 10 num_end_idx
      if not r.0
          then some (false, record t { value = r.1 })
          else parse_tipo body num_end_idx (record t { value = r.1 })

module _ (absl : Absl) where
  -- The id is one character at a fixed place.
  pub parse_id : View → ℕ → Option (Bool × ℤ)
  parse_id http at = do text ← read_chars (view_from http at 1); some (absl.simple_atoi text)

  pub from_http_get : View → Request → Option (Bool × Request)
  unfolding parse_id
  from_http_get http request = do
    r ← parse_id http 14
    if not r.0
        then some (false, record request { id = r.1 })
        else some (true, record request { type = RequestType.balance; id = r.1 })

  -- The part of `FromHttp` for the body of a `POST`.
  pub from_http_body : View → Request → Option (Bool × Request)
  from_http_body http request =
      let begin_body_idx = find_text http (codes "\r\n\r\n") in
      if begin_body_idx == npos then some (false, request) else do
        r ←
            parse_json_body
              (view_from http (begin_body_idx + 4) (sub_size http.size (add_size begin_body_idx 4)))
              request.transaction
        if not r.0
            then some (false, record request { transaction = r.1 })
            else some (true, record request { type = RequestType.transaction; transaction = r.1 })

  pub from_http_post : View → Request → Option (Bool × Request)
  from_http_post http request = do
    r ← parse_id http 15
    if not r.0
        then some (false, record request { id = r.1 })
        else from_http_body http (record request { id = r.1 })

  -- `FromHttp`: what it returns, and the request as it leaves it.
  unfoldable pub from_http : View → Request → Option (Bool × Request)
  unfolding from_http_get from_http_post
  from_http http request =
      if absl.starts_with (chars http) (codes "GET")
      then from_http_get http request
      else from_http_post http request
