-- ===== src/FromHttp/Requests.antt =====
-- `FromHttp` on the two requests of the service.
use rinha.Prelude.{
  ℕ, zero, suc, ◌+◌, ◌^◌, ◌≤◌, ◌<◌, ◌≡◌, refl, ap, ap₂, sym, ◌∙◌, pos, true, false, none, some, [],
  ◌∷◌, ◌++◌, ◌>>=◌, Bytes, codes, if◌then◌else◌, length, length-append, get_elem?, take, drop,
  drop-front, append_assoc, arith, npos, add_size, sub_size, ne→==, leb, le→leb,
}
use rinha.Structs.{Request, RequestType}
use rinha.Absl.{Absl, Laws, is_prefix}
use rinha.FromHttp.{
  view_from, index_of_text, find_text, parse_id, from_http_get, from_http_body, from_http_post,
  from_http,
}
use rinha.FromHttp.Positions.{view_of}
use rinha.FromHttp.Body.{Body, IsWellFormed, print, amount, closed, parse_json_body-print}

abbrev pub separator : Bytes
separator = codes "\r\n\r\n"

one_char :
    (mem : Bytes) (i c : ℕ)
    → get_elem? mem i ≡ some c
    → (if leb 1 (length (drop i mem)) then some (take 1 (drop i mem)) else none) ≡ some (c ∷ [])
one_char [] i c h = cc
one_char (x ∷ mem) zero c h = rw (le→leb 1 (suc (length mem)) (omega arith)) cc
one_char (x ∷ mem) (suc i) c h = one_char mem i c h

behind : (s rest : Bytes) (i c : ℕ) → get_elem? s i ≡ some c → get_elem? (s ++ rest) i ≡ some c
behind [] rest i c h = cc
behind (x ∷ s) rest zero c h = h
behind (x ∷ s) rest (suc i) c h = behind s rest i c h

all_chars : (s rest : Bytes) → take (length s) (s ++ rest) ≡ s
all_chars [] rest = refl
all_chars (x ∷ s) rest = ap (◌∷◌ x) (all_chars s rest)

index_of_text-first :
    (p s : Bytes) (k : ℕ)
    → k ≤ length s
    → is_prefix p (drop k s) ≡ true
    → ((i : ℕ) → i < k → is_prefix p (drop i s) ≡ false)
    → index_of_text p s ≡ some k
index_of_text-first p [] zero few here first = rw here refl
index_of_text-first p [] (suc k) few here first = absurd (omega arith)
index_of_text-first p (x ∷ s) zero few here first = rw here refl
index_of_text-first p (x ∷ s) (suc k) few here first =
    rw
      (
        first 0 (omega arith),
        index_of_text-first p s k (omega arith) here (λ i less. first (suc i) (omega arith)),
      )
      (ap some (omega arith))

-- The text of a `POST`: the head, a blank line, and the body.
abbrev pub post : Bytes → Body → Bytes
post head b = head ++ (separator ++ print b)

pub record IsPost (head : Bytes) (b : Body) (d : ℕ) : Type 0 where
  pub not_get : is_prefix (codes "GET") (post head b) ≡ false
  pub digit : d < 10
  pub id_at : get_elem? (post head b) 15 ≡ some (b'0' + d)
  -- no earlier blank line
  pub first : (i : ℕ) → i < length head → is_prefix separator (drop i (post head b)) ≡ false
  pub small : length (post head b) < 2 ^ 63

module _ (absl : Absl) (laws : Laws absl) where
  id_read :
      (text rest : Bytes) (i d : ℕ)
      → d < 10
      → get_elem? text i ≡ some (b'0' + d)
      → parse_id absl (view_of text rest) i ≡ some (true, pos d)
  unfolding parse_id
  id_read text rest i d few at =
      ap (λ o. o >>= λ s. some (absl.simple_atoi s))
        (one_char (text ++ rest) i (b'0' + d) (behind text rest i (b'0' + d) at))
      ∙ ap some (laws.simple_atoi_digit d few)

  -- Under the laws of Abseil, a text that begins with `GET` and has a digit at place 14 is a balance
  -- request of that id.
  pub from_http-get :
      (text rest : Bytes) (d : ℕ) (request : Request)
      → is_prefix (codes "GET") text ≡ true
      → d < 10
      → get_elem? text 14 ≡ some (b'0' + d)
      → from_http absl (view_of text rest) request
        ≡ some (true, record request { type = RequestType.balance; id = pos d })
  unfolding from_http from_http_get
  from_http-get text rest d request get few at =
      rw
        (
          all_chars text rest,
          laws.starts_with-eq text (codes "GET"),
          get,
          id_read text rest 14 d few at,
        )
        refl

separator_prefix : (s : Bytes) → is_prefix separator (separator ++ s) ≡ true
separator_prefix s = refl

module _ (head : Bytes) (b : Body) (d : ℕ) (h : IsPost head b d) (rest : Bytes) where
  length-post : length (post head b) ≡ length head + 4 + length (print b)
  length-post =
      omega (arith, length-append head (separator ++ print b), length-append separator (print b))

  finds_body : find_text (view_of (post head b) rest) separator ≡ length head
  finds_body =
      rw
        (
          all_chars (post head b) rest,
          index_of_text-first separator (post head b) (length head) (omega (arith, length-post))
              (ap (is_prefix separator) (drop-front head (separator ++ print b) (length head) refl)
                ∙ separator_prefix (print b))
              h.first,
        )
        refl

  body_mem : drop (length head + 4) (post head b ++ rest) ≡ print b ++ rest
  body_mem =
      ap (drop (length head + 4)) (
        append_assoc head (separator ++ print b) rest
        ∙ sym (append_assoc head separator (print b ++ rest)))
      ∙ drop-front (head ++ separator) (print b ++ rest) (length head + 4)
          (sym (length-append head separator))

  body_size : sub_size (length (post head b)) (add_size (length head) 4) ≡ length (print b)
  body_size = omega (arith, length-post, h.small)

  body_found :
      view_from
        (view_of (post head b) rest)
        (length head + 4)
        (sub_size (length (post head b)) (add_size (length head) 4))
      ≡ view_of (print b) rest
  body_found = ap₂ (λ mem size. record { mem = mem; size = size }) body_mem body_size

  body_read :
      (absl : Absl) (v : IsWellFormed b) (request : Request)
      → length request.transaction.description ≡ 11
      → from_http_body absl (view_of (post head b) rest) request
        ≡ some (
          true,
          record request {
            type = RequestType.transaction;
            transaction = record (request.transaction) {
              value = amount b;
              description = closed b.description request.transaction.description;
            };
          },
        )
  unfolding from_http_body
  body_read absl v request room =
      rw
        (
          finds_body,
          ne→== (length head) npos (λ e. absurd (omega (arith, length-post, h.small))),
          body_found,
          parse_json_body-print b v rest request.transaction room,
        )
        refl

  -- A text of less than 2 ^ 63 bytes that does not begin with `GET`, has a digit at place 15, and a
  -- well-formed body behind its first blank line, is a transaction of that id with the signed value
  -- and the description, under the laws of Abseil and with an array of 11 bytes for the description.
  pub from_http-post :
      (absl : Absl) (laws : Laws absl) (v : IsWellFormed b) (request : Request)
      → length request.transaction.description ≡ 11
      → from_http absl (view_of (post head b) rest) request
        ≡ some (
          true,
          record {
            type = RequestType.transaction;
            id = pos d;
            transaction = record (request.transaction) {
              value = amount b;
              description = closed b.description request.transaction.description;
            };
          },
        )
  unfolding from_http from_http_post
  from_http-post absl laws v request room =
      rw
        (
          all_chars (post head b) rest,
          laws.starts_with-eq (post head b) (codes "GET"),
          h.not_get,
          id_read absl laws (post head b) rest 15 d h.digit h.id_at,
        )
        (body_read absl v (record request { id = pos d }) room)
