-- ===== src/FromHttp/Reads.antt =====
-- Which memory `FromHttp` reads: the whole request, whatever its bytes are.
use rinha.Prelude.{
  ℕ, ◌+◌, ◌^◌, ◌≤◌, ◌<◌, ◌≡◌, refl, ap, ap₂, ◌∙◌, inl, inr, ℤ, Bool, true, false, Option, some, [],
  ◌∷◌, Bytes, codes, le→leb, ◌==◌, length, length-append, length-drop, drop, take, arith, npos,
  add_size, sub_size, Bool-cases, Option-cases,
}
use rinha.Structs.{Transaction, Request, RequestType}
use rinha.Absl.{Absl, is_prefix}
use rinha.FromHttp.{
  View, view_from, chars, index_of_text, find_text, parse_id, parse_json_body, from_http_get,
  from_http_body, from_http_post, from_http,
}
use rinha.FromHttp.Positions.{view_of, chars-view_of, drop-append}
use rinha.FromHttp.Bounds.{parse_json_body-Returns}

is_prefix-le : (p s : Bytes) → is_prefix p s ≡ true → length p ≤ length s
is_prefix-le [] s h = omega arith
is_prefix-le (c ∷ p) [] h = cc
is_prefix-le (c ∷ p) (d ∷ s) h = ground (arith, h, is_prefix-le p s)

index_of_text-le : (p s : Bytes) (k : ℕ) → index_of_text p s ≡ some k → k + length p ≤ length s
index_of_text-le p [] k h = elim (Bool-cases (is_prefix p [])) [
  | inl here ↦ ground (arith, rw here at h, is_prefix-le p [] here)
  | inr other ↦ absurd (ground (arith, rw other at h))
]
index_of_text-le p (x ∷ s) k h = elim (Bool-cases (is_prefix p (x ∷ s))) [
  | inl here ↦ ground (arith, rw here at h, is_prefix-le p (x ∷ s) here)
  | inr other ↦ elim (Option-cases (index_of_text p s)) [
    | inl lost ↦ absurd (ground (arith, rw (other, lost) at h))
    | inr (n, found) ↦ ground (arith, rw (other, found) at h, index_of_text-le p s n found)
  ]
]

find_text-le :
    (text rest p : Bytes)
    → (find_text (view_of text rest) p == npos) ≡ false
    → find_text (view_of text rest) p + length p ≤ length text
find_text-le text rest p h = elim (Option-cases (index_of_text p text)) [
  | inl lost ↦ absurd (ground (arith, rw (chars-view_of text rest, lost) at h))
  | inr (k, found) ↦ rw (chars-view_of text rest, found) (index_of_text-le p text k found)
]

-- A view from a place of the text on.
view_from-view_of :
    (text rest : Bytes) (i : ℕ)
    → i ≤ length text
    → length text < 2 ^ 32
    → view_from (view_of text rest) i (sub_size (length text) i) ≡ view_of (drop i text) rest
view_from-view_of text rest i h small =
    ap₂ (λ mem size. record { mem = mem; size = size }) (drop-append text rest i h refl)
      (omega (arith, length-drop i text))

module _ (absl : Absl) where
  parse_id-some :
      (http : View) (i : ℕ) → i < length http.mem → (r : Bool × ℤ) × (parse_id absl http i ≡ some r)
  unfolding parse_id
  parse_id-some http i h = (
    absl.simple_atoi (take 1 (drop i http.mem)),
    rw (le→leb 1 (length (drop i http.mem)) (omega (arith, length-drop i http.mem))) refl,
  )

  -- A call that returns, and leaves the array of the description its size.
  abbrev ReturnsRequest : Option (Bool × Request) → Type 0
  ReturnsRequest m = (r : Bool × Request) × (m ≡ some r) × (length r.1.transaction.description ≡ 11)

  module _ (text rest : Bytes) (small : length text < 2 ^ 32) (margin : 11 ≤ length rest)
      (enough : 16 ≤ length text + length rest) where
    abbrev http : View
    http = view_of text rest

    abbrev begin : ℕ
    begin = find_text http (codes "\r\n\r\n")

    body_runs :
        (request : Request) (ok : Bool) (t : Transaction)
        → (begin == npos) ≡ false
        → parse_json_body
            (view_from http (begin + 4) (sub_size (length text) (add_size begin 4)))
            request.transaction
          ≡ some (ok, t)
        → length t.description ≡ 11
        → ReturnsRequest (from_http_body absl http request)
    unfolding from_http_body
    body_runs request true t found parsed room = (
      (true, record request { type = RequestType.transaction; transaction = t }),
      rw (found, parsed) refl,
      room,
    )
    body_runs request false t found parsed room =
        ((false, record request { transaction = t }), rw (found, parsed) refl, room)

    body_returns :
        (request : Request)
        → length request.transaction.description ≡ 11
        → ReturnsRequest (from_http_body absl http request)
    unfolding from_http_body
    body_returns request room = elim (Bool-cases (begin == npos)) [
      | inl lost ↦ ((false, request), rw lost refl, room)
      | inr found ↦
          let k_le = find_text-le text rest (codes "\r\n\r\n") found in
          let place : add_size begin 4 ≡ begin + 4 = omega arith in
          let same = view_from-view_of text rest (begin + 4) k_le small in
          let (r, parsed, kept) =
            parse_json_body-Returns (drop (begin + 4) text) rest
              (omega (arith, length-drop (begin + 4) text)) margin request.transaction room in
          body_runs request r.0 r.1 found
            (ap
                (λ n.
                  parse_json_body (view_from http (begin + 4) (sub_size (length text) n))
                    request.transaction)
                place
              ∙ ap (λ v. parse_json_body v request.transaction) same
              ∙ parsed)
            kept
    ]

    -- Of a text of less than 2 ^ 32 bytes, with eleven bytes of the array behind it and sixteen in all,
    -- `FromHttp` reads and writes inside the arrays, whatever the bytes are and whatever Abseil
    -- returns: it returns, and the array of the description keeps its eleven bytes.
    pub from_http-some :
        (request : Request)
        → length request.transaction.description ≡ 11
        → (r : Bool × Request) × (from_http absl http request ≡ some r)
          × (length r.1.transaction.description ≡ 11)
    unfolding from_http from_http_get from_http_post
    from_http-some request room =
        let mem_length = length-append text rest in
        elim (Bool-cases (absl.starts_with (chars http) (codes "GET"))) [
          | inl get ↦
              let ((ok, id), parsed) = parse_id-some http 14 (omega (arith, mem_length)) in
              elim (Bool-cases ok) [
                | inl good ↦ (
                  (true, record request { type = RequestType.balance; id = id }),
                  rw (get, parsed, good) refl,
                  room,
                )
                | inr bad ↦ ((false, record request { id = id }), rw (get, parsed, bad) refl, room)
              ]
          | inr post ↦
              let ((ok, id), parsed) = parse_id-some http 15 (omega (arith, mem_length)) in
              elim (Bool-cases ok) [
                | inl good ↦
                    let (r, runs, kept) = body_returns (record request { id = id }) room in
                    (r, rw (post, parsed, good) runs, kept)
                | inr bad ↦ ((false, record request { id = id }), rw (post, parsed, bad) refl, room)
              ]
        ]
