-- ===== src/HttpMetricsServer/Response.antt =====
-- The responses as an HTTP client reads them.
use multi_player_game.Common.{
  ℕ, zero, suc, ◌≡◌, refl, ap, inl, inr, Bool, true, false, List, [], ◌∷◌, ◌++◌, append_assoc,
  Option, none, some, nat_beq, arith, length, if◌then◌else◌, Bool-cases,
}
use multi_player_game.Common.Text.{codes}
use multi_player_game.Common.Bytes.{contains_text}
use multi_player_game.Common.Decimal.{decimal, spelled, decimal_lem}
use multi_player_game.RedisClient.Protocol.{and_then, expect_byte}
use multi_player_game.RedisClient.Reading.{IsLine, digits-IsLine}
use multi_player_game.HttpMetricsServer.{response, ok_status, health_body, not_found_body, respond}

-- A line up to its end, and what comes after it.
abbrev put_first : ℕ → List ℕ × List ℕ → Option (List ℕ × List ℕ)
put_first c (line, rest) = some (c ∷ line, rest)

pub cut_line : List ℕ → Option (List ℕ × List ℕ)
cut_line [] = none
cut_line (c ∷ cs) =
    let more = cut_line cs in
    if nat_beq c 13
    then and_then (expect_byte 10 cs) (λ rest. some ([], rest))
    else and_then more (put_first c)

-- The lines of the head, until an empty one; at most so many.
abbrev add_header : List ℕ → List (List ℕ) × List ℕ → Option (List (List ℕ) × List ℕ)
add_header line (headers, body) = some (line ∷ headers, body)

pub read_headers : ℕ → List ℕ → Option (List (List ℕ) × List ℕ)
read_headers zero s = none
read_headers (suc k) s = and_then (cut_line s) (λ (line, rest).
    let more = read_headers k rest in
    elim line [ [] ↦ some ([], rest) | c ∷ cs ↦ and_then more (add_header (c ∷ cs)) ])

strip : List ℕ → List ℕ → Option (List ℕ)
strip [] s = some s
strip (p ∷ ps) s = and_then (expect_byte p s) (strip ps)

pub content_length : List (List ℕ) → Option ℕ
content_length [] = none
content_length (h ∷ hs) =
    let more = content_length hs in
    elim (strip (codes "Content-Length: ") h) [
      | some digits ↦ some (spelled 0 digits)
      | none ↦ more
    ]

-- The status line and the body of a whole response with at most so many lines in its head.
pub read_response : ℕ → List ℕ → Option (List ℕ × List ℕ)
read_response k s = and_then (cut_line s) (λ (status, r).
    and_then (read_headers k r) (λ (headers, body).
      and_then (content_length headers)
        (λ n. if nat_beq n (length body) then some (status, body) else none)))

cut_line-IsLine :
    (line rest : List ℕ) → IsLine line → cut_line (line ++ 13 ∷ 10 ∷ rest) ≡ some (line, rest)
unfolding cut_line expect_byte
cut_line-IsLine [] rest h = refl
cut_line-IsLine (c ∷ cs) rest h = ground (arith, cut_line-IsLine cs rest h.1)

-- A header line that is read.
header_lem :
    (k c : ℕ) (cs rest : List ℕ) (hs : List (List ℕ)) (body : List ℕ)
    → IsLine (c ∷ cs)
    → read_headers k rest ≡ some (hs, body)
    → read_headers (suc k) ((c ∷ cs) ++ 13 ∷ 10 ∷ rest) ≡ some ((c ∷ cs) ∷ hs, body)
unfolding read_headers
header_lem k c cs rest hs body h e = rw (cut_line-IsLine (c ∷ cs) rest h, e) refl

last_lem : (k : ℕ) (body : List ℕ) → read_headers (suc k) (13 ∷ 10 ∷ body) ≡ some ([], body)
unfolding read_headers cut_line expect_byte
last_lem k body = refl

is_line : List ℕ → Bool
is_line [] = true
is_line (c ∷ cs) = let rest = is_line cs in if nat_beq c 13 then false else rest

is_line-IsLine : (l : List ℕ) → is_line l ≡ true → IsLine l
unfolding is_line
is_line-IsLine [] h = tt
is_line-IsLine (c ∷ cs) h = ground (arith, is_line-IsLine cs)

IsLine-append : (a b : List ℕ) → IsLine a → IsLine b → IsLine (a ++ b)
IsLine-append [] b ha hb = hb
IsLine-append (c ∷ a) b (ne, ha) hb = (ne, IsLine-append a b ha hb)

abbrev type_name : List ℕ
type_name = codes "Content-Type: "

abbrev length_name : List ℕ
length_name = codes "Content-Length: "

abbrev close_line : List ℕ
close_line = codes "Connection: close"

abbrev headers_of : List ℕ → List ℕ → List (List ℕ)
headers_of type body =
    (type_name ++ type) ∷ (length_name ++ decimal (length body)) ∷ close_line ∷ []

abbrev head_of : List ℕ → List ℕ → List ℕ
head_of type body =
    (type_name ++ type)
    ++ 13
      ∷ 10
      ∷ ((length_name ++ decimal (length body))
          ++ 13 ∷ 10 ∷ (close_line ++ 13 ∷ 10 ∷ (13 ∷ 10 ∷ body)))

flat :
    (status type body : List ℕ) → response status type body ≡ status ++ 13 ∷ 10 ∷ head_of type body
unfolding response
flat status type body = simp append_assoc refl

head_lem :
    (k : ℕ) (type body : List ℕ)
    → IsLine type
    → read_headers (suc (suc (suc (suc k)))) (head_of type body) ≡ some (headers_of type body, body)
unfolding is_line
head_lem k type body h =
    let (exact, digits) = decimal_lem (length body) in
    let named = is_line-IsLine type_name refl in
    let sized = is_line-IsLine length_name refl in
    let closed = is_line-IsLine close_line refl in
    header_lem _ _ _ _ _ body (IsLine-append type_name type named h) (
      header_lem _ _ _ _ _ body
        (IsLine-append length_name _ sized (digits-IsLine (decimal (length body)) digits))
        (header_lem _ _ _ _ [] body closed (last_lem k body)))

length_lem : (type body : List ℕ) → content_length (headers_of type body) ≡ some (length body)
unfolding content_length strip expect_byte
length_lem type body = let (exact, digits) = decimal_lem (length body) in ap some exact

read_lem :
    (k : ℕ) (status type body : List ℕ)
    → IsLine status
    → IsLine type
    → read_response (suc (suc (suc (suc k)))) (response status type body) ≡ some (status, body)
unfolding read_response
read_lem k status type body hs ht =
    let same : nat_beq (length body) (length body) ≡ true = ground arith in
    rw
      (
        flat status type body,
        cut_line-IsLine status (head_of type body) hs,
        head_lem k type body ht,
        length_lem type body,
        same,
      )
      refl

readable :
    (k : ℕ) (status type body : List ℕ)
    → is_line status ≡ true
    → is_line type ≡ true
    → read_response (suc (suc (suc (suc k)))) (response status type body) ≡ some (status, body)
readable k status type body hs ht =
    read_lem k status type body (is_line-IsLine status hs) (is_line-IsLine type ht)

-- What a request asks for: the page of the metrics, that of the health, or one that is not there.
pub page : List ℕ → List ℕ → List ℕ × List ℕ
page req metrics_text =
    if contains_text (codes "GET /metrics") req
    then (ok_status, metrics_text)
    else if contains_text (codes "GET /health") req
    then (ok_status, health_body)
    else (codes "HTTP/1.1 404 Not Found", not_found_body)

-- Whatever is asked and whatever the metrics text is, an HTTP client reads the response: it has a
-- status line, at most four lines in its head up to the empty one, and a Content-Length that is the
-- length of the body; and status and body are those of the page that was asked for.
pub respond_readable :
    (k : ℕ) (req metrics_text : List ℕ)
    → read_response (suc (suc (suc (suc k)))) (respond req metrics_text)
      ≡ some (page req metrics_text)
unfolding respond page is_line
respond_readable k req text = elim (Bool-cases (contains_text (codes "GET /metrics") req)) [
  | inl metrics ↦
      rw metrics
        (readable k ok_status (codes "text/plain; version=0.0.4; charset=utf-8") text refl refl)
  | inr other ↦ elim (Bool-cases (contains_text (codes "GET /health") req)) [
    | inl health ↦
        rw (other, health) (readable k ok_status (codes "application/json") health_body refl refl)
    | inr neither ↦
        rw (other, neither)
          (readable k (codes "HTTP/1.1 404 Not Found") (codes "text/plain") not_found_body refl
            refl)
  ]
]
