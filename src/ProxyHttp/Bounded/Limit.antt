-- ===== src/ProxyHttp/Bounded/Limit.antt =====
-- What `bounded_request` returns, in terms of the whole body.
use adaptive_gateway.Prelude.{
  ℕ, ◌+◌, ◌≡◌, ap, ◌∙◌, false, Option, none, some, List, [], ◌∷◌, ◌++◌, arith, ltb, length,
  length-append, append-nil, append_assoc, if◌then◌else◌, Bool-cases, inl, inr,
}
use adaptive_gateway.Prelude.Texts.{Text}
use adaptive_gateway.Prelude.Dicts.{Dict}
use adaptive_gateway.ProxyHttp.Bounded.{
  Failure, body_too_large, streamed, Fetched, fetched, unfetched, decoded_headers, result,
  read_chunks, bounded_request,
}

abbrev pub whole : List (List ℕ) → List ℕ
whole [] = []
whole (chunk ∷ chunks) = chunk ++ whole chunks

abbrev pub ended : Option Failure → Fetched → Fetched
ended none done = done
ended (some failure) done = unfetched failure

pub zero_add : (n : ℕ) → 0 + n ≡ n
zero_add n = omega arith

read_chunks-whole :
    (limit : ℕ) (finish : List ℕ → Fetched) (chunks : List (List ℕ)) (broken : Option Failure)
    (size : ℕ) (read : List ℕ)
    → ltb limit size ≡ false
    → read_chunks limit finish chunks broken size read ≡ (
        if ltb limit (size + length (whole chunks))
        then unfetched body_too_large
        else ended broken (finish (read ++ whole chunks)))
unfolding read_chunks
read_chunks-whole limit finish [] none size read within = ground (arith, append-nil read)
read_chunks-whole limit finish [] (some failure) size read within = ground arith
read_chunks-whole limit finish (chunk ∷ chunks) broken size read within =
    elim (Bool-cases (ltb limit (size + length chunk))) [
      | inl over ↦ ground (arith, length-append chunk (whole chunks))
      | inr under ↦ rw under (
          read_chunks-whole limit finish chunks broken (size + length chunk) (read ++ chunk) under
          ∙ ground
              (arith, length-append chunk (whole chunks), append_assoc read chunk (whole chunks)))
    ]

-- A streamed response whose whole body is longer than the limit fails with BodyTooLarge, whatever
-- breaks the stream later; otherwise it fails as the stream breaks, or gives the whole body with
-- the cleaned headers.
pub bounded_request_cases :
    (limit status : ℕ) (headers : Dict Text) (cookies : List Text) (chunks : List (List ℕ))
    (broken : Option Failure)
    → bounded_request limit (streamed status headers cookies chunks broken) ≡ (
        if ltb limit (length (whole chunks))
        then unfetched body_too_large
        else ended broken (
            fetched (record {
              status = status;
              headers = decoded_headers headers;
              content = whole chunks;
              set_cookie = cookies;
            })))
unfolding bounded_request
bounded_request_cases limit status headers cookies chunks broken =
    read_chunks-whole limit (result status headers cookies) chunks broken 0 [] (ground arith)
    ∙ ap
        (λ n.
          if ltb limit n
          then unfetched body_too_large
          else ended broken (result status headers cookies (whole chunks)))
        (zero_add (length (whole chunks)))
