-- ===== src/Outbound/Body.antt =====
-- Reading a response's body: `readResponseBody` of packages/outbound/src/index.ts, over the chunks
-- that the response gives; a chunk is the list of its bytes.
use planisfy.Common.{
  ℕ, ◌+◌, ◌≤◌, ◌<◌, true, false, List, [], ◌∷◌, ◌++◌, ◌≡◌, refl, sym, ap, ◌∙◌, inl, inr,
  if◌then◌else◌, ltb, leb, ltb→lt, arith, length, length-append, Bool-cases,
}
use mathlib.Core.List.{append_assoc, append-nil}

-- The body, or RESPONSE_TOO_LARGE.
pub data ReadBody : Type 0 where
  response_too_large : ReadBody
  body : List ℕ → ReadBody

abbrev pub concat_chunks : List (List ℕ) → List ℕ
concat_chunks [] = []
concat_chunks (chunk ∷ rest) = chunk ++ concat_chunks rest

read_from : (max_bytes total : ℕ) → (chunks : List ℕ) → List (List ℕ) → ReadBody
read_from max_bytes total chunks [] = body chunks
read_from max_bytes total chunks (buffer ∷ rest) =
    let going_on = read_from max_bytes (total + length buffer) (chunks ++ buffer) rest in
    if ltb max_bytes (total + length buffer) then response_too_large else going_on

unfoldable pub read_response_body : List (List ℕ) → (max_bytes : ℕ) → ReadBody
unfolding read_from
read_response_body response max_bytes = read_from max_bytes 0 [] response

-- A body that is there at once.
abbrev pub whole : (max_bytes : ℕ) → List ℕ → ReadBody
whole max_bytes bytes = if leb (length bytes) max_bytes then body bytes else response_too_large

whole_small :
    (max_bytes : ℕ) (bytes : List ℕ) → length bytes ≤ max_bytes → whole max_bytes bytes ≡ body bytes
whole_small max_bytes bytes h =
    let e : leb (length bytes) max_bytes ≡ true = ground arith in rw e refl

whole_large :
    (max_bytes : ℕ) (bytes : List ℕ)
    → max_bytes < length bytes
    → whole max_bytes bytes ≡ response_too_large
whole_large max_bytes bytes h =
    let e : leb (length bytes) max_bytes ≡ false = ground arith in rw e refl

read_from-whole :
    (max_bytes : ℕ) (chunks : List ℕ) (rest : List (List ℕ))
    → length chunks ≤ max_bytes
    → read_from max_bytes (length chunks) chunks rest
      ≡ whole max_bytes (chunks ++ concat_chunks rest)
unfolding read_from
read_from-whole max_bytes chunks [] h =
    sym (whole_small max_bytes chunks h) ∙ ap (whole max_bytes) (sym (append-nil chunks))
read_from-whole max_bytes chunks (buffer ∷ rest) h =
    let sum = length-append chunks buffer in
    elim (Bool-cases (ltb max_bytes (length chunks + length buffer))) [
      | inl e ↦ rw e (
          sym (
            whole_large max_bytes (chunks ++ (buffer ++ concat_chunks rest)) (
              omega (
                arith,
                length-append chunks (buffer ++ concat_chunks rest),
                length-append buffer (concat_chunks rest),
                ltb→lt max_bytes (length chunks + length buffer) e,
              ))))
      | inr e ↦
          let fits : length (chunks ++ buffer) ≤ max_bytes = ground (arith, sum) in
          rw e (
            ap (λ n. read_from max_bytes n (chunks ++ buffer) rest) (sym sum)
            ∙ read_from-whole max_bytes (chunks ++ buffer) rest fits
            ∙ ap (whole max_bytes) (append_assoc chunks buffer (concat_chunks rest)))
    ]

-- A response that is read in chunks ends as its whole body does: in the concatenation of all its
-- chunks if that has at most `maxBytes` bytes, and in RESPONSE_TOO_LARGE otherwise.
pub read_response_body-whole :
    (response : List (List ℕ)) (max_bytes : ℕ)
    → read_response_body response max_bytes ≡ whole max_bytes (concat_chunks response)
unfolding read_response_body
read_response_body-whole response max_bytes = read_from-whole max_bytes [] response (omega arith)
