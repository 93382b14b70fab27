-- ===== src/Protocol/Chunked.antt =====
-- Chunked content: the grammar of the transfer coding that the code accepts, and the decoder against it.
use tydomio.Base.{
  ℕ, zero, suc, ◌+◌, ◌<◌, ◌≤◌, ◌≡◌, refl, ap, sym, ◌∙◌, ◌≢◌, ◌↔◌, inl, inr, Option, none, some, [],
  ◌∷◌, ◌++◌, ◌==◌, nat_eq, list_eq, ==→eq, length, take, drop, arith, take-length-append,
  drop-length-append, take-append-drop, length-take, length-append, Result, ok, err, Option-cases,
  Bool-cases,
}
use mathlib.Core.List.{append_assoc, append-nil}
use tydomio.Base.Text.{Text, crlf, partition}
use tydomio.Base.Text.Lines.{IsLine, partition-line, partition-eq_some}
use tydomio.Error.{Error}
use tydomio.Protocol.{
  Round, failed, last, chunk, chunk_size, round, sized, after_round, decode_loop, decode_chunked,
}

-- `Encodes body content`: chunks of a size line and as many bytes, each ended by an end of line, then
-- a size line of zero and one end of line.
pub data Encodes : Text → Text → Type 0 where
  finish :
      {body content : Text} (line : Text)
      → IsLine line
      → chunk_size line ≡ some 0
      → body ≡ line ++ (crlf ++ crlf)
      → content ≡ []
      → Encodes body content
  more :
      {body content : Text} (line bytes : Text) {rest tail : Text}
      → IsLine line
      → chunk_size line ≡ some (length bytes)
      → bytes ≢ []
      → Encodes rest tail
      → body ≡ line ++ (crlf ++ (bytes ++ (crlf ++ rest)))
      → content ≡ bytes ++ tail
      → Encodes body content

round-finish :
    (line : Text)
    → IsLine line
    → chunk_size line ≡ some 0
    → round (line ++ (crlf ++ crlf)) ≡ last crlf
unfolding round
round-finish line l size = rw (partition-line line crlf l, round, size)

sized-more :
    (bytes rest : Text)
    → bytes ≢ []
    → sized (length bytes) (bytes ++ (crlf ++ rest)) ≡ chunk bytes rest
unfolding nat_eq list_eq
sized-more [] rest h = absurd (h refl)
sized-more (c ∷ bytes) rest h =
    rw (drop-length-append bytes (crlf ++ rest), take-length-append bytes (crlf ++ rest))

round-more :
    (line bytes rest : Text)
    → IsLine line
    → chunk_size line ≡ some (length bytes)
    → bytes ≢ []
    → round (line ++ (crlf ++ (bytes ++ (crlf ++ rest)))) ≡ chunk bytes rest
unfolding round
round-more line bytes rest l size h =
    rw (partition-line line (bytes ++ (crlf ++ rest)) l, round, size) (sized-more bytes rest h)

length-parts :
    (line bytes rest : Text)
    → length (line ++ (crlf ++ (bytes ++ (crlf ++ rest))))
      ≡ length line + length bytes + length rest + 4
length-parts line bytes rest = omega (
  arith,
  length-append line (crlf ++ (bytes ++ (crlf ++ rest))),
  length-append bytes (crlf ++ rest),
)

-- With fuel above the length of the encoding, the loop appends the encoded content.
decode_loop-Encodes :
    {body content : Text} (error : Error) (fuel : ℕ) (before : Text)
    → Encodes body content
    → length body < fuel
    → decode_loop error fuel body before ≡ ok (before ++ content)
unfolding decode_loop list_eq nat_eq
decode_loop-Encodes error zero before e h = elim h [ ]
decode_loop-Encodes error (suc fuel) before (finish line l size b c) h =
    rw (b, c, round-finish line l size) (ap ok (sym (append-nil before)))
decode_loop-Encodes error (suc fuel) before (more line bytes {rest} {tail} l size ne e b c) h =
    rw (b, c, round-more line bytes rest l size ne)
      (decode_loop-Encodes error fuel (before ++ bytes) e
          (omega (arith, length-parts line bytes rest, ap length b))
        ∙ ap ok (append_assoc before bytes tail))

-- What a round has read, if it did not fail.
abbrev Read : Text → Round → Type 0
Read body failed = Unit
Read body (last after) =
    (line : Text) × IsLine line × (chunk_size line ≡ some 0) × (body ≡ line ++ (crlf ++ after))
Read body (chunk bytes rest) =
    (line : Text) × IsLine line
    × (chunk_size line ≡ some (length bytes))
    × (bytes ≢ [])
    × (body ≡ line ++ (crlf ++ (bytes ++ (crlf ++ rest))))

starts-two : (s : Text) → take 2 s ≡ crlf → s ≡ crlf ++ drop 2 s
starts-two s h = sym (take-append-drop 2 s) ∙ ap (λ (t : Text). t ++ drop 2 s) h

length_of_ends : (n : ℕ) (s : Text) → take 2 (drop n s) ≡ crlf → n ≤ length s
length_of_ends zero s h = omega arith
length_of_ends (suc n) [] h = cc
length_of_ends (suc n) (c ∷ s) h = omega (arith, length_of_ends n s h)

Read-chunk :
    (body line after : Text) (n : ℕ)
    → IsLine line
    → chunk_size line ≡ some n
    → body ≡ line ++ (crlf ++ after)
    → take 2 (drop n after) ≡ crlf
    → n ≢ 0
    → Read body (chunk (take n after) (drop 2 (drop n after)))
Read-chunk body line after n l size b ends nonzero =
    let same = length-take n after (length_of_ends n after ends) in
    let whole =
      sym (take-append-drop n after) ∙ ap (λ (t : Text). take n after ++ t) (starts-two _ ends) in
    (
      line,
      l,
      size ∙ ap some (sym same),
      λ e. nonzero (omega (arith, same, ap length e)),
      b ∙ ap (λ (t : Text). line ++ (crlf ++ t)) whole,
    )

Read-sized :
    (body line after : Text) (n : ℕ)
    → IsLine line
    → chunk_size line ≡ some n
    → body ≡ line ++ (crlf ++ after)
    → Read body (sized n after)
Read-sized body line after zero l size b = (line, l, size, b)
Read-sized body line after (suc n) l size b =
    elim (Bool-cases (take 2 (drop (suc n) after) == crlf)) [
      | inl ends ↦
          rw ends
            (Read-chunk body line after (suc n) l size b (==→eq _ _ ends) (λ e. omega (arith, e)))
      | inr other ↦ rw other tt
    ]

Read-next :
    (body : Text) (found : Option (Text × Text))
    → partition body crlf ≡ found
    → Read body (round body)
unfolding round
Read-next body none e = rw (e, round) tt
Read-next body (some (line, after)) e =
    let (parts, l) = partition-eq_some body line after e in
    elim (Option-cases (chunk_size line)) [
      | inl wrong ↦ rw (e, round, wrong) tt
      | inr (n, size) ↦ rw (e, round, size) (Read-sized body line after n l size parts)
    ]

Read-round : (body : Text) → Read body (round body)
Read-round body = Read-next body (partition body crlf) refl

abbrev Accepts : (Text → Text → Result Error Text) → Type 0
Accepts decode =
    (body before total : Text)
    → decode body before ≡ ok total
    → (content : Text) × Encodes body content × (total ≡ before ++ content)

after_round-Accepts :
    (error : Error) (again : Text → Text → Result Error Text) (body before total : Text) (r : Round)
    → Accepts again
    → Read body r
    → after_round error again r before ≡ ok total
    → (content : Text) × Encodes body content × (total ≡ before ++ content)
after_round-Accepts error again body before total failed inner w h = cc
after_round-Accepts error again body before total (last after) inner (line, l, size, b) h =
    let ends : after ≡ crlf = ground arith in
    let same : before ≡ total = ground arith in
    (
      [],
      finish line l size (b ∙ ap (λ (t : Text). line ++ (crlf ++ t)) ends) refl,
      sym same ∙ sym (append-nil before),
    )
after_round-Accepts error again body before total (chunk bytes rest) inner (line, l, size, ne, b)
      h =
    let (tail, e, same) = inner rest (before ++ bytes) total h in
    (bytes ++ tail, more line bytes l size ne e b refl, same ∙ append_assoc before bytes tail)

-- A successful loop has read an encoding.
decode_loop-Accepts : (error : Error) (fuel : ℕ) → Accepts (decode_loop error fuel)
unfolding decode_loop
decode_loop-Accepts error zero body before total h = cc
decode_loop-Accepts error (suc fuel) body before total h =
    after_round-Accepts error (decode_loop error fuel) body before total (round body)
      (decode_loop-Accepts error fuel) (Read-round body) h

-- The decoder returns `content` exactly when the body is an encoding of it: what it accepts is the
-- grammar, no more and no less, and the chunks are joined in order. In particular its fuel is enough
-- for every encoding.
pub decode_chunked_iff :
    (body content : Text) (error : Error)
    → (decode_chunked body error ≡ ok content) ↔ Encodes body content
unfolding decode_chunked
decode_chunked_iff body content error = (
  λ h.
      let (found, e, same) = decode_loop-Accepts error (suc (length body)) body [] content h in
      rw same e,
  λ e. decode_loop-Encodes error (suc (length body)) [] e (omega arith),
)

-- The loop fails only with the error of the caller, or runs out of fuel too short for the body.
after_round-error :
    (error e : Error) (again : Text → Text → Result Error Text) (body before : Text) (r : Round)
    → ((rest now : Text) → length rest < length body → again rest now ≡ err e → e ≡ error)
    → Read body r
    → after_round error again r before ≡ err e
    → e ≡ error
after_round-error error e again body before failed inner w h = cc
after_round-error error e again body before (last after) inner w h = ground arith
after_round-error error e again body before (chunk bytes rest) inner (line, l, size, ne, b) h =
    inner rest (before ++ bytes) (omega (arith, length-parts line bytes rest, ap length b)) h

decode_loop-error :
    (error e : Error) (fuel : ℕ) (body before : Text)
    → length body < fuel
    → decode_loop error fuel body before ≡ err e
    → e ≡ error
unfolding decode_loop
decode_loop-error error e zero body before lt h = elim lt [ ]
decode_loop-error error e (suc fuel) body before lt h =
    after_round-error error e (decode_loop error fuel) body before (round body)
      (λ rest now shorter failed. decode_loop-error error e fuel rest now (omega arith) failed)
      (Read-round body) h

-- The decoder ends on every body: where it does not return content it raises the error that the caller
-- named, never the mark of exhausted fuel.
pub decode_chunked-error :
    (body : Text) (error e : Error) → decode_chunked body error ≡ err e → e ≡ error
unfolding decode_chunked
decode_chunked-error body error e h =
    decode_loop-error error e (suc (length body)) body [] (omega arith) h
