-- ===== src/Protocol/Received.antt =====
-- A head of clean header lines, as the parser takes it apart.
use tydomio.Base.{
  ℕ, ◌≡◌, refl, true, false, none, some, List, [], ◌∷◌, ◌++◌, map, nat_eq, list_eq, All, arith, ok,
}
use tydomio.Base.Dict
use tydomio.Base.Text.{Text, codes, crlf, lower, strip, is_str_space, join, starts_with, is_ascii}
use tydomio.Base.Text.Parts.{Lacks, Line, partition-one, partition-head, split_lines-join}
use tydomio.Error.{Error}
use tydomio.Response.{Headers}
use tydomio.Requests.{Request, header_line}
use tydomio.Protocol.{or_none, with_header, read_headers, decode_content, split_message}

-- A header as the parser keeps it.
abbrev pub received : Text × Text → Text × Text
received (key, value) = (lower (strip is_str_space key), strip is_str_space (codes " " ++ value))

abbrev pub received_headers : Headers → Headers
received_headers headers = Dict.insert_all (map received headers) []

-- What the wire format can carry: no space in the method and the url, no colon in a header's name,
-- no carriage return at all, and no method that begins like a status line.
abbrev pub IsCleanHeader : Text × Text → Type 0
IsCleanHeader (key, value) = Lacks b':' key × Lacks 13 key × Lacks 13 value

pub record IsClean (r : Request) : Type 0 where
  pub method_space : Lacks 32 r.method
  pub method_line : Lacks 13 r.method
  pub method_start : starts_with r.method (codes "H") ≡ false
  pub url_space : Lacks 32 r.url
  pub url_line : Lacks 13 r.url
  pub clean_headers : All IsCleanHeader r.headers

pub Lacks-append : (x : ℕ) (s t : Text) → Lacks x s → Lacks x t → Lacks x (s ++ t)
Lacks-append x [] t hs ht = ht
Lacks-append x (c ∷ s) t hs ht = (hs.0, Lacks-append x s t hs.1 ht)

with_header-line :
    (h : Text × Text) (d : Headers)
    → IsCleanHeader h
    → with_header (header_line h) d ≡ some (Dict.insert (received h).0 (received h).1 d)
unfolding with_header
with_header-line (key, value) d h = rw (partition-one b':' key (32 ∷ value) h.0, with_header) refl

read_headers-lines :
    (error : Error) (headers d : Headers)
    → All IsCleanHeader headers
    → read_headers error (map header_line headers) d ≡ ok (Dict.insert_all (map received headers) d)
unfolding read_headers Dict.insert_all
read_headers-lines error [] d h = refl
read_headers-lines error (x ∷ headers) d h =
    rw (with_header-line x d h.0, read_headers) (read_headers-lines error headers _ h.1)

header_line-Line : (h : Text × Text) → IsCleanHeader h → Line (header_line h)
header_line-Line ([], value) (colon, key, clean) = ((λ e. omega arith), ((λ e. omega arith), clean))
header_line-Line (c ∷ key, value) (colon, clean_key, clean) =
    Lacks-append 13 (c ∷ key) (codes ": " ++ value) clean_key
      ((λ e. omega arith), ((λ e. omega arith), clean))

Line-lines : (headers : Headers) → All IsCleanHeader headers → All Line (map header_line headers)
Line-lines [] h = tt
Line-lines (x ∷ headers) h = (header_line-Line x h.0, Line-lines headers h.1)

Lacks-of_Line : (l : Text) → Line l → Lacks 13 l
Lacks-of_Line [] h = tt
Lacks-of_Line (c ∷ l) h = h

All-Lacks : (ls : List Text) → All Line ls → All (Lacks 13) ls
All-Lacks [] h = tt
All-Lacks (l ∷ ls) h = (Lacks-of_Line l h.0, All-Lacks ls h.1)

decode_content-plain :
    (body : Text) (headers : Headers) (error : Error)
    → Dict.lookup (codes "transfer-encoding") headers ≡ none
    → decode_content body headers error ≡ ok body
unfolding decode_content
decode_content-plain body headers error h = rw (h, decode_content) refl

-- A head of a start line and header lines is taken apart into these.
pub split_message-head :
    (error : Error) (start : Text) (x : Text × Text) (headers : Headers) (body : Text)
    → Lacks 13 start
    → All IsCleanHeader (x ∷ headers)
    → is_ascii (join crlf (start ∷ map header_line (x ∷ headers))) ≡ true
    → Dict.lookup (codes "transfer-encoding") (received_headers (x ∷ headers)) ≡ none
    → split_message
        (join crlf (start ∷ map header_line (x ∷ headers)) ++ (crlf ++ (crlf ++ body)))
        error
      ≡ ok (record {
        start_line = start;
        headers = received_headers (x ∷ headers);
        content = or_none body;
      })
unfolding split_message
split_message-head error start x headers body clean all_clean ascii plain =
    rw
      (
        partition-head start (map header_line (x ∷ headers)) body clean
            (Line-lines (x ∷ headers) all_clean),
        split_message,
        ascii,
        split_lines-join start (map header_line (x ∷ headers))
            (clean, All-Lacks (map header_line (x ∷ headers)) (Line-lines (x ∷ headers) all_clean)),
        read_headers-lines error (x ∷ headers) [] all_clean,
        decode_content-plain body (received_headers (x ∷ headers)) error plain,
      )
      refl
