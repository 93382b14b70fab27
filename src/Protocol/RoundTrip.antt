-- ===== src/Protocol/RoundTrip.antt =====
-- What a client sends is what the same parser reads: `Request.to_bytes`, then `parse_message`.
use tydomio.Base.{
  ℕ, ◌≡◌, refl, ◌∙◌, sym, Bool, true, false, Option, none, some, [], ◌∷◌, ◌++◌, map, nat_eq,
  list_eq, All, all, ltb, arith, ok,
}
use mathlib.Core.List.{append_assoc, append-nil}
use tydomio.Base.Dict
use tydomio.Base.Text.{Text, codes, crlf, join, split_on, starts_with, is_ascii}
use tydomio.Base.Text.Parts.{Lacks, split_on-part, remove_prefix_self}
use tydomio.Error.{Error, invalid_request}
use tydomio.Model.{DevicesData, AreasData}
use tydomio.Response.{Headers}
use tydomio.Requests.{Request, or_empty, header_line, make_headers, head, to_bytes}
use tydomio.Protocol.{
  Loaded, Split, or_none, split_message, request_line, request_of, dispatch, parse_request,
  parse_message,
}
use tydomio.Protocol.Received.{
  IsCleanHeader, IsClean, received_headers, Lacks-append, split_message-head,
}
use tydomio.Protocol.Sent.{make_headers-clean, make_headers-cons}

all-append-left : (p : ℕ → Bool) (s t : Text) → all p (s ++ t) ≡ true → all p s ≡ true
all-append-left p [] t h = refl
all-append-left p (c ∷ s) t h = ground (arith, all-append-left p s t)

abbrev start_of : Request → Text
start_of r = r.method ++ (32 ∷ (r.url ++ (32 ∷ codes "HTTP/1.1")))

head-parts :
    (r : Request) (x : Text × Text) (e : Headers) (body : Text)
    → make_headers r ≡ x ∷ e
    → head r ++ body ≡ join crlf (start_of r ∷ map header_line (x ∷ e)) ++ (crlf ++ (crlf ++ body))
unfolding head join
head-parts r x e body p = rw p (simp append_assoc)

start-line :
    (r : Request) → IsClean r → request_line (split_on 32 (start_of r)) ≡ some (r.method, r.url)
unfolding split_on list_eq nat_eq
start-line r c =
    rw
      (
        split_on-part 32 r.method (r.url ++ (32 ∷ codes "HTTP/1.1")) c.method_space,
        split_on-part 32 r.url (codes "HTTP/1.1") c.url_space,
      )
      refl

no_answer :
    (method rest : Text)
    → starts_with method (codes "H") ≡ false
    → starts_with (method ++ (32 ∷ rest)) (codes "HTTP/1.1 ") ≡ false
unfolding starts_with nat_eq
no_answer [] rest h = refl
no_answer (x ∷ method) rest h = ground arith

head-start :
    (r : Request) (body : Text) → (rest : Text) × (head r ++ body ≡ r.method ++ (32 ∷ rest))
unfolding head
head-start r body = (_, append_assoc r.method _ body)

to_bytes-eq_some :
    (cmd_prefix : Text) (r : Request) (bytes : Text)
    → to_bytes cmd_prefix r ≡ some bytes
    → (is_ascii (head r) ≡ true) × (bytes ≡ cmd_prefix ++ (head r ++ or_empty r.content))
unfolding to_bytes
to_bytes-eq_some cmd_prefix r bytes h = ground arith

start_of-Lacks : (r : Request) → IsClean r → Lacks 13 (start_of r)
start_of-Lacks r c =
    Lacks-append 13 r.method (32 ∷ (r.url ++ (32 ∷ codes "HTTP/1.1"))) c.method_line
      ((λ e. omega arith), Lacks-append 13 r.url (32 ∷ codes "HTTP/1.1") c.url_line (omega arith))

-- The bytes of a request, split.
split_message-request :
    (r : Request) (body : Text) (error : Error)
    → IsClean r
    → is_ascii (head r) ≡ true
    → Dict.lookup (codes "transfer-encoding") (received_headers (make_headers r)) ≡ none
    → split_message (head r ++ body) error
      ≡ ok (record {
        start_line = start_of r;
        headers = received_headers (make_headers r);
        content = or_none body;
      })
split_message-request r body error c ascii plain =
    let (x, e, p) = make_headers-cons r in
    let clean : All IsCleanHeader (x ∷ e) = rw p at (make_headers-clean r c.clean_headers) in
    let whole = sym (append-nil (head r)) ∙ head-parts r x e [] p in
    let top = join crlf (start_of r ∷ map header_line (x ∷ e)) in
    rw (head-parts r x e body p, p)
      (split_message-head error (start_of r) x e body (start_of-Lacks r c) clean
        (unfold is_ascii in all-append-left (λ d. ltb d 128) top (crlf ++ crlf) (rw whole at ascii))
        (rw p at plain))

parse_request-split :
    {V : Type 0} (loads : Text → Loaded) (devices : Text → Option (DevicesData V))
    (areas : Text → Option (AreasData V)) (message : Text) (s : Split) (line : Text × Text)
    → split_message message invalid_request ≡ ok s
    → request_line (split_on 32 s.start_line) ≡ some line
    → parse_request loads devices areas message ≡ dispatch loads devices areas (request_of s line)
unfolding parse_request
parse_request-split loads devices areas message s line h l = ground arith

-- What the client sends for a clean request is read back: the method, the url, the content and the
-- headers, those added by `_make_headers` included, under lower-case names and stripped. Clean is a
-- request with no space in its method and url, no colon in the name of a header, no carriage return
-- in any of them, and a method that does not begin with H; besides it declares no transfer coding.
pub parse_message-to_bytes :
    {V : Type 0} (loads : Text → Loaded) (devices : Text → Option (DevicesData V))
    (areas : Text → Option (AreasData V)) (r : Request) (cmd_prefix bytes : Text)
    → IsClean r
    → to_bytes cmd_prefix r ≡ some bytes
    → Dict.lookup (codes "transfer-encoding") (received_headers (make_headers r)) ≡ none
    → parse_message loads devices areas bytes cmd_prefix
      ≡ dispatch loads devices areas (record {
        method = r.method;
        url = r.url;
        headers = received_headers (make_headers r);
        content = or_none (or_empty r.content);
        transaction_id = none;
      })
unfolding parse_message
parse_message-to_bytes loads devices areas r cmd_prefix bytes c sent plain =
    let body = or_empty r.content in
    let (ascii, same) = to_bytes-eq_some cmd_prefix r bytes sent in
    let (rest, begins) = head-start r body in
    let no_response : starts_with (head r ++ body) (codes "HTTP/1.1 ") ≡ false =
      rw begins (no_answer r.method rest c.method_start) in
    rw (same, remove_prefix_self cmd_prefix (head r ++ body), no_response)
      (parse_request-split loads devices areas (head r ++ body) _ (r.method, r.url)
        (split_message-request r body invalid_request c ascii plain) (start-line r c))
