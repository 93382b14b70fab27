-- ===== src/Client/Runs.antt =====
-- Every run of a client: what holds of its sends, and which errors end its reading.
use tydomio.Base.{
  ℕ, ◌≡◌, refl, ◌∙◌, ◌⊎◌, inl, inr, Bool, true, false, not, Option, some, List, [], ◌∷◌, nat_eq,
  pair_eq, contains, length, arith, ok, err, require, >>=-eq_ok, Result-cases,
}
use tydomio.Base.Int.{ℤ, int_eq}
use tydomio.Base.Dict
use tydomio.Base.Text.{Text, remove_prefix}
use tydomio.Error.{Error, tydom_io, communication}
use tydomio.Model.{DevicesData, AreasData}
use tydomio.Response.{Response, transac_id}
use tydomio.Pending.{done, is_pending, register, resolve, flush, cancel, size}
use tydomio.Protocol.{
  Loaded, Message, response, devices_push, areas_push, json_request, parse_message,
}
use tydomio.Protocol.Total.{ContentEscapes, parse_message-error}
use tydomio.Client.{
  Client, RequestType, Frame, text_frame, bytes_frame, new_client, is_taken, begin_send, end_send,
  in_progress, connect, lose, close, subscribe, unsubscribe, handle, read_frame,
}
use tydomio.Client.Flights.{
  State, Flight, Flies, without, register-Flies, resolve-Flies, abandon-Flies, flush-Flies,
  cancel-Flies,
}

require-holds : (b : Bool) (e : Error) (u : Unit {0}) → require b e ≡ ok u → b ≡ true
require-holds true e u h = refl
require-holds false e u h = cc

pub begin_send-registers :
    {V : Type 0} (tid : ℤ) (c d : Client V) (f : ℕ)
    → begin_send (some tid) c ≡ ok (d, f)
    → (is_pending tid c.pending ≡ false)
      × (d.pending ≡ (register tid c.pending).0)
      × (f ≡ c.pending.next)
unfolding begin_send register
begin_send-registers tid c d f h =
    let (u, free, h₁) = >>=-eq_ok (require (not (is_taken (some tid) c.pending)) tydom_io) _ h in
    let (w, up, h₂) = >>=-eq_ok (require c.opened communication) _ h₁ in
    let free_id = require-holds (not (is_taken (some tid) c.pending)) tydom_io u free in
    (ground arith, ground arith, ground arith)

module _ {V : Type 0} (loads : Text → Loaded) (devices : Text → Option (DevicesData V))
    (areas : Text → Option (AreasData V)) (cmd_prefix : Text) where
  -- What one frame does to the requests that wait.
  unfoldable pub Resolves : State → State → Type 0
  Resolves s t = (t ≡ s) ⊎ ((key : Option ℤ) × (r : Response) × (t ≡ (resolve key r s).0))

  handle-Resolves :
      (m : Message V) (c d : Client V) (started : List ℕ)
      → handle loads devices areas cmd_prefix m c ≡ ok (d, started)
      → Resolves c.pending d.pending
  unfolding Resolves
  handle-Resolves (response r) c d started h =
      let (key, known, h₁) = >>=-eq_ok (transac_id r) _ h in inr (key, r, ground arith)
  handle-Resolves (json_request r) c d started h = inl (ground arith)
  handle-Resolves (devices_push r a) c d started h = inl (ground arith)
  handle-Resolves (areas_push r a) c d started h = inl (ground arith)

  pub read_frame-Resolves :
      (frame : Frame) (c d : Client V) (started : List ℕ)
      → read_frame loads devices areas cmd_prefix frame c ≡ ok (d, started)
      → Resolves c.pending d.pending
  unfolding read_frame Resolves
  read_frame-Resolves (text_frame message) c d started h = cc
  read_frame-Resolves (bytes_frame message) c d started h =
      elim (Result-cases (parse_message loads devices areas message cmd_prefix)) [
        | inl (e, wrong) ↦ inl (ground arith)
        | inr (m, right) ↦ handle-Resolves m c d started (ground arith)
      ]

  -- What can happen to a client, with the sends in flight.
  pub data Step (c : Client V) (flights : List Flight) : Client V → List Flight → Type 0 where
    begins :
        {d : Client V} (tid : ℤ) (f : ℕ)
        → begin_send (some tid) c ≡ ok (d, f)
        → Step c flights d ((tid, f) ∷ flights)
    ends : (tid : ℤ) (f : ℕ) → Step c flights (end_send tid f c) (without (tid, f) flights)
    cancels : (f : ℕ) → Step c flights (record c { pending = cancel f c.pending }) flights
    reads :
        {d : Client V} (frame : Frame) (started : List ℕ)
        → read_frame loads devices areas cmd_prefix frame c ≡ ok (d, started)
        → Step c flights d flights
    connects : Step c flights (connect c) flights
    loses : Step c flights (lose c) flights
    closes : Step c flights (close c) flights
    subscribes : (kind : RequestType) → Step c flights (subscribe kind c).0 flights
    unsubscribes : (n : ℕ) → Step c flights (unsubscribe n c) flights

  pub data Reach : Client V → List Flight → Type 0 where
    fresh_client : Reach new_client []
    then_step :
        {c d : Client V} {before after : List Flight}
        → Reach c before
        → Step c before d after
        → Reach d after

  Resolves-Flies :
      (s t : State) (flights : List Flight) → Resolves s t → Flies s flights → Flies t flights
  unfolding Resolves
  Resolves-Flies s t flights (inl same) v = rw same v
  Resolves-Flies s t flights (inr (key, r, same)) v = rw same (resolve-Flies key r s flights v)

  Step-Flies :
      {c d : Client V} {before after : List Flight}
      → Step c before d after
      → Flies c.pending before
      → Flies d.pending after
  unfolding end_send connect lose close subscribe unsubscribe
  Step-Flies {c} {d} {before} (begins tid f h) v =
      let (free, same, number) = begin_send-registers tid c d f h in
      rw (same, number) (register-Flies tid c.pending before free v)
  Step-Flies {c} {d} {before} (ends tid f) v = abandon-Flies tid f c.pending before v
  Step-Flies {c} {d} {before} (cancels f) v = cancel-Flies f c.pending before v
  Step-Flies {c} {d} {before} (reads frame started h) v =
      Resolves-Flies c.pending d.pending before (read_frame-Resolves frame c d started h) v
  Step-Flies connects v = v
  Step-Flies closes v = v
  Step-Flies {c} {d} {before} loses v = flush-Flies communication c.pending before v
  Step-Flies (subscribes kind) v = v
  Step-Flies (unsubscribes n) v = v

  pub Reach-Flies :
      {c : Client V} {flights : List Flight} → Reach c flights → Flies c.pending flights
  Reach-Flies fresh_client = record {
    made = λ k f h. cc;
    waits = λ k f h. cc;
    sent = λ k f h. cc (Dict.lookup-nil {V = ℕ} k);
  }
  Reach-Flies (then_step run step) = Step-Flies step (Reach-Flies run)

  -- In every run of a client, each send that is in flight when the connection is lost has its future
  -- done once `_disconnect` has flushed the requests: no send waits on for a response that cannot come.
  pub done-lose :
      (c : Client V) (flights : List Flight) (tid : ℤ) (f : ℕ)
      → Reach c flights
      → contains flights (tid, f) ≡ true
      → done ((lose c).pending.cells f) ≡ true
  unfolding lose flush
  done-lose c flights tid f run flying =
      elim ((flush-Flies communication c.pending flights (Reach-Flies run)).waits tid f flying) [
        | inl known ↦ cc (Dict.lookup-nil {V = ℕ} tid)
        | inr settled ↦ settled
      ]

  -- In every run of a client, a registered id is the id of a send in flight, with the future that this
  -- send waits for: a send that has ended, in whatever way, leaves no entry behind.
  pub registered-Reach :
      (c : Client V) (flights : List Flight) (tid : ℤ) (f : ℕ)
      → Reach c flights
      → Dict.lookup tid c.pending.futures ≡ some f
      → contains flights (tid, f) ≡ true
  registered-Reach c flights tid f run known = (Reach-Flies run).sent tid f known

  -- In every run of a client, no request is counted as in progress while no send is in flight.
  pub in_progress-Reach :
      (c : Client V) (flights : List Flight) → Reach c flights → flights ≡ [] → in_progress c ≡ 0
  unfolding in_progress size
  in_progress-Reach c flights run idle =
      none_left c.pending.futures (λ k f h. Reach-registered k f h)
    where
      Reach-registered :
          (k : ℤ) (f : ℕ)
          → Dict.lookup k c.pending.futures ≡ some f
          → contains flights (k, f) ≡ true
      Reach-registered k f h = (Reach-Flies run).sent k f h

      none_left :
          (d : Dict.Dict ℤ ℕ)
          → ((k : ℤ) (f : ℕ) → Dict.lookup k d ≡ some f → contains flights (k, f) ≡ true)
          → length d ≡ 0
      none_left [] h = refl
      none_left ((k, f) ∷ d) h = absurd (ground (arith, Dict.lookup-cons k k f d, h k f))

  -- A bytes frame at which the reading ends: `parse_message` raises, because `json.loads` raised on the
  -- content of this very message, or it gives a response, and its transaction id is no integer.
  abbrev pub Unreadable : Text → Error → Type 0
  Unreadable message e =
      ((parse_message loads devices areas message cmd_prefix ≡ err e)
        × ContentEscapes loads (remove_prefix message cmd_prefix))
      ⊎ ((r : Response) × (parse_message loads devices areas message cmd_prefix ≡ ok (response r))
          × (transac_id r ≡ err e))

  -- A frame ends the reading only if it is a text frame, by a `CommunicationError`, or if it is a bytes
  -- frame whose own message gives an exception that is not caught: `json.loads` raises one on its content,
  -- or it is a response whose transaction id is no integer.
  pub read_frame-error :
      (frame : Frame) (c : Client V) (e : Error)
      → read_frame loads devices areas cmd_prefix frame c ≡ err e
      → (message : Text) × (((frame ≡ text_frame message) × (e ≡ communication))
          ⊎ ((frame ≡ bytes_frame message) × Unreadable message e))
  unfolding read_frame
  read_frame-error (text_frame message) c e h = (message, inl (refl, ground arith))
  read_frame-error (bytes_frame message) c e h =
      elim (Result-cases (parse_message loads devices areas message cmd_prefix)) [
        | inl (x, wrong) ↦
            elim (parse_message-error loads devices areas message cmd_prefix x wrong) [
              | inl malformed ↦ absurd (ground arith)
              | inr (other, raises) ↦ (message, inr (refl, inl (wrong ∙ ground arith, raises)))
            ]
        | inr (m, right) ↦ (message, inr (refl, inr (handled m right (ground arith))))
      ]
    where
      handled :
          (m : Message V)
          → parse_message loads devices areas message cmd_prefix ≡ ok m
          → handle loads devices areas cmd_prefix m c ≡ err e
          → (r : Response) × (parse_message loads devices areas message cmd_prefix
              ≡ ok (response r))
            × (transac_id r ≡ err e)
      handled (response r) right g = elim (Result-cases (transac_id r)) [
        | inl (x, raises) ↦ (r, right, raises ∙ ground arith)
        | inr (key, known) ↦ absurd (ground arith)
      ]
      handled (json_request r) right g = cc
      handled (devices_push r a) right g = cc
      handled (areas_push r a) right g = cc
