-- ===== src/Client.antt =====
-- tydomio/client.py: sending a request, reading a message, subscriptions and the end of a connection.
-- A `send` is cut at its awaits: `begin_send` runs up to the first one, `answer_of` is what the wait
-- gives, and `end_send` is the `finally` block.
pub mod Flights
pub mod Runs
pub mod Reconnect
pub mod Ends
pub mod Tests
use tydomio.Base.{
  ℕ, suc, Bool, true, false, not, ◌||◌, Option, none, some, List, [], ◌∷◌, ◌++◌, if◌then◌else◌,
  Result, ok, err, ◌>>=◌, ◌>>◌, require, nat_eq,
}
use tydomio.Base.Int.{ℤ}
use tydomio.Base.Dict
use tydomio.Base.Dict.{Dict}
use tydomio.Base.Text.{Text}
use tydomio.Error.{Error, tydom_io, communication, unexpected, is_malformed}
use tydomio.Model.{DevicesData, AreasData}
use tydomio.Response.{Response, transac_id}
use tydomio.Pending.{
  Cell, waiting, result, exception, cancelled, PendingRequests, start, is_pending, size, register,
  resolve, abandon, flush,
}
use tydomio.Protocol.{
  Loaded, Message, response, devices_push, areas_push, json_request, parse_message,
}

-- The part of a client that its operations change. `opened` says that there is a websocket; a
-- subscription is a number and the test of the type that it was made for.
pub record Client (V : Type 0) : Type 0 where
  pub opened : Bool
  pub connected : Bool
  pub pending : PendingRequests Response Error
  pub subscriptions : Dict ℕ (Message V → Bool)
  pub next_subscription : ℕ

-- The request types that `subscribe` takes: `TydomRequest` and its two subclasses.
pub data RequestType : Type 0 where
  any_request devices_request areas_request : RequestType

-- `isinstance(request, request_type)`, where the message is a `TydomRequest`
abbrev pub is_instance : {V : Type 0} → RequestType → Message V → Bool
is_instance any_request (devices_push r d) = true
is_instance any_request (areas_push r d) = true
is_instance devices_request (devices_push r d) = true
is_instance areas_request (areas_push r d) = true
is_instance _ _ = false

-- How the wait of a `send` ends: the websocket closed while sending, the head of the request was not
-- ASCII, the future was done, the time was over, or the task was cancelled.
pub data Waited : Type 0 where
  closed unencodable timed_out task_cancelled : Waited
  settled : Cell Response Error → Waited

-- How a `send` ends: its result, an error, or the cancellation of its task.
pub data Ended (A : Type 0) : Type 0 where
  returned : A → Ended A
  failed : Error → Ended A
  stopped : Ended A

abbrev pub ended_by : {A : Type 0} → Result Error A → Ended A
ended_by (ok a) = returned a
ended_by (err e) = failed e

-- The value or the error of the `try` blocks of `send`; `parse` is `request.parse_response`. A wait
-- does not end while the future waits: `stopped` stands there for no end at all.
unfoldable pub answer_of : {A : Type 0} → (Response → Result Error A) → Waited → Ended A
answer_of parse closed = failed communication
answer_of parse unencodable = failed unexpected
answer_of parse timed_out = failed communication
answer_of parse task_cancelled = stopped
answer_of parse (settled waiting) = stopped
answer_of parse (settled (result r)) = ended_by (parse r)
answer_of parse (settled (exception e)) = failed e
answer_of parse (settled cancelled) = stopped

-- Whether a request has no transaction id of its own.
abbrev pub is_taken : Option ℤ → PendingRequests Response Error → Bool
is_taken none s = true
is_taken (some tid) s = is_pending tid s

module _ {V : Type 0} where
  -- `AsyncTydomClient()`
  abbrev pub new_client : Client V
  new_client = record {
    opened = false;
    connected = false;
    pending = start;
    subscriptions = [];
    next_subscription = 0;
  }

  abbrev pub registered : Option ℤ → Client V → Result Error (Client V × ℕ)
  registered none c = err tydom_io
  registered (some tid) c =
      let (pending, future) = register tid c.pending in ok (record c { pending = pending }, future)

  -- `send` up to its first await: the checks, then the registration of the id.
  unfoldable pub begin_send : Option ℤ → Client V → Result Error (Client V × ℕ)
  begin_send tid c = do
    require (not (is_taken tid c.pending)) tydom_io
    require c.opened communication
    registered tid c

  -- The `finally` block of `send`.
  unfoldable pub end_send : ℤ → ℕ → Client V → Client V
  end_send tid future c = record c { pending = abandon tid future c.pending }

  -- `get_number_of_requests_in_progress`
  unfoldable pub in_progress : Client V → ℕ
  in_progress c = size c.pending

  -- The opening of the websocket in `run_websocket`.
  unfoldable pub connect : Client V → Client V
  connect c = record c { opened = true; connected = true }

  -- `_disconnect` up to the routines of the user, during which the websocket is still there.
  unfoldable pub lose : Client V → Client V
  lose c = record c { connected = false; pending = flush communication c.pending }

  -- The end of `_disconnect`.
  unfoldable pub close : Client V → Client V
  close c = record c { opened = false }

  unfoldable pub subscribe : RequestType → Client V → Client V × ℕ
  subscribe kind c = (
    record c {
      subscriptions = Dict.insert c.next_subscription (is_instance kind) c.subscriptions;
      next_subscription = suc c.next_subscription;
    },
    c.next_subscription,
  )

  unfoldable pub unsubscribe : ℕ → Client V → Client V
  unsubscribe n c = record c { subscriptions = Dict.erase n c.subscriptions }

  -- The subscriptions whose handlers are started for a message, in order.
  unfoldable pub handlers : Dict ℕ (Message V → Bool) → Message V → List ℕ
  handlers [] m = []
  handlers ((n, accepts) ∷ more) m =
      let rest = handlers more m in if accepts m then n ∷ rest else rest

-- What a websocket gives.
pub data Frame : Type 0 where
  text_frame bytes_frame : Text → Frame

module _ {V : Type 0} (loads : Text → Loaded) (devices : Text → Option (DevicesData V))
    (areas : Text → Option (AreasData V)) (cmd_prefix : Text) where
  -- What is done with a parsed message: the client after it, and the handlers started.
  abbrev pub handle : Message V → Client V → Result Error (Client V × List ℕ)
  handle (response r) c = do
    key ← transac_id r
    ok (record c { pending = (resolve key r c.pending).0 }, [])
  handle (json_request r) c = ok (c, [])
  handle (devices_push r d) c = ok (c, handlers c.subscriptions (devices_push r d))
  handle (areas_push r d) c = ok (c, handlers c.subscriptions (areas_push r d))

  -- A malformed message is skipped; any other exception ends the reading.
  abbrev pub read_parsed : Result Error (Message V) → Client V → Result Error (Client V × List ℕ)
  read_parsed (ok m) c = handle m c
  read_parsed (err e) c = if is_malformed e then ok (c, []) else err e

  -- One round of the loop of `_read_messages`.
  unfoldable pub read_frame : Frame → Client V → Result Error (Client V × List ℕ)
  unfolding parse_message
  read_frame (text_frame message) c = err communication
  read_frame (bytes_frame message) c =
      read_parsed (parse_message loads devices areas message cmd_prefix) c

  -- `_read_messages` over the frames of a connection, at whose end the connection is closed: the error
  -- that ends it, the client and the handlers started up to then.
  unfoldable pub read_messages : List Frame → Client V → List ℕ → Error × Client V × List ℕ
  unfolding read_frame
  read_messages [] c started = (communication, c, started)
  read_messages (frame ∷ more) c started = elim (read_frame frame c) [
    | err e ↦ (e, c, started)
    | ok (d, now) ↦ read_messages more d (started ++ now)
  ]
