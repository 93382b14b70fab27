-- ===== src/Client/Ends.antt =====
-- What the events of a client's run mean for a send in flight: its response arrives, or the connection
-- of its client ends.
use tydomio.Base.{
  ℕ, ◌≡◌, ◌≢◌, refl, ◌⊎◌, inl, inr, true, Option, none, some, List, [], nat_eq, pair_eq, contains,
  arith, Result, ok, Option-cases,
}
use tydomio.Base.Int.{ℤ, int_eq}
use tydomio.Base.Dict
use tydomio.Base.Text.{Text}
use tydomio.Error.{Error, communication}
use tydomio.Model.{DevicesData, AreasData}
use tydomio.Response.{Response, transac_id}
use tydomio.Pending.{waiting, result, done, resolve, flush}
use tydomio.Pending.Reachable.{Keeps, Step-Keeps, Keeps-trans}
use tydomio.Pending.Reachable.Step.{registers, resolves, abandons, flushes}
use tydomio.Protocol.{Loaded, response, parse_message}
use tydomio.Client.{
  Client, bytes_frame, settled, ended_by, answer_of, connect, lose, close, subscribe, unsubscribe,
  end_send, read_frame,
}
use tydomio.Client.Flights.{Flight, State}
use tydomio.Client.Runs.{
  Step, begins, ends, cancels, reads, connects, loses, closes, subscribes, unsubscribes, Reach,
  Reach-Flies, done-lose, Resolves, read_frame-Resolves, begin_send-registers,
}
use tydomio.Client.Reconnect.{Cause, Routines, established, first_crash, disconnect, run_round}

Keeps-refl : (s : State) → Keeps s s
Keeps-refl s = record { outcomes = λ f lt d. refl; numbers = λ f lt. lt }

resolve-delivers :
    (tid : ℤ) (r : Response) (s : State) (f : ℕ)
    → (Dict.lookup tid s.futures ≡ some f) ⊎ (done (s.cells f) ≡ true)
    → s.cells f ≡ waiting
    → ((resolve (some tid) r s).0.cells f ≡ result r)
      × ((g : ℕ) → g ≢ f → (resolve (some tid) r s).0.cells g ≡ s.cells g)
unfolding resolve
resolve-delivers tid r s f (inl known) waits = (ground arith, λ g other. ground arith)
resolve-delivers tid r s f (inr finished) waits = absurd (ground arith)

module _ {V : Type 0} (loads : Text → Loaded) (devices : Text → Option (DevicesData V))
    (areas : Text → Option (AreasData V)) (cmd_prefix : Text) where
  read_frame-response :
      (message : Text) (r : Response) (key : Option ℤ) (c : Client V)
      → parse_message loads devices areas message cmd_prefix ≡ ok (response r)
      → transac_id r ≡ ok key
      → read_frame loads devices areas cmd_prefix (bytes_frame message) c
        ≡ ok (record c { pending = (resolve key r c.pending).0 }, [])
  unfolding read_frame
  read_frame-response message r key c parsed known = rw (parsed, known) refl

  -- In every run of a client, the response with the transaction id of a send that still waits is what
  -- this send gets: once its message is read, the send ends as its own parsing of the response does, and
  -- the future of any other request is as it was.
  pub answer-Reach :
      {A : Type 0} (parse : Response → Result Error A) (c : Client V) (flights : List Flight)
      (tid : ℤ) (f : ℕ) (message : Text) (r : Response)
      → Reach loads devices areas cmd_prefix c flights
      → contains flights (tid, f) ≡ true
      → c.pending.cells f ≡ waiting
      → parse_message loads devices areas message cmd_prefix ≡ ok (response r)
      → transac_id r ≡ ok (some tid)
      → (d : Client V) × (read_frame loads devices areas cmd_prefix (bytes_frame message) c
          ≡ ok (d, []))
        × (answer_of parse (settled (d.pending.cells f)) ≡ ended_by (parse r))
        × ((g : ℕ) → g ≢ f → d.pending.cells g ≡ c.pending.cells g)
  unfolding answer_of
  answer-Reach parse c flights tid f message r run flying waits parsed known =
      let flies = Reach-Flies loads devices areas cmd_prefix run in
      let (delivered, others) =
        resolve-delivers tid r c.pending f (flies.waits tid f flying) waits in
      (
        record c { pending = (resolve (some tid) r c.pending).0 },
        read_frame-response message r (some tid) c parsed known,
        rw delivered refl,
        others,
      )

  Resolves-Keeps : (s t : State) → Resolves loads devices areas cmd_prefix s t → Keeps s t
  unfolding Resolves
  Resolves-Keeps s t (inl same) = rw same (Keeps-refl s)
  Resolves-Keeps s t (inr (key, r, same)) = Step-Keeps (resolves key r same)

  -- No step of a client takes the outcome of a future back.
  Step-outcomes :
      {c d : Client V} {before after : List Flight}
      → Step loads devices areas cmd_prefix c before d after
      → Keeps c.pending d.pending
  unfolding end_send connect lose close subscribe unsubscribe
  Step-outcomes {c} {d} (begins tid f h) =
      let (free, same, number) = begin_send-registers tid c d f h in
      Step-Keeps (registers tid free same)
  Step-outcomes {c} (ends tid f) = Step-Keeps (abandons tid f refl)
  Step-outcomes {c} (cancels f) = Step-Keeps (tydomio.Pending.Reachable.Step.cancels f refl)
  Step-outcomes {c} {d} (reads frame started h) =
      Resolves-Keeps c.pending d.pending
        (read_frame-Resolves loads devices areas cmd_prefix frame c d started h)
  Step-outcomes {c} connects = Keeps-refl c.pending
  Step-outcomes {c} closes = Keeps-refl c.pending
  Step-outcomes {c} loses = Step-Keeps (flushes communication refl)
  Step-outcomes {c} (subscribes kind) = Keeps-refl c.pending
  Step-outcomes {c} (unsubscribes n) = Keeps-refl c.pending

  -- What can follow a state of a client.
  pub data Continues (c : Client V) (before : List Flight) : Client V → List Flight → Type 0 where
    stays : Continues c before c before
    goes_on :
        {d e : Client V} {between after : List Flight}
        → Continues c before d between
        → Step loads devices areas cmd_prefix d between e after
        → Continues c before e after

  Continues-Keeps :
      {c : Client V} {before : List Flight} {d : Client V} {after : List Flight}
      → Continues c before d after
      → Keeps c.pending d.pending
  Continues-Keeps {c} stays = Keeps-refl c.pending
  Continues-Keeps {c} (goes_on more step) = Keeps-trans (Continues-Keeps more) (Step-outcomes step)

  -- A send in flight is done after the loss of the connection, and whatever follows.
  done-Continues :
      {c d : Client V} {flights after : List Flight} (tid : ℤ) (f : ℕ)
      → Reach loads devices areas cmd_prefix c flights
      → contains flights (tid, f) ≡ true
      → Continues (lose c) flights d after
      → done (d.pending.cells f) ≡ true
  unfolding lose flush
  done-Continues {c} {d} {flights} tid f run flying more =
      let settled = done-lose loads devices areas cmd_prefix c flights tid f run flying in
      let known = (Reach-Flies loads devices areas cmd_prefix run).made tid f flying in
      let kept = (Continues-Keeps more).outcomes f known settled in rw kept settled

  -- When the tasks of a connection have ended, by its loss or by a cancellation and with no
  -- other exception, every send in flight at
  -- that moment has its future done at the end of the round, whatever happens to the client while
  -- the disconnection routines run: new sends, responses that are still read, cancellations.
  pub done-run_round :
      (during : Client V → Client V) (causes : List Cause) (routines : Routines V) (c : Client V)
      (flights after : List Flight) (tid : ℤ) (f : ℕ)
      → Reach loads devices areas cmd_prefix (during (connect c)) flights
      → contains flights (tid, f) ≡ true
      → first_crash causes ≡ none
      → Continues
          (lose (during (connect c)))
          flights
          (routines.meanwhile (lose (during (connect c))))
          after
      → done ((run_round (established during causes routines) c).0.pending.cells f) ≡ true
  unfolding run_round disconnect close
  done-run_round during causes routines c flights after tid f run flying caught more =
      let settled = done-Continues tid f run flying more in
      elim (Option-cases routines.raises) [
        | inl quiet ↦ rw (caught, quiet) settled
        | inr (e, raises) ↦ rw (caught, raises) settled
      ]
