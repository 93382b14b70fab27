-- ===== src/Client/Tests.antt =====
-- A client that sends, reads and loses its connection, and the theorems at that run.
use tydomio.Base.{
  ℕ, ◌≡◌, ◌≢◌, refl, ◌⊎◌, inl, inr, Bool, true, false, not, Option, none, some, List, [], ◌∷◌, ◌++◌,
  nat_eq, list_eq, option_eq, pair_eq, contains, Result, ok, err, arith,
}
use tydomio.Base.Int.{pos, int_eq}
use tydomio.Base.Dict
use tydomio.Base.Text.{Text, codes, crlf}
use tydomio.Error.{tydom_io, communication, unexpected}
use tydomio.Response.{Response, transac_id}
use tydomio.Pending.{done, waiting, register, is_pending, flush, fail_all, start}
use tydomio.Protocol.{Loaded, loaded, parse_message, response}
use tydomio.Client.{
  Client, new_client, begin_send, end_send, in_progress, connect, lose, bytes_frame, text_frame,
  read_frame, answer_of, settled, failed, ended_by,
}
use tydomio.Client.Runs.{
  Reach, fresh_client, then_step, begins, ends, connects, done-lose, registered-Reach,
  in_progress-Reach, Unreadable, read_frame-error,
}
use tydomio.Client.Flights.{Flight}
use tydomio.Client.Reconnect.{
  Try, refused, unreachable, established, connection_lost, task_cancelled, again, returned,
  Routines, run_round, run_websocket,
}
use tydomio.Client.Ends.{answer-Reach, Continues, stays, goes_on, done-run_round}

abbrev takes_json : Text → Loaded
takes_json content = loaded

abbrev without_data : {A : Type 0} → Text → Option A
without_data content = none

abbrev connected_client : Client ℕ
connected_client = connect new_client

-- Request 5 is sent.
abbrev sending : Client ℕ
sending = record connected_client { pending = (register (pos 5) start).0 }

sends : begin_send (some (pos 5)) connected_client ≡ ok (sending, 0)
unfolding begin_send connect is_pending register Dict.member
sends = refl

refuses : begin_send none connected_client ≡ err tydom_io
unfolding begin_send
refuses = refl

unsendable : begin_send (some (pos 5)) (new_client {V = ℕ}) ≡ err communication
unfolding begin_send is_pending Dict.member
unsendable = refl

abbrev flights : List Flight
flights = (pos 5, 0) ∷ []

flying : Reach takes_json without_data without_data [] sending flights
flying = then_step (then_step fresh_client connects) (begins (pos 5) 0 sends)

landed : Reach takes_json without_data without_data [] (end_send (pos 5) 0 sending) []
unfolding pair_eq int_eq nat_eq
landed = then_step flying (ends (pos 5) 0)

in_flight : contains {A = Flight} flights (pos 5, 0) ≡ true
unfolding pair_eq int_eq nat_eq
in_flight = refl

done-lose_example : done ((lose sending).pending.cells 0) ≡ true
done-lose_example =
    done-lose takes_json without_data without_data [] sending flights (pos 5) 0 flying in_flight

waits_for : Dict.lookup (pos 5) sending.pending.futures ≡ some 0
unfolding register connect Dict.insert Dict.lookup int_eq nat_eq
waits_for = refl

registered-Reach_example : contains {A = Flight} flights (pos 5, 0) ≡ true
registered-Reach_example =
    registered-Reach takes_json without_data without_data [] sending flights (pos 5) 0 flying
      waits_for

in_progress-Reach_example : in_progress (end_send (pos 5) 0 sending) ≡ 0
in_progress-Reach_example =
    in_progress-Reach takes_json without_data without_data [] (end_send (pos 5) 0 sending) [] landed
      refl

-- A response whose transaction id is no integer ends the reading by an error that nothing catches.
abbrev odd_response : Text
odd_response = codes "HTTP/1.1 200 OK" ++ (crlf ++ (codes "transac-id: x" ++ (crlf ++ crlf)))

escapes_reading :
    read_frame takes_json without_data without_data [] (bytes_frame odd_response) sending
    ≡ err unexpected
unfolding read_frame tydomio.Base.Text.starts_with tydomio.Base.Text.remove_prefix nat_eq
    tydomio.Base.Text.partition tydomio.Base.Text.is_ascii tydomio.Base.Text.split_lines Dict.lookup
    Dict.insert list_eq tydomio.Base.Text.lower tydomio.Base.Text.strip transac_id
    tydomio.Base.Text.Number.read_int
escapes_reading = refl

read_frame-error_example :
    (message : Text) × (((bytes_frame odd_response ≡ text_frame message)
        × (unexpected ≡ communication))
      ⊎ ((bytes_frame odd_response ≡ bytes_frame message)
          × Unreadable {V = ℕ} takes_json without_data without_data [] message unexpected))
read_frame-error_example =
    read_frame-error takes_json without_data without_data [] (bytes_frame odd_response) sending
      unexpected escapes_reading

lost_answer :
    answer_of (λ r. ok r) (settled ((lose sending).pending.cells 0)) ≡ failed communication
unfolding lose flush fail_all register connect Dict.insert Dict.values answer_of nat_eq
lost_answer = refl

-- The response to request 5.
abbrev answer_bytes : Text
answer_bytes = codes "HTTP/1.1 200 OK" ++ (crlf ++ (codes "transac-id: 5" ++ (crlf ++ crlf)))

abbrev answer : Response
answer = record { status = 200; headers = (codes "transac-id", codes "5") ∷ []; content = none }

reads_answer :
    parse_message {V = ℕ} takes_json without_data without_data answer_bytes []
    ≡ ok (response answer)
unfolding parse_message tydomio.Base.Text.starts_with tydomio.Base.Text.remove_prefix nat_eq
    tydomio.Base.Text.partition tydomio.Base.Text.is_ascii tydomio.Base.Text.split_lines Dict.lookup
    Dict.insert list_eq tydomio.Base.Text.lower tydomio.Base.Text.strip
    tydomio.Base.Text.Number.read_int
reads_answer = refl

knows_id : transac_id answer ≡ ok (some (pos 5))
unfolding transac_id tydomio.Base.Text.Number.read_int Dict.lookup list_eq nat_eq
    tydomio.Base.Text.strip tydomio.Base.Text.lower
knows_id = refl

still_waits : sending.pending.cells 0 ≡ waiting
unfolding register connect nat_eq
still_waits = refl

answer-Reach_example :
    (d : Client ℕ) × (read_frame takes_json without_data without_data []
        (bytes_frame answer_bytes)
        sending
      ≡ ok (d, []))
    × (answer_of (λ r. ok r) (settled (d.pending.cells 0)) ≡ ended_by (ok answer))
    × ((g : ℕ) → g ≢ 0 → d.pending.cells g ≡ sending.pending.cells g)
answer-Reach_example =
    answer-Reach takes_json without_data without_data [] (λ r. ok r) sending flights (pos 5) 0
      answer_bytes answer flying in_flight still_waits reads_answer knows_id

-- Request 5 is sent while the connection lasts, request 6 while the disconnection routines run.
abbrev sends_five : Client ℕ → Client ℕ
sends_five c = record c { pending = (register (pos 5) c.pending).0 }

abbrev sends_six : Client ℕ → Client ℕ
sends_six c = record c { pending = (register (pos 6) c.pending).0 }

abbrev busy_routines : Routines ℕ
busy_routines = record { meanwhile = sends_six; raises = none }

abbrev quiet_routines : Routines ℕ
quiet_routines = record { meanwhile = λ c. c; raises = none }

sends_more : begin_send (some (pos 6)) (lose sending) ≡ ok (sends_six (lose sending), 1)
unfolding begin_send lose connect is_pending register flush Dict.member
sends_more = refl

follows :
    Continues takes_json without_data without_data []
      (lose sending)
      flights
      (sends_six (lose sending))
      ((pos 6, 1) ∷ flights)
follows = goes_on stays (begins (pos 6) 1 sends_more)

done-run_round_example :
    done (
      (run_round
          (established sends_five (connection_lost ∷ []) busy_routines)
          new_client).0.pending.cells
        0)
    ≡ true
unfolding connect
done-run_round_example =
    done-run_round takes_json without_data without_data [] sends_five (connection_lost ∷ [])
      busy_routines new_client flights ((pos 6, 1) ∷ flights) (pos 5) 0 flying in_flight refl
      follows

abbrev tries : List (Try ℕ)
tries =
    refused
    ∷ unreachable quiet_routines
    ∷ established (λ c. c) (connection_lost ∷ []) busy_routines
    ∷ refused
    ∷ []

-- Five seconds for each try without a connection.
sleeps : (run_websocket tries new_client 0).1 ≡ (again 0, 15)
unfolding run_websocket
sleeps = refl

-- The cancellation of a connection ends the loop.
cancelled_loop :
    (run_websocket
      (established (λ c. c) (task_cancelled ∷ []) quiet_routines ∷ refused ∷ [])
      (new_client {V = ℕ})
      0).1
    ≡ (returned, 0)
unfolding run_websocket
cancelled_loop = refl
