-- ===== src/Transport/Session/Shutdown.antt =====
-- Closing and cancelling: nobody waits for an end that is gone.
use tracy_query.Prelude.{
  ap₂, ℕ, ◌≡◌, refl, true, false, not, none, some, List, [], ◌∷◌, arith, Text, ◌≢◌,
}
use tracy_query.Transport.Pipe.{
  Pipe, write_round, read_round, Turn, writes, reads, closes_writer, closes_reader, cancels, turn,
  run, failed, write_pipe, close_writer, close_reader, cancel_pipe,
}
use tracy_query.Transport.Session.{
  Transport, Session, Endpoint, Sent, Got, configure, listen, connect, accept, close_endpoint, send,
  read, cancel, cancel_session, outgoing, incoming,
}
use tracy_query.Transport.Session.Handshake.{
  Call, configures, listens, connects, accepts, cancels as cancels_all, call, calls, no_calls, sum,
}

turn-reader_closed :
    (p : Pipe) (t : Turn) → p.reader_closed ≡ true → (turn p t).0.reader_closed ≡ true
unfolding turn write_round read_round close_writer close_reader cancel_pipe
turn-reader_closed p (writes s) h = ground arith
turn-reader_closed p (reads n) h = ground arith
turn-reader_closed p closes_writer h = ground arith
turn-reader_closed p closes_reader h = ground arith
turn-reader_closed p cancels h = ground arith

run-reader_closed :
    (p : Pipe) (ts : List Turn) → p.reader_closed ≡ true → (run p ts).0.reader_closed ≡ true
unfolding run
run-reader_closed p [] h = h
run-reader_closed p (t ∷ ts) h = run-reader_closed (turn p t).0 ts (turn-reader_closed p t h)

-- A writer without a reader is refused in its first round.
write_pipe_refused :
    (others : List Turn) (schedule : List (List Turn)) (p : Pipe) (b : ℕ) (bs : Text) (n : ℕ)
    → p.reader_closed ≡ true
    → (write_pipe (others ∷ schedule) p (b ∷ bs) n).0 ≡ failed
unfolding write_pipe write_round
write_pipe_refused others schedule p b bs n h = ground (arith, run-reader_closed p others h)

abbrev pub peer : Endpoint → Endpoint
peer e = record { client = not e.client; closed = false }

-- An open endpoint of a session that has lost its other end.
pub record IsReleased (s : Session) (e : Endpoint) : Type 0 where
  pub refuses :
      (others : List Turn) (schedule : List (List Turn)) (b : ℕ) (bs : Text)
      → (send (others ∷ schedule) (some e) (b ∷ bs) s).0 ≡ Sent.refused
  pub returns : (limit : ℕ) → (read (some e) limit s).0 ≢ Got.pending

released :
    (s : Session) (e : Endpoint)
    → (outgoing e s).reader_closed ≡ true
    → (incoming e s).writer_closed ≡ true
    → IsReleased s e
unfolding send read read_round
released s e h k = record {
  refuses = λ others schedule b bs.
      ground (arith, write_pipe_refused others schedule (outgoing e s) b bs 0 h);
  returns = λ limit. ground arith;
}

-- Closing an open endpoint releases the other one: its sends are refused, and its reads return.
pub close_endpoint-IsReleased :
    (s : Session) (e : Endpoint)
    → e.closed ≡ false
    → IsReleased (close_endpoint (some e) s).1 (peer e)
unfolding close_endpoint
close_endpoint-IsReleased s e h = released _ (peer e) (ground arith) (ground arith)

cancelled-IsReleased : (s : Session) (e : Endpoint) → IsReleased (cancel_session s) e
unfolding cancel_session cancel_pipe
cancelled-IsReleased s e = released _ e (ground arith) (ground arith)

-- Once the session is cancelled, a call changes nothing of it.
call-cancelled :
    (s : Session) (t : Transport) (c : Call)
    → t.session ≡ some (cancel_session s)
    → ((call t c).0 ≡ no_calls) × ((call t c).1.session ≡ some (cancel_session s))
unfolding call configure listen connect accept cancel cancel_session cancel_pipe
call-cancelled s t (configures n allocated) h = ground arith
call-cancelled s t listens h = ground arith
call-cancelled s t cancels_all h = ground arith
call-cancelled s t (connects none) h = ground arith
call-cancelled s t (connects (some e)) h = ground arith
call-cancelled s t (accepts none) h = ground arith
call-cancelled s t (accepts (some e)) h = ground arith

calls-cancelled :
    (s : Session) (t : Transport) (later : List Call)
    → t.session ≡ some (cancel_session s)
    → ((calls t later).0 ≡ no_calls) × ((calls t later).1.session ≡ some (cancel_session s))
unfolding calls
calls-cancelled s t [] h = (refl, h)
calls-cancelled s t (c ∷ cs) h =
    let now = call-cancelled s t c h in
    let next = calls-cancelled s (call t c).1 cs now.1 in (ap₂ sum now.0 next.0, next.1)

-- Cancelling releases both ends. However the threads configure, listen, connect, accept and cancel
-- after it, with endpoints that are set or not: no configure and no listen succeeds, no connect or
-- accept gives an endpoint, and the session stays as the first cancel left it.
pub cancel-IsReleased :
    (s : Session) (err_text : Text) (e : Endpoint) (later : List Call)
    → let r = calls (cancel (record { session = some s; error = err_text })) later in
      IsReleased (cancel_session s) e × (r.1.session ≡ some (cancel_session s)) × (r.0 ≡ no_calls)
unfolding cancel
cancel-IsReleased s err_text e later =
    let t : Transport = record { session = some (cancel_session s); error = err_text } in
    let stays = calls-cancelled s t later refl in (cancelled-IsReleased s e, stays.1, stays.0)
