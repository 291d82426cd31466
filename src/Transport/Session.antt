-- ===== src/Transport/Session.antt =====
-- The session and its endpoints of src/embedded/TracyEmbeddedTransport.cpp. `configure` is the only
-- writer of `gSession` and never replaces it, so an endpoint's session is the transport's.
pub mod Handshake
pub mod Shutdown
use tracy_query.Prelude.{
  ℕ, ◌-◌, ◌^◌, Bool, true, false, ◌&&◌, ◌||◌, not, Option, none, some, List, [], ◌∷◌, ltb, ◌==◌,
  if◌then◌else◌, Text, codes,
}
use tracy_query.Transport.Pipe.{
  Pipe, new_pipe, capacity_of, close_writer, close_reader, cancel_pipe, Turn, WriteStatus, waiting,
  failed, written, write_pipe, not_ready, received, read_round,
}

pub record Session : Type 0 where
  pub client_to_server : Pipe
  pub server_to_client : Pipe
  pub listening : Bool
  pub connected : Bool
  pub accepted : Bool
  pub cancelled : Bool
  pub error : Text

pub record Endpoint : Type 0 where
  pub client : Bool
  pub closed : Bool

-- `gSession` and `gError`.
pub record Transport : Type 0 where
  pub session : Option Session
  pub error : Text

unfoldable pub new_session : ℕ → Session
unfolding new_pipe
new_session capacity = record {
  client_to_server = new_pipe capacity;
  server_to_client = new_pipe capacity;
  listening = false;
  connected = false;
  accepted = false;
  cancelled = false;
  error = [];
}

unfoldable pub set_error : Text → Transport → Transport
set_error message t = record t {
  session = elim t.session [ none ↦ none | some s ↦ some (record s { error = message }) ];
  error = message;
}

-- `allocated` tells whether the session's storage could be had.
unfoldable pub configure : ℕ → Bool → Transport → Bool × Transport
unfolding new_session
configure capacity allocated t =
    if capacity == 0 || ltb (2 ^ 31 - 1) capacity
    then (false, record t { error = codes "embedded transport capacity is invalid" })
    else elim t.session [
      | some s ↦ (false, record t { error = codes "embedded transport is already configured" })
      | none ↦
          if allocated
          then (true, record { session = some (new_session capacity); error = [] })
          else (false, record t { error = codes "cannot allocate embedded transport" })
    ]

unfoldable pub listen : Transport → Bool × Transport
unfolding set_error
listen t = elim t.session [
  | none ↦ (false, set_error (codes "embedded transport is not configured") t)
  | some s ↦
      if s.cancelled || s.listening
      then (false, t)
      else (true, record t { session = some (record s { listening = true }) })
]

-- The server's end. A pointer that is set already is left alone.
unfoldable pub connect : Option Endpoint → Transport → Bool × Option Endpoint × Transport
connect (some e) t = (true, some e, t)
connect none t = elim t.session [
  | none ↦ (false, none, t)
  | some s ↦ if not s.listening || (s.cancelled || s.connected) then (false, none, t) else (
    true,
    some (record { client = false; closed = false }),
    record t { session = some (record s { connected = true }) },
  )
]

-- The client's end.
unfoldable pub accept : Option Endpoint → Transport → Bool × Option Endpoint × Transport
accept (some e) t = (false, some e, t)
accept none t = elim t.session [
  | none ↦ (false, none, t)
  | some s ↦ if not s.connected || (s.cancelled || s.accepted) then (false, none, t) else (
    true,
    some (record { client = true; closed = false }),
    record t { session = some (record s { accepted = true }) },
  )
]

abbrev pub outgoing : Endpoint → Session → Pipe
outgoing e s = if e.client then s.client_to_server else s.server_to_client

abbrev pub incoming : Endpoint → Session → Pipe
incoming e s = if e.client then s.server_to_client else s.client_to_server

abbrev pub with_outgoing : Endpoint → Session → Pipe → Session
with_outgoing e s p =
    if e.client then record s { client_to_server = p } else record s { server_to_client = p }

abbrev pub with_incoming : Endpoint → Session → Pipe → Session
with_incoming e s p =
    if e.client then record s { server_to_client = p } else record s { client_to_server = p }

unfoldable pub close_endpoint : Option Endpoint → Session → Option Endpoint × Session
unfolding close_writer close_reader
close_endpoint none s = (none, s)
close_endpoint (some e) s =
    if e.closed
    then (some e, s)
    else (let s₁ = with_outgoing e s (close_writer (outgoing e s)) in
        (some (record e { closed = true }), with_incoming e s₁ (close_reader (incoming e s₁))))

unfoldable pub destroy_endpoint : Option Endpoint → Session → Option Endpoint × Session
unfolding close_endpoint
destroy_endpoint none s = (none, s)
destroy_endpoint (some e) s = (none, (close_endpoint (some e) s).1)

-- What `Send` returns: -1, a count, or nothing yet.
pub data Sent : Type 0 where
  refused blocked : Sent
  sent : ℕ → Sent

abbrev sent_of : WriteStatus → Sent
sent_of waiting = Sent.blocked
sent_of failed = Sent.refused
sent_of (written n) = Sent.sent n

-- The schedule is that of `write_pipe`: the others' turns before each round.
unfoldable pub send : List (List Turn) → Option Endpoint → Text → Session → Sent × Session
send schedule none bytes s = (Sent.refused, s)
send schedule (some e) [] s = if e.closed then (Sent.refused, s) else (Sent.sent 0, s)
send schedule (some e) (b ∷ bs) s =
    if e.closed
    then (Sent.refused, s)
    else (let (status, p, taken, given) = write_pipe schedule (outgoing e s) (b ∷ bs) 0 in
        (sent_of status, with_outgoing e s p))

-- What `Read` returns: bytes (none at the end of the stream), or nothing yet; then it waits on, or
-- returns -1 when its time is out.
pub data Got : Type 0 where
  pending : Got
  got : Text → Got

unfoldable pub read : Option Endpoint → ℕ → Session → Got × Session
read none limit s = (Got.got [], s)
read (some e) limit s =
    if e.closed || limit == 0 then (Got.got [], s) else elim (read_round (incoming e s) limit) [
      | not_ready ↦ (Got.pending, s)
      | received bytes p ↦ (Got.got bytes, with_incoming e s p)
    ]

unfoldable pub has_data : Option Endpoint → Session → Bool
has_data none s = false
has_data (some e) s = not e.closed && not ((incoming e s).size == 0)

unfoldable pub is_valid : Option Endpoint → Bool
is_valid none = false
is_valid (some e) = not e.closed

unfoldable pub capacity : Option Endpoint → Session → ℕ
capacity none s = 0
capacity (some e) s = capacity_of (outgoing e s)

unfoldable pub cancel_session : Session → Session
unfolding cancel_pipe
cancel_session s = record s {
  client_to_server = cancel_pipe s.client_to_server;
  server_to_client = cancel_pipe s.server_to_client;
  cancelled = true;
}

unfoldable pub cancel : Transport → Transport
unfolding cancel_session
cancel t = record t { session = elim t.session [ none ↦ none | some s ↦ some (cancel_session s) ] }

pub record Statistics : Type 0 where
  pub client_to_server_bytes : ℕ
  pub server_to_client_bytes : ℕ
  pub client_to_server_high_water : ℕ
  pub server_to_client_high_water : ℕ

unfoldable pub get_statistics : Transport → Statistics
get_statistics t = elim t.session [
  | none ↦ record {
    client_to_server_bytes = 0;
    server_to_client_bytes = 0;
    client_to_server_high_water = 0;
    server_to_client_high_water = 0;
  }
  | some s ↦ record {
    client_to_server_bytes = s.client_to_server.transferred;
    server_to_client_bytes = s.server_to_client.transferred;
    client_to_server_high_water = s.client_to_server.high_water;
    server_to_client_high_water = s.server_to_client.high_water;
  }
]

abbrev pub get_error : Transport → Text
get_error t = t.error
