-- ===== src/Transport/Socket.antt =====
-- src/embedded/TracyEmbeddedSocket.cpp: Tracy's socket classes over the session's endpoints. A
-- schedule is a list of the turns that the other threads take on the incoming pipe before each look
-- at it.
pub mod Looks
pub mod Reads
pub mod Enough
use tracy_query.Prelude.{
  ℕ, ◌+◌, ◌-◌, Bool, true, false, ◌&&◌, ◌||◌, not, Option, none, some, List, [], ◌∷◌, ◌++◌, ◌==◌,
  if◌then◌else◌, Text, is_empty, length,
}
use tracy_query.Transport.Pipe.{Pipe, Turn, run}
use tracy_query.Transport.Session.{
  Session, Endpoint, Transport, incoming, with_incoming, Got, pending, got, read, send, Sent,
  is_valid, has_data, capacity, connect, accept, listen, close_endpoint, destroy_endpoint,
  get_error,
}

-- The socket is its `m_embedded`.
abbrev pub Socket : Type 0
Socket = Option Endpoint

unfoldable pub new_socket : Socket
new_socket = none

-- `Socket(int)`.
unfoldable pub accepted_socket : Transport → Socket × Transport
unfolding accept
accepted_socket t = let (ok, s, t') = accept none t in (s, t')

abbrev pub socket_connect : Socket → Transport → Bool × Socket × Transport
socket_connect = connect

-- `ConnectBlocking`: it tries again until the transport has an error. A schedule gives the
-- transport before each attempt; no answer when it ends.
unfoldable pub connect_blocking :
    List (Transport → Transport) → Socket → Transport → Option Bool × Socket × Transport
unfolding connect
connect_blocking [] s t = (none, s, t)
connect_blocking (others ∷ schedule) s t =
    let (connected, s₁, t₁) = connect s (others t) in
    let rest = connect_blocking schedule s₁ t₁ in
    if connected
    then (some true, s₁, t₁)
    else if not (is_empty (get_error t₁))
    then (some false, s₁, t₁)
    else rest

-- How a loop of reads ends: with all that was asked for, refused, with nothing more to come, or
-- still waiting when the schedule ends.
pub data Progress : Type 0 where
  complete incomplete waiting : Progress

-- What the other threads do to the pipe that the socket reads.
abbrev pub after_others : List Turn → Socket → Session → Session
after_others turns none s = s
after_others turns (some e) s = with_incoming e s (run (incoming e s) turns).0

-- `ReadRaw`. Without `endless` each attempt ends with its timeout.
unfoldable pub read_raw : Bool → List (List Turn) → Socket → ℕ → Session → Progress × Text × Session
unfolding read
read_raw endless [] socket length_left s =
    if length_left == 0 then (complete, [], s) else (waiting, [], s)
read_raw endless (turns ∷ schedule) socket length_left s =
    let (result, s') = read socket length_left (after_others turns socket s) in
    if length_left == 0 then (complete, [], s) else elim result [
      | pending ↦
          (let again = read_raw endless schedule socket length_left s' in
            if endless then again else (incomplete, [], s'))
      | got bytes ↦
          (let (end, more, s'') =
              read_raw endless schedule socket (length_left - length bytes) s' in
            if is_empty bytes then (incomplete, [], s') else (end, bytes ++ more, s''))
    ]

-- `ReadImpl` at one look: whether to go on, and the bytes. A timeout counts as going on, with no
-- bytes.
unfoldable pub read_impl : Socket → ℕ → Session → Bool × Text × Session
unfolding read
read_impl socket length_left s =
    let (result, s') = read socket length_left s in
    elim result [ pending ↦ (true, [], s') | got bytes ↦ (not (is_empty bytes), bytes, s') ]

-- `Read`.
unfoldable pub read_socket : List (List Turn) → Socket → ℕ → Session → Progress × Text × Session
unfolding read_impl
read_socket [] socket length_left s =
    if length_left == 0 then (complete, [], s) else (waiting, [], s)
read_socket (turns ∷ schedule) socket length_left s =
    let (go_on, bytes, s') = read_impl socket length_left (after_others turns socket s) in
    let (end, more, s'') = read_socket schedule socket (length_left - length bytes) s' in
    if length_left == 0
    then (complete, [], s)
    else if go_on
    then (end, bytes ++ more, s'')
    else (incomplete, [], s')

-- `ReadUpTo`, which waits without end; the bytes read are the result, also where the stream ends.
unfoldable pub read_up_to : List (List Turn) → Socket → ℕ → Session → Progress × Text × Session
unfolding read
read_up_to [] socket length_left s =
    if length_left == 0 then (complete, [], s) else (waiting, [], s)
read_up_to (turns ∷ schedule) socket length_left s =
    let (result, s') = read socket length_left (after_others turns socket s) in
    if length_left == 0 then (complete, [], s) else elim result [
      | pending ↦ read_up_to schedule socket length_left s'
      | got bytes ↦
          (let (end, more, s'') = read_up_to schedule socket (length_left - length bytes) s' in
            if is_empty bytes then (incomplete, [], s') else (end, bytes ++ more, s''))
    ]

-- `ListenSocket`: whether its `m_sock` is set.
pub record ListenSocket : Type 0 where
  pub set : Bool

unfoldable pub listen_socket : ListenSocket → Transport → Bool × ListenSocket × Transport
unfolding listen
listen_socket l t =
    if l.set
    then (false, l, t)
    else (let (listening, t') = listen t in
        if listening then (true, record { set = true }, t') else (false, l, t'))

-- `Accept` gives a socket or a null pointer; a socket that is not valid is destroyed.
unfoldable pub accept_socket : ListenSocket → Transport → Option Socket × Transport
unfolding accepted_socket is_valid
accept_socket l t =
    if not l.set
    then (none, t)
    else (let (socket, t') = accepted_socket t in
        if is_valid socket then (some socket, t') else (none, t'))

unfoldable pub close_listen : ListenSocket → ListenSocket
close_listen l = record { set = false }
