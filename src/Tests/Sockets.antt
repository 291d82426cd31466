-- ===== src/Tests/Sockets.antt =====
-- The socket of src/embedded/TracyEmbeddedSocket.cpp, on a session at a concrete state.
use tracy_query.Prelude.{◌≡◌, refl, false, some, List, [], ◌∷◌, arith, codes, take}
use tracy_query.Transport.Pipe.{Turn, writes, closes_writer}
use tracy_query.Transport.Pipe.Fifo.{contents}
use tracy_query.Transport.Session.{Session, Endpoint}
use tracy_query.Transport.Socket.{complete, read_raw, read_socket, read_up_to}
use tracy_query.Transport.Session.{new_session}
use tracy_query.Transport.Socket.Looks.{Reads}
use tracy_query.Transport.Socket.Reads.{loops-Reads}
use tracy_query.Transport.Socket.Enough.{read_raw-enough}
use tracy_query.Tests.Pipes.{wrapped, wrapped-IsValid}

abbrev session : Session
session = record (new_session 4) { client_to_server = wrapped }

abbrev server : Endpoint
server = record { client = false; closed = false }

-- The peer writes two more bytes, and then closes.
abbrev peer_turns : List (List Turn)
peer_turns = (writes (codes "cd") ∷ []) ∷ [] ∷ (closes_writer ∷ []) ∷ []

loops-Reads_example :
    Reads peer_turns server session 3 (read_raw false peer_turns (some server) 3 session)
    × Reads peer_turns server session 3 (read_socket peer_turns (some server) 3 session)
    × Reads peer_turns server session 3 (read_up_to peer_turns (some server) 3 session)
loops-Reads_example =
    loops-Reads false peer_turns server 3 session wrapped-IsValid refl
      ((tt, tt), (tt, ((tt, tt), tt)))

read_raw-enough_example :
    let r = read_raw false peer_turns (some server) 2 session in
    (r.0 ≡ complete) × (r.1 ≡ take 2 (contents wrapped))
read_raw-enough_example =
    read_raw-enough false peer_turns server 2 session wrapped-IsValid refl
      ((tt, tt), (tt, ((tt, tt), tt))) (omega arith) (omega arith)
