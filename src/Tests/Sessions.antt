-- ===== src/Tests/Sessions.antt =====
-- Calls of src/embedded/TracyEmbeddedTransport.cpp, at concrete transports.
use tracy_query.Prelude.{◌≤◌, ◌≡◌, refl, true, false, none, some, List, [], ◌∷◌}
use tracy_query.Transport.Session.{Endpoint, new_session, close_endpoint, cancel, cancel_session}
use tracy_query.Transport.Session.Handshake.{
  Call, configures, listens, connects, accepts, calls, no_calls, unconfigured, calls_once,
}
use tracy_query.Transport.Session.Shutdown.{
  IsReleased, peer, close_endpoint-IsReleased, cancel-IsReleased,
}

abbrev client : Endpoint
client = record { client = true; closed = false }

abbrev attempts : List Call
attempts =
    connects none
    ∷ configures 16 true
    ∷ configures 16 true
    ∷ connects none
    ∷ listens
    ∷ listens
    ∷ connects none
    ∷ connects (some client)
    ∷ accepts none
    ∷ accepts none
    ∷ []

calls_once_example :
    let n = (calls unconfigured attempts).0 in
    (n.configured ≤ 1)
    × (n.listened ≤ n.configured)
    × (n.connected ≤ n.listened)
    × (n.accepted ≤ n.connected)
calls_once_example = calls_once attempts

close_endpoint-IsReleased_example :
    IsReleased (close_endpoint (some client) (new_session 16)).1 (peer client)
close_endpoint-IsReleased_example = close_endpoint-IsReleased (new_session 16) client refl

cancel-IsReleased_example :
    let r = calls (cancel (record { session = some (new_session 16); error = [] })) attempts in
    IsReleased (cancel_session (new_session 16)) client
    × (r.1.session ≡ some (cancel_session (new_session 16)))
    × (r.0 ≡ no_calls)
cancel-IsReleased_example = cancel-IsReleased (new_session 16) [] client attempts
