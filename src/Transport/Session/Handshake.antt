-- ===== src/Transport/Session/Handshake.antt =====
-- The rendezvous: each of its steps happens at most once, and in order.
use tracy_query.Prelude.{
  Option, ℕ, ◌+◌, ◌≤◌, ◌≡◌, sym, ap, ◌∙◌, Bool, true, false, none, some, List, [], ◌∷◌, arith,
}
use tracy_query.Transport.Session.{
  Endpoint, Transport, configure, listen, connect, accept, cancel, set_error,
}

-- A call by any thread. Connect and accept take an endpoint that is set or not.
pub data Call : Type 0 where
  configures : ℕ → Bool → Call
  listens cancels : Call
  connects accepts : Option Endpoint → Call

-- How often each call has succeeded; of connect and accept, how often they have given an endpoint.
pub record Tally : Type 0 where
  pub configured : ℕ
  pub listened : ℕ
  pub connected : ℕ
  pub accepted : ℕ

abbrev num : Bool → ℕ
num true = 1
num false = 0

abbrev pub no_calls : Tally
no_calls = record { configured = 0; listened = 0; connected = 0; accepted = 0 }

-- A call that was given an endpoint gives none.
abbrev gives : Option Endpoint → Bool → ℕ
gives none b = num b
gives (some e) b = 0

unfoldable pub call : Transport → Call → Tally × Transport
call t (configures n allocated) =
    let (b, t') = configure n allocated t in (record no_calls { configured = num b }, t')
call t listens = let (b, t') = listen t in (record no_calls { listened = num b }, t')
call t (connects e) =
    let (b, e', t') = connect e t in (record no_calls { connected = gives e b }, t')
call t (accepts e) = let (b, e', t') = accept e t in (record no_calls { accepted = gives e b }, t')
call t cancels = (no_calls, cancel t)

abbrev pub sum : Tally → Tally → Tally
sum a b = record {
  configured = a.configured + b.configured;
  listened = a.listened + b.listened;
  connected = a.connected + b.connected;
  accepted = a.accepted + b.accepted;
}

unfoldable pub calls : Transport → List Call → Tally × Transport
calls t [] = (no_calls, t)
calls t (c ∷ cs) = let (n, t') = call t c in let (m, t'') = calls t' cs in (sum n m, t'')

abbrev pub unconfigured : Transport
unconfigured = record { session = none; error = [] }

-- The flags of a transport, as a tally.
flags : Transport → Tally
flags t = elim t.session [
  | none ↦ no_calls
  | some s ↦ record {
    configured = 1;
    listened = num s.listening;
    connected = num s.connected;
    accepted = num s.accepted;
  }
]

record InOrder (n : Tally) : Type 0 where
  once : n.configured ≤ 1
  listen_after : n.listened ≤ n.configured
  connect_after : n.connected ≤ n.listened
  accept_after : n.accepted ≤ n.connected

call-flags : (t : Transport) (c : Call) → sum (flags t) (call t c).0 ≡ flags (call t c).1
unfolding call flags configure listen connect accept cancel set_error
call-flags t (configures n allocated) = ground arith
call-flags t listens = ground arith
call-flags t (connects none) = ground arith
call-flags t (connects (some e)) = ground arith
call-flags t (accepts none) = ground arith
call-flags t (accepts (some e)) = ground arith
call-flags t cancels = ground arith

call-InOrder : (t : Transport) (c : Call) → InOrder (flags t) → InOrder (flags (call t c).1)
unfolding call flags configure listen connect accept cancel set_error
call-InOrder t (configures n allocated) h = ground arith
call-InOrder t listens h = ground arith
call-InOrder t (connects none) h = ground arith
call-InOrder t (connects (some e)) h = ground arith
call-InOrder t (accepts none) h = ground arith
call-InOrder t (accepts (some e)) h = ground arith
call-InOrder t cancels h = ground arith

sum_assoc : (a b c : Tally) → sum (sum a b) c ≡ sum a (sum b c)
sum_assoc a b c = ground arith

calls-flags :
    (t : Transport) (cs : List Call)
    → InOrder (flags t)
    → (sum (flags t) (calls t cs).0 ≡ flags (calls t cs).1) × InOrder (flags (calls t cs).1)
unfolding calls
calls-flags t [] h = (ground arith, h)
calls-flags t (c ∷ cs) h =
    let (n, t') = call t c in
    let later = calls-flags t' cs (call-InOrder t c h) in
    (
      sym (sum_assoc (flags t) n (calls t' cs).0)
          ∙ ap (λ k. sum k (calls t' cs).0) (call-flags t c)
          ∙ later.0,
      later.1,
    )

in_order :
    (f n : Tally)
    → sum no_calls n ≡ f
    → InOrder f
    → (n.configured ≤ 1)
      × (n.listened ≤ n.configured)
      × (n.connected ≤ n.listened)
      × (n.accepted ≤ n.connected)
in_order f n e o = ground arith

-- From an unconfigured transport, however often and in whatever order the threads configure, listen,
-- connect, accept and cancel, with endpoints that are set or not: the transport is configured at most
-- once, listen succeeds at most as often, connect gives an endpoint at most as often as listen
-- succeeds, and accept at most as often as connect does.
pub calls_once :
    (cs : List Call)
    → let n = (calls unconfigured cs).0 in
      (n.configured ≤ 1)
      × (n.listened ≤ n.configured)
      × (n.connected ≤ n.listened)
      × (n.accepted ≤ n.connected)
unfolding flags
calls_once cs =
    let facts = calls-flags unconfigured cs (omega arith) in
    in_order (flags (calls unconfigured cs).1) (calls unconfigured cs).0 facts.0 facts.1
