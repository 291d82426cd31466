-- ===== src/Transport/Socket/Reads.antt =====
-- What the loops of reads of src/embedded/TracyEmbeddedSocket.cpp deliver.
use tracy_query.Prelude.{
  ℕ, ◌-◌, ◌≡◌, sym, subst, Bool, true, false, some, List, [], ◌∷◌, ◌++◌, arith, ◌==◌, if◌then◌else◌,
  Bool-cases, Text, All, length, inl, inr,
}
use tracy_query.Transport.Pipe.{Pipe, received, read_round, Turn}
use tracy_query.Transport.Pipe.Valid.{IsValid}
use tracy_query.Transport.Session.{Session, Endpoint, incoming, with_incoming}
use tracy_query.Transport.Socket.{
  Progress, complete, incomplete, waiting, after_others, read_raw, read_impl, read_socket,
  read_up_to,
}
use tracy_query.Transport.Socket.Looks.{
  Reads-ended, Reads-refused, others-IsValid, Reads-bytes, Reads-later, AreNoReaders, Delivers-none,
  Reads, Look, look, after_read-IsValid, nothing_yet, ended, some_bytes,
}

-- A loop before its first look.
Reads-empty :
    (schedule : List (List Turn)) (e : Endpoint) (s : Session) (n : ℕ)
    → IsValid (incoming e s)
    → Reads schedule e s n (if n == 0 then (complete, [], s) else (waiting, [], s))
Reads-empty schedule e s n v = elim (Bool-cases (n == 0)) [
  | inl z ↦ rw z (Delivers-none schedule (incoming e s) n complete v (ground arith))
  | inr z ↦ rw z (Delivers-none schedule (incoming e s) n waiting v (ground arith))
]

-- What a loop delivers from any valid pipe, with the rest of its schedule.
abbrev Later : List (List Turn) → Endpoint → (ℕ → Session → Progress × Text × Session) → Type 0
Later schedule e loop =
    (n : ℕ) (s : Session) → IsValid (incoming e s) → Reads schedule e s n (loop n s)

-- By what the loop returns.
Reads-by :
    (schedule : List (List Turn)) (e : Endpoint) (s : Session) (n : ℕ)
    (out result : Progress × Text × Session)
    → Reads schedule e s n out
    → result ≡ out
    → Reads schedule e s n result
Reads-by schedule e s n out result d eq = subst (Reads schedule e s n) (sym eq) d

module _ (turns : List Turn) (schedule : List (List Turn)) (e : Endpoint) (n : ℕ) (s : Session)
    (v : IsValid (incoming e s)) (opened : e.closed ≡ false) (h : AreNoReaders turns)
    (z : (n == 0) ≡ false) where
  abbrev s' : Session
  s' = after_others turns (some e) s

  v' : IsValid (incoming e s')
  v' = others-IsValid schedule e s turns n v h

  abbrev then_rest :
      (ℕ → Session → Progress × Text × Session) → Text → Pipe → Progress × Text × Session
  then_rest loop bytes p =
      let out = loop (n - length bytes) (with_incoming e s' p) in (out.0, bytes ++ out.1, out.2)

  next :
      (loop : ℕ → Session → Progress × Text × Session)
      → Later schedule e loop
      → (b : ℕ) (bs : Text) (p : Pipe) → read_round (incoming e s') n ≡ received (b ∷ bs) p
      → Reads (turns ∷ schedule) e s n (then_rest loop (b ∷ bs) p)
  next loop later b bs p k =
      Reads-bytes schedule e s turns n v h b bs p k
        (loop (n - length (b ∷ bs)) (with_incoming e s' p))
        (later (n - length (b ∷ bs)) (with_incoming e s' p)
          (after_read-IsValid e s' n (b ∷ bs) p v' k))

  read_raw_step :
      (endless : Bool)
      → Later schedule e (read_raw endless schedule (some e))
      → Reads (turns ∷ schedule) e s n (read_raw endless (turns ∷ schedule) (some e) n s)
  unfolding read_raw
  read_raw_step endless later = go endless later (look e s' n opened z)
    where
      go :
          (endless : Bool)
          → Later schedule e (read_raw endless schedule (some e))
          → Look e s' n
          → Reads (turns ∷ schedule) e s n (read_raw endless (turns ∷ schedule) (some e) n s)
      go true later (nothing_yet k r) =
          Reads-by (turns ∷ schedule) e s n (read_raw true schedule (some e) n s')
            (read_raw true (turns ∷ schedule) (some e) n s)
            (Reads-later schedule e s turns n v h (read_raw true schedule (some e) n s')
              (later n s' v'))
            (ground (arith, r))
      go false later (nothing_yet k r) =
          Reads-by (turns ∷ schedule) e s n (incomplete, [], s')
            (read_raw false (turns ∷ schedule) (some e) n s)
            (Reads-refused schedule e s turns n v h z) (ground (arith, r))
      go endless later (ended p k r) =
          Reads-by (turns ∷ schedule) e s n (incomplete, [], with_incoming e s' p)
            (read_raw endless (turns ∷ schedule) (some e) n s)
            (Reads-ended schedule e s turns n v h z p k) (ground (arith, r))
      go endless later (some_bytes b bs p k r) =
          Reads-by (turns ∷ schedule) e s n
            (then_rest (read_raw endless schedule (some e)) (b ∷ bs) p)
            (read_raw endless (turns ∷ schedule) (some e) n s)
            (next (read_raw endless schedule (some e)) later b bs p k) (ground (arith, r))

  read_up_to_step :
      Later schedule e (read_up_to schedule (some e))
      → Reads (turns ∷ schedule) e s n (read_up_to (turns ∷ schedule) (some e) n s)
  unfolding read_up_to
  read_up_to_step later = go (look e s' n opened z)
    where
      go : Look e s' n → Reads (turns ∷ schedule) e s n (read_up_to (turns ∷ schedule) (some e) n s)
      go (nothing_yet k r) =
          Reads-by (turns ∷ schedule) e s n (read_up_to schedule (some e) n s')
            (read_up_to (turns ∷ schedule) (some e) n s)
            (Reads-later schedule e s turns n v h (read_up_to schedule (some e) n s')
              (later n s' v'))
            (ground (arith, r))
      go (ended p k r) =
          Reads-by (turns ∷ schedule) e s n (incomplete, [], with_incoming e s' p)
            (read_up_to (turns ∷ schedule) (some e) n s)
            (Reads-ended schedule e s turns n v h z p k) (ground (arith, r))
      go (some_bytes b bs p k r) =
          Reads-by (turns ∷ schedule) e s n (then_rest (read_up_to schedule (some e)) (b ∷ bs) p)
            (read_up_to (turns ∷ schedule) (some e) n s)
            (next (read_up_to schedule (some e)) later b bs p k) (ground (arith, r))

  read_socket_step :
      Later schedule e (read_socket schedule (some e))
      → Reads (turns ∷ schedule) e s n (read_socket (turns ∷ schedule) (some e) n s)
  unfolding read_socket read_impl
  read_socket_step later = go (look e s' n opened z)
    where
      go :
          Look e s' n → Reads (turns ∷ schedule) e s n (read_socket (turns ∷ schedule) (some e) n s)
      go (nothing_yet k r) =
          Reads-by (turns ∷ schedule) e s n (read_socket schedule (some e) n s')
            (read_socket (turns ∷ schedule) (some e) n s)
            (Reads-later schedule e s turns n v h (read_socket schedule (some e) n s')
              (later n s' v'))
            (ground (arith, r))
      go (ended p k r) =
          Reads-by (turns ∷ schedule) e s n (incomplete, [], with_incoming e s' p)
            (read_socket (turns ∷ schedule) (some e) n s)
            (Reads-ended schedule e s turns n v h z p k) (ground (arith, r))
      go (some_bytes b bs p k r) =
          Reads-by (turns ∷ schedule) e s n (then_rest (read_socket schedule (some e)) (b ∷ bs) p)
            (read_socket (turns ∷ schedule) (some e) n s)
            (next (read_socket schedule (some e)) later b bs p k) (ground (arith, r))

nothing_asked :
    (schedule : List (List Turn)) (e : Endpoint) (n : ℕ) (s : Session)
    → IsValid (incoming e s)
    → (n == 0) ≡ true
    → Reads schedule e s n (complete, [], s)
nothing_asked schedule e n s v z = Delivers-none schedule (incoming e s) n complete v (ground arith)

-- `ReadRaw` on a valid pipe ...
pub read_raw-Reads :
    (endless : Bool) (schedule : List (List Turn)) (e : Endpoint) (n : ℕ) (s : Session)
    → IsValid (incoming e s)
    → e.closed ≡ false
    → All AreNoReaders schedule
    → Reads schedule e s n (read_raw endless schedule (some e) n s)
unfolding read_raw
read_raw-Reads endless [] e n s v opened h = Reads-empty [] e s n v
read_raw-Reads endless (turns ∷ schedule) e n s v opened h = elim (Bool-cases (n == 0)) [
  | inl z ↦ rw z (nothing_asked (turns ∷ schedule) e n s v z)
  | inr z ↦
      read_raw_step turns schedule e n s v opened h.0 z endless
        (λ n s v. read_raw-Reads endless schedule e n s v opened h.1)
]

read_up_to-Reads :
    (schedule : List (List Turn)) (e : Endpoint) (n : ℕ) (s : Session)
    → IsValid (incoming e s)
    → e.closed ≡ false
    → All AreNoReaders schedule
    → Reads schedule e s n (read_up_to schedule (some e) n s)
unfolding read_up_to
read_up_to-Reads [] e n s v opened h = Reads-empty [] e s n v
read_up_to-Reads (turns ∷ schedule) e n s v opened h = elim (Bool-cases (n == 0)) [
  | inl z ↦ rw z (nothing_asked (turns ∷ schedule) e n s v z)
  | inr z ↦
      read_up_to_step turns schedule e n s v opened h.0 z
        (λ n s v. read_up_to-Reads schedule e n s v opened h.1)
]

read_socket-Reads :
    (schedule : List (List Turn)) (e : Endpoint) (n : ℕ) (s : Session)
    → IsValid (incoming e s)
    → e.closed ≡ false
    → All AreNoReaders schedule
    → Reads schedule e s n (read_socket schedule (some e) n s)
unfolding read_socket
read_socket-Reads [] e n s v opened h = Reads-empty [] e s n v
read_socket-Reads (turns ∷ schedule) e n s v opened h = elim (Bool-cases (n == 0)) [
  | inl z ↦ rw z (nothing_asked (turns ∷ schedule) e n s v z)
  | inr z ↦
      read_socket_step turns schedule e n s v opened h.0 z
        (λ n s v. read_socket-Reads schedule e n s v opened h.1)
]

-- `ReadRaw`, `Read` and `ReadUpTo`, on an open endpoint whose pipe is valid and read by no other
-- thread, deliver bytes in order: what they deliver, with what is left in the pipe, is what was in
-- it followed by the first bytes of the source of each of the others' writes, in order, up to the
-- look at which the loop ends; and it is exactly as many bytes as asked for when the loop
-- completes, and fewer when it does not.
pub loops-Reads :
    (endless : Bool) (schedule : List (List Turn)) (e : Endpoint) (n : ℕ) (s : Session)
    → IsValid (incoming e s)
    → e.closed ≡ false
    → All AreNoReaders schedule
    → Reads schedule e s n (read_raw endless schedule (some e) n s)
      × Reads schedule e s n (read_socket schedule (some e) n s)
      × Reads schedule e s n (read_up_to schedule (some e) n s)
loops-Reads endless schedule e n s v opened h = (
  read_raw-Reads endless schedule e n s v opened h,
  read_socket-Reads schedule e n s v opened h,
  read_up_to-Reads schedule e n s v opened h,
)
