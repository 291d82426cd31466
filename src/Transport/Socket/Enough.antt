-- ===== src/Transport/Socket/Enough.antt =====
-- A socket that asks for bytes that are there gets them.
use tracy_query.Prelude.{
  length-tabulate, ℕ, zero, suc, ◌+◌, ◌-◌, ◌%◌, ◌≤◌, ◌<◌, ◌≡◌, refl, ap, ◌∙◌, subst, Bool, false,
  some, List, [], ◌∷◌, ◌++◌, arith, ◌==◌, Bool-cases, Text, All, length, get_or, take, drop,
  length-append, length-take, length-drop, inl, inr,
}
use tracy_query.Transport.Pipe.{Pipe, received, read_count, after_read, read_round, Turn, run}
use tracy_query.Transport.Pipe.Valid.{IsValid}
use tracy_query.Transport.Pipe.Fifo.{contents, run_fifo, read_round-contents}
use tracy_query.Transport.Session.{Session, Endpoint, incoming, with_incoming}
use tracy_query.Transport.Socket.{complete, after_others, read_raw}
use tracy_query.Transport.Pipe.Fifo.{window}
use tracy_query.Transport.Socket.Looks.{
  others-IsValid, AreNoReaders, others_give_nothing, Look, nothing_yet, ended, some_bytes, look,
  after_read-IsValid, incoming-with_incoming, Counted,
}
use tracy_query.Transport.Socket.Reads.{read_raw-Reads}

length-contents : (p : Pipe) → length (contents p) ≡ p.size
unfolding contents window
length-contents p =
    length-tabulate p.size (λ k. get_or p.storage ((p.head + k) % length p.storage) 0)

-- The others do not make a pipe hold less.
run-holds : (p : Pipe) (ts : List Turn) → IsValid p → AreNoReaders ts → p.size ≤ (run p ts).0.size
run-holds p ts v h =
    let q = (run p ts).0 in
    let fifo : contents p ++ (run p ts).1 ≡ contents q =
      run_fifo p ts v ∙ ap (λ b. b ++ contents q) (others_give_nothing p ts h) in
    omega (
      arith,
      ap length fifo,
      length-append (contents p) (run p ts).1,
      length-contents p,
      length-contents q,
    )

-- A read of a pipe that holds something gets something.
read_round-ready :
    (p : Pipe) (n : ℕ)
    → IsValid p
    → 0 < n
    → 0 < p.size
    → (read_round p n
        ≡ received (take (read_count p n) (drop p.head p.storage)) (after_read p (read_count p n)))
      × (0 < length (take (read_count p n) (drop p.head p.storage)))
unfolding read_round
read_round-ready p n v asked held =
    ground
      (arith, length-take (read_count p n) (drop p.head p.storage), length-drop p.head p.storage)

read_round-less :
    (p p' : Pipe) (n : ℕ) (bytes : Text)
    → IsValid p
    → read_round p n ≡ received bytes p'
    → p.size ≡ length bytes + p'.size
read_round-less p p' n bytes v e = omega (
  arith,
  ap length (read_round-contents p p' n bytes v e),
  length-append bytes (contents p'),
  length-contents p,
  length-contents p',
)

-- Only some bytes can be what a look finds.
module _ (turns : List Turn) (schedule : List (List Turn)) (e : Endpoint) (n : ℕ) (s : Session)
    (v : IsValid (incoming e s)) (opened : e.closed ≡ false) (h : AreNoReaders turns)
    (z : (n == 0) ≡ false) (held : n ≤ (incoming e s).size) where
  abbrev s' : Session
  s' = after_others turns (some e) s

  v' : IsValid (incoming e s')
  v' = others-IsValid schedule e s turns n v h

  holds : n ≤ (incoming e s').size
  holds = omega (
    arith,
    held,
    run-holds (incoming e s) turns v h,
    ap (λ p. p.size) (incoming-with_incoming e s (run (incoming e s) turns).0),
  )

  read_raw_completes_step :
      (endless : Bool)
      → ((m : ℕ) (t : Session)
          → IsValid (incoming e t)
          → m ≤ (incoming e t).size
          → m < n
          → (read_raw endless schedule (some e) m t).0 ≡ complete)
      → (read_raw endless (turns ∷ schedule) (some e) n s).0 ≡ complete
  unfolding read_raw
  read_raw_completes_step endless later = go (look e s' n opened z)
    where
      ready :
          (read_round (incoming e s') n
            ≡ received
                (take
                  (read_count (incoming e s') n)
                  (drop (incoming e s').head (incoming e s').storage))
                (after_read (incoming e s') (read_count (incoming e s') n)))
          × (0
              < length (
                  take
                    (read_count (incoming e s') n)
                    (drop (incoming e s').head (incoming e s').storage)))
      ready = read_round-ready (incoming e s') n v' (ground arith) (ground (arith, holds))

      go : Look e s' n → (read_raw endless (turns ∷ schedule) (some e) n s).0 ≡ complete
      go (nothing_yet k r) = ground (arith, ready)
      go (ended p k r) = ground (arith, ready)
      go (some_bytes b bs p k r) =
          let t : Session = with_incoming e s' p in
          ground (
            arith,
            r,
            later (n - length (b ∷ bs)) t (after_read-IsValid e s' n (b ∷ bs) p v' k)
                (omega (
                  arith,
                  holds,
                  read_round-less (incoming e s') p n (b ∷ bs) v' k,
                  ap (λ p. p.size) (incoming-with_incoming e s' p),
                ))
                (ground arith),
          )

read_raw-completes :
    (endless : Bool) (schedule : List (List Turn)) (e : Endpoint) (n : ℕ) (s : Session)
    → IsValid (incoming e s)
    → e.closed ≡ false
    → All AreNoReaders schedule
    → n ≤ length schedule
    → n ≤ (incoming e s).size
    → (read_raw endless schedule (some e) n s).0 ≡ complete
unfolding read_raw
read_raw-completes endless [] e n s v opened h le held = ground arith
read_raw-completes endless (turns ∷ schedule) e n s v opened h le held =
    elim (Bool-cases (n == 0)) [
      | inl z ↦ rw z refl
      | inr z ↦
          read_raw_completes_step turns schedule e n s v opened h.0 z held endless (λ m t w k lt.
            read_raw-completes endless schedule e m t w opened h.1 (omega (arith, le, lt)) k)
    ]

front :
    (n : ℕ) (xs added ys rest : Text)
    → xs ++ added ≡ ys ++ rest
    → length ys ≡ n
    → n ≤ length xs
    → ys ≡ take n xs
front zero xs added [] rest e h le = refl
front zero xs added (y ∷ ys) rest e h le = ground arith
front (suc n) [] added ys rest e h le = ground arith
front (suc n) (x ∷ xs) added [] rest e h le = ground arith
front (suc n) (x ∷ xs) added (y ∷ ys) rest e h le = ground (arith, front n xs added ys rest)

-- Where the valid pipe of an open endpoint holds at least as many bytes as `ReadRaw` is asked for,
-- and the schedule has at least as many looks at the pipe: it returns true with the first bytes of
-- the pipe, with a timeout at each look or without, and whatever other threads that do not read it
-- do to the pipe meanwhile.
pub read_raw-enough :
    (endless : Bool) (schedule : List (List Turn)) (e : Endpoint) (n : ℕ) (s : Session)
    → IsValid (incoming e s)
    → e.closed ≡ false
    → All AreNoReaders schedule
    → n ≤ length schedule
    → n ≤ (incoming e s).size
    → let r = read_raw endless schedule (some e) n s in
      (r.0 ≡ complete) × (r.1 ≡ take n (contents (incoming e s)))
read_raw-enough endless schedule e n s v opened h le held =
    let done = read_raw-completes endless schedule e n s v opened h le held in
    let d = read_raw-Reads endless schedule e n s v opened h in
    let exact : length (read_raw endless schedule (some e) n s).1 ≡ n =
      subst (λ p. Counted p (read_raw endless schedule (some e) n s).1 n) done d.counted in
    (
      done,
      front n (contents (incoming e s)) d.added (read_raw endless schedule (some e) n s).1
          (contents (incoming e (read_raw endless schedule (some e) n s).2)) d.fifo exact
          (omega (arith, held, length-contents (incoming e s))),
    )
