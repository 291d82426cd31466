-- ===== src/Transport/Socket/Looks.antt =====
-- What one look at the pipe gives the loops of reads of src/embedded/TracyEmbeddedSocket.cpp, and the
-- account of the bytes that a loop keeps.
use tracy_query.Prelude.{
  take, ◌⊎◌, inl, inr, ℕ, ◌-◌, ◌≤◌, ◌<◌, ◌≡◌, refl, sym, ap, ◌∙◌, subst, false, some, List, [], ◌∷◌,
  ◌++◌, append_assoc, append-nil, arith, ◌==◌, Text, All, length, drop, length-append, length-take,
}
use tracy_query.Transport.Pipe.{
  WriteRound, blocked, refused, copied, write_round, close_writer, close_reader, cancel_pipe, Pipe,
  ReadRound, not_ready, received, read_count, read_round, Turn, writes, reads, closes_writer,
  closes_reader, cancels, turn, run,
}
use tracy_query.Transport.Pipe.Valid.{IsValid, run-IsValid, turn-IsValid, read_in_bounds}
use tracy_query.Transport.Pipe.Fifo.{contents, run_fifo, read_round-contents}
use tracy_query.Transport.Session.{Session, Endpoint, incoming, with_incoming, pending, got, read}
use tracy_query.Transport.Socket.{Progress, complete, incomplete, waiting, after_others}

-- The other threads write and close, and leave the reading to this call.
abbrev pub IsNoReader : Turn → Type 0
IsNoReader (reads n) = ⊥
IsNoReader _ = Unit {0}

abbrev pub AreNoReaders : List Turn → Type 0
AreNoReaders = All IsNoReader

pub others_give_nothing : (p : Pipe) (ts : List Turn) → AreNoReaders ts → (run p ts).2 ≡ []
unfolding run turn
others_give_nothing p [] h = refl
others_give_nothing p (reads n ∷ ts) h = absurd h.0
others_give_nothing p (writes s ∷ ts) h =
    ground (arith, others_give_nothing (turn p (writes s)).0 ts h.1)
others_give_nothing p (closes_writer ∷ ts) h = others_give_nothing (turn p closes_writer).0 ts h.1
others_give_nothing p (closes_reader ∷ ts) h = others_give_nothing (turn p closes_reader).0 ts h.1
others_give_nothing p (cancels ∷ ts) h = others_give_nothing (turn p cancels).0 ts h.1

-- All the bytes, or fewer.
abbrev pub Counted : Progress → Text → ℕ → Type 0
Counted complete bytes n = length bytes ≡ n
Counted _ bytes n = length bytes < n

-- What some turns have added to the pipe: of the source of each write the first bytes, in order.
abbrev pub TakenFrom : List Turn → Text → Type 0
TakenFrom [] added = added ≡ []
TakenFrom (writes source ∷ ts) added =
    (count : ℕ) × (rest : Text) × (added ≡ take count source ++ rest) × TakenFrom ts rest
TakenFrom (t ∷ ts) added = TakenFrom ts added

-- What a schedule has added, up to the look at which the loop ends.
abbrev pub AddedBy : List (List Turn) → Text → Type 0
AddedBy [] added = added ≡ []
AddedBy (ts ∷ schedule) added =
    (added ≡ [])
    ⊎ ((front : Text) × (back : Text) × (added ≡ front ++ back)
        × TakenFrom ts front
        × AddedBy schedule back)

AddedBy-none : (schedule : List (List Turn)) → AddedBy schedule []
AddedBy-none [] = refl
AddedBy-none (ts ∷ schedule) = inl refl

writes_taken : (p : Pipe) (s : Text) → (count : ℕ) × ((turn p (writes s)).1 ≡ take count s)
unfolding turn
writes_taken p s = go (write_round p s) refl
  where
    go :
        (r : WriteRound)
        → write_round p s ≡ r
        → (count : ℕ) × ((turn p (writes s)).1 ≡ take count s)
    go blocked e = (0, ground (arith, e))
    go refused e = (0, ground (arith, e))
    go (copied count q) e = (count, ground (arith, e))

reads_taken : (p : Pipe) (n : ℕ) → (turn p (reads n)).1 ≡ []
unfolding turn
reads_taken p n = ground arith

run-TakenFrom : (p : Pipe) (ts : List Turn) → TakenFrom ts (run p ts).1
unfolding run turn
run-TakenFrom p [] = refl
run-TakenFrom p (writes s ∷ ts) =
    let q = (turn p (writes s)).0 in
    let taken = writes_taken p s in
    (
      taken.0,
      (run q ts).1,
      ap (λ (front : Text). front ++ (run q ts).1) taken.1,
      run-TakenFrom q ts,
    )
run-TakenFrom p (reads n ∷ ts) =
    let q = (turn p (reads n)).0 in
    subst (TakenFrom ts) (ap (λ (front : Text). front ++ (run q ts).1) (sym (reads_taken p n)))
      (run-TakenFrom q ts)
run-TakenFrom p (closes_writer ∷ ts) = run-TakenFrom (close_writer p) ts
run-TakenFrom p (closes_reader ∷ ts) = run-TakenFrom (close_reader p) ts
run-TakenFrom p (cancels ∷ ts) = run-TakenFrom (cancel_pipe p) ts

-- A loop that was asked for `n` bytes of a pipe, with what others did before each of its looks.
pub record Delivers (schedule : List (List Turn)) (p : Pipe) (n : ℕ) (end : Progress) (bytes : Text)
    (q : Pipe) : Type 0 where
  pub valid : IsValid q
  pub added : Text
  pub sources : AddedBy schedule added
  pub fifo : contents p ++ added ≡ bytes ++ contents q
  pub counted : Counted end bytes n

pub Delivers-none :
    (schedule : List (List Turn)) (p : Pipe) (n : ℕ) (end : Progress)
    → IsValid p
    → Counted end [] n
    → Delivers schedule p n end [] p
Delivers-none schedule p n end v h = record {
  valid = v;
  added = [];
  sources = AddedBy-none schedule;
  fifo = append-nil (contents p);
  counted = h;
}

Delivers-others :
    (schedule : List (List Turn)) (p q : Pipe) (ts : List Turn) (n : ℕ) (end : Progress)
    (bytes : Text)
    → IsValid p
    → AreNoReaders ts
    → Delivers schedule (run p ts).0 n end bytes q
    → Delivers (ts ∷ schedule) p n end bytes q
Delivers-others schedule p q ts n end bytes v h d = record {
  valid = d.valid;
  added = (run p ts).1 ++ d.added;
  sources = inr ((run p ts).1, d.added, refl, run-TakenFrom p ts, d.sources);
  fifo =
      sym (append_assoc (contents p) (run p ts).1 d.added)
      ∙ ap (λ b. b ++ d.added)
          (run_fifo p ts v ∙ ap (λ b. b ++ contents (run p ts).0) (others_give_nothing p ts h))
      ∙ d.fifo;
  counted = d.counted;
}

counted_more :
    (end : Progress) (bytes more : Text) (n : ℕ)
    → length bytes ≤ n
    → Counted end more (n - length bytes)
    → Counted end (bytes ++ more) n
counted_more complete bytes more n le h = omega (arith, length-append bytes more)
counted_more incomplete bytes more n le h = omega (arith, length-append bytes more)
counted_more waiting bytes more n le h = omega (arith, length-append bytes more)

pub read_round-length :
    (p p' : Pipe) (n : ℕ) (bytes : Text)
    → IsValid p
    → read_round p n ≡ received bytes p'
    → length bytes ≤ n
unfolding read_round
read_round-length p p' n bytes v h =
    ground (arith, read_in_bounds p n v, length-take (read_count p n) (drop p.head p.storage))

pub received-IsValid :
    (p p' : Pipe) (n : ℕ) (bytes : Text)
    → IsValid p
    → read_round p n ≡ received bytes p'
    → IsValid p'
unfolding turn
received-IsValid p p' n bytes v e = ground (arith, turn-IsValid p (reads n) v)

Delivers-read :
    (schedule : List (List Turn)) (p p' q : Pipe) (n : ℕ) (end : Progress) (bytes more : Text)
    → IsValid p
    → read_round p n ≡ received bytes p'
    → Delivers schedule p' (n - length bytes) end more q
    → Delivers schedule p n end (bytes ++ more) q
Delivers-read schedule p p' q n end bytes more v e d = record {
  valid = d.valid;
  added = d.added;
  sources = d.sources;
  fifo =
      ap (λ b. b ++ d.added) (read_round-contents p p' n bytes v e)
      ∙ append_assoc bytes (contents p') d.added
      ∙ ap (◌++◌ bytes) d.fifo
      ∙ sym (append_assoc bytes more (contents q));
  counted = counted_more end bytes more n (read_round-length p p' n bytes v e) d.counted;
}

pub incoming-with_incoming :
    (e : Endpoint) (s : Session) (p : Pipe) → incoming e (with_incoming e s p) ≡ p
incoming-with_incoming e s p = ground arith

-- The same of a loop over a session, with what it returns.
abbrev pub Reads : List (List Turn) → Endpoint → Session → ℕ → Progress × Text × Session → Type 0
Reads schedule e s n out = Delivers schedule (incoming e s) n out.0 out.1 (incoming e out.2)

-- One look at the pipe when there is something to read: nothing yet, the end, or bytes.
pub data Look (e : Endpoint) (s : Session) (n : ℕ) : Type 0 where
  nothing_yet :
      read_round (incoming e s) n ≡ not_ready → read (some e) n s ≡ (pending, s) → Look e s n
  ended :
      (p : Pipe)
      → read_round (incoming e s) n ≡ received [] p
      → read (some e) n s ≡ (got [], with_incoming e s p)
      → Look e s n
  some_bytes :
      (b : ℕ) (bs : Text) (p : Pipe)
      → read_round (incoming e s) n ≡ received (b ∷ bs) p
      → read (some e) n s ≡ (got (b ∷ bs), with_incoming e s p)
      → Look e s n

pub look : (e : Endpoint) (s : Session) (n : ℕ) → e.closed ≡ false → (n == 0) ≡ false → Look e s n
unfolding read
look e s n opened asked = go (read_round (incoming e s) n) refl
  where
    go : (r : ReadRound) → read_round (incoming e s) n ≡ r → Look e s n
    go not_ready h = nothing_yet h (ground arith)
    go (received [] p) h = ended p h (ground arith)
    go (received (b ∷ bs) p) h = some_bytes b bs p h (ground arith)

module _ (schedule : List (List Turn)) (e : Endpoint) (s : Session) (turns : List Turn) (n : ℕ)
    (v : IsValid (incoming e s)) (h : AreNoReaders turns) where
  abbrev s₁ : Session
  s₁ = after_others turns (some e) s

  from_others :
      (end : Progress) (bytes : Text) (q : Pipe)
      → Delivers schedule (incoming e s₁) n end bytes q
      → Delivers (turns ∷ schedule) (incoming e s) n end bytes q
  from_others end bytes q d = Delivers-others schedule (incoming e s) q turns n end bytes v h (
      subst (λ p. Delivers schedule p n end bytes q)
        (incoming-with_incoming e s (run (incoming e s) turns).0) d)

  pub others-IsValid : IsValid (incoming e s₁)
  others-IsValid =
      subst IsValid (sym (incoming-with_incoming e s (run (incoming e s) turns).0))
        (run-IsValid (incoming e s) turns v)

  -- The end of the stream.
  pub Reads-ended :
      (n == 0) ≡ false
      → (p : Pipe) → read_round (incoming e s₁) n ≡ received [] p
      → Reads (turns ∷ schedule) e s n (incomplete, [], with_incoming e s₁ p)
  Reads-ended asked p r = from_others incomplete [] _ (
      Delivers-read schedule (incoming e s₁) p _ n incomplete [] [] others-IsValid r (
        subst (λ q. Delivers schedule p (n - 0) incomplete [] q)
          (sym (incoming-with_incoming e s₁ p))
          (Delivers-none schedule p (n - 0) incomplete
            (received-IsValid (incoming e s₁) p n [] others-IsValid r) (ground arith))))

  pub Reads-bytes :
      (b : ℕ) (bs : Text) (p : Pipe)
      → read_round (incoming e s₁) n ≡ received (b ∷ bs) p
      → (out : Progress × Text × Session)
      → Reads schedule e (with_incoming e s₁ p) (n - length (b ∷ bs)) out
      → Reads (turns ∷ schedule) e s n (out.0, (b ∷ bs) ++ out.1, out.2)
  Reads-bytes b bs p r out d = from_others out.0 ((b ∷ bs) ++ out.1) (incoming e out.2) (
      Delivers-read schedule (incoming e s₁) p (incoming e out.2) n out.0 (b ∷ bs) out.1
        others-IsValid r
        (subst (λ q. Delivers schedule q (n - length (b ∷ bs)) out.0 out.1 (incoming e out.2))
          (incoming-with_incoming e s₁ p) d))

  pub Reads-later :
      (out : Progress × Text × Session)
      → Reads schedule e s₁ n out
      → Reads (turns ∷ schedule) e s n out
  Reads-later out d = from_others out.0 out.1 (incoming e out.2) d

  pub Reads-refused : (n == 0) ≡ false → Reads (turns ∷ schedule) e s n (incomplete, [], s₁)
  Reads-refused asked =
      from_others incomplete [] (incoming e s₁)
        (Delivers-none schedule (incoming e s₁) n incomplete others-IsValid (ground arith))

pub after_read-IsValid :
    (e : Endpoint) (s : Session) (n : ℕ) (bytes : Text) (p : Pipe)
    → IsValid (incoming e s)
    → read_round (incoming e s) n ≡ received bytes p
    → IsValid (incoming e (with_incoming e s p))
after_read-IsValid e s n bytes p v r =
    subst IsValid (sym (incoming-with_incoming e s p))
      (received-IsValid (incoming e s) p n bytes v r)
