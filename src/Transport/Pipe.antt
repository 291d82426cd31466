-- ===== src/Transport/Pipe.antt =====
-- `struct Pipe` of src/embedded/TracyEmbeddedTransport.cpp: a bounded ring of bytes. A function here
-- is what the code does while it holds the pipe's mutex; a wait is a result of its own.
pub mod Valid
pub mod Fifo
pub mod Writes
pub mod Fits
use tracy_query.Prelude.{
  add_u64, sub_u64, replicate, copy_to, ℕ, ◌+◌, ◌%◌, min, max, Bool, true, false, ◌||◌, not, List,
  [], ◌∷◌, ◌++◌, ltb, ◌==◌, if◌then◌else◌, Text, length, take, drop,
}

pub record Pipe : Type 0 where
  pub storage : Text
  pub head : ℕ
  pub size : ℕ
  pub writer_closed : Bool
  pub reader_closed : Bool
  pub transferred : ℕ
  pub high_water : ℕ

unfoldable pub new_pipe : ℕ → Pipe
new_pipe capacity = record {
  storage = replicate capacity 0;
  head = 0;
  size = 0;
  writer_closed = false;
  reader_closed = false;
  transferred = 0;
  high_water = 0;
}

abbrev pub capacity_of : Pipe → ℕ
capacity_of p = length p.storage

unfoldable pub close_writer : Pipe → Pipe
close_writer p = record p { writer_closed = true }

unfoldable pub close_reader : Pipe → Pipe
close_reader p = record p { reader_closed = true }

unfoldable pub cancel_pipe : Pipe → Pipe
cancel_pipe p = record p { reader_closed = true; writer_closed = true }

-- One round of the loop of `writePipe`: still waiting, refused, or so many bytes copied.
pub data WriteRound : Type 0 where
  blocked refused : WriteRound
  copied : ℕ → Pipe → WriteRound

abbrev pub tail_of : Pipe → ℕ
tail_of p = add_u64 p.head p.size % capacity_of p

-- How many of `remaining` bytes one round copies: up to the end of the storage, and of the free
-- space.
abbrev pub write_count : Pipe → ℕ → ℕ
write_count p remaining =
    min (min (sub_u64 (capacity_of p) (tail_of p)) (sub_u64 (capacity_of p) p.size)) remaining

-- The pipe with `count` more bytes, copied in.
abbrev pub after_write : Pipe → Text → ℕ → Pipe
after_write p source count =
    let size = add_u64 p.size count in
    record p {
      storage = copy_to p.storage (tail_of p) (take count source);
      size = size;
      transferred = add_u64 p.transferred count;
      high_water = max p.high_water size;
    }

unfoldable pub write_round : Pipe → Text → WriteRound
write_round p source =
    if not (p.reader_closed || ltb p.size (capacity_of p))
    then blocked
    else if p.reader_closed || p.writer_closed
    then refused
    else (let count = write_count p (length source) in copied count (after_write p source count))

-- A call of `readPipe` under the lock: not ready (it waits, and returns -1 if its time runs out),
-- or the bytes that it returns. No bytes are the end of the stream.
pub data ReadRound : Type 0 where
  not_ready : ReadRound
  received : Text → Pipe → ReadRound

abbrev pub read_count : Pipe → ℕ → ℕ
read_count p limit = min (min limit p.size) (sub_u64 (capacity_of p) p.head)

-- The pipe with its first `count` bytes gone.
abbrev pub after_read : Pipe → ℕ → Pipe
after_read p count = record p {
  head = add_u64 p.head count % capacity_of p;
  size = sub_u64 p.size count;
}

unfoldable pub read_round : Pipe → ℕ → ReadRound
read_round p limit =
    if not (not (p.size == 0) || (p.writer_closed || p.reader_closed))
    then not_ready
    else if p.size == 0
    then received [] p
    else (let count = read_count p limit in
        received (take count (drop p.head p.storage)) (after_read p count))

-- The turns of the threads that share a pipe: each takes the mutex once.
pub data Turn : Type 0 where
  writes : Text → Turn
  reads : ℕ → Turn
  closes_writer closes_reader cancels : Turn

-- The pipe after a turn, the bytes that it took in, and those that it gave out.
unfoldable pub turn : Pipe → Turn → Pipe × Text × Text
turn p (writes source) = elim (write_round p source) [
  | blocked ↦ (p, [], [])
  | refused ↦ (p, [], [])
  | copied count p' ↦ (p', take count source, [])
]
turn p (reads limit) = elim (read_round p limit) [
  | not_ready ↦ (p, [], [])
  | received bytes p' ↦ (p', [], bytes)
]
turn p closes_writer = (close_writer p, [], [])
turn p closes_reader = (close_reader p, [], [])
turn p cancels = (cancel_pipe p, [], [])

-- Any interleaving of the threads.
unfoldable pub run : Pipe → List Turn → Pipe × Text × Text
run p [] = (p, [], [])
run p (t ∷ ts) =
    let (p', taken, given) = turn p t in
    let (q, more_taken, more_given) = run p' ts in (q, taken ++ more_taken, given ++ more_given)

-- `writePipe`: rounds until all is written. Before each round the other threads take turns; the
-- schedule is the list of those. It returns the bytes taken in and those given out by all.
pub data WriteStatus : Type 0 where
  waiting failed : WriteStatus
  written : ℕ → WriteStatus

-- A round, with what is left of the source and the bytes written so far.
unfoldable pub write_pipe : List (List Turn) → Pipe → Text → ℕ → WriteStatus × Pipe × Text × Text
write_pipe schedule p [] done = (written done, p, [], [])
write_pipe [] p (b ∷ bs) done = (waiting, p, [], [])
write_pipe (others ∷ schedule) p (b ∷ bs) done =
    let (p', taken, given) = run p others in
    elim (write_round p' (b ∷ bs)) [
      | blocked ↦
          (let (s, q, t, g) = write_pipe schedule p' (b ∷ bs) done in
            (s, q, taken ++ t, given ++ g))
      | refused ↦ (failed, p', taken, given)
      | copied count p₂ ↦
          (let (s, q, t, g) = write_pipe schedule p₂ (drop count (b ∷ bs)) (done + count) in
            (s, q, taken ++ (take count (b ∷ bs) ++ t), given ++ g))
    ]
