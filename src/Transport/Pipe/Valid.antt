-- ===== src/Transport/Pipe/Valid.antt =====
-- The ring's invariant, which every turn of every thread keeps.
use tracy_query.Prelude.{
  u64_mod, length-replicate, length-copy_to, ℕ, ◌+◌, ◌-◌, ◌^◌, ◌≤◌, ◌<◌, List, [], ◌∷◌, arith, Text,
  length, take,
}
use tracy_query.Transport.Pipe.{
  Pipe, new_pipe, capacity_of, close_writer, close_reader, cancel_pipe, tail_of, write_count,
  write_round, read_count, read_round, Turn, writes, reads, closes_writer, closes_reader, cancels,
  turn, run,
}

-- The largest capacity that `Configure` accepts.
abbrev pub int_max : ℕ
int_max = 2 ^ 31 - 1

pub record IsValid (p : Pipe) : Type 0 where
  pub positive : 0 < capacity_of p
  pub small : capacity_of p ≤ int_max
  pub head_in : p.head < capacity_of p
  pub size_in : p.size ≤ capacity_of p
  pub seen : p.size ≤ p.high_water
  pub bounded : p.high_water ≤ capacity_of p
  pub counted : p.transferred < u64_mod

pub new_pipe-IsValid :
    (capacity : ℕ) → 0 < capacity → capacity ≤ int_max → IsValid (new_pipe capacity)
unfolding new_pipe
new_pipe-IsValid capacity h k = ground (arith, length-replicate capacity (let z : ℕ = 0 in z))

-- In a valid pipe a writer's round starts and ends inside the storage, copies no more than the room
-- and no more than it is given.
pub write_in_bounds :
    (p : Pipe) (n : ℕ)
    → IsValid p
    → (tail_of p < capacity_of p)
      × (tail_of p + write_count p n ≤ capacity_of p)
      × (p.size + write_count p n ≤ capacity_of p)
      × (write_count p n ≤ n)
write_in_bounds p n v = omega arith

pub read_in_bounds :
    (p : Pipe) (n : ℕ)
    → IsValid p
    → (p.head + read_count p n ≤ capacity_of p) × (read_count p n ≤ p.size) × (read_count p n ≤ n)
read_in_bounds p n v = omega arith

write-IsValid : (p : Pipe) (s : Text) → IsValid p → IsValid (turn p (writes s)).0
unfolding turn write_round
write-IsValid p s v = ground (
  arith,
  length-copy_to p.storage (tail_of p) (take (write_count p (length s)) s),
  write_in_bounds p (length s) v,
)

read-IsValid : (p : Pipe) (n : ℕ) → IsValid p → IsValid (turn p (reads n)).0
unfolding turn read_round
read-IsValid p n v = ground (arith, read_in_bounds p n v)

-- Every turn keeps the invariant.
pub turn-IsValid : (p : Pipe) (t : Turn) → IsValid p → IsValid (turn p t).0
unfolding turn close_writer close_reader cancel_pipe
turn-IsValid p (writes s) v = write-IsValid p s v
turn-IsValid p (reads n) v = read-IsValid p n v
turn-IsValid p closes_writer v = ground arith
turn-IsValid p closes_reader v = ground arith
turn-IsValid p cancels v = ground arith

-- From a valid pipe, any interleaving of the threads' turns leads to a valid pipe.
pub run-IsValid : (p : Pipe) (ts : List Turn) → IsValid p → IsValid (run p ts).0
unfolding run
run-IsValid p [] v = v
run-IsValid p (t ∷ ts) v = run-IsValid (turn p t).0 ts (turn-IsValid p t v)
