-- ===== src/Transport/Pipe/Fifo.antt =====
-- The ring refines a queue: what goes in comes out, in order, whatever the threads' interleaving.
use tracy_query.Prelude.{
  add_u64, copy_to, tabulate, length-copy_to, get_or-copy_to_outside, get_or-copy_to_inside,
  tabulate-ext, tabulate-append, tabulate-get_or, take-drop, ℕ, ◌+◌, ◌-◌, ◌%◌, ◌≤◌, ◌<◌, ◌≡◌, refl,
  sym, ap, ap₂, ◌∙◌, List, [], ◌∷◌, ◌++◌, append_assoc, append-nil, arith, ltb, if◌then◌else◌,
  Bool-cases, Text, length, get_or, take, drop, length-take, ◌⊎◌, inl, inr, ltb→lt,
}
use native.Mathlib.Nat.{mod-eq_of_lt, mod-eq-sub-mod, mod-add-mod}
use tracy_query.Transport.Pipe.{
  Pipe, close_writer, close_reader, cancel_pipe, WriteRound, blocked, refused, copied, write_count,
  write_round, ReadRound, not_ready, received, read_count, read_round, Turn, writes, reads,
  closes_writer, closes_reader, cancels, turn, run,
}
use tracy_query.Transport.Pipe.Valid.{
  IsValid, int_max, write_in_bounds, read_in_bounds, turn-IsValid,
}

-- `n` bytes of a ring from index `h` on.
unfoldable pub window : Text → ℕ → ℕ → Text
window s h n = tabulate n (λ k. get_or s ((h + k) % length s) 0)

-- The bytes that a pipe holds, oldest first.
unfoldable pub contents : Pipe → Text
contents p = window p.storage p.head p.size

-- An index past the end goes round once.
wrap : (x c : ℕ) → x < c + c → x % c ≡ (if ltb x c then x else x - c)
wrap x c h = elim (Bool-cases (ltb x c)) [
  | inl lt ↦ rw lt (mod-eq_of_lt (ltb→lt x c lt))
  | inr ge ↦ rw ge (
      mod-eq-sub-mod {n = x} {m = c} (ground arith)
      ∙ mod-eq_of_lt {n = x - c} {m = c} (ground arith))
]

module _ (head size n c : ℕ) (h : head < c) (s : size + n ≤ c) (small : c ≤ int_max) where
  abbrev tail : ℕ
  tail = add_u64 head size % c

  before : (k : ℕ) → k < size → tail + n ≤ c → let j = (head + k) % c in (j < tail) ⊎ (tail + n ≤ j)
  before k lt fits = ground (arith, wrap (head + k) c, wrap (head + size) c)

  within : (k : ℕ) → tail + k < c → (head + (size + k)) % c ≡ tail + k
  within k lt = ground (arith, wrap (head + (size + k)) c, wrap (head + size) c)

module _ (s : Text) (h size : ℕ) (bs : Text) (inside : h < length s) (small : length s ≤ int_max)
    (fits : size + length bs ≤ length s)
    (stretch : tail h size (length bs) (length s) inside fits small + length bs ≤ length s) where
  abbrev t : ℕ
  t = add_u64 h size % length s

  abbrev s' : Text
  s' = copy_to s t bs

  old_entry :
      (k : ℕ) → k < size → get_or s' ((h + k) % length s') 0 ≡ get_or s ((h + k) % length s) 0
  old_entry k lt = rw (length-copy_to s t bs) (
      get_or-copy_to_outside s t bs _ 0
        (before h size (length bs) (length s) inside fits small k lt stretch))

  new_entry : (k : ℕ) → k < length bs → get_or s' ((h + (size + k)) % length s') 0 ≡ get_or bs k 0
  new_entry k lt =
      rw
        (
          length-copy_to s t bs,
          within h size (length bs) (length s) inside fits small k (omega (arith, stretch)),
        )
        (get_or-copy_to_inside s t bs k 0 lt stretch)

  window_write : window s' h (size + length bs) ≡ window s h size ++ bs
  unfolding window
  window_write =
      sym (tabulate-append size (length bs) _)
      ∙ ap₂ ◌++◌ (tabulate-ext size _ _ old_entry)
          (tabulate-ext (length bs) _ _ new_entry ∙ tabulate-get_or bs 0)

module _ (s : Text) (h size n : ℕ) (inside : h < length s) (some_of : n ≤ size)
    (stretch : h + n ≤ length s) where
  window_read : window s h size ≡ take n (drop h s) ++ window s ((h + n) % length s) (size - n)
  unfolding window
  window_read =
      ap (λ j. tabulate j (λ k. get_or s ((h + k) % length s) 0)) split
      ∙ sym (tabulate-append n (size - n) _)
      ∙ ap₂ ◌++◌
          (tabulate-ext n _ _ (λ k lt. ap (λ j. get_or s j 0) (mod-eq_of_lt (omega arith)))
            ∙ sym (take-drop s h n 0 stretch))
          (tabulate-ext (size - n) _ _ (λ k lt. ap (λ j. get_or s j 0) (sym (regroup k))))
    where
      split : size ≡ n + (size - n)
      split = omega arith

      regroup : (k : ℕ) → ((h + n) % length s + k) % length s ≡ (h + (n + k)) % length s
      regroup k = rw mod-add-mod (ap (λ j. j % length s) (omega arith))

-- A round that copies adds its bytes at the end.
pub write_round-contents :
    (p p' : Pipe) (s : Text) (n : ℕ)
    → IsValid p
    → write_round p s ≡ copied n p'
    → (contents p' ≡ contents p ++ take n s) × (n ≤ length s)
unfolding contents write_round
write_round-contents p p' s n v h =
    let count = write_count p (length s) in
    ground (
      arith,
      length-take count s,
      window_write p.storage p.head p.size (take count s) v.head_in v.small,
      write_in_bounds p (length s) v,
    )

-- What a read returns was at the front.
pub read_round-contents :
    (p p' : Pipe) (n : ℕ) (bytes : Text)
    → IsValid p
    → read_round p n ≡ received bytes p'
    → contents p ≡ bytes ++ contents p'
unfolding contents read_round
read_round-contents p p' n bytes v h =
    ground (arith, window_read p.storage p.head p.size (read_count p n), read_in_bounds p n v)

close_fifo : (p : Pipe) → contents p ++ [] ≡ [] ++ contents p
close_fifo p = append-nil (contents p)

turn_fifo :
    (p : Pipe) (t : Turn)
    → IsValid p
    → let (p', taken, given) = turn p t in contents p ++ taken ≡ given ++ contents p'
unfolding turn contents close_writer close_reader cancel_pipe
turn_fifo p (writes s) v = write_fifo (write_round p s) refl
  where
    write_fifo :
        (r : WriteRound)
        → write_round p s ≡ r
        → let (p', taken, given) = turn p (writes s) in contents p ++ taken ≡ given ++ contents p'
    write_fifo blocked e = rw (e, turn) (append-nil (contents p))
    write_fifo refused e = rw (e, turn) (append-nil (contents p))
    write_fifo (copied n q) e = rw (e, turn) (sym (write_round-contents p q s n v e).0)
turn_fifo p (reads n) v = read_fifo (read_round p n) refl
  where
    read_fifo :
        (r : ReadRound)
        → read_round p n ≡ r
        → let (p', taken, given) = turn p (reads n) in contents p ++ taken ≡ given ++ contents p'
    read_fifo not_ready e = rw (e, turn) (append-nil (contents p))
    read_fifo (received bytes q) e =
        rw (e, turn) (append-nil (contents p) ∙ read_round-contents p q n bytes v e)
turn_fifo p closes_writer v = close_fifo p
turn_fifo p closes_reader v = close_fifo p
turn_fifo p cancels v = close_fifo p

-- From a valid pipe, whatever the interleaving of the threads' turns, the bytes taken in come out
-- once each and in order: what the pipe held and took in is what it gave out and still holds.
pub run_fifo :
    (p : Pipe) (ts : List Turn)
    → IsValid p
    → let (p', taken, given) = run p ts in contents p ++ taken ≡ given ++ contents p'
unfolding run
run_fifo p [] v = append-nil (contents p)
run_fifo p (t ∷ ts) v =
    let (p', taken, given) = turn p t in
    let (q, more_taken, more_given) = run p' ts in
    sym (append_assoc (contents p) taken more_taken)
    ∙ ap (λ b. b ++ more_taken) (turn_fifo p t v)
    ∙ append_assoc given (contents p') more_taken
    ∙ ap (◌++◌ given) (run_fifo p' ts (turn-IsValid p t v))
    ∙ sym (append_assoc given more_given (contents q))
