-- ===== src/Pipe/System/Kept.antt =====
-- What `read` and `write` leave as it was.
use scarlet.Common.{
  ltb, ◌==◌, if_both, length, take, drop, length-append, length-take, length-drop, ℕ, ◌≤◌, min, ◌≡◌,
  refl, not, Option, none, some, List, [], ◌++◌, arith,
}
use scarlet.Pipe.{
  would_block, closed, not_supported, broken_pipe, PipeState, PipeEndpoint, sub_usize, Outcome,
  returns, accepts, fails, Result, stays, wait_to_read, wait_to_write, read, write,
}
use scarlet.Pipe.Write.{Bounded}

-- What every call keeps: the counts, the size, the mark of a closed pipe, and the bound.
pub record Kept (s : PipeState) (r : Result) : Type 0 where
  pub same_size : r.state.max_size ≡ s.max_size
  pub same_readers : r.state.reader_count ≡ s.reader_count
  pub same_writers : r.state.writer_count ≡ s.writer_count
  pub same_closed : r.state.is_closed ≡ s.is_closed
  pub bound : length r.state.buffer ≤ s.max_size

stays-Kept : (s : PipeState) (o : Outcome) → Bounded s → Kept s (stays s o)
stays-Kept s o v = record {
  same_size = refl;
  same_readers = refl;
  same_writers = refl;
  same_closed = refl;
  bound = v.within_size;
}

pub read-Kept :
    (task : Option ℕ) (e : PipeEndpoint) (len : ℕ) (s : PipeState)
    → Bounded s
    → Kept s (read task e len s)
unfolding read wait_to_read
read-Kept task e len s v =
    if_both (Kept s) (not e.can_read) _ _ (stays-Kept s (fails not_supported) v) (
      if_both (Kept s) s.is_closed _ _ (stays-Kept s (fails closed) v) (
        if_both (Kept s) (length s.buffer == 0) _ _
          (if_both (Kept s) (s.writer_count == 0) _ _ (stays-Kept s (returns []) v) (sleeps task))
          (if_both (Kept s) (ltb 0 (min len (length s.buffer))) _ _ (shorter [] s.write_waker)
            (shorter s.write_waker []))))
  where
    sleeps : (t : Option ℕ) → Kept s (wait_to_read t s)
    sleeps none = stays-Kept s _ v
    sleeps (some t) = record {
      same_size = refl;
      same_readers = refl;
      same_writers = refl;
      same_closed = refl;
      bound = v.within_size;
    }

    shorter :
        (w woken : List ℕ)
        → Kept s (record {
          state = record s { buffer = drop (min len (length s.buffer)) s.buffer; write_waker = w };
          outcome = returns (take (min len (length s.buffer)) s.buffer);
          woken = woken;
        })
    shorter w woken = record {
      same_size = refl;
      same_readers = refl;
      same_writers = refl;
      same_closed = refl;
      bound = omega (arith, length-drop (min len (length s.buffer)) s.buffer, v.within_size);
    }

pub write-Kept :
    (task : Option ℕ) (e : PipeEndpoint) (bytes : List ℕ) (s : PipeState)
    → Bounded s
    → Kept s (write task e bytes s)
unfolding write wait_to_write
write-Kept task e bytes s v =
    if_both (Kept s) (not e.can_write) _ _ (stays-Kept s (fails not_supported) v) (
      if_both (Kept s) s.is_closed _ _ (stays-Kept s (fails closed) v) (
        if_both (Kept s) (s.reader_count == 0) _ _ (stays-Kept s (fails broken_pipe) v) (
          if_both (Kept s) (sub_usize s.max_size (length s.buffer) == 0) _ _ (sleeps task) (
            if_both (Kept s) (ltb 0 (min (length bytes) (sub_usize s.max_size (length s.buffer)))) _
              _ (longer [] s.read_waker) (longer s.read_waker [])))))
  where
    n : ℕ
    n = min (length bytes) (sub_usize s.max_size (length s.buffer))

    sleeps : (t : Option ℕ) → Kept s (wait_to_write t s)
    sleeps none = stays-Kept s (fails would_block) v
    sleeps (some t) = record {
      same_size = refl;
      same_readers = refl;
      same_writers = refl;
      same_closed = refl;
      bound = v.within_size;
    }

    longer :
        (w woken : List ℕ)
        → Kept s (record {
          state = record s { buffer = s.buffer ++ take n bytes; read_waker = w };
          outcome = accepts n;
          woken = woken;
        })
    longer w woken = record {
      same_size = refl;
      same_readers = refl;
      same_writers = refl;
      same_closed = refl;
      bound = omega (
        arith,
        length-append s.buffer (take n bytes),
        length-take n bytes,
        v.within_size,
        v.size_small,
      );
    }
