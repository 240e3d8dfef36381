-- ===== src/Pipe/System/Invariant.antt =====
-- The invariant of a pipe and its endpoints: every call keeps it.
use scarlet.Common.{
  ◌==◌, if◌then◌else◌, if_cases, length, All, usize_mod, ℕ, zero, suc, ◌+◌, ◌≤◌, ◌<◌, ◌≡◌, refl, ap,
  subst, ◌∙◌, Bool, not, ◌&&◌, Option, none, some, List, [], ◌∷◌, arith,
}
use scarlet.Pipe.{
  PipeEndpoint, new_state, decrement, new_endpoint, clone, drop_endpoint, Result, read, write,
  create_pair,
}
use scarlet.Pipe.Write.{Bounded}
use scarlet.Pipe.System.{
  System, Call, reads, writes, clones_end, drops_end, end_at, without, on_end, target, step, run,
  open_pair,
}
use scarlet.Pipe.System.Kept.{Kept, read-Kept, write-Kept}

abbrev pub count : (PipeEndpoint → Bool) → List PipeEndpoint → ℕ
count p [] = 0
count p (e ∷ rest) = if p e then suc (count p rest) else count p rest

abbrev pub readers : List PipeEndpoint → ℕ
readers = count (λ e. e.can_read)

abbrev pub writers : List PipeEndpoint → ℕ
writers = count (λ e. e.can_write)

abbrev pub OneWay : PipeEndpoint → Type 0
OneWay e = e.can_write ≡ not e.can_read

-- The counts of the state are those of the open endpoints, each of which can do one thing; the pipe
-- is closed exactly when none is left, and then empty; the buffer keeps its bound.
pub record IsValid (y : System) : Type 0 where
  pub reader_count : y.state.reader_count ≡ readers y.ends
  pub writer_count : y.state.writer_count ≡ writers y.ends
  pub one_way : All OneWay y.ends
  pub closed_iff : y.state.is_closed ≡ (length y.ends == 0)
  pub bounded : Bounded y.state

-- What is known of an endpoint that is there, and of the rest.
pub record Picked (ends : List PipeEndpoint) (i : ℕ) (e : PipeEndpoint) : Type 0 where
  pub is_one_way : OneWay e
  pub some_readers :
      readers ends
      ≡ (if e.can_read then suc (readers (without ends i)) else readers (without ends i))
  pub some_writers :
      writers ends
      ≡ (if e.can_write then suc (writers (without ends i)) else writers (without ends i))
  pub one_less : length ends ≡ suc (length (without ends i))
  pub rest_one_way : All OneWay (without ends i)

pub end_at-Picked :
    (ends : List PipeEndpoint) (i : ℕ) (e : PipeEndpoint)
    → All OneWay ends
    → end_at ends i ≡ some e
    → Picked ends i e
end_at-Picked [] i e v h = cc
end_at-Picked (x ∷ rest) zero e v h = subst (Picked (x ∷ rest) 0) (some_inj h) (record {
  is_one_way = v.0;
  some_readers = refl;
  some_writers = refl;
  one_less = refl;
  rest_one_way = v.1;
})
  where
    some_inj : some x ≡ some e → x ≡ e
    some_inj p = cc
end_at-Picked (x ∷ rest) (suc i) e v h =
    let p = end_at-Picked rest i e v.1 h in
    record {
      is_one_way = p.is_one_way;
      some_readers = ground (arith, p.some_readers);
      some_writers = ground (arith, p.some_writers);
      one_less = ap suc p.one_less;
      rest_one_way = (v.0, p.rest_one_way);
    }

-- Every endpoint reads or writes.
pub count-OneWay :
    (ends : List PipeEndpoint) → All OneWay ends → readers ends + writers ends ≡ length ends
count-OneWay [] v = omega arith
count-OneWay (e ∷ rest) v = ground (arith, v.0, count-OneWay rest v.1)

-- A pipe is valid again after a call that kept what `Kept` says.
Kept-IsValid :
    (y : System) (r : Result) → IsValid y → Kept y.state r → IsValid (record y { state = r.state })
Kept-IsValid y r v k = record {
  reader_count = k.same_readers ∙ v.reader_count;
  writer_count = k.same_writers ∙ v.writer_count;
  one_way = v.one_way;
  closed_iff = k.same_closed ∙ v.closed_iff;
  bounded = record {
    within_size = omega (arith, k.bound, k.same_size);
    size_small = omega (arith, k.same_size, v.bounded.size_small);
  };
}

drop-IsValid :
    (y : System) (i : ℕ) (e : PipeEndpoint)
    → IsValid y
    → Picked y.ends i e
    → IsValid (record { state = drop_endpoint y.state e; ends = without y.ends i })
unfolding drop_endpoint
drop-IsValid y i e v p =
    if_cases (λ s. IsValid (record { state = s; ends = without y.ends i })) last _ _
      (λ h. record {
        reader_count = fewer_readers;
        writer_count = fewer_writers;
        one_way = p.rest_one_way;
        closed_iff = ground (arith, h, fewer_readers, fewer_writers, total);
        bounded = record { within_size = omega arith; size_small = v.bounded.size_small };
      })
      (λ h. record {
        reader_count = fewer_readers;
        writer_count = fewer_writers;
        one_way = p.rest_one_way;
        closed_iff =
            ground (arith, h, fewer_readers, fewer_writers, total, v.closed_iff, p.one_less);
        bounded = record { within_size = v.bounded.within_size; size_small = v.bounded.size_small };
      })
  where
    last : Bool
    last =
        decrement e.can_read y.state.reader_count == 0
        && decrement e.can_write y.state.writer_count == 0

    fewer_readers : decrement e.can_read y.state.reader_count ≡ readers (without y.ends i)
    fewer_readers = ground (arith, v.reader_count, p.some_readers)

    fewer_writers : decrement e.can_write y.state.writer_count ≡ writers (without y.ends i)
    fewer_writers = ground (arith, v.writer_count, p.some_writers)

    total : readers (without y.ends i) + writers (without y.ends i) ≡ length (without y.ends i)
    total = count-OneWay (without y.ends i) p.rest_one_way

clone-IsValid :
    (y : System) (i : ℕ) (e : PipeEndpoint)
    → IsValid y
    → Picked y.ends i e
    → length y.ends + 1 < usize_mod
    → IsValid (record { state = (clone y.state e).0; ends = (clone y.state e).1 ∷ y.ends })
unfolding clone
clone-IsValid y i e v p small = record {
  reader_count = ground (arith, v.reader_count, total, small);
  writer_count = ground (arith, v.writer_count, total, small);
  one_way = (p.is_one_way, v.one_way);
  closed_iff = ground (arith, v.closed_iff, p.one_less);
  bounded = record { within_size = v.bounded.within_size; size_small = v.bounded.size_small };
}
  where
    total : readers y.ends + writers y.ends ≡ length y.ends
    total = count-OneWay y.ends v.one_way

pub step-IsValid :
    (y : System) (c : Call)
    → IsValid y
    → length y.ends + 1 < usize_mod
    → IsValid (step y c).system × (length (step y c).system.ends ≤ length y.ends + 1)
unfolding step
step-IsValid y c v small = by_end c (end_at y.ends (target c)) (end_at-Picked y.ends (target c))
  where
    by_end :
        (c : Call) (o : Option PipeEndpoint)
        → ((e : PipeEndpoint) → All OneWay y.ends → o ≡ some e → Picked y.ends (target c) e)
        → IsValid (on_end y c o).system × (length (on_end y c o).system.ends ≤ length y.ends + 1)
    by_end c none p = (v, omega arith)
    by_end (reads task i len) (some e) p = (
      Kept-IsValid y (read task e len y.state) v (read-Kept task e len y.state v.bounded),
      omega arith,
    )
    by_end (writes task i bytes) (some e) p = (
      Kept-IsValid y (write task e bytes y.state) v (write-Kept task e bytes y.state v.bounded),
      omega arith,
    )
    by_end (clones_end i) (some e) p =
        (clone-IsValid y i e v (p e v.one_way refl) small, omega arith)
    by_end (drops_end i) (some e) p =
        let q = p e v.one_way refl in (drop-IsValid y i e v q, omega (arith, q.one_less))

-- Whatever calls follow, the counts stay those of the open endpoints, the pipe is closed exactly
-- when its last endpoint is gone, and the buffer never outgrows its size; as long as the endpoints
-- could not be more than a machine word counts.
pub run-IsValid :
    (y : System) (calls : List Call)
    → IsValid y
    → length y.ends + length calls < usize_mod
    → IsValid (run y calls).system
unfolding run
run-IsValid y [] v h = v
run-IsValid y (c ∷ calls) v h =
    let (w, more) = step-IsValid y c v (omega arith) in
    run-IsValid (step y c).system calls w (omega (arith, more))

-- A new pair is valid.
pub open_pair-IsValid : (size : ℕ) → size < usize_mod → IsValid (open_pair size)
unfolding open_pair create_pair new_endpoint new_state
open_pair-IsValid size h = record {
  reader_count = refl;
  writer_count = refl;
  one_way = (refl, (refl, tt));
  closed_iff = refl;
  bounded = record { within_size = omega arith; size_small = h };
}
