-- ===== src/Pipe/System/Order.antt =====
-- The bytes come out in the order in which they went in.
use scarlet.Common.{
  ltb, ◌==◌, if_both, length, take, drop, take-append-drop, usize_mod, ℕ, ◌+◌, ◌<◌, min, ◌≡◌, refl,
  sym, ap, subst, ◌∙◌, ◌⊎◌, inl, inr, true, not, ◌&&◌, Option, none, some, List, [], ◌∷◌, ◌++◌,
  append-nil, append_assoc, arith,
}
use scarlet.Pipe.{
  closed, not_supported, broken_pipe, PipeState, PipeEndpoint, decrement, sub_usize, clone,
  drop_endpoint, Outcome, returns, accepts, fails, Result, stays, wait_to_read, wait_to_write, read,
  write,
}
use scarlet.Pipe.System.{
  System, Call, reads, writes, clones_end, drops_end, end_at, Step, sent_by, got_by, on_end, target,
  step, run,
}
use scarlet.Pipe.System.Invariant.{IsValid, step-IsValid}

-- What was in the buffer and what was sent is what was received and what is left; while the pipe is
-- not closed, what is left is in the buffer.
abbrev pub InOrder : PipeState → Step → Type 0
InOrder s t =
    (left : List ℕ) × (s.buffer ++ t.sent ≡ t.got ++ left)
    × ((t.system.state.is_closed ≡ true) ⊎ (left ≡ t.system.state.buffer))

record Split (s : PipeState) (r : Result) : Type 0 where
  taken_out : s.buffer ≡ got_by r.outcome ++ r.state.buffer

read-Split :
    (task : Option ℕ) (e : PipeEndpoint) (len : ℕ) (s : PipeState) → Split s (read task e len s)
unfolding read wait_to_read got_by
read-Split task e len s =
    if_both (Split s) (not e.can_read) _ _ (stays_split (fails not_supported) refl) (
      if_both (Split s) s.is_closed _ _ (stays_split (fails closed) refl) (
        if_both (Split s) (length s.buffer == 0) _ _
          (if_both (Split s) (s.writer_count == 0) _ _ (stays_split (returns []) refl)
            (sleeps task))
          (if_both (Split s) (ltb 0 n) _ _ (takes [] s.write_waker) (takes s.write_waker []))))
  where
    n : ℕ
    n = min len (length s.buffer)

    stays_split : (o : Outcome) → got_by o ≡ [] → Split s (stays s o)
    stays_split o h = record { taken_out = ap (λ x. x ++ s.buffer) (sym h) }

    takes :
        (w woken : List ℕ)
        → Split s (record {
          state = record s { buffer = drop n s.buffer; write_waker = w };
          outcome = returns (take n s.buffer);
          woken = woken;
        })
    takes w woken = record { taken_out = sym (take-append-drop n s.buffer) }

    sleeps : (t : Option ℕ) → Split s (wait_to_read t s)
    sleeps none = record { taken_out = refl }
    sleeps (some t) = record { taken_out = refl }

record Joined (bytes : List ℕ) (s : PipeState) (r : Result) : Type 0 where
  put_in : s.buffer ++ sent_by bytes r.outcome ≡ r.state.buffer

write-Joined :
    (task : Option ℕ) (e : PipeEndpoint) (bytes : List ℕ) (s : PipeState)
    → Joined bytes s (write task e bytes s)
unfolding write wait_to_write sent_by
write-Joined task e bytes s =
    if_both P (not e.can_write) _ _ (stays_joined (fails not_supported) refl) (
      if_both P s.is_closed _ _ (stays_joined (fails closed) refl) (
        if_both P (s.reader_count == 0) _ _ (stays_joined (fails broken_pipe) refl) (
          if_both P (sub_usize s.max_size (length s.buffer) == 0) _ _ (sleeps task)
            (if_both P (ltb 0 n) _ _ (puts [] s.read_waker) (puts s.read_waker [])))))
  where
    n : ℕ
    n = min (length bytes) (sub_usize s.max_size (length s.buffer))

    P : Result → Type 0
    P = Joined bytes s

    stays_joined : (o : Outcome) → sent_by bytes o ≡ [] → Joined bytes s (stays s o)
    stays_joined o h = record { put_in = ap (◌++◌ s.buffer) h ∙ append-nil s.buffer }

    puts :
        (w woken : List ℕ)
        → Joined bytes s (record {
          state = record s { buffer = s.buffer ++ take n bytes; read_waker = w };
          outcome = accepts n;
          woken = woken;
        })
    puts w woken = record { put_in = refl }

    sleeps : (t : Option ℕ) → Joined bytes s (wait_to_write t s)
    sleeps none = record { put_in = append-nil s.buffer }
    sleeps (some t) = record { put_in = append-nil s.buffer }

drop-keeps :
    (s : PipeState) (e : PipeEndpoint)
    → ((drop_endpoint s e).is_closed ≡ true) ⊎ (s.buffer ≡ (drop_endpoint s e).buffer)
unfolding drop_endpoint
drop-keeps s e =
    if_both (λ (x : PipeState). (x.is_closed ≡ true) ⊎ (s.buffer ≡ x.buffer))
      (decrement e.can_read s.reader_count == 0 && decrement e.can_write s.writer_count == 0) _ _
      (inl refl) (inr refl)

step-InOrder : (y : System) (c : Call) → InOrder y.state (step y c)
unfolding step got_by sent_by clone
step-InOrder y c = by_end c (end_at y.ends (target c))
  where
    by_end : (c : Call) (o : Option PipeEndpoint) → InOrder y.state (on_end y c o)
    by_end c none = (y.state.buffer, append-nil y.state.buffer, inr refl)
    by_end (reads task i len) (some e) = (
      (read task e len y.state).state.buffer,
      append-nil y.state.buffer ∙ (read-Split task e len y.state).taken_out,
      inr refl,
    )
    by_end (writes task i bytes) (some e) = (
      (write task e bytes y.state).state.buffer,
      (write-Joined task e bytes y.state).put_in,
      inr refl,
    )
    by_end (clones_end i) (some e) = (y.state.buffer, append-nil y.state.buffer, inr refl)
    by_end (drops_end i) (some e) =
        (y.state.buffer, append-nil y.state.buffer, drop-keeps y.state e)

-- With no endpoint left nothing can be called.
run-no_ends :
    (y : System) (calls : List Call)
    → y.ends ≡ []
    → run y calls ≡ record { system = y; sent = []; got = [] }
unfolding run step
run-no_ends y [] h = refl
run-no_ends y (c ∷ calls) h = rw (nothing, run) (rw (run-no_ends y calls h) refl)
  where
    nothing : step y c ≡ record { system = y; sent = []; got = [] }
    nothing = ap (on_end y c) (ap (λ es. end_at es (target c)) h)

no_ends : (ends : List PipeEndpoint) → (length ends == 0) ≡ true → ends ≡ []
no_ends [] h = refl
no_ends (e ∷ rest) h = ground (arith, h)

abbrev after : Step → Step → Step
after t u = record { system = u.system; sent = t.sent ++ u.sent; got = t.got ++ u.got }

-- Through any sequence of calls on a pipe, by any of its endpoints and their clones, the bytes
-- delivered are a prefix of the bytes accepted, in the same order and none twice, lost or made up;
-- as long as an endpoint is left, what is accepted and not delivered is what the buffer holds.
pub run-InOrder :
    (y : System) (calls : List Call)
    → IsValid y
    → length y.ends + length calls < usize_mod
    → InOrder y.state (run y calls)
unfolding run
run-InOrder y [] v h = (y.state.buffer, append-nil y.state.buffer, inr refl)
run-InOrder y (c ∷ calls) v h =
    let (w, more) = step-IsValid y c v (omega arith) in
    join (step-InOrder y c) w (run-InOrder (step y c).system calls w (omega (arith, more)))
  where
    joined :
        (left : List ℕ)
        → y.state.buffer ++ (step y c).sent ≡ (step y c).got ++ left
        → left ≡ (step y c).system.state.buffer
        → (left' : List ℕ)
        → (step y c).system.state.buffer ++ (run (step y c).system calls).sent
          ≡ (run (step y c).system calls).got ++ left'
        → y.state.buffer ++ ((step y c).sent ++ (run (step y c).system calls).sent)
          ≡ ((step y c).got ++ (run (step y c).system calls).got) ++ left'
    joined left e b left' e' =
        sym (append_assoc y.state.buffer (step y c).sent (run (step y c).system calls).sent)
        ∙ ap (λ x. x ++ (run (step y c).system calls).sent) (e ∙ ap (◌++◌ (step y c).got) b)
        ∙ append_assoc (step y c).got (step y c).system.state.buffer
            (run (step y c).system calls).sent
        ∙ ap (◌++◌ (step y c).got) e'
        ∙ sym (append_assoc (step y c).got (run (step y c).system calls).got left')

    join :
        InOrder y.state (step y c)
        → IsValid (step y c).system
        → InOrder (step y c).system.state (run (step y c).system calls)
        → InOrder y.state (run y (c ∷ calls))
    join (left, e, buf) w rest = elim buf [
      | inr b ↦ (rest.0, joined left e b rest.0 rest.1, rest.2)
      | inl shut ↦
          subst (λ t. InOrder y.state (after (step y c) t))
            (sym (run-no_ends (step y c).system calls (no_ends _ (sym w.closed_iff ∙ shut))))
            (left, rw (append-nil (step y c).sent, append-nil (step y c).got) e, inl shut)
    ]
