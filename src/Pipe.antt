-- ===== src/Pipe.antt =====
-- kernel/src/ipc/pipe.rs: a pipe's shared state and its endpoints; the wait queues are those of
-- kernel/src/sync/waker.rs. The operations of an endpoint take the shared state that its lock
-- guards. A call that goes to sleep ends here with `waits`: the source then calls itself again.
pub mod Read
pub mod Write
pub mod System
mod Tests
use scarlet.Common.{
  ltb, ◌==◌, if◌then◌else◌, length, take, drop, usize_mod, ℕ, ◌+◌, ◌-◌, ◌%◌, min, Bool, true, false,
  not, ◌&&◌, ◌||◌, Option, none, some, List, [], ◌∷◌, ◌++◌,
}

pub data StreamError : Type 0 where
  io_error end_of_stream would_block closed invalid_argument interrupted : StreamError
  permission_denied device_error not_supported no_space broken_pipe seek_error : StreamError
  file_system_error : ℕ → StreamError
  other : List ℕ → StreamError

-- The two wakers are their queues of waiting tasks.
pub record PipeState : Type 0 where
  pub buffer : List ℕ
  pub max_size : ℕ
  pub reader_count : ℕ
  pub writer_count : ℕ
  pub is_closed : Bool
  pub read_waker : List ℕ
  pub write_waker : List ℕ

-- The names are `unidirectional_read` and `unidirectional_write`, with `_clone` added `clones`
-- times.
pub record PipeEndpoint : Type 0 where
  pub can_read : Bool
  pub can_write : Bool
  pub clones : ℕ

unfoldable pub new_state : ℕ → PipeState
new_state buffer_size = record {
  buffer = [];
  max_size = buffer_size;
  reader_count = 0;
  writer_count = 0;
  is_closed = false;
  read_waker = [];
  write_waker = [];
}

-- `usize` arithmetic, as a release build wraps it; `saturating_sub` is subtraction on ℕ.
abbrev pub increment : Bool → ℕ → ℕ
increment b n = if b then (n + 1) % usize_mod else n

abbrev pub decrement : Bool → ℕ → ℕ
decrement b n = if b then n - 1 else n

abbrev pub sub_usize : ℕ → ℕ → ℕ
sub_usize a b = (a + usize_mod - b) % usize_mod

-- An endpoint enters the counts of the state.
abbrev pub register : PipeState → Bool → Bool → PipeState
register s can_read can_write = record s {
  reader_count = increment can_read s.reader_count;
  writer_count = increment can_write s.writer_count;
}

unfoldable pub new_endpoint : PipeState → Bool → Bool → PipeState × PipeEndpoint
new_endpoint s can_read can_write = (
  register s can_read can_write,
  record { can_read = can_read; can_write = can_write; clones = 0 },
)

unfoldable pub clone : PipeState → PipeEndpoint → PipeState × PipeEndpoint
clone s e = (register s e.can_read e.can_write, record e { clones = e.clones + 1 })

unfoldable pub drop_endpoint : PipeState → PipeEndpoint → PipeState
drop_endpoint s e =
    let readers = decrement e.can_read s.reader_count in
    let writers = decrement e.can_write s.writer_count in
    let s' = record s { reader_count = readers; writer_count = writers } in
    if readers == 0 && writers == 0 then record s' { is_closed = true; buffer = [] } else s'

-- What a call came to. `woken` in a result below are the tasks given to the scheduler to wake.
pub data Outcome : Type 0 where
  returns : List ℕ → Outcome
  accepts : ℕ → Outcome
  fails : StreamError → Outcome
  waits : Outcome

pub record Result : Type 0 where
  pub state : PipeState
  pub outcome : Outcome
  pub woken : List ℕ

abbrev pub stays : PipeState → Outcome → Result
stays s o = record { state = s; outcome = o; woken = [] }

wait_to_read : Option ℕ → PipeState → Result
wait_to_read none s = stays s (fails would_block)
wait_to_read (some task) s = stays (record s { read_waker = s.read_waker ++ task ∷ [] }) waits

wait_to_write : Option ℕ → PipeState → Result
wait_to_write none s = stays s (fails would_block)
wait_to_write (some task) s = stays (record s { write_waker = s.write_waker ++ task ∷ [] }) waits

-- `n` bytes leave the buffer, and the tasks that wait to write are woken if there are any bytes.
abbrev pub consume : PipeState → ℕ → Result
consume s n =
    let rest = record s { buffer = drop n s.buffer } in
    if ltb 0 n
    then record {
      state = record rest { write_waker = [] };
      outcome = returns (take n s.buffer);
      woken = s.write_waker;
    }
    else stays rest (returns (take n s.buffer))

-- `read` into a buffer of `len` bytes, by the task whose number is given.
unfoldable pub read : Option ℕ → PipeEndpoint → ℕ → PipeState → Result
unfolding wait_to_read
read task e len s =
    if not e.can_read
    then stays s (fails not_supported)
    else if s.is_closed
    then stays s (fails closed)
    else if length s.buffer == 0
    then (if s.writer_count == 0 then stays s (returns []) else wait_to_read task s)
    else consume s (min len (length s.buffer))

-- The first `n` bytes enter the buffer, and the tasks that wait to read are woken if there are any.
abbrev pub produce : PipeState → List ℕ → ℕ → Result
produce s bytes n =
    let more = record s { buffer = s.buffer ++ take n bytes } in
    if ltb 0 n
    then record {
      state = record more { read_waker = [] };
      outcome = accepts n;
      woken = s.read_waker;
    }
    else stays more (accepts n)

unfoldable pub write : Option ℕ → PipeEndpoint → List ℕ → PipeState → Result
unfolding wait_to_write
write task e bytes s =
    let available_space = sub_usize s.max_size (length s.buffer) in
    if not e.can_write
    then stays s (fails not_supported)
    else if s.is_closed
    then stays s (fails closed)
    else if s.reader_count == 0
    then stays s (fails broken_pipe)
    else if available_space == 0
    then wait_to_write task s
    else produce s bytes (min (length bytes) available_space)

unfoldable pub is_connected : PipeState → Bool
is_connected s = not s.is_closed && (ltb 0 s.reader_count || ltb 0 s.writer_count)

-- `PipeEndpoint::peer_count`, for which an endpoint that can do both counts all but two.
unfoldable pub peer_count : PipeEndpoint → PipeState → ℕ
peer_count e s =
    if e.can_read
    then (if e.can_write then (s.reader_count + s.writer_count) % usize_mod - 2 else s.writer_count)
    else (if e.can_write then s.reader_count else 0)

-- `UnidirectionalPipe::peer_count`
unfoldable pub unidirectional_peer_count : PipeEndpoint → PipeState → ℕ
unidirectional_peer_count e s =
    if e.can_read
    then (if e.can_write then 0 else s.writer_count)
    else (if e.can_write then s.reader_count else 0)

unfoldable pub has_readers : PipeState → Bool
has_readers s = ltb 0 s.reader_count

unfoldable pub has_writers : PipeState → Bool
has_writers s = ltb 0 s.writer_count

unfoldable pub buffer_size : PipeState → ℕ
buffer_size s = s.max_size

unfoldable pub available_bytes : PipeState → ℕ
available_bytes s = length s.buffer

-- `UnidirectionalPipe::create_pair`: the shared state, the end to read from and the end to write to.
unfoldable pub create_pair : ℕ → PipeState × PipeEndpoint × PipeEndpoint
unfolding new_state new_endpoint
create_pair size =
    let (s, read_end) = new_endpoint (new_state size) true false in
    let (s', write_end) = new_endpoint s false true in (s', read_end, write_end)
