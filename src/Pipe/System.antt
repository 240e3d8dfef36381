-- ===== src/Pipe/System.antt =====
-- A pipe with the endpoints that are open on it, through any sequence of calls.
pub mod Kept
pub mod Invariant
pub mod Order
pub mod Peers
use scarlet.Common.{take, ℕ, zero, suc, Option, none, some, List, [], ◌∷◌, ◌++◌}
use scarlet.Pipe.{
  PipeState, PipeEndpoint, clone, drop_endpoint, Outcome, returns, accepts, fails, waits, read,
  write, create_pair,
}

pub record System : Type 0 where
  pub state : PipeState
  pub ends : List PipeEndpoint

-- A call on the endpoint with the given number, by a task.
pub data Call : Type 0 where
  reads : Option ℕ → ℕ → ℕ → Call
  writes : Option ℕ → ℕ → List ℕ → Call
  clones_end drops_end : ℕ → Call

abbrev pub end_at : List PipeEndpoint → ℕ → Option PipeEndpoint
end_at [] i = none
end_at (e ∷ rest) zero = some e
end_at (e ∷ rest) (suc i) = end_at rest i

abbrev pub without : List PipeEndpoint → ℕ → List PipeEndpoint
without [] i = []
without (e ∷ rest) zero = rest
without (e ∷ rest) (suc i) = e ∷ without rest i

-- The system after a call, the bytes that the call accepted and the bytes that it delivered.
pub record Step : Type 0 where
  pub system : System
  pub sent : List ℕ
  pub got : List ℕ

pub sent_by : List ℕ → Outcome → List ℕ
sent_by bytes (accepts n) = take n bytes
sent_by bytes (returns _) = []
sent_by bytes (fails _) = []
sent_by bytes waits = []

pub got_by : Outcome → List ℕ
got_by (returns bytes) = bytes
got_by (accepts _) = []
got_by (fails _) = []
got_by waits = []

abbrev pub on_end : System → Call → Option PipeEndpoint → Step
on_end y c none = record { system = y; sent = []; got = [] }
on_end y (reads task i len) (some e) =
    let r = read task e len y.state in
    record { system = record y { state = r.state }; sent = []; got = got_by r.outcome }
on_end y (writes task i bytes) (some e) =
    let r = write task e bytes y.state in
    record { system = record y { state = r.state }; sent = sent_by bytes r.outcome; got = [] }
on_end y (clones_end i) (some e) =
    let (s, e') = clone y.state e in
    record { system = record { state = s; ends = e' ∷ y.ends }; sent = []; got = [] }
on_end y (drops_end i) (some e) = record {
  system = record { state = drop_endpoint y.state e; ends = without y.ends i };
  sent = [];
  got = [];
}

abbrev pub target : Call → ℕ
target (reads task i len) = i
target (writes task i bytes) = i
target (clones_end i) = i
target (drops_end i) = i

-- A call on an endpoint that is not there does nothing.
unfoldable pub step : System → Call → Step
unfolding sent_by got_by
step y c = on_end y c (end_at y.ends (target c))

unfoldable pub run : System → List Call → Step
run y [] = record { system = y; sent = []; got = [] }
run y (c ∷ calls) =
    let first = step y c in
    let rest = run first.system calls in
    record { system = rest.system; sent = first.sent ++ rest.sent; got = first.got ++ rest.got }

unfoldable pub open_pair : ℕ → System
unfolding create_pair
open_pair size =
    let (s, read_end, write_end) = create_pair size in
    record { state = s; ends = read_end ∷ write_end ∷ [] }
