-- ===== src/Pipe/System/Peers.antt =====
-- What an endpoint can learn of its peers.
use scarlet.Common.{ltb, if◌then◌else◌, ℕ, ◌≡◌, ap, true, false, not, ◌&&◌, ◌||◌, some, arith}
use scarlet.Pipe.{
  PipeEndpoint, is_connected, peer_count, unidirectional_peer_count, has_readers, has_writers,
}
use scarlet.Pipe.System.{System, end_at}
use scarlet.Pipe.System.Invariant.{readers, writers, IsValid, Picked, end_at-Picked, count-OneWay}

-- Seen from an open endpoint, `peer_count` is the number of open endpoints at the other side, for
-- both of its versions, `has_readers` and `has_writers` say whether either side is there, and the
-- pipe is connected.
pub peer_count-others :
    (y : System) (i : ℕ) (e : PipeEndpoint)
    → IsValid y
    → end_at y.ends i ≡ some e
    → (peer_count e y.state ≡ (if e.can_read then writers y.ends else readers y.ends))
      × (unidirectional_peer_count e y.state ≡ peer_count e y.state)
      × (has_readers y.state ≡ ltb 0 (readers y.ends))
      × (has_writers y.state ≡ ltb 0 (writers y.ends))
      × (is_connected y.state ≡ true)
unfolding peer_count unidirectional_peer_count is_connected has_readers has_writers
peer_count-others y i e v h = (
  ground (arith, v.reader_count, v.writer_count, p.is_one_way),
  ground (arith, p.is_one_way),
  ap (ltb 0) v.reader_count,
  ap (ltb 0) v.writer_count,
  connected,
)
  where
    p : Picked y.ends i e
    p = end_at-Picked y.ends i e v.one_way h

    alive : y.state.is_closed ≡ false
    alive = ground (arith, v.closed_iff, p.one_less)

    connected :
        (not y.state.is_closed && (ltb 0 y.state.reader_count || ltb 0 y.state.writer_count)) ≡ true
    connected =
        ground
          (arith, alive, v.reader_count, v.writer_count, count-OneWay y.ends v.one_way, p.one_less)
