-- ===== src/Ext2/InodeCache.antt =====
-- kernel/src/fs/vfs_v2/drivers/ext2/mod.rs: InodeLruCache, a hash map over a doubly linked list of
-- nodes addressed by number. The inode is a parameter, since the cache only copies it.
pub mod Order
pub mod Neighbours
pub mod Chain
pub mod Front
pub mod Entries
pub mod Rep
pub mod Steps
pub mod Insert
pub mod Lru
pub mod Pairs
pub mod Answers
pub mod Refines
pub mod Bound
mod Tests
use scarlet.Common.{leb, ◌==◌, if◌then◌else◌, ℕ, ◌+◌, ◌%◌, ◌^◌, Bool, false, Option, none, some}
use scarlet.Common.HashMap.{HashMap, empty, modify}
use scarlet.Common.HashMap
use mathlib.Core.Option

pub record InodeLruNode (A : Type 0) : Type 0 where
  pub inode_num : ℕ
  pub inode : A
  pub access_count : ℕ
  pub prev : Option ℕ
  pub next : Option ℕ

pub record InodeLruCache (A : Type 0) : Type 0 where
  pub map : HashMap ℕ
  pub nodes : HashMap (InodeLruNode A)
  pub head : Option ℕ
  pub tail : Option ℕ
  pub next_id : ℕ
  pub max_size : ℕ
  pub hits : ℕ
  pub misses : ℕ
  pub access_counter : ℕ

abbrev pub same_id : Option ℕ → ℕ → Bool
same_id none i = false
same_id (some j) i = i == j

-- `self.tail.is_none()` and the assignment under it.
abbrev pub or_else : Option ℕ → ℕ → Option ℕ
or_else none i = some i
or_else (some j) i = some j

module _ {A : Type 0} where
  unfoldable pub new : ℕ → InodeLruCache A
  new max_size = record {
    map = empty;
    nodes = empty;
    head = none;
    tail = none;
    next_id = 0;
    max_size = max_size;
    hits = 0;
    misses = 0;
    access_counter = 0;
  }

  abbrev pub set_prev : Option ℕ → InodeLruNode A → InodeLruNode A
  set_prev o x = record x { prev = o }

  abbrev pub set_next : Option ℕ → InodeLruNode A → InodeLruNode A
  set_next o x = record x { next = o }

  -- The node before a node that leaves points past it; without one, the head does.
  abbrev pub link_prev : InodeLruCache A → Option ℕ → Option ℕ → InodeLruCache A
  link_prev c none next = record c { head = next }
  link_prev c (some p) next = record c { nodes = modify p (set_next next) c.nodes }

  -- The node behind it points back past it; without one, the tail does.
  abbrev pub link_next : InodeLruCache A → Option ℕ → Option ℕ → InodeLruCache A
  link_next c none prev = record c { tail = prev }
  link_next c (some n) prev = record c { nodes = modify n (set_prev prev) c.nodes }

  unlink : InodeLruCache A → Option (InodeLruNode A) → InodeLruCache A
  unlink c none = c
  unlink c (some x) = link_next (link_prev c x.prev x.next) x.next x.prev

  unfoldable pub remove_node_from_list : InodeLruCache A → ℕ → InodeLruCache A
  unfolding unlink
  remove_node_from_list c id = unlink c (c.nodes.get id)

  abbrev pub point_back : HashMap (InodeLruNode A) → Option ℕ → ℕ → HashMap (InodeLruNode A)
  point_back nodes none id = nodes
  point_back nodes (some old) id = modify old (set_prev (some id)) nodes

  -- A node whose own pointers are set becomes the head.
  abbrev pub put_front : InodeLruCache A → ℕ → InodeLruCache A
  put_front c id = record c {
    nodes = point_back c.nodes c.head id;
    head = some id;
    tail = or_else c.tail id;
  }

  abbrev pub to_head : InodeLruCache A → ℕ → InodeLruCache A
  to_head c id =
      put_front
        (record c { nodes = modify id (λ x. record x { prev = none; next = c.head }) c.nodes }) id

  unfoldable pub move_to_head : InodeLruCache A → ℕ → InodeLruCache A
  unfolding remove_node_from_list
  move_to_head c id = if same_id c.head id then c else to_head (remove_node_from_list c id) id

  unfoldable pub remove_node : InodeLruCache A → ℕ → InodeLruCache A
  remove_node c id =
      let c' = remove_node_from_list c id in record c' { nodes = HashMap.remove id c'.nodes }

  -- The entry of a node in the map goes.
  abbrev pub forget : InodeLruCache A → Option (InodeLruNode A) → InodeLruCache A
  forget c none = c
  forget c (some x) = record c { map = HashMap.remove x.inode_num c.map }

  evict : InodeLruCache A → Option ℕ → InodeLruCache A
  evict c none = c
  evict c (some id) = remove_node (forget c (c.nodes.get id)) id

  unfoldable pub remove_tail : InodeLruCache A → InodeLruCache A
  unfolding evict
  remove_tail c = evict c c.tail

  touch : InodeLruCache A → Option ℕ → InodeLruCache A × Option A
  touch c none = (record c { misses = (c.misses + 1) % 2 ^ 64 }, none)
  touch c (some id) =
      let c' = move_to_head (record c { hits = (c.hits + 1) % 2 ^ 64 }) id in
      (c', Option.map (λ x. x.inode) (c'.nodes.get id))

  unfoldable pub get : InodeLruCache A → ℕ → InodeLruCache A × Option A
  unfolding touch
  get c inode_num = touch c (c.map.get inode_num)

  abbrev pub new_node : InodeLruCache A → ℕ → A → InodeLruNode A
  new_node c inode_num inode = record {
    inode_num = inode_num;
    inode = inode;
    access_count = c.access_counter;
    prev = none;
    next = c.head;
  }

  -- A new node at the head.
  unfoldable pub insert_new : InodeLruCache A → ℕ → A → InodeLruCache A
  insert_new c inode_num inode =
      put_front
        (record c {
          next_id = (c.next_id + 1) % 2 ^ 32;
          nodes = HashMap.insert c.next_id (new_node c inode_num inode) c.nodes;
          map = HashMap.insert inode_num c.next_id c.map;
        })
        c.next_id

  abbrev pub set_inode : InodeLruCache A → ℕ → A → InodeLruCache A
  set_inode c id inode = record c {
    nodes = modify id (λ x. record x { inode = inode; access_count = c.access_counter }) c.nodes;
  }

  put : InodeLruCache A → ℕ → A → Option ℕ → InodeLruCache A
  put c inode_num inode (some id) = move_to_head (set_inode c id inode) id
  put c inode_num inode none =
      insert_new (if leb c.max_size c.nodes.len then remove_tail c else c) inode_num inode

  unfoldable pub insert : InodeLruCache A → ℕ → A → InodeLruCache A
  unfolding put
  insert c inode_num inode =
      put (record c { access_counter = (c.access_counter + 1) % 2 ^ 64 }) inode_num inode
        (c.map.get inode_num)

  take_out : InodeLruCache A → ℕ → Option ℕ → InodeLruCache A
  take_out c inode_num none = c
  take_out c inode_num (some id) =
      let c' = remove_node c id in record c' { map = HashMap.remove inode_num c'.map }

  unfoldable pub remove : InodeLruCache A → ℕ → InodeLruCache A
  unfolding take_out
  remove c inode_num = take_out c inode_num (c.map.get inode_num)

  unfoldable pub len : InodeLruCache A → ℕ
  len c = c.nodes.len

  unfoldable pub get_stats : InodeLruCache A → ℕ × ℕ × ℕ
  get_stats c = (c.hits, c.misses, c.nodes.len)
