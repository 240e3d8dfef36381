-- ===== src/Ext2/InodeCache/Tests.antt =====
-- The theorems on the cache of inodes at concrete sequences of calls, and a run.
use scarlet.Common.{All, ℕ, ◌≤◌, ◌≡◌, refl, none, some, List, [], ◌∷◌, arith}
use scarlet.Ext2.InodeCache.{
  new, remove_node_from_list, move_to_head, remove_node, remove_tail, get, insert_new, insert,
  remove, len,
}
use scarlet.Ext2.InodeCache.Lru.{Op, gets, inserts, removes, lru_run, run}
use scarlet.Ext2.InodeCache.Refines.{run-Lru}
use scarlet.Ext2.InodeCache.Bound.{run-bounded}

abbrev calls : List (Op ℕ)
calls = inserts 5 50 ∷ inserts 6 60 ∷ gets 5 ∷ inserts 7 70 ∷ gets 6 ∷ gets 5 ∷ removes 7 ∷ []

run-Lru_example : run (new 2) calls ≡ lru_run 2 [] calls
run-Lru_example = run-Lru 2 calls (omega arith)

run-bounded_example : All (λ o. o.1 ≤ 2) (run (new 2) calls)
run-bounded_example = run-bounded 2 calls (omega arith) (omega arith)

-- Inode 6 is the least recently used one when 7 comes in.
evicts_6 :
    run (new 2) calls
    ≡ (none, 1) ∷ (none, 2) ∷ (some 50, 2) ∷ (none, 2) ∷ (none, 2) ∷ (some 50, 2) ∷ (none, 1) ∷ []
unfolding new get insert remove move_to_head remove_tail remove_node remove_node_from_list
    insert_new len run
evicts_6 = refl
