-- ===== src/Sched/TaskPool/Write.antt =====
-- A task changed in its slot.
use scarlet.Common.{
  ◌==◌, if◌then◌else◌, ==_iff, ==_refl, ==_ne, Bool-cases, get_or, set, length-set, contains, ℕ,
  ◌<◌, ◌≡◌, refl, sym, ap, subst, ◌∙◌, inl, inr, true, false, Option, none, some, arith,
}
use scarlet.Sched.TaskPool.{Task, TaskPool, task_at, slot_of, get_task, write_slot, write_task}
use scarlet.Sched.TaskPool.Laws.{IsValid, set-task_at}
use scarlet.Sched.TaskPool.Remove.{other_slot}

-- A task found under a number has that number.
pub get_task-id :
    (p : TaskPool) (id : ℕ) (t : Task) → IsValid p → get_task p id ≡ some t → t.id ≡ id
unfolding get_task slot_of
get_task-id p id t v h = by_index (p.id_to_index id) refl
  where
    by_index : (o : Option ℕ) → p.id_to_index id ≡ o → t.id ≡ id
    by_index none e = (let bad : none ≡ some t = rw e at h in cc bad)
    by_index (some i) e =
        let (u, at, is_id, lt) = v.indexed id i e in
        let here : task_at p i ≡ some t = rw e at h in
        let same : some u ≡ some t = sym at ∙ here in
        let equal : u ≡ t = cc same in subst (λ (x : Task). x.id ≡ id) equal is_id

-- The task stays where it is: every other one is as before, and the pool is valid.
pub record Written (p p' : TaskPool) (id : ℕ) (u : Task) : Type 0 where
  pub valid : IsValid p'
  pub lookup : (k : ℕ) → get_task p' k ≡ (if k == id then some u else get_task p k)
  pub same_free : p'.free_indices ≡ p.free_indices
  pub same_used : p'.next_free_index ≡ p.next_free_index

pub write_task-Written :
    (p : TaskPool) (id : ℕ) (t u : Task)
    → IsValid p
    → get_task p id ≡ some t
    → u.id ≡ id
    → Written p (write_task p id u) id u
unfolding get_task slot_of write_task write_slot
write_task-Written p id t u v h same_id = by_index (p.id_to_index id) refl
  where
    written :
        (i : ℕ) (w : Task)
        → p.id_to_index id ≡ some i
        → task_at p i ≡ some w
        → w.id ≡ id
        → i < p.next_free_index
        → Written p (record p { tasks = set p.tasks i (some u) }) id u
    written i w e at is_id lt = record {
      valid = record {
        slots = length-set p.tasks i (some u) ∙ v.slots;
        used = v.used;
        fresh = λ j le. slot j ∙ (rw (==_ne j i (λ q. omega (arith, q, le, lt))) (v.fresh j le));
        free_below = v.free_below;
        free_empty = λ j c. slot j ∙ (rw (not_free j c) (v.free_empty j c));
        free_once = v.free_once;
        indexed = indexed;
      };
      lookup = lookup;
      same_free = refl;
      same_used = refl;
    }
      where
        slot :
            (j : ℕ)
            → get_or (set p.tasks i (some u)) j none ≡ (if j == i then some u else task_at p j)
        slot j = set-task_at p i j (some u) (omega (arith, lt, v.used, v.slots))

        not_free : (j : ℕ) → contains j p.free_indices ≡ true → (j == i) ≡ false
        not_free j c = elim (Bool-cases (j == i)) [
          | inr ne ↦ ne
          | inl q ↦
              (let empty : task_at p i ≡ none =
                  subst (λ x. task_at p x ≡ none) ((==_iff j i).0 q) (v.free_empty j c) in
                cc (empty, at))
        ]

        indexed :
            (k j : ℕ)
            → p.id_to_index k ≡ some j
            → (x : Task) × (get_or (set p.tasks i (some u)) j none ≡ some x)
              × (x.id ≡ k)
              × (j < p.next_free_index)
        indexed k j f =
            let (x, at_j, is_k, below) = v.indexed k j f in
            elim (Bool-cases (k == id)) [
              | inr ne ↦ (
                x,
                slot j ∙ (rw (other_slot p id i w v e at is_id lt k j x ne at_j is_k) at_j),
                is_k,
                below,
              )
              | inl q ↦
                  (let to_i : some i ≡ some j =
                      sym e ∙ sym (ap p.id_to_index ((==_iff k id).0 q)) ∙ f in
                    let same : i ≡ j = cc to_i in
                    (
                      u,
                      slot j ∙ (rw (sym same, ==_refl i) refl),
                      same_id ∙ sym ((==_iff k id).0 q),
                      below,
                    ))
            ]

        elsewhere :
            (k : ℕ)
            → (k == id) ≡ false
            → (o : Option ℕ) → p.id_to_index k ≡ o
            → slot_of (record p { tasks = set p.tasks i (some u) }) (p.id_to_index k)
              ≡ slot_of p (p.id_to_index k)
        elsewhere k ne none f = rw f refl
        elsewhere k ne (some j) f =
            let (x, at_j, is_k, below) = v.indexed k j f in
            rw f (slot j ∙ (rw (other_slot p id i w v e at is_id lt k j x ne at_j is_k) refl))

        lookup :
            (k : ℕ)
            → slot_of (record p { tasks = set p.tasks i (some u) }) (p.id_to_index k)
              ≡ (if k == id then some u else slot_of p (p.id_to_index k))
        lookup k = elim (Bool-cases (k == id)) [
          | inl q ↦
              rw q (rw (ap p.id_to_index ((==_iff k id).0 q) ∙ e) (slot i ∙ (rw (==_refl i) refl)))
          | inr ne ↦ rw ne (elsewhere k ne (p.id_to_index k) refl)
        ]

    by_index : (o : Option ℕ) → p.id_to_index id ≡ o → Written p (write_slot p o u) id u
    by_index none e = (let bad : none ≡ some t = rw e at h in cc bad)
    by_index (some i) e = let (w, at, is_id, lt) = v.indexed id i e in written i w e at is_id lt
