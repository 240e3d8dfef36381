-- ===== src/Sched/TaskPool/Remove.antt =====
-- Removing a task from the pool.
use scarlet.Common.{
  ◌==◌, if◌then◌else◌, ==_iff, ==_refl, Bool-cases, if_both, get_or, set, length-set, contains, ℕ,
  ◌<◌, ◌≡◌, refl, sym, ap, subst, ◌∙◌, inl, inr, true, false, ◌||◌, Option, none, some, ◌∷◌, arith,
}
use scarlet.Sched.TaskPool.{
  Task, TaskPool, task_at, slot_of, get_task, forget, free_slot, take_slot, remove_at, remove_task,
}
use scarlet.Sched.TaskPool.Laws.{IsValid, set-task_at}

-- The slot of a task that was taken out comes next on the list of free ones; with no such task the
-- pool is as it was.
abbrev pub GivenBack : TaskPool → ℕ → TaskPool → Option Task → Type 0
GivenBack p id p' none = p' ≡ p
GivenBack p id p' (some t) =
    (i : ℕ) × (p.id_to_index id ≡ some i)
    × (task_at p i ≡ some t)
    × (p'.free_indices ≡ i ∷ p.free_indices)
    × (p'.next_free_index ≡ p.next_free_index)

-- What `remove_task` returned.
abbrev pub Removed : TaskPool → ℕ → TaskPool × Option Task → Type 0
Removed p id (p', o) =
    (o ≡ get_task p id)
    × ((k : ℕ) → get_task p' k ≡ (if k == id then none else get_task p k))
    × IsValid p'
    × GivenBack p id p' o

module _ (p : TaskPool) (id i : ℕ) (u : Task) (v : IsValid p) (leads : p.id_to_index id ≡ some i)
    (at : task_at p i ≡ some u) (is_id : u.id ≡ id) (used : i < p.next_free_index) where
  emptied : (j : ℕ) → get_or (set p.tasks i none) j none ≡ (if j == i then none else task_at p j)
  emptied j = set-task_at p i j none (omega (arith, used, v.used, v.slots))

  -- Another number leads to another slot, since the slot knows its task's number.
  pub other_slot :
      (k j : ℕ) (w : Task) → (k == id) ≡ false → task_at p j ≡ some w → w.id ≡ k → (j == i) ≡ false
  other_slot k j w ne at_j is_k = elim (Bool-cases (j == i)) [
    | inr other ↦ other
    | inl e ↦
        (let there : task_at p i ≡ some w =
            subst (λ x. task_at p x ≡ some w) ((==_iff j i).0 e) at_j in
          let same : u ≡ w = some_inj (sym at ∙ there) in
          let equal : k ≡ id = sym is_k ∙ sym (ap (λ (x : Task). x.id) same) ∙ is_id in
          cc (ne, subst (λ x. (x == id) ≡ true) (sym equal) (==_refl id)))
  ]
    where
      some_inj : some u ≡ some w → u ≡ w
      some_inj e = cc

  free_slot-IsValid : IsValid (free_slot (forget p id) i)
  free_slot-IsValid = record {
    slots = length-set p.tasks i none ∙ v.slots;
    used = v.used;
    fresh = λ j h. emptied j ∙ if_both (λ o. o ≡ none) (j == i) _ _ refl (v.fresh j h);
    free_below = (used, v.free_below);
    free_empty = λ j h. emptied j ∙ still_empty j h;
    free_once = (not_free, v.free_once);
    indexed = indexed;
  }
    where
      not_free : contains i p.free_indices ≡ false
      not_free = elim (Bool-cases (contains i p.free_indices)) [
        | inr out ↦ out
        | inl inside ↦ cc (v.free_empty i inside, at)
      ]

      still_empty :
          (j : ℕ)
          → (j == i || contains j p.free_indices) ≡ true
          → (if j == i then none else task_at p j) ≡ none
      still_empty j h = elim (Bool-cases (j == i)) [
        | inl e ↦ rw e refl
        | inr ne ↦ rw ne (v.free_empty j (ground (arith, h, ne)))
      ]

      indexed :
          (k j : ℕ)
          → (if k == id then none else p.id_to_index k) ≡ some j
          → (w : Task) × (get_or (set p.tasks i none) j none ≡ some w)
            × (w.id ≡ k)
            × (j < p.next_free_index)
      indexed k j h = elim (Bool-cases (k == id)) [
        | inl e ↦ (let bad : none ≡ some j = rw e at h in cc bad)
        | inr ne ↦
            (let there : p.id_to_index k ≡ some j = rw ne at h in
              let (w, at_j, is_k, lt) = v.indexed k j there in
              (w, emptied j ∙ (rw (other_slot k j w ne at_j is_k) at_j), is_k, lt))
      ]

  get_task-free_slot :
      (k : ℕ) → get_task (free_slot (forget p id) i) k ≡ (if k == id then none else get_task p k)
  unfolding get_task slot_of
  get_task-free_slot k = elim (Bool-cases (k == id)) [
    | inl e ↦ rw e refl
    | inr ne ↦ rw ne (by_slot (p.id_to_index k) refl ne)
  ]
    where
      by_slot :
          (o : Option ℕ)
          → p.id_to_index k ≡ o
          → (k == id) ≡ false
          → slot_of (free_slot (forget p id) i) (p.id_to_index k) ≡ slot_of p (p.id_to_index k)
      by_slot none e ne = rw e refl
      by_slot (some j) e ne =
          let (w, at_j, is_k, lt) = v.indexed k j e in
          rw e (emptied j ∙ (rw (other_slot k j w ne at_j is_k) refl))

-- `remove_task` hands out the task of that number, if there is one, and forgets the number; every
-- other task stays in the pool, the invariant stays, and the slot is put first on the list of free
-- ones. With no such task the pool is as it was.
pub remove_task-Removed : (p : TaskPool) (id : ℕ) → IsValid p → Removed p id (remove_task p id)
unfolding remove_task remove_at take_slot get_task slot_of
remove_task-Removed p id v = by_index (p.id_to_index id) refl
  where
    nothing :
        p.id_to_index id ≡ none → (k : ℕ) → get_task p k ≡ (if k == id then none else get_task p k)
    nothing e k = elim (Bool-cases (k == id)) [
      | inr ne ↦ rw ne refl
      | inl same ↦ rw same (ap (slot_of p) (ap p.id_to_index ((==_iff k id).0 same) ∙ e))
    ]

    by_index : (o : Option ℕ) → p.id_to_index id ≡ o → Removed p id (remove_at p id o)
    by_index none e = (rw e refl, nothing e, v, refl)
    by_index (some i) e =
        let (u, at, is_id, lt) = v.indexed id i e in
        subst (λ o. Removed p id (take_slot (forget p id) i o)) (sym at)
          (
            sym (ap (slot_of p) e ∙ at),
            get_task-free_slot p id i u v e at is_id lt,
            free_slot-IsValid p id i u v e at is_id lt,
            (i, e, at, refl, refl),
          )
