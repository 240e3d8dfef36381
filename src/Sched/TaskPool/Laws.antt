-- ===== src/Sched/TaskPool/Laws.antt =====
-- The invariant of the task pool, and what adding and removing tasks does to it.
use scarlet.Common.{
  ltb, ◌==◌, if◌then◌else◌, ==_iff, ==_refl, Bool-cases, length, get_or, set, All, length-set,
  get_or-set_self, get_or-set_ne, length-replicate, get_or-replicate, contains, Distinct, ℕ, ◌+◌,
  ◌≤◌, ◌<◌, ◌≡◌, refl, sym, ap, subst, ◌∙◌, ◌⊎◌, inl, inr, true, false, Option, none, some, List,
  [], ◌∷◌, arith,
}
use scarlet.Sched.TaskPool.{
  Task, TaskPool, max_tasks, new, task_at, PoolError, find_index, store, place, add_task, slot_of,
  get_task,
}

-- The number of a task leads to a slot that holds that task; the free slots were in use before,
-- stand on the stack once, and are empty, as are those that never were in use.
pub record IsValid (p : TaskPool) : Type 0 where
  pub slots : length p.tasks ≡ max_tasks
  pub used : p.next_free_index ≤ max_tasks
  pub fresh : (i : ℕ) → p.next_free_index ≤ i → task_at p i ≡ none
  pub free_below : All (λ i. i < p.next_free_index) p.free_indices
  pub free_empty : (i : ℕ) → contains i p.free_indices ≡ true → task_at p i ≡ none
  pub free_once : Distinct p.free_indices
  pub indexed :
      (id i : ℕ)
      → p.id_to_index id ≡ some i
      → (t : Task) × (task_at p i ≡ some t) × (t.id ≡ id) × (i < p.next_free_index)

-- A new pool is valid.
pub new-IsValid : IsValid new
unfolding new
new-IsValid = record {
  slots = length-replicate max_tasks none;
  used = omega arith;
  fresh = λ i h. get_or-replicate max_tasks i none;
  free_below = tt;
  free_empty = λ i h. cc;
  free_once = tt;
  indexed = λ id i h. cc;
}

pub set-task_at :
    (p : TaskPool) (i j : ℕ) (o : Option Task)
    → i < length p.tasks
    → get_or (set p.tasks i o) j none ≡ (if j == i then o else task_at p j)
set-task_at p i j o h = elim (Bool-cases (j == i)) [
  | inl e ↦ rw e (rw ((==_iff j i).0 e) (get_or-set_self p.tasks i o none h))
  | inr e ↦ rw e (get_or-set_ne p.tasks i j o none (λ q. cc (==_refl j, ap (◌==◌ j) q, e)))
]

-- A slot with a task is not an empty one.
apart_from_empty :
    (p : TaskPool) (i k : ℕ) (u : Task)
    → task_at p i ≡ none
    → task_at p k ≡ some u
    → (k == i) ≡ false
apart_from_empty p i k u empty at = elim (Bool-cases (k == i)) [
  | inr other ↦ other
  | inl e ↦
      (let bad : task_at p i ≡ some u = subst (λ j. task_at p j ≡ some u) ((==_iff k i).0 e) at in
        cc (bad, empty))
]

-- A slot that `find_index` chose: empty, and no longer free.
record Chosen (p p' : TaskPool) (i : ℕ) : Type 0 where
  same_tasks : p'.tasks ≡ p.tasks
  same_index : p'.id_to_index ≡ p.id_to_index
  empty : task_at p i ≡ none
  in_range : i < p'.next_free_index
  grown : p.next_free_index ≤ p'.next_free_index
  bound : p'.next_free_index ≤ max_tasks
  free_below : All (λ j. j < p'.next_free_index) p'.free_indices
  not_free : contains i p'.free_indices ≡ false
  still_free : (j : ℕ) → contains j p'.free_indices ≡ true → task_at p j ≡ none
  once : Distinct p'.free_indices

-- The slot is filled: the pool is valid, and only the new task's number leads elsewhere.
store-IsValid :
    (p p' : TaskPool) (i : ℕ) (t : Task) → IsValid p → Chosen p p' i → IsValid (store p' i t)
store-IsValid p p' i t v c = record {
  slots = length-set p'.tasks i (some t) ∙ ap length c.same_tasks ∙ v.slots;
  used = c.bound;
  fresh = λ j h.
      slot j
      ∙ (rw (ne j (inl (omega (arith, h, c.in_range)))) (v.fresh j (omega (arith, h, c.grown))));
  free_below = c.free_below;
  free_empty = λ j h. slot j ∙ (rw (not_chosen j h) (c.still_free j h));
  free_once = c.once;
  indexed = indexed;
}
  where
    same_at : (j : ℕ) → task_at p' j ≡ task_at p j
    same_at j = ap (λ xs. get_or xs j none) c.same_tasks

    slot :
        (j : ℕ) → get_or (set p'.tasks i (some t)) j none ≡ (if j == i then some t else task_at p j)
    slot j =
        set-task_at p' i j (some t)
          (omega (arith, c.in_range, c.bound, ap length c.same_tasks, v.slots))
        ∙ ap (λ x. if j == i then some t else x) (same_at j)

    ne : (j : ℕ) → i < j ⊎ (j < i) → (j == i) ≡ false
    ne j h = ground (arith, h)

    not_chosen : (j : ℕ) → contains j p'.free_indices ≡ true → (j == i) ≡ false
    not_chosen j h = elim (Bool-cases (j == i)) [
      | inr other ↦ other
      | inl e ↦
          (let bad : contains i p'.free_indices ≡ true =
              subst (λ k. contains k p'.free_indices ≡ true) ((==_iff j i).0 e) h in
            cc (bad, c.not_free))
    ]

    indexed :
        (id k : ℕ)
        → (if id == t.id then some i else p'.id_to_index id) ≡ some k
        → (u : Task) × (get_or (set p'.tasks i (some t)) k none ≡ some u)
          × (u.id ≡ id)
          × (k < p'.next_free_index)
    indexed id k h = elim (Bool-cases (id == t.id)) [
      | inl e ↦
          (let here : some i ≡ some k = rw e at h in
            let same : i ≡ k = cc here in
            (
              t,
              slot k ∙ (rw (sym same, ==_refl i) refl),
              sym ((==_iff id t.id).0 e),
              omega (arith, same, c.in_range),
            ))
      | inr ne ↦
          (let there : p'.id_to_index id ≡ some k = rw ne at h in
            let (u, at, is_id, lt) = v.indexed id k (sym (ap (λ f. f id) c.same_index) ∙ there) in
            (
              u,
              slot k ∙ (rw (apart_from_empty p i k u c.empty at) at),
              is_id,
              omega (arith, lt, c.grown),
            ))
    ]

get_task-store :
    (p p' : TaskPool) (i : ℕ) (t : Task)
    → IsValid p
    → Chosen p p' i
    → (id : ℕ) → get_task (store p' i t) id ≡ (if id == t.id then some t else get_task p id)
unfolding get_task slot_of
get_task-store p p' i t v c id = elim (Bool-cases (id == t.id)) [
  | inl e ↦ rw e (slot i ∙ (rw (==_refl i) refl))
  | inr ne ↦ rw ne (by_slot (p.id_to_index id) refl ∙ refl)
]
  where
    slot :
        (j : ℕ) → get_or (set p'.tasks i (some t)) j none ≡ (if j == i then some t else task_at p j)
    slot j =
        set-task_at p' i j (some t)
          (omega (arith, c.in_range, c.bound, ap length c.same_tasks, v.slots))
        ∙ ap (λ x. if j == i then some t else get_or x j none) c.same_tasks

    by_slot :
        (o : Option ℕ)
        → p.id_to_index id ≡ o
        → slot_of (store p' i t) (p'.id_to_index id) ≡ slot_of p (p.id_to_index id)
    by_slot none e = rw (ap (λ f. f id) c.same_index ∙ e, e) refl
    by_slot (some k) e =
        let (u, at, is_id, lt) = v.indexed id k e in
        rw (ap (λ f. f id) c.same_index ∙ e, e)
          (slot k ∙ (rw (apart_from_empty p i k u c.empty at) refl))

-- What `add_task` returned.
abbrev pub Added : TaskPool → Task → TaskPool × Option PoolError → Type 0
Added p t (p', some e) = (p.free_indices ≡ []) × (p.next_free_index ≡ max_tasks) × (p' ≡ p)
Added p t (p', none) =
    ((id : ℕ) → get_task p' id ≡ (if id == t.id then some t else get_task p id)) × IsValid p'

-- `add_task` stores the task under its number and leaves every other task where it was; it fails
-- only if no slot was given back and all 1024 have been in use, and then changes nothing.
pub add_task-Added : (p : TaskPool) (t : Task) → IsValid p → Added p t (add_task p t)
unfolding add_task find_index place
add_task-Added p t v = by_free p.free_indices refl
  where
    stored : (p' : TaskPool) (i : ℕ) → Chosen p p' i → Added p t (store p' i t, none)
    stored p' i c = (get_task-store p p' i t v c, store-IsValid p p' i t v c)

    by_free : (free : List ℕ) → p.free_indices ≡ free → Added p t (place t (find_index p free))
    by_free (i ∷ rest) e =
        stored (record p { free_indices = rest }) i
          (record {
            same_tasks = refl;
            same_index = refl;
            empty = v.free_empty i (rw e (ground (arith, ==_refl i)));
            in_range = below.0;
            grown = omega arith;
            bound = v.used;
            free_below = below.1;
            not_free = once.0;
            still_free = λ j h. v.free_empty j (rw e (ground (arith, h)));
            once = once.1;
          })
      where
        below : All (λ j. j < p.next_free_index) (i ∷ rest)
        below = subst (All (λ j. j < p.next_free_index)) e v.free_below

        once : Distinct (i ∷ rest)
        once = subst Distinct e v.free_once
    by_free [] e = elim (Bool-cases (ltb p.next_free_index (length p.tasks))) [
      | inr full ↦ rw full (e, ground (arith, full, v.slots, v.used), refl)
      | inl room ↦ rw room (
          stored (record p { next_free_index = p.next_free_index + 1 }) p.next_free_index
            (record {
              same_tasks = refl;
              same_index = refl;
              empty = v.fresh p.next_free_index (omega arith);
              in_range = omega arith;
              grown = omega arith;
              bound = ground (arith, room, v.slots);
              free_below = rw e tt;
              not_free = rw e refl;
              still_free = v.free_empty;
              once = v.free_once;
            }))
    ]
