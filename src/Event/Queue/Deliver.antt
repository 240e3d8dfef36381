-- ===== src/Event/Queue/Deliver.antt =====
-- The events that EventManager delivers to a task.
use scarlet.Common.{
  leb, if◌then◌else◌, length, take, length-append, ℕ, zero, suc, ◌^◌, ◌≤◌, ◌<◌, ◌≡◌, refl, sym, ap,
  subst, ◌∙◌, Bool, true, false, Option, none, some, List, [], ◌∷◌, ◌++◌, append-nil, append_assoc,
  arith,
}
use scarlet.Event.{Event, EventFilter}
use scarlet.Event.Queue.{
  TaskEventQueue, enqueue, len, DeliveryConfig, get_task_config_or_default, passes, EventError,
  buffer_full, to_task, deliver_to_task,
}
use scarlet.Event.Queue.Arrivals.{Rep, enqueue-Rep}

-- The events that pass the task's filters.
abbrev pub accepted : Option (List (ℕ × EventFilter)) → List Event → List Event
accepted filters [] = []
accepted filters (e ∷ es) =
    if passes filters e then e ∷ accepted filters es else accepted filters es

abbrev queue_of : Option TaskEventQueue × Option EventError → Option TaskEventQueue
queue_of r = r.0

-- Events delivered to a task one after the other, while it takes none from its queue.
unfoldable pub deliver_all :
    Option (List (ℕ × EventFilter))
    → Option DeliveryConfig
    → Option TaskEventQueue
    → List Event
    → Option TaskEventQueue
deliver_all filters config queue [] = queue
deliver_all filters config queue (e ∷ es) =
    deliver_all filters config (deliver_to_task filters config queue e).0 es

abbrev pub Holds : Option TaskEventQueue → List Event → Type 0
Holds none xs = ⊥
Holds (some q) xs = Rep q xs

take-within {ℓ} : {A : Type ℓ} → (n : ℕ) (xs : List A) → length xs ≤ n → take n xs ≡ xs
take-within zero [] h = refl
take-within zero (x ∷ xs) h = absurd (omega (arith, h))
take-within (suc n) [] h = refl
take-within (suc n) (x ∷ xs) h = ap (λ l. x ∷ l) (take-within n xs (omega (arith, h)))

-- What stands behind as many elements as are taken makes no difference.
take-full {ℓ} :
    {A : Type ℓ} → (n : ℕ) (xs ys : List A) → n ≤ length xs → take n (xs ++ ys) ≡ take n xs
take-full zero xs ys h = refl
take-full (suc n) [] ys h = absurd (omega (arith, h))
take-full (suc n) (x ∷ xs) ys h = ap (λ l. x ∷ l) (take-full n xs ys (omega (arith, h)))

-- The events delivered to a task that takes none are, in the end, those in its queue: the ones that
-- pass its filters, in their order, up to the size of its buffer; the queue had no more than that
-- before, and the size is below 2 ^ 64.
pub deliver_all-Holds :
    (filters : Option (List (ℕ × EventFilter))) (config : Option DeliveryConfig)
    (q : TaskEventQueue) (xs es : List Event)
    → Rep q xs
    → length xs ≤ (get_task_config_or_default config).buffer_size
    → (get_task_config_or_default config).buffer_size < 2 ^ 64
    → Holds
        (deliver_all filters config (some q) es)
        (take (get_task_config_or_default config).buffer_size (xs ++ accepted filters es))
unfolding deliver_all deliver_to_task to_task len
deliver_all-Holds filters config q xs [] r le few =
    subst (Rep q)
      (sym (
        ap (take (get_task_config_or_default config).buffer_size) (append-nil xs)
        ∙ take-within (get_task_config_or_default config).buffer_size xs le))
      r
deliver_all-Holds filters config q xs (e ∷ es) r le few =
    by_filter (passes filters e) (deliver_all-Holds filters config q xs es r le few) (λ room.
      deliver_all-Holds filters config (enqueue q e).0 (xs ++ e ∷ []) es
        (enqueue-Rep q xs e r (omega (arith, room, few)))
        (omega (arith, room, length-append xs (e ∷ []))) few)
  where
    size : ℕ
    size = (get_task_config_or_default config).buffer_size

    by_room :
        (b : Bool)
        → leb size q.total_count ≡ b
        → Holds (deliver_all filters config (some q) es) (take size (xs ++ accepted filters es))
        → (length xs < size
            → Holds
                (deliver_all filters config (some (enqueue q e).0) es)
                (take size ((xs ++ e ∷ []) ++ accepted filters es)))
        → Holds
            (deliver_all filters config
              (queue_of (if b then (some q, some buffer_full) else (some (enqueue q e).0, none)))
              es)
            (take size (xs ++ e ∷ accepted filters es))
    by_room true full stays more =
        let there : size ≤ length xs = ground (arith, full, r.counted) in
        subst (Holds (deliver_all filters config (some q) es))
          (take-full size xs (accepted filters es) there
            ∙ sym (take-full size xs (e ∷ accepted filters es) there))
          stays
    by_room false room stays more =
        subst (λ l. Holds (deliver_all filters config (some (enqueue q e).0) es) (take size l))
          (append_assoc xs (e ∷ []) (accepted filters es)) (more (ground (arith, room, r.counted)))

    by_filter :
        (b : Bool)
        → Holds (deliver_all filters config (some q) es) (take size (xs ++ accepted filters es))
        → (length xs < size
            → Holds
                (deliver_all filters config (some (enqueue q e).0) es)
                (take size ((xs ++ e ∷ []) ++ accepted filters es)))
        → Holds
            (deliver_all filters config
              (queue_of (
                if b
                then to_task (some q) (get_task_config_or_default config) e
                else (some q, none)))
              es)
            (take size (xs ++ (if b then e ∷ accepted filters es else accepted filters es)))
    by_filter false stays more = stays
    by_filter true stays more = by_room (leb size q.total_count) refl stays more
