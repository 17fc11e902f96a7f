-- ===== src/Storage/Queue.antt =====
-- The event queue: bounded, first in first out, and lossy only when it is full.
use arb_bot.Prelude.{
  ◌≤◌, ◌≡◌, refl, true, false, List, [], ◌∷◌, ◌++◌, some, arith, Bool-cases, inl, inr, ltb, length,
  take, take-eq_of_le, take-append_full, take-take-append, sym, ap, ◌∙◌, length-append, All,
  All-append, subst,
}
use mathlib.Core.List.{append_assoc, append-nil}
use mathlib.Core.Option.{some-injective}
use arb_bot.Storage.{take_first, Store, Event, enqueue, dequeue}

module _ {W : Type 0} where
  -- The queue after a sequence of events with no read between them.
  abbrev pub enqueue_all : Store W → List (Event W) → Store W
  enqueue_all s [] = s
  enqueue_all s (e ∷ es) = enqueue_all (enqueue s e) es

  abbrev pub IsBounded : Store W → Type 0
  IsBounded s = length s.events ≤ s.capacity

  pub enqueue-IsBounded : (s : Store W) (e : Event W) → IsBounded s → IsBounded (enqueue s e)
  unfolding enqueue
  enqueue-IsBounded s e h = ground (arith, length-append s.events (e ∷ []))

  enqueue-events :
      (s : Store W) (e : Event W)
      → s.cfg.enabled ≡ true
      → IsBounded s
      → (enqueue s e).events ≡ take s.capacity (s.events ++ e ∷ [])
  unfolding enqueue
  enqueue-events s e on h = elim (Bool-cases (ltb (length s.events) s.capacity)) [
    | inl room ↦
        rw (on, enqueue)
          (rw room
            (sym (take-eq_of_le s.capacity _ (ground (arith, length-append s.events (e ∷ []))))))
    | inr full ↦
        rw (on, enqueue)
          (rw full (sym (take-append_full s.capacity s.events (e ∷ []) (ground arith))))
  ]

  enqueue-frame :
      (s : Store W) (e : Event W)
      → ((enqueue s e).cfg ≡ s.cfg) × ((enqueue s e).capacity ≡ s.capacity)
  unfolding enqueue
  enqueue-frame s e = ground arith

  -- In an enabled store whose queue is within its capacity, events that arrive with no read between
  -- them are queued in order, and those beyond the capacity are dropped.
  pub enqueue_all-events :
      (s : Store W) (es : List (Event W))
      → s.cfg.enabled ≡ true
      → IsBounded s
      → (enqueue_all s es).events ≡ take s.capacity (s.events ++ es)
  enqueue_all-events s [] on h =
      rw (append-nil s.events) (sym (take-eq_of_le s.capacity s.events h))
  enqueue_all-events s (e ∷ es) on h =
      let (cfg, cap) = enqueue-frame s e in
      let rest = enqueue_all-events (enqueue s e) es (rw cfg on) (enqueue-IsBounded s e h) in
      rest
      ∙ rw (cap, enqueue-events s e on h)
          (take-take-append s.capacity (s.events ++ e ∷ []) es
            ∙ ap (take s.capacity) (append_assoc s.events (e ∷ []) es))

  -- A disabled store keeps nothing.
  pub enqueue_disabled : (s : Store W) (e : Event W) → s.cfg.enabled ≡ false → enqueue s e ≡ s
  unfolding enqueue
  enqueue_disabled s e off = rw (off, enqueue)

  -- The writer takes the oldest event, and the others stay as they are.
  pub dequeue-cons :
      (s : Store W) (event : Event W) (rest : Store W)
      → dequeue s ≡ some (event, rest)
      → (s.events ≡ event ∷ rest.events) × (rest.capacity ≡ s.capacity)
  unfolding dequeue take_first
  dequeue-cons s event rest e = go s.events refl
    where
      go :
          (es : List (Event W))
          → s.events ≡ es
          → (s.events ≡ event ∷ rest.events) × (rest.capacity ≡ s.capacity)
      go [] same = absurd (ground (arith, same, e))
      go (x ∷ xs) same =
          let pair : (x, record s { events = xs }) ≡ (event, rest) =
            some-injective _ _ (rw (same, dequeue) at e) in
          (
            same ∙ rw (ap (λ r. r.0) pair, ap (λ r. r.1.events) pair) refl,
            sym (ap (λ r. r.1.capacity) pair),
          )

  pub dequeue-IsBounded :
      (s : Store W) (event : Event W) (rest : Store W)
      → dequeue s ≡ some (event, rest)
      → IsBounded s
      → IsBounded rest
  dequeue-IsBounded s event rest e h =
      let (events, cap) = dequeue-cons s event rest e in
      let full = rw (events, ← cap) at h in omega arith

  -- What holds of the events that wait and of a new one holds of those that wait then.
  pub enqueue-All :
      (P : Event W → Type 0) (s : Store W) (e : Event W)
      → P e
      → All P s.events
      → All P (enqueue s e).events
  unfolding enqueue
  enqueue-All P s e p h = elim (Bool-cases s.cfg.enabled) [
    | inr off ↦ rw (off, enqueue) h
    | inl on ↦ elim (Bool-cases (ltb (length s.events) s.capacity)) [
      | inl room ↦ rw (on, room, enqueue) (All-append P s.events (e ∷ []) h (p, tt))
      | inr full ↦ rw (on, full, enqueue) h
    ]
  ]

  pub dequeue-All :
      (P : Event W → Type 0) (s : Store W) (event : Event W) (rest : Store W)
      → dequeue s ≡ some (event, rest)
      → All P s.events
      → P event × All P rest.events
  dequeue-All P s event rest e h = subst (All P) (dequeue-cons s event rest e).0 h
