-- ===== src/Sched/Queues.antt =====
-- The four scheduling queues as lists of tasks.
use so2_joan_erik.Common.{
  erase_absent, leb, ◌&&◌, ◌-◌, ℕ, ◌≡◌, refl, ◌≢◌, ◌<◌, Bool, true, false, ◌||◌, List, [], ◌∷◌,
  ◌++◌, arith, ◌==◌, if◌then◌else◌, has, erase, has-append, has-erase-false, sym, subst, ap, inl,
  inr, Bool-cases,
}
use so2_joan_erik.Links.{Links, list_add_tail, list_del}
use so2_joan_erik.Links.Ring.{
  Ring, Ring-frame, list_add_tail-Ring, list_del-Ring, list_add_tail_same, list_del_same,
}
use so2_joan_erik.Task.{IsSlot, list_of, readyqueue, freequeue, blocked, read_blocked}

pub data Queue : Type 0 where
  q_free q_ready q_blocked q_read_blocked : Queue

abbrev pub head_of : Queue → ℕ
head_of q_free = freequeue
head_of q_ready = readyqueue
head_of q_blocked = blocked
head_of q_read_blocked = read_blocked

abbrev pub eqb_queue : Queue → Queue → Bool
eqb_queue a b = head_of a == head_of b

abbrev pub Contents : Type 0
Contents = Queue → List ℕ

abbrev pub put : Contents → Queue → List ℕ → Contents
put q k xs j = if eqb_queue j k then xs else q j

abbrev pub anchors : List ℕ → List ℕ
anchors [] = []
anchors (t ∷ ts) = list_of t ∷ anchors ts

-- The links hold the queues: each is the ring at its head of the anchors of its tasks, which are
-- elements of `task` and stand in no other queue.
pub record Holds (m : Links) (q : Contents) : Type 0 where
  pub rings : (k : Queue) → Ring m (head_of k) (anchors (q k))
  pub slots : (k : Queue) (t : ℕ) → has t (q k) ≡ true → IsSlot t
  pub apart : (j k : Queue) (t : ℕ) → has t (q j) ≡ true → has t (q k) ≡ true → j ≡ k

pub eqb_queue→eq : (j k : Queue) → eqb_queue j k ≡ true → j ≡ k
eqb_queue→eq j k h = ground arith

pub eqb_queue_refl : (k : Queue) → eqb_queue k k ≡ true
eqb_queue_refl k = ground arith

pub has-anchors : (t : ℕ) (ts : List ℕ) → has (list_of t) (anchors ts) ≡ has t ts
has-anchors t [] = refl
has-anchors t (u ∷ us) = ground (arith, has-anchors t us)

pub anchors-erase : (t : ℕ) (ts : List ℕ) → erase (list_of t) (anchors ts) ≡ anchors (erase t ts)
anchors-erase t [] = refl
anchors-erase t (u ∷ us) = ground (arith, anchors-erase t us)

pub anchors-append : (ts us : List ℕ) → anchors (ts ++ us) ≡ anchors ts ++ anchors us
anchors-append [] us = refl
anchors-append (t ∷ ts) us = ap (◌∷◌ (list_of t)) (anchors-append ts us)

pub has-anchors_sub : (a : ℕ) (ts : List ℕ) → has a (anchors ts) ≡ (leb 8 a && has (a - 8) ts)
has-anchors_sub a [] = ground arith
has-anchors_sub a (u ∷ us) = ground (arith, has-anchors_sub a us)

-- All addresses of a queue's ring.
abbrev pub ring_of : Contents → Queue → List ℕ
ring_of q k = head_of k ∷ anchors (q k)

pub head_of-lt : (k : Queue) → (0 < head_of k) × (head_of k < 64)
head_of-lt k = ground arith

head_of-ne : (j k : Queue) → j ≢ k → head_of j ≢ head_of k
head_of-ne j k h = ground arith

module _ {m : Links} {q : Contents} (h : Holds m q) where
  -- The rings of two queues have no address in common.
  ring_of-disjoint :
      (j k : Queue) (a : ℕ) → j ≢ k → has a (ring_of q j) ≡ true → has a (ring_of q k) ≡ false
  ring_of-disjoint j k a ne i = ground (
    arith,
    has-anchors_sub a (q j),
    has-anchors_sub a (q k),
    head_of-lt j,
    head_of-lt k,
    head_of-ne j k ne,
    λ (e : has (a - 8) (q j) ≡ true). h.slots j (a - 8) e,
    λ (e : has (a - 8) (q k) ≡ true). h.slots k (a - 8) e,
    λ (e : has (a - 8) (q j) ≡ true) (f : has (a - 8) (q k) ≡ true). ne (h.apart j k (a - 8) e f),
  )

-- The queues without a task, and with a task at the end of one of them.
abbrev pub take : Contents → ℕ → Contents
take q t k = erase t (q k)

abbrev pub enqueue : Contents → Queue → ℕ → Contents
enqueue q k t = put q k (q k ++ t ∷ [])

-- The task is in no queue.
abbrev pub Unlisted : Contents → ℕ → Type 0
Unlisted q t = (k : Queue) → has t (q k) ≡ false

pub enqueue_self : (q : Contents) (k : Queue) (t : ℕ) → enqueue q k t k ≡ q k ++ t ∷ []
enqueue_self q k t = ground arith

pub enqueue_ne : (q : Contents) (j k : Queue) (t : ℕ) → j ≢ k → enqueue q k t j ≡ q j
enqueue_ne q j k t h = ground (arith, head_of-ne j k h)

pub has-enqueue :
    (q : Contents) (j k : Queue) (u t : ℕ)
    → has u (enqueue q k t j) ≡ (has u (q j) || (eqb_queue j k && (u == t)))
has-enqueue q j k u t = elim (Bool-cases (eqb_queue j k)) [
  | inl e ↦
      rw (eqb_queue→eq j k e, enqueue_self q k t, has-append u (q k) (t ∷ []), eqb_queue_refl k)
        (ground arith)
  | inr e ↦
      rw
        (enqueue_ne q j k t
          (λ p. cc (e, subst (λ i. eqb_queue i k ≡ true) (sym p) (eqb_queue_refl k))))
        (ground arith)
]

module _ {m : Links} {q : Contents} (h : Holds m q) (t : ℕ) where
  has-take : (k : Queue) (u : ℕ) → has u (erase t (q k)) ≡ true → has u (q k) ≡ true
  has-take k u i = ground (arith, has-erase-false u t (q k))

  -- `list_del` takes a queued task out of its queue, and leaves the other queues as they are.
  pub list_del-take : (k0 : Queue) → has t (q k0) ≡ true → Holds (list_del m (list_of t)) (take q t)
  list_del-take k0 i = record {
    rings = ring;
    slots = λ k u j. h.slots k u (has-take k u j);
    apart = λ j k u a b. h.apart j k u (has-take j u a) (has-take k u b);
  }
    where
      inside : has (list_of t) (anchors (q k0)) ≡ true
      inside = rw (has-anchors t (q k0)) i

      other :
          (k : Queue) → k ≢ k0 → Ring (list_del m (list_of t)) (head_of k) (anchors (erase t (q k)))
      other k ne =
          let absent : has t (q k) ≡ false =
            ground (arith, λ (e : has t (q k) ≡ true). ne (h.apart k k0 t e i)) in
          rw (erase_absent t (q k) absent) (
            Ring-frame _ (h.rings k) λ a b.
              list_del_same (h.rings k0) (list_of t) a inside (ring_of-disjoint h k k0 a ne b))

      ring : (k : Queue) → Ring (list_del m (list_of t)) (head_of k) (anchors (erase t (q k)))
      ring k = elim (Bool-cases (eqb_queue k k0)) [
        | inl e ↦
            rw (eqb_queue→eq k k0 e, ← anchors-erase t (q k0))
              (list_del-Ring (h.rings k0) (list_of t) inside)
        | inr e ↦
            other k λ p. cc (e, subst (λ j. eqb_queue j k0 ≡ true) (sym p) (eqb_queue_refl k0))
      ]

  -- `list_add_tail` puts a task that is in no queue at the end of one.
  pub list_add_tail-enqueue :
      (k0 : Queue)
      → IsSlot t
      → Unlisted q t
      → Holds (list_add_tail m (list_of t) (head_of k0)) (enqueue q k0 t)
  list_add_tail-enqueue k0 slot absent = record {
    rings = ring;
    slots = λ k u i. ground (
      arith,
      slot,
      has-append u (q k0) (t ∷ []),
      λ (e : has u (q k) ≡ true). h.slots k u e,
      λ (e : has u (q k0) ≡ true). h.slots k0 u e,
    );
    apart = λ j k u a b. ground (
      arith,
      has-enqueue q j k0 u t,
      has-enqueue q k k0 u t,
      absent j,
      absent k,
      h.apart j k u,
      eqb_queue→eq j k0,
      eqb_queue→eq k k0,
    );
  }
    where
      fresh : (k : Queue) → has (list_of t) (ring_of q k) ≡ false
      fresh k = ground (arith, slot, has-anchors t (q k), absent k, head_of-lt k)

      self : Ring (list_add_tail m (list_of t) (head_of k0)) (head_of k0) (anchors (q k0 ++ t ∷ []))
      self =
          rw (anchors-append (q k0) (t ∷ []))
            (list_add_tail-Ring (h.rings k0) (list_of t) (omega arith) (fresh k0))

      other :
          (k : Queue)
          → k ≢ k0
          → Ring (list_add_tail m (list_of t) (head_of k0)) (head_of k) (anchors (q k))
      other k ne = Ring-frame _ (h.rings k) λ a b.
          list_add_tail_same (h.rings k0) (list_of t) a
            (λ e. cc (fresh k, subst (λ x. has x (ring_of q k) ≡ true) e b))
            (ring_of-disjoint h k k0 a ne b)

      ring :
          (k : Queue)
          → Ring (list_add_tail m (list_of t) (head_of k0)) (head_of k) (anchors (enqueue q k0 t k))
      ring k = elim (Bool-cases (eqb_queue k k0)) [
        | inl e ↦
            subst
              (λ i.
                Ring (list_add_tail m (list_of t) (head_of k0)) (head_of i)
                  (anchors (enqueue q k0 t i)))
              (sym (eqb_queue→eq k k0 e)) (rw (enqueue_self q k0 t) self)
        | inr e ↦
            let ne : k ≢ k0 =
              λ p. cc (e, subst (λ j. eqb_queue j k0 ≡ true) (sym p) (eqb_queue_refl k0)) in
            rw (enqueue_ne q k k0 t ne) (other k ne)
      ]
