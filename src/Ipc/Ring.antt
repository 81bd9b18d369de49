-- ===== src/Ipc/Ring.antt =====
-- The ring of a message queue is that of `Queue`: what is sent first is received first.
use mos_rust.Prelude.{
  ◌+◌, ◌-◌, ◌%◌, ◌<◌, ◌≡◌, refl, lt→ltb, sym, ap, ◌∙◌, List, [], ◌∷◌, ◌++◌, Bool, false, Option,
  some, ltb, if◌then◌else◌, length, Bool-cases, set, length-append, inl, inr, arith, Run, ok, ◌>>=◌,
  subst,
}
use mos_rust.TaskList.{HeaplessVec, TaskList, pop_front}
use mos_rust.Kernel.{Kernel}
use mos_rust.Queue
use mos_rust.Queue.{Queue}
use mos_rust.Queue.Refine.{Holds, Holds-len, read_head, popped-Holds, push_refines, head?, tail}
use mos_rust.Ipc.{MsgQueue, push, pop, send, recv, try_wake_up}

module _ {ℓ} {A : Type ℓ} where
  abbrev pub ring : MsgQueue A → Queue A
  ring q = record {
    capacity = q.capacity;
    slots = q.buffer;
    head = q.head;
    tail = q.tail;
    len = q.len;
  }

  ring-push : (q : MsgQueue A) (a : A) → ring (push q a) ≡ (Queue.push (ring q) a).0
  unfolding push Queue.push Queue.full
  ring-push q a = ground arith

  ring-pop : (q : MsgQueue A) → (pop q >>= λ (m, q'). ok (m, ring q')) ≡ Queue.serve (ring q)
  unfolding pop Queue.serve Queue.empty
  ring-pop q = ground arith

  -- `push` of a full queue drops the message; otherwise the message is the last.
  pub push-Holds :
      (q : MsgQueue A) (xs : List A) (a : A)
      → Holds (ring q) xs
      → Holds (ring (push q a)) (if ltb (length xs) q.capacity then xs ++ (a ∷ []) else xs)
  push-Holds q xs a v =
      subst (λ r. Holds r (if ltb (length xs) q.capacity then xs ++ (a ∷ []) else xs))
        (sym (ring-push q a)) (push_refines a v).2

  -- `pop` takes the oldest message off.
  pub pop-Holds :
      (q : MsgQueue A) (xs : List A)
      → Holds (ring q) xs
      → (q' : MsgQueue A) × (pop q ≡ ok (head? xs, q'))
        × (q'.senders ≡ q.senders)
        × Holds (ring q') (tail xs)
  unfolding pop
  pop-Holds q [] v = (q, ground (arith, Holds-len v), refl, v)
  pop-Holds q (x ∷ xs) v = (
    record q { head = (q.head + 1) % q.capacity; len = q.len - 1 },
    rw (lt→ltb 0 q.len (omega (arith, Holds-len v)), read_head v) refl,
    refl,
    popped-Holds v,
  )

module _ ⦃vec : HeaplessVec⦄ where
  try_wake_up-nil : (k : Kernel) (l : TaskList) → l ≡ [] → try_wake_up k l ≡ ok (k, [])
  unfolding try_wake_up pop_front
  try_wake_up-nil k l e = ap (try_wake_up k) e

  module _ {ℓ} {A : Type ℓ} where
    abbrev sent : Kernel → MsgQueue A → TaskList → Run (Bool × Kernel × MsgQueue A)
    sent k q l = ok (false, k, record q { receivers = l })

    abbrev received :
        Option A → Kernel → MsgQueue A → TaskList → Run (Option A × Kernel × MsgQueue A)
    received m k q l = ok (m, k, record q { senders = l })

    send-quiet :
        (k : Kernel) (q : MsgQueue A) (a : A)
        → q.len < q.capacity
        → q.receivers ≡ []
        → send k q a ≡ ok (false, k, push q a)
    unfolding send push
    send-quiet k q a room quiet =
        let q1 : MsgQueue A = record q {
          buffer = set q.buffer q.tail (some a);
          tail = (q.tail + 1) % q.capacity;
          len = q.len + 1;
        } in
        rw (lt→ltb q.len q.capacity room, try_wake_up-nil k q.receivers quiet)
          (ap (sent k q1) (sym quiet))

    recv-quiet :
        (k : Kernel) (q q' : MsgQueue A) (m : Option A)
        → 0 < q.len
        → pop q ≡ ok (m, q')
        → q'.senders ≡ []
        → recv k q ≡ ok (m, k, q')
    unfolding recv
    recv-quiet k q q' m h got quiet =
        rw (lt→ltb 0 q.len h, got, try_wake_up-nil k q'.senders quiet)
          (ap (received m k q') (sym quiet))

    push-senders : (q : MsgQueue A) (a : A) → (push q a).senders ≡ q.senders
    unfolding push
    push-senders q a = elim (Bool-cases (ltb q.len q.capacity)) [
      | inl e ↦ rw e refl
      | inr e ↦ rw e refl
    ]

    -- Where no task waits, a `send` to a queue that holds `xs`, with room, succeeds, and the `recv`
    -- after it returns the first of `xs` and then the new message. What is left is held in order,
    -- and the kernel is as it was.
    pub recv-send :
        (k : Kernel) (q : MsgQueue A) (xs : List A) (a : A)
        → Holds (ring q) xs
        → length xs < q.capacity
        → q.senders ≡ []
        → q.receivers ≡ []
        → (q1 : MsgQueue A) × (q2 : MsgQueue A) × (send k q a ≡ ok (false, k, q1))
          × (recv k q1 ≡ ok (head? (xs ++ (a ∷ [])), k, q2))
          × Holds (ring q2) (tail (xs ++ (a ∷ [])))
    recv-send k q xs a v room no_senders no_receivers =
        let q1 = push q a in
        let v1 : Holds (ring q1) (xs ++ (a ∷ [])) =
          rw (lt→ltb (length xs) q.capacity room) at (push-Holds q xs a v) in
        let (q2, got, same, v2) = pop-Holds q1 (xs ++ (a ∷ [])) v1 in
        (
          q1,
          q2,
          send-quiet k q a (omega (arith, Holds-len v)) no_receivers,
          recv-quiet k q1 q2 _ (omega (arith, Holds-len v1, length-append xs (a ∷ []))) got
              (same ∙ push-senders q a ∙ no_senders),
          v2,
        )
