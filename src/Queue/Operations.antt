-- ===== src/Queue/Operations.antt =====
-- The operations of src/queue.c from the lock to the unlock.
use mr_lib.Common.{
  ℕ, suc, ◌<◌, ◌≡◌, refl, ap, sym, ◌∙◌, inl, inr, Bool, true, false, Option, none, some, ◌∷◌, Bytes,
  length, ◌==◌, ◌&&◌, Bool-cases, arith,
}
use mathlib.Core.Bool.{not}
use mr_lib.Os.{Os}
use mr_lib.Os.Io.{ok, pure, succeed, assert, ◌>>=◌, no_handler, syscall_ret}
use mr_lib.Os.Yields
use mr_lib.Os.Yields.{Yields}
use mr_lib.Queue.{
  Queue, Shared, Threads, shared_call, local_call, pushed, popped, top, unlock, wait_for_element,
  mr_queue_push, take_top, mr_queue_pop, mr_queue_close,
}
use mr_lib.Queue.Laws.{
  IsQueue, stack, Interfered, Interfered-refl, Interfered-trans, pushed-stack, pushed-Interfered,
  popped-stack, popped-Interfered, Ends, returns, stops, Ends-bind, Ends-mono, Ends-handle,
  Ends-succeed,
}
use mr_lib.Queue.Held.{
  Rely, From, Held, locked, HeldFrom, is_full, is_empty, shared_call-at, local_call-at,
  local_call-keeps, wait_for_room-From, wait_for_element-From,
}

module _ {W : Type 0} ⦃os : Os W⦄ (threads : Threads W) (rely : Rely threads) where
  shared_call-From :
      (f : Shared W → Bool × Shared W) (q : Queue) (s : Shared W)
      → From q (f s).1
      → Ends (From q) (λ _. From q) (shared_call f s)
  unfolding shared_call
  shared_call-From f q s i = Ends-succeed (f s).0 (f s).1 i

  -- `element` was put on the queue that the thread held, in which there was room; the one waiting for
  -- it was signalled to, and the mutex unlocked
  pub record Pushed (s : Shared W) (element : Bytes) (s' : Shared W) : Type 0 where
    pub before : Shared W
    pub held : Held threads threads.cnd_wait_full is_full s before
    pub interfered : Interfered s.0 before.0
    pub room : before.0.count < before.0.capacity
    pub stacked : stack s'.0 ≡ element ∷ stack before.0
    pub after_push : Interfered before.0 s'.0
    pub said : s'.1 ≡ (threads.mtx_unlock (threads.cnd_signal_empty before.1).1).1

  -- A push keeps the queue well formed, whatever the calls on the mutex and the conditions return. If it
  -- returns 0, it has put the element on top of the queue that its last call of `mtx_lock` or `cnd_wait`
  -- returned, in which there was room, with all that was in it below; it has then signalled, and
  -- unlocked the mutex.
  pub mr_queue_push-Pushed :
      (fuel : ℕ) (element : Bytes) (s : Shared W)
      → IsQueue s.0
      → length element ≡ s.0.element_size
      → Ends
          (λ s'. Interfered s.0 s'.0)
          (λ _ s'. Pushed s element s')
          (mr_queue_push threads fuel element s)
  unfolding mr_queue_push ◌>>=◌ pure syscall_ret assert unlock
  mr_queue_push-Pushed fuel element s i sized = elim (Bool-cases (not s.0.closed)) [
    | inl usable ↦ rw usable (
        Ends-bind
          (Ends-handle no_handler (λ _ k. k)
            (shared_call-at threads rely threads.mtx_lock s.0 s
              (Held threads threads.cnd_wait_full is_full s) (rely.lock s i) locked))
          λ _ s₁ k. Ends-bind (wait_for_room-From threads rely fuel s s₁ k) λ _ s₂ r.
            let p = pushed element s₂.0 in
            let i' = pushed-Interfered element s₂.0 r.0.0.well r.1 in
            let keeps : Interfered s.0 p = Interfered-trans r.0.0 i' in
            Ends-mono {I = λ s'. s'.0 ≡ p}
              {P = λ _ s'. s' ≡ (p, (threads.mtx_unlock (threads.cnd_signal_empty s₂.1).1).1)}
              (Ends-bind
                (Ends-handle (unlock threads) (λ _ k. k)
                  (local_call-at threads rely threads.cnd_signal_empty (p, s₂.1)))
                λ _ s₃ e. rw e (
                  Ends-handle no_handler (λ _ k. k)
                    (local_call-at threads rely threads.mtx_unlock
                      (p, (threads.cnd_signal_empty s₂.1).1))))
              (λ _ e. rw e keeps)
              (λ _ s₄ e. rw e (record {
                before = s₂;
                held = r.0.1;
                interfered = r.0.0;
                room = r.1;
                stacked = pushed-stack element s₂.0 r.0.0.well r.1 (sized ∙ sym r.0.0.size_kept);
                after_push = i';
                said = refl;
              })))
    | inr shut ↦ rw shut (stops (Interfered-refl s.0 i))
  ]

  -- What a pop returns: the newest element of the queue that the thread held, which is left with the
  -- others; or nothing, where it held a closed queue without elements. The mutex is unlocked.
  pub data Popped (s : Shared W) : Option Bytes → Shared W → Type 0 where
    taken :
        {x : Bytes} {s' : Shared W} (before : Shared W)
        → Held threads threads.cnd_wait_empty is_empty s before
        → Interfered s.0 before.0
        → stack before.0 ≡ x ∷ stack s'.0
        → Interfered before.0 s'.0
        → s'.1 ≡ (threads.mtx_unlock (threads.cnd_signal_full before.1).1).1
        → Popped s (some x) s'
    ended :
        (before : Shared W)
        → Held threads threads.cnd_wait_empty is_empty s before
        → Interfered s.0 before.0
        → before.0.count ≡ 0
        → before.0.closed ≡ true
        → Popped s none (before.0, (threads.mtx_unlock before.1).1)

  take_top-Popped :
      (s₀ s : Shared W)
      → HeldFrom threads threads.cnd_wait_empty is_empty s₀ s
      → (s.0.count == 0) && not s.0.closed ≡ false
      → Ends (From s₀.0) (Popped s₀) (take_top threads s)
  unfolding take_top ◌>>=◌ pure syscall_ret unlock
  take_top-Popped s₀ s i goes = elim (Bool-cases ((s.0.count == 0) && s.0.closed)) [
    | inl over ↦ rw over (returns (ended s i.1 i.0 (ground (arith)) (ground (arith))))
    | inr more ↦
        let some_left : 0 < s.0.count = ground (arith) in
        let p = popped s.0 in
        let i' = popped-Interfered s.0 i.0.well in
        let keeps : Interfered s₀.0 p = Interfered-trans i.0 i' in
        let end : Shared W = (p, (threads.mtx_unlock (threads.cnd_signal_full s.1).1).1) in
        rw more (
          Ends-mono {I = λ s₂. s₂.0 ≡ p} {P = λ x s₂. (x ≡ some (top s.0)) × (s₂ ≡ end)}
            (Ends-bind
              (Ends-handle (unlock threads) (λ _ k. k)
                (local_call-at threads rely threads.cnd_signal_full (p, s.1)))
              λ _ s₁ e. rw e (
                Ends-bind
                  (Ends-handle no_handler (λ _ k. k)
                    (local_call-at threads rely threads.mtx_unlock
                      (p, (threads.cnd_signal_full s.1).1)))
                  λ _ s₂ e'. returns (refl, e')))
            (λ _ e. rw e keeps)
            (λ x s₂ known.
              rw (known.0, known.1) (taken s i.1 i.0 (popped-stack s.0 some_left) i' refl)))
  ]

  -- A pop keeps the queue well formed, whatever the calls on the mutex and the conditions return. If it
  -- returns 0, it has taken the newest element of the queue that its last call of `mtx_lock` or
  -- `cnd_wait` returned, and left the others; if it returns 1, that queue was closed and empty. In both
  -- cases it has unlocked the mutex, and in the first it has signalled.
  pub mr_queue_pop-Popped :
      (fuel : ℕ) (s : Shared W)
      → IsQueue s.0
      → Ends (λ s'. Interfered s.0 s'.0) (Popped s) (mr_queue_pop threads fuel s)
  unfolding mr_queue_pop ◌>>=◌ syscall_ret
  mr_queue_pop-Popped fuel s i =
      Ends-bind
        (Ends-handle no_handler (λ _ k. k)
          (shared_call-at threads rely threads.mtx_lock s.0 s
            (Held threads threads.cnd_wait_empty is_empty s) (rely.lock s i) locked))
        λ _ s₁ k.
          Ends-bind (wait_for_element-From threads rely fuel s s₁ k)
            λ _ s₂ r. take_top-Popped s s₂ r.0 r.1

  -- code without a loop does not stop
  succeed-Yields :
      {Q : Unit {0} → Shared W → Type 0} (b : Bool) (s : Shared W)
      → Q tt s
      → Yields Q Unit (succeed b s)
  unfolding succeed
  succeed-Yields true s p = Yields.returns p
  succeed-Yields false s p = Yields.fails tt

  take_top-Yields : (s : Shared W) → Yields (λ _ _. Unit) Unit (take_top threads s)
  unfolding take_top ◌>>=◌ pure syscall_ret local_call
  take_top-Yields s = elim (Bool-cases ((s.0.count == 0) && s.0.closed)) [
    | inl over ↦ rw over (Yields.returns tt)
    | inr more ↦ rw more (
        Yields.bind {P = λ _ _. Unit}
          (Yields.handle (unlock threads) (
            succeed-Yields (threads.cnd_signal_full s.1).0
              (popped s.0, (threads.cnd_signal_full s.1).1) tt))
          λ _ s₁ _.
            Yields.bind {P = λ _ _. Unit}
              (Yields.handle no_handler
                (succeed-Yields (threads.mtx_unlock s₁.1).0 (s₁.0, (threads.mtx_unlock s₁.1).1) tt))
              λ _ _ _. Yields.returns tt)
  ]

  closed_goes :
      (fuel : ℕ) (s : Shared W)
      → s.0.closed ≡ true
      → wait_for_element threads (suc fuel) s ≡ (ok tt, s)
  unfolding wait_for_element pure
  closed_goes fuel s shut =
      let goes : (s.0.count == 0) && not s.0.closed ≡ false = ground arith in rw goes refl

  -- On a closed queue a pop does not wait for an element: it returns 0 or 1, or reports -1, after at
  -- most one test of the loop's condition.
  pub mr_queue_pop-closed :
      (fuel : ℕ) (s : Shared W)
      → IsQueue s.0
      → s.0.closed ≡ true
      → Yields (λ _ _. Unit) Unit (mr_queue_pop threads (suc fuel) s)
  unfolding mr_queue_pop ◌>>=◌ syscall_ret shared_call
  mr_queue_pop-closed fuel s i shut =
      Yields.bind
        (Yields.handle no_handler (
          succeed-Yields {Q = λ _ s'. s'.0.closed ≡ true} (threads.mtx_lock s).0
            (threads.mtx_lock s).1 ((rely.lock s i).stays_closed shut)))
        λ _ s₁ k. rw (closed_goes fuel s₁ k) (take_top-Yields s₁)

  -- After a close that returns 0, the queue is closed; whatever it returns, other threads can go on
  -- with the queue, which has its elements still.
  pub mr_queue_close-closed :
      (s : Shared W)
      → IsQueue s.0
      → Ends
          (λ s'. Interfered s.0 s'.0)
          (λ _ s'.
            (s'.0.closed ≡ true)
            × ((before : Queue) × Interfered s.0 before × (stack s'.0 ≡ stack before))
            × Interfered s.0 s'.0)
          (mr_queue_close threads s)
  unfolding mr_queue_close ◌>>=◌ pure syscall_ret unlock
  mr_queue_close-closed s i =
      Ends-bind
        (Ends-handle no_handler (λ _ k. k)
          (shared_call-From threads.mtx_lock s.0 s (rely.lock s i)))
        λ _ s₁ k.
          let shut : Queue = record (s₁.0) { closed = true } in
          let keeps : Interfered s.0 shut = record {
            well = record { room = k.well.room; bound = k.well.bound };
            capacity_kept = k.capacity_kept;
            size_kept = k.size_kept;
            stays_closed = λ _. refl;
          } in
          Ends-mono
            (Ends-bind
              (Ends-handle (unlock threads) (λ _ k'. k')
                (local_call-keeps threads rely threads.cnd_broadcast_empty (λ q. q ≡ shut) _ refl))
              λ _ s₂ e.
                Ends-handle no_handler (λ _ k'. k')
                  (local_call-keeps threads rely threads.mtx_unlock (λ q. q ≡ shut) s₂ e))
            (λ _ e. rw e keeps)
            (λ _ s₃ e. (ap (λ (q : Queue). q.closed) e, (s₁.0, k, ap stack e), rw e keeps))
