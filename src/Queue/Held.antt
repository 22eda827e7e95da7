-- ===== src/Queue/Held.antt =====
-- What a thread holds behind the locks and the waits of src/queue.c, when others use the queue.
use mr_lib.Common.{
  ℕ, zero, suc, ◌<◌, ◌≡◌, refl, inl, inr, Bool, true, false, ◌==◌, ◌&&◌, Bool-cases, arith,
}
use mathlib.Core.Bool.{not}
use mr_lib.Os.{Os}
use mr_lib.Os.Io.{pure, succeed, ◌>>=◌, syscall_ret}
use mr_lib.Queue.{
  Queue, Shared, Threads, shared_call, local_call, unlock, wait_for_room, wait_for_element,
}
use mr_lib.Queue.Laws.{
  IsQueue, Interfered, Interfered-trans, Ends, returns, fails, stops, Ends-bind, Ends-handle,
  Ends-succeed,
}

-- the other threads only use the operations
pub record Rely {W : Type 0} (threads : Threads W) : Type 0 where
  pub lock : (s : Shared W) → IsQueue s.0 → Interfered s.0 (threads.mtx_lock s).1.0
  pub wait_full : (s : Shared W) → IsQueue s.0 → Interfered s.0 (threads.cnd_wait_full s).1.0
  pub wait_empty : (s : Shared W) → IsQueue s.0 → Interfered s.0 (threads.cnd_wait_empty s).1.0

-- the queue is what others have made of `q`
abbrev pub From : {W : Type 0} → Queue → Shared W → Type 0
From q s = Interfered q s.0

-- the conditions of the two loops
abbrev pub is_full : Queue → Bool
is_full q = q.count == q.capacity

abbrev pub is_empty : Queue → Bool
is_empty q = (q.count == 0) && not q.closed

module _ {W : Type 0} (threads : Threads W) where
  -- the states in which a thread holds the mutex: the one that its call of `mtx_lock` returned, and,
  -- where the condition of its loop held, the one that its call of `cnd_wait` then returned
  pub data Held (wait : Shared W → Bool × Shared W) (loops : Queue → Bool) (s : Shared W)
      : Shared W → Type 0 where
    locked : (threads.mtx_lock s).0 ≡ true → Held wait loops s (threads.mtx_lock s).1
    woken :
        {s₁ : Shared W}
        → Held wait loops s s₁
        → loops s₁.0 ≡ true
        → (wait s₁).0 ≡ true
        → Held wait loops s (wait s₁).1

  -- a thread that holds the mutex, after what others have made of `s`
  abbrev pub HeldFrom : (Shared W → Bool × Shared W) → (Queue → Bool) → Shared W → Shared W → Type 0
  HeldFrom wait loops s s' = From s.0 s' × Held wait loops s s'

module _ {W : Type 0} ⦃os : Os W⦄ (threads : Threads W) (rely : Rely threads) where
  -- a call during which others may run, where more is known if it has succeeded
  pub shared_call-at :
      (f : Shared W → Bool × Shared W) (q : Queue) (s : Shared W) (P : Shared W → Type 0)
      → From q (f s).1
      → ((f s).0 ≡ true → P (f s).1)
      → Ends (From q) (λ _ s'. From q s' × P s') (shared_call f s)
  unfolding shared_call succeed
  shared_call-at f q s P i known = at (f s).0 (f s).1 i known
    where
      at :
          (b : Bool) (r : Shared W)
          → From q r
          → (b ≡ true → P r)
          → Ends (From q) (λ _ s'. From q s' × P s') (succeed b r)
      at true r i known = returns (i, known refl)
      at false r i known = fails i

  -- a call that leaves the queue alone
  pub local_call-at :
      (f : W → Bool × W) (s : Shared W)
      → Ends {S = Shared W} (λ s'. s'.0 ≡ s.0) (λ _ s'. s' ≡ (s.0, (f s.1).1)) (local_call f s)
  unfolding local_call succeed
  local_call-at f s = at (f s.1).0 (f s.1).1
    where
      at :
          (b : Bool) (w : W)
          → Ends {A = Unit {0}} {S = Shared W}
              (λ s'. s'.0 ≡ s.0)
              (λ _ s'. s' ≡ (s.0, w))
              (succeed b (s.0, w))
      at true w = returns refl
      at false w = fails refl

  -- a call that leaves the queue alone keeps what is known of it
  pub local_call-keeps :
      (f : W → Bool × W) (P : Queue → Type 0) (s : Shared W)
      → P s.0
      → Ends (λ s'. P s'.0) (λ _ s'. P s'.0) (local_call f s)
  unfolding local_call
  local_call-keeps f P s p = Ends-succeed (f s.1).0 (s.0, (f s.1).1) p

  pub wait_for_room-From :
      (fuel : ℕ) (s₀ s : Shared W)
      → HeldFrom threads threads.cnd_wait_full is_full s₀ s
      → Ends
          (From s₀.0)
          (λ _ s'.
            HeldFrom threads threads.cnd_wait_full is_full s₀ s' × (s'.0.count < s'.0.capacity))
          (wait_for_room threads fuel s)
  unfolding wait_for_room ◌>>=◌ pure syscall_ret unlock
  wait_for_room-From zero s₀ s i = stops i.0
  wait_for_room-From (suc fuel) s₀ s i = elim (Bool-cases (s.0.count == s.0.capacity)) [
    | inl full ↦ rw full (
        Ends-bind
          (Ends-handle _ (λ _ k. k)
            (shared_call-at threads.cnd_wait_full s₀.0 s
              (Held threads threads.cnd_wait_full is_full s₀)
              (Interfered-trans i.0 (rely.wait_full s i.0.well)) (woken i.1 full)))
          λ _ s' k. wait_for_room-From fuel s₀ s' k)
    | inr room ↦ rw room (returns (i, ground (arith, i.0.well.bound)))
  ]

  pub wait_for_element-From :
      (fuel : ℕ) (s₀ s : Shared W)
      → HeldFrom threads threads.cnd_wait_empty is_empty s₀ s
      → Ends
          (From s₀.0)
          (λ _ s'.
            HeldFrom threads threads.cnd_wait_empty is_empty s₀ s'
            × ((s'.0.count == 0) && not s'.0.closed ≡ false))
          (wait_for_element threads fuel s)
  unfolding wait_for_element ◌>>=◌ pure syscall_ret unlock
  wait_for_element-From zero s₀ s i = stops i.0
  wait_for_element-From (suc fuel) s₀ s i = elim (Bool-cases ((s.0.count == 0) && not s.0.closed)) [
    | inl waits ↦ rw waits (
        Ends-bind
          (Ends-handle _ (λ _ k. k)
            (shared_call-at threads.cnd_wait_empty s₀.0 s
              (Held threads threads.cnd_wait_empty is_empty s₀)
              (Interfered-trans i.0 (rely.wait_empty s i.0.well)) (woken i.1 waits)))
          λ _ s' k. wait_for_element-From fuel s₀ s' k)
    | inr goes ↦ rw goes (returns (i, goes))
  ]
