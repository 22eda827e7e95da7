-- ===== src/Queue/Init.antt =====
-- mr_queue_init of src/queue.c.
use native.Mathlib.Nat.{mod-eq_of_lt, mul-div_cancel}
use mr_lib.Common.{
  ℕ, Bool, none, ◌*◌, ◌<◌, ◌≡◌, refl, ◌∙◌, true, false, [], size_limit, lt→ltb, length-replicate,
  arith,
}
use mr_lib.Os.{Os, Request}
use mr_lib.Os.Io.{succeed, assert, pure, ◌>>=◌, Handler, syscall_ret, call}
use mr_lib.Os.Calls
use mr_lib.Os.Yields
use mr_lib.Os.Yields.{Yields}
use mr_lib.Queue.{Queue, Threads, world_call, mr_queue_init}
use mr_lib.Queue.Laws.{IsQueue, stack}

module _ {W : Type 0} ⦃os : Os W⦄ (threads : Threads W) where
  -- the worlds behind the first three calls
  abbrev allocated : (size : ℕ) → W → W
  allocated size w = (os.sys (Request.malloc size) w).1

  abbrev with_mutex : (size : ℕ) → W → W
  with_mutex size w = (threads.mtx_init (allocated size w)).1

  abbrev with_full : (size : ℕ) → W → W
  with_full size w = (threads.cnd_init_full (with_mutex size w)).1

  -- one of the four calls, made in this order, has answered with a failure
  pub data Refused (size : ℕ) (w : W) : Type 0 where
    no_block : (os.sys (Request.malloc size) w).0 ≡ none → Refused size w
    no_mutex : (threads.mtx_init (allocated size w)).0 ≡ false → Refused size w
    no_full : (threads.cnd_init_full (with_mutex size w)).0 ≡ false → Refused size w
    no_empty : (threads.cnd_init_empty (with_full size w)).0 ≡ false → Refused size w

  succeed_or :
      {F : Type 0} (b : Bool) (w : W) → (b ≡ false → F) → Yields (λ _ w'. w' ≡ w) F (succeed b w)
  unfolding succeed
  succeed_or true w refused = Yields.returns refl
  succeed_or false w refused = Yields.fails (refused refl)

  world_call_or :
      {F : Type 0} (f : W → Bool × W) (h : Handler W) (w : W)
      → ((f w).0 ≡ false → F)
      → Yields (λ _ w'. w' ≡ (f w).1) F (syscall_ret (world_call f) h w)
  unfolding world_call syscall_ret
  world_call_or f h w refused = Yields.handle h (succeed_or (f w).0 (f w).1 refused)

  malloc_or :
      {F : Type 0} (size : ℕ) (w : W)
      → ((os.sys (Request.malloc size) w).0 ≡ none → F)
      → Yields (λ _ w'. w' ≡ allocated size w) F (Calls.malloc size w)
  unfolding Calls.malloc call ◌>>=◌
  malloc_or size w refused =
      Yields.need_or (os.sys (Request.malloc size) w).0 (allocated size w) refused

  -- a queue as `mr_queue_init` makes it
  pub record Fresh (capacity element_size : ℕ) (q : Queue) : Type 0 where
    pub well : IsQueue q
    pub empty : stack q ≡ []
    pub usable : q.closed ≡ false
    pub capacity_of : q.capacity ≡ capacity
    pub size_of : q.element_size ≡ element_size

  -- For a capacity and an element size of at least 1 whose product fits a `size_t`, no assertion fails,
  -- and the result is an empty, open queue with room for `capacity` elements; or the allocation of the
  -- buffer or one of the calls that make the mutex and the conditions has answered with a failure.
  pub mr_queue_init-Fresh :
      (capacity element_size : ℕ) (w : W)
      → 0 < capacity
      → 0 < element_size
      → capacity * element_size < size_limit
      → Yields
          (λ q _. Fresh capacity element_size q)
          (Refused (capacity * element_size) w)
          (mr_queue_init threads capacity element_size w)
  unfolding mr_queue_init ◌>>=◌ pure syscall_ret assert
  mr_queue_init-Fresh capacity element_size w room some_bytes fits =
      let size = capacity * element_size in
      rw (lt→ltb 0 capacity room, lt→ltb 0 element_size some_bytes, mod-eq_of_lt fits)
        (Yields.bind (malloc_or size w no_block) λ address w₁ e₁.
          Yields.bind (world_call_or threads.mtx_init _ w₁ λ r. no_mutex (rw e₁ at r)) λ _ w₂ e₂.
            let f₂ : w₂ ≡ with_mutex size w = rw e₁ at e₂ in
            Yields.bind (world_call_or threads.cnd_init_full _ w₂ λ r. no_full (rw f₂ at r))
              λ _ w₃ e₃.
                let f₃ : w₃ ≡ with_full size w = rw f₂ at e₃ in
                Yields.bind (world_call_or threads.cnd_init_empty _ w₃ λ r. no_empty (rw f₃ at r))
                  λ _ w₄ _. Yields.returns (record {
                    well = record {
                      room =
                          length-replicate _ (os.stale w₄ element_size)
                          ∙ mul-div_cancel capacity some_bytes;
                      bound = omega arith;
                    };
                    empty = refl;
                    usable = refl;
                    capacity_of = refl;
                    size_of = refl;
                  }))
