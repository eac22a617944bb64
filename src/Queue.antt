-- ===== src/Queue.antt =====
-- src/arch/posix/lsp_queue.c: a bounded queue of fixed-size items in one block. An item is a value of
-- `A`; the block's data region is its list of slots, and `memcpy` copies one slot.
pub mod Ring
pub mod Fifo
pub mod Wait
pub mod Create
pub mod Sequence
pub mod Timeout
pub mod Threads
mod Tests
use liblsp.Prelude.{
  ℕ, ◌+◌, ◌-◌, ◌*◌, ◌/◌, ◌%◌, Bool, Option, none, some, List, ◌==◌, ltb, leb, if◌then◌else◌, ◌||◌,
  get_elem?, set, replicate, not, Ptr, null, ℤ, to_size, add_size, size_mod, u32_mod, inc_int,
  dec_int, is_nonpos, int_to_size,
}
use liblsp.Types.{
  err_none, err_timeout, err_invalid, err_resource_in_use, err_queue_full, err_queue_empty,
  aligned_size,
}

-- `_lsp_queue_handle_t`. The five `sig_atomic_t` are `int` bit patterns.
pub record Queue {ℓ} (A : Type ℓ) : Type ℓ where
  pub length : ℕ
  pub head : ℕ
  pub tail : ℕ
  pub waiting_full : ℕ
  pub waiting_empty : ℕ
  pub queue_size : ℕ
  pub itemsize : ℕ
  pub slots : List A

-- What `queue_wait_internal` ends with: 0, ETIMEDOUT or another error number.
pub data WaitResult : Type 0 where
  woken timed_out failed : WaitResult

-- The result of a failed wait.
abbrev pub wait_err : WaitResult → ℕ
wait_err timed_out = err_timeout
wait_err _ = err_invalid

-- `ENTRY_FIND`, as an offset into the data region.
unfoldable pub entry_find : ℕ → ℕ → ℕ
entry_find index itemsize = index * itemsize

module _ {ℓ} {A : Type ℓ} where
  -- `lsp_queue_create`. `sizeof_handle` depends on the sizes of the pthread types, `setup` says
  -- whether the mutex and the two condition variables could be initialised, and `blank` is an item
  -- of zero bytes. The slots are those in the block that was asked for: its size may wrap around.
  unfoldable pub create :
      (sizeof_handle : ℕ)
      → (malloc : ℕ → Ptr) → (setup : Bool) → (blank : A) → ℤ
      → ℕ
      → Option (Queue A)
  create sizeof_handle malloc setup blank len itemsize =
      let region = (to_size len * itemsize) % size_mod in
      let blocksize = add_size (aligned_size sizeof_handle) region in
      if malloc blocksize == null
      then none
      else if setup
      then some (record {
        length = 0;
        head = 0;
        tail = 0;
        waiting_full = 0;
        waiting_empty = 0;
        queue_size = to_size len;
        itemsize = itemsize;
        slots = replicate ((blocksize - aligned_size sizeof_handle) / itemsize) blank;
      })
      else none

  -- The step from a slot to the next one.
  abbrev pub next_slot : Queue A → ℕ → ℕ
  next_slot q i = (int_to_size (inc_int i) % q.queue_size) % u32_mod

  -- The last part of `lsp_queue_push`.
  unfoldable pub enqueue : A → Queue A → ℕ × Queue A
  enqueue item q = (
    err_none,
    record q {
      slots = set q.slots q.tail item;
      tail = next_slot q q.tail;
      length = inc_int q.length;
    },
  )

  -- The last part of `lsp_queue_pop`. The item is `none` for a read outside the block.
  unfoldable pub dequeue : Queue A → ℕ × Option A × Queue A
  dequeue q = (
    err_none,
    get_elem? q.slots q.head,
    record q { head = next_slot q q.head; length = dec_int q.length },
  )

  -- What stands behind a wait for room.
  unfoldable pub push_woken : A → WaitResult × Queue A → ℕ × Queue A
  push_woken item (woken, q) = enqueue item (record q { waiting_full = dec_int q.waiting_full })
  push_woken item (w, q) = (wait_err w, record q { waiting_full = dec_int q.waiting_full })

  unfoldable pub pop_woken : WaitResult × Queue A → ℕ × Option A × Queue A
  pop_woken (woken, q) = dequeue (record q { waiting_empty = dec_int q.waiting_empty })
  pop_woken (w, q) = (wait_err w, none, record q { waiting_empty = dec_int q.waiting_empty })

  -- `lsp_queue_push`. `lock` is the result of `lsp_mutex_lock`; `wait` is what becomes of the queue
  -- while the mutex is released in `queue_wait_internal`, and how the wait ends.
  unfoldable pub push :
      (lock : ℕ)
      → (wait : Queue A → WaitResult × Queue A) → Queue A
      → A
      → (timeout : ℕ) → ℕ × Queue A
  push lock wait q item timeout =
      if lock == err_none
      then if leb q.queue_size (int_to_size q.length)
        then if ltb 0 timeout
          then push_woken item (wait (record q { waiting_full = inc_int q.waiting_full }))
          else (err_queue_full, q)
        else enqueue item q
      else (lock, q)

  -- `lsp_queue_pop`: the result, what is stored through `data`, and the queue.
  unfoldable pub pop :
      (lock : ℕ)
      → (wait : Queue A → WaitResult × Queue A) → Queue A
      → (timeout : ℕ) → ℕ × Option A × Queue A
  pop lock wait q timeout =
      if lock == err_none
      then if is_nonpos q.length
        then if ltb 0 timeout
          then pop_woken (wait (record q { waiting_empty = inc_int q.waiting_empty }))
          else (err_queue_empty, none, q)
        else dequeue q
      else (lock, none, q)

  -- `lsp_queue_destroy`: a result, or `none` where it returns without one; and whether the queue
  -- is freed.
  unfoldable pub destroy : Queue A → Option ℕ × Bool
  destroy q =
      let busy = not (q.waiting_empty == 0) || not (q.waiting_full == 0) in
      (if busy then some err_resource_in_use else none, not busy)

  -- `lsp_queue_length`
  unfoldable pub queue_length : Queue A → ℕ
  queue_length q = q.queue_size

  unfoldable pub queue_itemsize : Queue A → ℕ
  queue_itemsize q = q.itemsize

  unfoldable pub clear : Queue A → ℕ × Queue A
  clear q =
      if not (q.waiting_empty == 0) || not (q.waiting_full == 0)
      then (err_resource_in_use, q)
      else (err_none, record q { head = 0; tail = 0; length = 0 })
