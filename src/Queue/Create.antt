-- ===== src/Queue/Create.antt =====
-- Creation, clearing and the layout of the block.
use liblsp.Prelude.{
  to_size, ℤ, ℕ, ◌+◌, ◌-◌, ◌*◌, ◌/◌, ◌%◌, ◌^◌, ◌≤◌, ◌<◌, ◌≡◌, refl, ◌≢◌, ◌⊎◌, ap, ◌∙◌, sym, Bool,
  true, false, inl, inr, List, add_size, none, some, [], arith, length, length-replicate, replicate,
  pos, Ptr, null, size_mod, test_of_ne,
}
use native.Mathlib.Nat.{add-mul-div_right, zero-div}
use liblsp.Types.{err_none, aligned_size}
use liblsp.Queue.{Queue, create, clear, entry_find}
use liblsp.Queue.Ring.{Holds}

mul-div : (n k : ℕ) → 0 < k → n * k / k ≡ n
mul-div n k h =
    let e : 0 + n * k ≡ n * k = omega arith in
    let z : 0 / k ≡ 0 = omega (arith, zero-div k) in
    ap (λ t. t / k) (sym e) ∙ add-mul-div_right 0 n h ∙ rw z (omega arith)

module _ {ℓ} {A : Type ℓ} where
  empty-Holds :
      (q : Queue A)
      → 0 < q.queue_size
      → q.queue_size < 2 ^ 31
      → q.queue_size ≤ length q.slots
      → q.head ≡ 0
      → q.tail ≡ 0
      → q.length ≡ 0
      → Holds q []
  empty-Holds q room small store h t l = record {
    valid = record {
      some_room = room;
      small = small;
      storage = store;
      head_in = omega arith;
      length_in = omega arith;
      tail_at = rw (h, l) (omega arith);
    };
    count = l;
    items = tt;
  }

  -- With memory, and with its pthread objects, a queue for at least one item is created in order and
  -- empty, with the capacity asked for and with no thread waiting, if the size of its header and its items is
  -- below 2^64.
  pub create-Holds :
      (sizeof_handle : ℕ) (malloc : ℕ → Ptr) (blank : A) (n itemsize : ℕ)
      → 0 < n
      → n < 2 ^ 31
      → 0 < itemsize
      → aligned_size sizeof_handle + n * itemsize < size_mod
      → malloc (add_size (aligned_size sizeof_handle) (n * itemsize)) ≢ null
      → (q : Queue A) × (create sizeof_handle malloc true blank (pos n) itemsize ≡ some q)
        × Holds q []
        × (q.queue_size ≡ n)
        × (q.itemsize ≡ itemsize)
        × (q.waiting_full ≡ 0)
        × (q.waiting_empty ≡ 0)
  unfolding create
  create-Holds sizeof_handle malloc blank n itemsize h0 h1 h2 h3 ne =
      let q : Queue A = record {
        length = 0;
        head = 0;
        tail = 0;
        waiting_full = 0;
        waiting_empty = 0;
        queue_size = n;
        itemsize = itemsize;
        slots = replicate n blank;
      } in
      let whole : n % size_mod ≡ n = omega arith in
      let fits : (n * itemsize) % size_mod ≡ n * itemsize = omega arith in
      let header = aligned_size sizeof_handle in
      let inside : add_size header (n * itemsize) - header ≡ n * itemsize = omega arith in
      (
        q,
        rw (whole, fits, test_of_ne _ null ne, inside, mul-div n itemsize h2),
        empty-Holds q h0 h1 (omega (arith, length-replicate n blank)) refl refl refl,
        refl,
        refl,
        refl,
        refl,
      )

  -- With memory, and with its pthread objects, some queue is created, whatever the sizes.
  pub create-some :
      (sizeof_handle : ℕ) (malloc : ℕ → Ptr) (blank : A) (len : ℤ) (itemsize : ℕ)
      → ((k : ℕ) → malloc k ≢ null)
      → (q : Queue A) × (create sizeof_handle malloc true blank len itemsize ≡ some q)
  unfolding create
  create-some sizeof_handle malloc blank len itemsize ne =
      let blocksize = add_size (aligned_size sizeof_handle) ((to_size len * itemsize) % size_mod) in
      let q : Queue A = record {
        length = 0;
        head = 0;
        tail = 0;
        waiting_full = 0;
        waiting_empty = 0;
        queue_size = to_size len;
        itemsize = itemsize;
        slots = replicate ((blocksize - aligned_size sizeof_handle) / itemsize) blank;
      } in
      (q, rw (test_of_ne (malloc blocksize) null (ne blocksize)) refl)

  -- Without memory, or without its pthread objects, no queue is created.
  pub create_fails :
      (sizeof_handle : ℕ) (malloc : ℕ → Ptr) (setup : Bool) (blank : A) (n itemsize : ℕ)
      → ((k : ℕ) → malloc k ≡ null) ⊎ (setup ≡ false)
      → create sizeof_handle malloc setup blank (pos n) itemsize ≡ none
  unfolding create
  create_fails sizeof_handle malloc setup blank n itemsize (inl oom) = rw (oom _)
  create_fails sizeof_handle malloc setup blank n itemsize (inr bad) = ground arith

  -- `lsp_queue_clear` succeeds and empties a queue in order for which no thread waits.
  pub clear-Holds :
      {q : Queue A} (xs : List A)
      → Holds q xs
      → q.waiting_empty ≡ 0
      → q.waiting_full ≡ 0
      → ((clear q).0 ≡ err_none) × Holds (clear q).1 []
  unfolding clear
  clear-Holds {q} xs h we wf =
      rw (we, wf)
        (refl, empty-Holds _ h.valid.some_room h.valid.small h.valid.storage refl refl refl)

-- Of two slots of the block, the one with the lower index ends before the other starts, and that one
-- ends inside the data region.
pub entries_apart :
    (size itemsize i j : ℕ)
    → i < j
    → j < size
    → (entry_find i itemsize + itemsize ≤ entry_find j itemsize)
      × (entry_find j itemsize + itemsize ≤ size * itemsize)
unfolding entry_find
entries_apart size itemsize i j hi hj = grind arith
