-- ===== src/Queue/Ring.antt =====
-- The items of a queue: the slots from `head` on, going round at `queue_size`.
use liblsp.Prelude.{
  ℕ, suc, ◌+◌, ◌-◌, ◌%◌, ◌^◌, ◌≤◌, ◌<◌, ◌≡◌, ◌≢◌, ◌∙◌, ap, some, List, [], ◌∷◌, ◌++◌, arith,
  get_elem?, set, length, get_elem?-set_self, get_elem?-set_ne,
}
use native.Mathlib.Decide.{dec_lt}
use native.Mathlib.Nat.{add-zero, mod-add-mod, mod-eq_of_lt, mod-eq-sub-mod}
use liblsp.Queue.{Queue}

-- Fewer than `size` steps round do not come back to the start.
round-ne : (size h n : ℕ) → h < size → suc n < size → (h + suc n) % size ≢ h
round-ne size h n hh hn = elim (dec_lt (h + suc n) size) [
  | yes below ↦ omega (arith, mod-eq_of_lt below)
  | no past ↦ omega (
    arith,
    mod-eq-sub-mod {n = h + suc n} {m = size} (omega arith),
    mod-eq_of_lt {n = h + suc n - size} {m = size} (omega arith),
  )
]

-- Counting from the next slot.
pub round-suc : (size h n : ℕ) → (h + suc n) % size ≡ ((h + 1) % size + n) % size
round-suc size h n = rw mod-add-mod (ap (λ k. k % size) (omega arith))

module _ {ℓ} {A : Type ℓ} (size : ℕ) where
  -- From slot `h` on the items are `xs`.
  abbrev pub Window : List A → ℕ → List A → Type ℓ
  Window slots h [] = Unit
  Window slots h (x ∷ xs) = (get_elem? slots h ≡ some x) × Window slots ((h + 1) % size) xs

  -- An item written just past the items is the last of one more.
  pub Window-snoc :
      (slots : List A) (h i : ℕ) (xs : List A) (x : A)
      → size ≤ length slots
      → h < size
      → length xs < size
      → i ≡ (h + length xs) % size
      → Window slots h xs
      → Window (set slots i x) h (xs ++ x ∷ [])
  Window-snoc slots h i [] x hs hh hn e w =
      let at : i ≡ h = e ∙ rw add-zero (mod-eq_of_lt hh) in
      (rw at (get_elem?-set_self slots h x (omega arith)), tt)
  Window-snoc slots h i (y ∷ ys) x hs hh hn e w =
      let apart : i ≢ h = rw e (round-ne size h (length ys) hh hn) in
      (
        get_elem?-set_ne slots x apart ∙ w.0,
        Window-snoc slots ((h + 1) % size) i ys x hs (omega arith) (omega arith)
            (e ∙ round-suc size h (length ys)) w.1,
      )

module _ {ℓ} {A : Type ℓ} where
  pub record IsValid (q : Queue A) : Type 0 where
    pub some_room : 0 < q.queue_size
    pub small : q.queue_size < 2 ^ 31
    pub storage : q.queue_size ≤ length q.slots
    pub head_in : q.head < q.queue_size
    pub length_in : q.length ≤ q.queue_size
    pub tail_at : q.tail ≡ (q.head + q.length) % q.queue_size

  -- The queue is in order, and holds `xs`, the oldest first.
  pub record Holds (q : Queue A) (xs : List A) : Type ℓ where
    pub valid : IsValid q
    pub count : q.length ≡ length xs
    pub items : Window q.queue_size q.slots q.head xs
