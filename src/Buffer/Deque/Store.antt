-- ===== src/Buffer/Deque/Store.antt =====
-- Bytes of memory that are read after others were written.
use liblsp.Prelude.{
  ℕ, zero, suc, ◌+◌, ◌-◌, ◌≤◌, ◌<◌, ◌≡◌, ◌⊎◌, inl, inr, refl, ◌∙◌, ap, List, [], ◌∷◌, take, drop,
  length, arith, Ptr,
}
use mathlib.Core.Path.{ap₂}
use Prim.Native.Nat.{min}
use liblsp.Buffer.Bytes.{slice}
use liblsp.Buffer.Deque.{store}

pub store-outside :
    (p q : Ptr) (ws : List ℕ) (m : ℕ → ℕ) → (q < p) ⊎ (p + length ws ≤ q) → store p ws m q ≡ m q
store-outside p q [] m h = refl
store-outside p q (w ∷ ws) m h = elim h [
  | inl before ↦ store-outside (suc p) q ws _ (inl (omega arith)) ∙ ground (arith, before)
  | inr behind ↦ store-outside (suc p) q ws _ (inr (omega arith)) ∙ ground (arith, behind)
]

pub slice-same :
    (m k : ℕ → ℕ) (a n : ℕ)
    → ((q : Ptr) → a ≤ q → q < a + n → m q ≡ k q)
    → slice m a n ≡ slice k a n
slice-same m k a zero h = refl
slice-same m k a (suc n) h =
    ap₂ (λ x l. x ∷ l) (h a (omega arith) (omega arith))
      (slice-same m k (suc a) n (λ q l u. h q (omega arith) (omega arith)))

-- What was written is read back.
pub slice-store : (p : Ptr) (ws : List ℕ) (m : ℕ → ℕ) → slice (store p ws m) p (length ws) ≡ ws
slice-store p [] m = refl
slice-store p (w ∷ ws) m =
    ap₂ (λ x l. x ∷ l) (store-outside (suc p) p ws _ (inl (omega arith)) ∙ ground arith)
      (slice-store (suc p) ws _)

-- A window that the bytes written do not touch.
pub slice-store_apart :
    (p a n : ℕ) (ws : List ℕ) (m : ℕ → ℕ)
    → (a + n ≤ p) ⊎ (p + length ws ≤ a)
    → slice (store p ws m) a n ≡ slice m a n
slice-store_apart p a n ws m h = slice-same (store p ws m) m a n (λ q l u.
    store-outside p q ws m
      (elim h [ inl before ↦ inl (omega arith) | inr behind ↦ inr (omega arith) ]))

module _ (m : ℕ → ℕ) where
  pub length-slice : (a n : ℕ) → length (slice m a n) ≡ n
  length-slice a zero = refl
  length-slice a (suc n) = ap suc (length-slice (suc a) n)

  pub take-slice : (n a k : ℕ) → take n (slice m a k) ≡ slice m a (min n k)
  take-slice zero a k = let e : 0 ≡ min 0 k = omega arith in ap (slice m a) e
  take-slice (suc n) a zero = let e : 0 ≡ min (suc n) 0 = omega arith in ap (slice m a) e
  take-slice (suc n) a (suc k) =
      let e : suc (min n k) ≡ min (suc n) (suc k) = omega arith in
      ap (λ l. m a ∷ l) (take-slice n (suc a) k) ∙ ap (slice m a) e

  pub drop-slice : (n a k : ℕ) → drop n (slice m a k) ≡ slice m (a + min n k) (k - min n k)
  drop-slice zero a k =
      let start : a ≡ a + min 0 k = omega arith in
      let size : k ≡ k - min 0 k = omega arith in ap₂ (slice m) start size
  drop-slice (suc n) a zero =
      let size : 0 ≡ 0 - min (suc n) 0 = omega arith in ap (slice m (a + min (suc n) 0)) size
  drop-slice (suc n) a (suc k) =
      let start : suc a + min n k ≡ a + min (suc n) (suc k) = omega arith in
      let size : k - min n k ≡ suc k - min (suc n) (suc k) = omega arith in
      drop-slice n (suc a) k ∙ ap₂ (slice m) start size
