-- ===== src/LspList/Ring.antt =====
-- What a circular list of lsp_list.h is: a head and the nodes that its links lead through.
use liblsp.Prelude.{
  ◌≡◌, refl, Option, some, true, false, inl, inr, Bool-cases, eq_of_test, List, [], ◌∷◌, ◌++◌,
  arith, ◌==◌, has, has-apart, length, leb, Distinct, has-append, head_or, Ptr, update,
}
use liblsp.LspList.{Links, valid}

-- `f` leads from each element to the one behind it, and from the last to `end`.
abbrev pub Follows : (Ptr → Ptr) → List Ptr → Ptr → Type 0
Follows f [] end = Unit
Follows f (u ∷ us) end = (f u ≡ head_or us end) × Follows f us end

-- `f` leads from each element, and from `end` behind them, to the one before it.
abbrev pub Precedes : (Ptr → Ptr) → Ptr → List Ptr → Ptr → Type 0
Precedes f start [] end = f end ≡ start
Precedes f start (u ∷ us) end = (f u ≡ start) × Precedes f u us end

abbrev pub AllValid : Links → List Ptr → Type 0
AllValid m [] = Unit
AllValid m (u ∷ us) = (valid m u ≡ true) × AllValid m us

-- From `head` the links lead through `xs`, in order, and back, both ways round.
pub record IsRing (m : Links) (head : Ptr) (xs : List Ptr) : Type 0 where
  pub mapped : AllValid m (head ∷ xs)
  pub forth : Follows m.next (head ∷ xs) head
  pub back : Precedes m.prev head xs head
  pub distinct : Distinct (head ∷ xs)

-- `m'` differs from `m` at most in the links of the nodes `ps`.
abbrev pub SameOutside : List Ptr → Links → Links → Type 0
SameOutside ps m m' =
    (m'.mapped ≡ m.mapped)
    × ((p : Ptr) → has p ps ≡ false → (m'.next p ≡ m.next p) × (m'.prev p ≡ m.prev p))

-- An operation on `m` that ends without a fault in a ring of `ys`, and writes at `ps` only.
abbrev pub Leaves : Links → Ptr → List Ptr → List Ptr → Option Links → Type 0
Leaves m head ys ps result =
    (m' : Links) × (result ≡ some m') × IsRing m' head ys × SameOutside ps m m'

-- The last element, or `d`.
abbrev pub last_or : List Ptr → Ptr → Ptr
last_or [] d = d
last_or (x ∷ xs) d = last_or xs x

pub Follows-frame :
    (f g : Ptr → Ptr) (us : List Ptr) (end : Ptr)
    → ((u : Ptr) → has u us ≡ true → g u ≡ f u)
    → Follows f us end
    → Follows g us end
Follows-frame f g [] end same h = tt
Follows-frame f g (u ∷ us) end same h =
    (ground (arith, same u), Follows-frame f g us end (λ v i. ground (arith, same v)) h.1)

pub Precedes-frame :
    (f g : Ptr → Ptr) (start : Ptr) (us : List Ptr) (end : Ptr)
    → ((u : Ptr) → has u (end ∷ us) ≡ true → g u ≡ f u)
    → Precedes f start us end
    → Precedes g start us end
Precedes-frame f g start [] end same h = ground (arith, same end)
Precedes-frame f g start (u ∷ us) end same h =
    (ground (arith, same u), Precedes-frame f g u us end (λ v i. ground (arith, same v)) h.1)

-- The first of `vs`, or what stands behind it.
pub has-head_or : (end : Ptr) (vs : List Ptr) → has (head_or vs end) (end ∷ vs) ≡ true
has-head_or end [] = ground arith
has-head_or end (v ∷ vs) = ground arith

pub has-last_or : (x : Ptr) (xs : List Ptr) → has (last_or xs x) (x ∷ xs) ≡ true
has-last_or x [] = ground arith
has-last_or x (y ∷ ys) = ground (arith, has-last_or y ys)

pub has-last_or_append : (x : Ptr) (us vs : List Ptr) → has (last_or us x) (x ∷ us ++ vs) ≡ true
has-last_or_append x us vs = ground (arith, has-last_or x us, has-append (last_or us x) (x ∷ us) vs)

pub has-head_or_append : (x : Ptr) (us vs : List Ptr) → has (head_or vs x) (x ∷ us ++ vs) ≡ true
has-head_or_append x us vs = ground (arith, has-head_or x vs, has-append (head_or vs x) us vs)

pub last_or-append : (x : Ptr) (us : List Ptr) (v : Ptr) → last_or (us ++ v ∷ []) x ≡ v
last_or-append x [] v = refl
last_or-append x (u ∷ us) v = last_or-append u us v

-- `n` comes in behind `us`, and before `vs`.
pub Follows-insert :
    (f : Ptr → Ptr) (h : Ptr) (us vs : List Ptr) (n end : Ptr)
    → Distinct (h ∷ us ++ vs)
    → has n (h ∷ us ++ vs) ≡ false
    → Follows f (h ∷ us ++ vs) end
    → Follows (update (update f n (head_or vs end)) (last_or us h) n) (h ∷ us ++ n ∷ vs) end
Follows-insert f h [] vs n end d out p =
    (ground arith, (ground arith, Follows-frame f _ vs end (λ v i. ground arith) p.1))
Follows-insert f h (a ∷ us) vs n end d out p = (
  ground (arith, has-last_or a us, has-append h (a ∷ us) vs),
  Follows-insert f a us vs n end d.1 (ground arith) p.1,
)

pub Precedes-insert :
    (f : Ptr → Ptr) (start : Ptr) (us vs : List Ptr) (n end : Ptr)
    → Distinct (end ∷ us ++ vs)
    → has n (end ∷ us ++ vs) ≡ false
    → Precedes f start (us ++ vs) end
    → Precedes (update (update f (head_or vs end) n) n (last_or us start)) start (us ++ n ∷ vs) end
Precedes-insert f start [] [] n end d out p = (ground arith, ground arith)
Precedes-insert f start [] (v ∷ vs) n end d out p =
    (ground arith, (ground arith, Precedes-frame f _ v vs end (λ w i. ground arith) p.1))
Precedes-insert f start (u ∷ us) vs n end d out p = (
  ground (arith, has-head_or end vs, has-append u us vs),
  Precedes-insert f u us vs n end (ground arith, d.1.1) (ground arith) p.1,
)

-- `n` goes out behind `us`, and before `vs`.
pub Follows-delete :
    (f : Ptr → Ptr) (h : Ptr) (us vs : List Ptr) (n end : Ptr)
    → Distinct (h ∷ us ++ n ∷ vs)
    → Follows f (h ∷ us ++ n ∷ vs) end
    → Follows (update f (last_or us h) (head_or vs end)) (h ∷ us ++ vs) end
Follows-delete f h [] vs n end d p =
    (ground arith, Follows-frame f _ vs end (λ v i. ground arith) p.1.1)
Follows-delete f h (a ∷ us) vs n end d p = (
  ground (arith, has-last_or a us, has-append h (a ∷ us) (n ∷ vs)),
  Follows-delete f a us vs n end d.1 p.1,
)

pub Precedes-delete :
    (f : Ptr → Ptr) (start : Ptr) (us vs : List Ptr) (n end : Ptr)
    → Distinct (end ∷ us ++ n ∷ vs)
    → Precedes f start (us ++ n ∷ vs) end
    → Precedes (update f (head_or vs end) (last_or us start)) start (us ++ vs) end
Precedes-delete f start [] [] n end d p = ground arith
Precedes-delete f start [] (v ∷ vs) n end d p =
    (ground arith, Precedes-frame f _ v vs end (λ w i. ground arith) p.1.1)
Precedes-delete f start (u ∷ us) vs n end d p = (
  ground (arith, has-head_or end vs, has-append u us (n ∷ vs)),
  Precedes-delete f u us vs n end (ground arith, d.1.1) p.1,
)

-- Where the links of an inner node lead.
pub Follows-at :
    (f : Ptr → Ptr) (us : List Ptr) (n : Ptr) (vs : List Ptr) (end : Ptr)
    → Follows f (us ++ n ∷ vs) end
    → f n ≡ head_or vs end
Follows-at f [] n vs end h = h.0
Follows-at f (a ∷ us) n vs end h = Follows-at f us n vs end h.1

pub Precedes-at :
    (f : Ptr → Ptr) (start : Ptr) (us : List Ptr) (n : Ptr) (vs : List Ptr) (end : Ptr)
    → Precedes f start (us ++ n ∷ vs) end
    → f n ≡ last_or us start
Precedes-at f start [] n vs end h = h.0
Precedes-at f start (u ∷ us) n vs end h = Precedes-at f u us n vs end h.1

pub Precedes-end :
    (f : Ptr → Ptr) (start : Ptr) (us : List Ptr) (end : Ptr)
    → Precedes f start us end
    → f end ≡ last_or us start
Precedes-end f start [] end h = h
Precedes-end f start (u ∷ us) end h = Precedes-end f u us end h.1

-- With one element more or less the elements stay apart.
pub Distinct-insert :
    (us : List Ptr) (n : Ptr) (vs : List Ptr)
    → Distinct (us ++ vs)
    → has n (us ++ vs) ≡ false
    → Distinct (us ++ n ∷ vs)
Distinct-insert [] n vs d out = (out, d)
Distinct-insert (a ∷ us) n vs d out = (
  ground (arith, has-append a us vs, has-append a us (n ∷ vs)),
  Distinct-insert us n vs d.1 (ground arith),
)

pub Distinct-delete :
    (us : List Ptr) (n : Ptr) (vs : List Ptr)
    → Distinct (us ++ n ∷ vs)
    → Distinct (us ++ vs) × (has n (us ++ vs) ≡ false)
Distinct-delete [] n vs d = (d.1, d.0)
Distinct-delete (a ∷ us) n vs d =
    let rest = Distinct-delete us n vs d.1 in
    (
      (ground (arith, has-append a us vs, has-append a us (n ∷ vs)), rest.0),
      ground (arith, has-append a us (n ∷ vs)),
    )

pub AllValid-insert :
    (m : Links) (us : List Ptr) (n : Ptr) (vs : List Ptr)
    → AllValid m (us ++ vs)
    → valid m n ≡ true
    → AllValid m (us ++ n ∷ vs)
AllValid-insert m [] n vs h v = (v, h)
AllValid-insert m (a ∷ us) n vs h v = (h.0, AllValid-insert m us n vs h.1 v)

pub AllValid-delete :
    (m : Links) (us : List Ptr) (n : Ptr) (vs : List Ptr)
    → AllValid m (us ++ n ∷ vs)
    → AllValid m (us ++ vs) × (valid m n ≡ true)
AllValid-delete m [] n vs h = (h.1, h.0)
AllValid-delete m (a ∷ us) n vs h =
    let rest = AllValid-delete m us n vs h.1 in ((h.0, rest.0), rest.1)

pub AllValid-at :
    (m : Links) (xs : List Ptr) (n : Ptr) → AllValid m xs → has n xs ≡ true → valid m n ≡ true
AllValid-at m [] n h i = cc
AllValid-at m (x ∷ xs) n h i = elim (Bool-cases (n == x)) [
  | inl same ↦ rw (eq_of_test n x same) h.0
  | inr other ↦ AllValid-at m xs n h.1 (ground arith)
]

pub IsRing-valid :
    {m : Links} {head : Ptr} (us : List Ptr) (n : Ptr) (vs : List Ptr)
    → IsRing m head (us ++ n ∷ vs)
    → valid m n ≡ true
IsRing-valid {m} {head} us n vs r =
    AllValid-at m (head ∷ us ++ n ∷ vs) n r.mapped (ground (arith, has-append n us (n ∷ vs)))

-- The first and the last element are the same one in a list of at most one element.
pub ends_meet :
    (head : Ptr) (xs : List Ptr)
    → Distinct (head ∷ xs)
    → (head_or xs head == last_or xs head) ≡ leb (length xs) 1
ends_meet head [] d = ground arith
ends_meet head (x ∷ []) d = ground arith
ends_meet head (x ∷ y ∷ l) d =
    let apart : (x == last_or l y) ≡ false =
      has-apart x (last_or l y) (y ∷ l) (has-last_or y l) d.1.0 in
    ground arith
