-- ===== src/Memory/Record.antt =====
-- What `lsp_malloc` and `lsp_calloc` record of the blocks that they hand out.
use liblsp.Prelude.{
  ℕ, ◌+◌, ◌*◌, ◌%◌, ◌≡◌, ◌≢◌, refl, false, List, [], ◌∷◌, map, arith, ◌==◌, has, Ptr, null, Run, ok,
  and_then, u32_mod, size_mod, test_of_ne, update, ◌≤◌, fault, length, true, find, some, Bool-cases,
  inl, inr, subst, sym,
}
use liblsp.LspList.Ring.{IsRing}
use liblsp.LspList.Mapping.{IsRing-mapping, map-update}
use liblsp.LspList.Insert.{add-front}
use liblsp.Memory.{Blocks, malloc, calloc, free}
use liblsp.Memory.Free.{Freed, free-Freed}

-- A call, with what malloc and calloc of the system give: the block of the accounting, and the memory.
pub data Call : Type 0 where
  malloc_call : (b data_ptr : Ptr) → (len : ℕ) → Call
  calloc_call : (b data_ptr : Ptr) → (nmemb size : ℕ) → Call

abbrev pub block_of : Call → Ptr
block_of (malloc_call b data_ptr len) = b
block_of (calloc_call b data_ptr nmemb size) = b

-- The memory that a call returns, and its size.
abbrev pub entry : Call → Ptr × ℕ
entry (malloc_call b data_ptr len) = (data_ptr, len)
entry (calloc_call b data_ptr nmemb size) = (data_ptr, (nmemb * size) % size_mod)

abbrev pub total : List (Ptr × ℕ) → ℕ
total [] = 0
total (e ∷ es) = e.1 + total es

-- The last call first, before what there was.
abbrev pub latest {ℓ} : {A : Type ℓ} → (Call → A) → List Call → List A → List A
latest f [] xs = xs
latest f (call ∷ calls) xs = latest f calls (f call ∷ xs)

-- The blocks that malloc of the system gives are not NULL, and each is neither the list's head nor in use.
unfoldable pub AllFresh : (head : Ptr) → List Call → (used : List Ptr) → Type 0
AllFresh head [] used = Unit
AllFresh head (call ∷ calls) used =
    (block_of call ≢ null)
    × (has (block_of call) (head ∷ used) ≡ false)
    × AllFresh head calls (block_of call ∷ used)

-- What stands beside one of the nodes `bs` is found there.
found_in :
    (p : Ptr) (f : Ptr → Ptr) (bs : List Ptr)
    → has p (map f bs) ≡ true
    → (b : Ptr) × (find (λ c. f c == p) bs ≡ some b)
found_in p f [] h = absurd (ground arith)
found_in p f (b ∷ bs) h = elim (Bool-cases (f b == p)) [
  | inl hit ↦ (b, rw hit refl)
  | inr miss ↦ let (c, e) = found_in p f bs (ground (arith, h, miss)) in (c, rw (miss, e) refl)
]

module _ (head : Ptr) where
  unfoldable pub perform : Call → Blocks → Run (Ptr × Blocks)
  perform (malloc_call b data_ptr len) h = malloc head b data_ptr len h
  perform (calloc_call b data_ptr nmemb size) h = calloc head b data_ptr nmemb size h

  unfoldable pub perform_all : List Call → Blocks → Run (List Ptr × Blocks)
  perform_all [] h = ok ([], h)
  perform_all (call ∷ calls) h =
      and_then (perform call h)
        (λ (p, h1). and_then (perform_all calls h1) (λ (ps, h2). ok (p ∷ ps, h2)))

  -- The list of the blocks at `bs`, which stand for the memory of `es`, and the count of bytes.
  pub record Records (h : Blocks) (bs : List Ptr) (es : List (Ptr × ℕ)) : Type 0 where
    pub ring : IsRing h.links head bs
    pub pointers : map h.ptr bs ≡ map (λ e. e.0) es
    pub sizes : map h.size bs ≡ map (λ e. e.1) es
    pub bytes : h.alloc_bytes ≡ total es % u32_mod

  malloc-Records :
      (b data_ptr : Ptr) (len : ℕ) {h : Blocks} {bs : List Ptr} {es : List (Ptr × ℕ)}
      → Records h bs es
      → b ≢ null
      → has b (head ∷ bs) ≡ false
      → (h1 : Blocks) × (malloc head b data_ptr len h ≡ ok (data_ptr, h1))
        × Records h1 (b ∷ bs) ((data_ptr, len) ∷ es)
  unfolding malloc
  malloc-Records b data_ptr len {h} {bs} {es} r ne out =
      let ne' : (b == null) ≡ false = test_of_ne b null ne in
      let (m, e, ring, same) = add-front b (ground arith) bs (IsRing-mapping b bs r.ring) out in
      (
        record {
          links = m;
          size = update h.size b len;
          ptr = update h.ptr b data_ptr;
          alloc_bytes = (h.alloc_bytes + len) % u32_mod;
        },
        rw (ne', e) refl,
        record {
          ring = ring;
          pointers = ground (arith, map-update h.ptr b data_ptr bs, r.pointers);
          sizes = ground (arith, map-update h.size b len bs, r.sizes);
          bytes = omega (arith, r.bytes);
        },
      )

  perform-Records :
      (call : Call) {h : Blocks} {bs : List Ptr} {es : List (Ptr × ℕ)}
      → Records h bs es
      → block_of call ≢ null
      → has (block_of call) (head ∷ bs) ≡ false
      → (h1 : Blocks) × (perform call h ≡ ok ((entry call).0, h1))
        × Records h1 (block_of call ∷ bs) (entry call ∷ es)
  unfolding perform calloc
  perform-Records (malloc_call b data_ptr len) r ne out = malloc-Records b data_ptr len r ne out
  perform-Records (calloc_call b data_ptr nmemb size) r ne out =
      malloc-Records b data_ptr ((nmemb * size) % size_mod) r ne out

  -- After any sequence of `lsp_malloc` and `lsp_calloc`, where the system's malloc gives blocks for the
  -- accounting that are not NULL and not in use, each call returned the memory that the system gave, and the
  -- list holds the pointer and the size of each, the last one first, before what it held. The count of bytes
  -- is the sum of the sizes modulo 2^32.
  pub perform_all-Records :
      (calls : List Call) {h : Blocks} {bs : List Ptr} {es : List (Ptr × ℕ)}
      → Records h bs es
      → AllFresh head calls bs
      → (h1 : Blocks) × (perform_all calls h ≡ ok (map (λ call. (entry call).0) calls, h1))
        × Records h1 (latest block_of calls bs) (latest entry calls es)
  unfolding perform_all AllFresh
  perform_all-Records [] {h} r fresh = (h, refl, r)
  perform_all-Records (call ∷ calls) r (ne, out, fresh) =
      let (h1, e, r1) = perform-Records call r ne out in
      let (h2, e1, r2) = perform_all-Records calls r1 fresh in (h2, rw (e, e1) refl, r2)

  -- The record has no use: where it holds two blocks or more, `lsp_free` of any pointer in it reads the
  -- block that it just freed.
  pub free-recorded :
      (p : Ptr) (fuel : ℕ) {h : Blocks} {bs : List Ptr} {es : List (Ptr × ℕ)}
      → Records h bs es
      → 2 ≤ length bs
      → length bs ≤ fuel
      → has p (map (λ e. e.0) es) ≡ true
      → free head p fuel h ≡ fault
  free-recorded p fuel {h} {bs = []} r two enough known = absurd (omega arith)
  free-recorded p fuel {h} {bs = b ∷ []} r two enough known = absurd (omega arith)
  free-recorded p fuel {h} {bs = b ∷ c ∷ bs} r two enough known =
      let (hit, found) =
        found_in p h.ptr (b ∷ c ∷ bs) (subst (λ l. has p l ≡ true) (sym r.pointers) known) in
      subst (λ o. Freed o h (free head p fuel h)) found
        (free-Freed head p h fuel (b ∷ c ∷ bs) r.ring enough)
