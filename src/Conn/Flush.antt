-- ===== src/Conn/Flush.antt =====
-- The receive queue of a connection: `lsp_conn_rxq_flush` and `lsp_conn_rxq_push`, and a close that
-- has nothing to do.
use liblsp.Prelude.{
  ℕ, zero, suc, ◌<◌, ◌≡◌, ◌≢◌, test_of_ne, none, List, [], ◌∷◌, arith, Ptr, null, Run, ok, fault,
  and_then,
}
use liblsp.Types.{err_none, err_queue_empty}
use liblsp.Queue.{Queue, pop}
use liblsp.Queue.Ring.{Holds}
use liblsp.Queue.Fifo.{pop_item, pop_empty}
use liblsp.Conn.{Net, set_queue, conn_closed}
use liblsp.Conn.Close.{no_wait, flush_loop, rxq_flush, buffer_free, conn_free, free_children}

-- What a flush of a queue with the items `xs` ends with: of an empty queue, a free of a pointer that was
-- never set; else LSP_ERR_NONE, with the oldest item gone and the others still there.
abbrev pub Flushed : Ptr → List Ptr → Net → Run (ℕ × Net) → Type 0
Flushed handle [] n result = result ≡ fault
Flushed handle (x ∷ xs) n result =
    (q : Queue Ptr) × (result ≡ ok (err_none, set_queue handle q n)) × Holds q xs

-- Where the lock of the receive queue is taken, and the queue is in order, one flush takes a
-- single item off it, frees none, and leaves all the others; on an empty queue it frees a pointer
-- that was never set.
pub rxq_flush-Flushed :
    (lock : ℕ → ℕ) (fuel : ℕ) (c : Ptr) (n : Net) (xs : List Ptr)
    → 0 < fuel
    → lock 0 ≡ err_none
    → (n.conn c).rx_queue ≢ null
    → Holds (n.queues (n.conn c).rx_queue) xs
    → Flushed (n.conn c).rx_queue xs n (rxq_flush lock fuel c n)
unfolding rxq_flush flush_loop buffer_free
rxq_flush-Flushed lock zero c n xs h l ne hold = absurd (omega arith)
rxq_flush-Flushed lock (suc fuel) c n [] h l ne hold =
    let e : pop (lock 0) no_wait (n.queues (n.conn c).rx_queue) 0
        ≡ (err_queue_empty, none, n.queues (n.conn c).rx_queue) =
      rw l (pop_empty no_wait hold) in
    rw (test_of_ne _ null ne, flush_loop, e, e)
rxq_flush-Flushed lock (suc fuel) c n (x ∷ xs) h l ne hold =
    let q = n.queues (n.conn c).rx_queue in
    let (rc, out, left) = pop_item no_wait 0 x hold in
    ((pop err_none no_wait q 0).2, rw (test_of_ne _ null ne, flush_loop, l, rc, l), left)

-- `lsp_conn_free` of a connection that is closed returns the value that its variable happens to hold; and
-- unless that is LSP_ERR_NONE, the connection stays where it is.
pub conn_free_unset :
    (rc : Ptr → ℕ) (lock : ℕ → ℕ) (destroyed fuel : ℕ) (c : Ptr) (n : Net)
    → (n.conn c).state ≡ conn_closed
    → rc c ≢ err_none
    → conn_free rc lock destroyed (suc fuel) c n ≡ ok (rc c, n)
unfolding conn_free free_children
conn_free_unset rc lock destroyed fuel c n closed ne =
    rw (closed, and_then, test_of_ne (rc c) err_none ne)
