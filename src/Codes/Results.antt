-- ===== src/Codes/Results.antt =====
-- Which error codes the functions return.
use liblsp.Prelude.{
  subst, sym, Bool, false, if◌then◌else◌, ℕ, ◌≡◌, refl, true, inl, inr, ◌⊎◌, none, some, List, [],
  ◌∷◌, map, has, ◌==◌, arith,
}
use liblsp.Types.{default_queue_timeout_ms}
use liblsp.Queue.{WaitResult, woken, timed_out, failed}
use liblsp.Codes.{
  ErrorCode, code, LockCall, ApiCall, result, errors, calls_mutex_lock, calls_mutex_init,
  calls_mutex_destroy, calls_mutex_unlock, calls_thread_create, calls_conf_init, calls_queue_push,
  calls_queue_pop, calls_queue_clear, calls_conn_rxq_push, calls_connect,
}
use liblsp.Codes.Outcome.{
  of_lock, of_wait, of_queue, outcome, pthread_cases, lock_cases, result-outcome,
}

-- The codes of a list, and LSP_ERR_NONE.
abbrev pub codes : List ErrorCode → List ℕ
codes es = map code (ErrorCode.success ∷ es)

among_mutex :
    {e : ErrorCode}
    → (e ≡ ErrorCode.success) ⊎ (e ≡ ErrorCode.mutex_error)
    → has (code e) (codes (ErrorCode.mutex_error ∷ [])) ≡ true
among_mutex (inl e) = rw e refl
among_mutex (inr e) = rw e refl

-- The codes of a call on a queue.
abbrev queue_codes : (no_wait : ErrorCode) → List ℕ
queue_codes no_wait =
    codes (ErrorCode.mutex_error ∷ no_wait ∷ ErrorCode.timeout_error ∷ ErrorCode.invalid ∷ [])

of_queue-has :
    (l : LockCall) (blocked : Bool) (timeout : ℕ) (no_wait : ErrorCode) (w : WaitResult)
    → has (code no_wait) (queue_codes no_wait) ≡ true
    → has (code (of_queue (of_lock l) blocked timeout no_wait w)) (queue_codes no_wait) ≡ true
of_queue-has l blocked timeout no_wait w own = elim (lock_cases l) [
  | inr refused ↦ rw refused refl
  | inl locked ↦ rw locked (of_end blocked (timeout == 0) w)
]
  where
    of_end :
        (blocked at_once : Bool) (w : WaitResult)
        → has
            (code (if blocked then (if at_once then no_wait else of_wait w) else ErrorCode.success))
            (queue_codes no_wait)
          ≡ true
    of_end false at_once w = refl
    of_end true true w = own
    of_end true false woken = refl
    of_end true false timed_out = ground arith
    of_end true false failed = ground arith

outcome-errors : (c : ApiCall) → has (code (outcome c)) (codes (errors c)) ≡ true
outcome-errors (calls_mutex_lock l) = among_mutex (lock_cases l)
outcome-errors (calls_mutex_init rc) = among_mutex (pthread_cases rc)
outcome-errors (calls_mutex_destroy rc) = among_mutex (pthread_cases rc)
outcome-errors (calls_mutex_unlock rc) = among_mutex (pthread_cases rc)
outcome-errors (calls_thread_create rc) = ground arith
outcome-errors (calls_conf_init none current) = refl
outcome-errors (calls_conf_init (some conf) current) = ground arith
outcome-errors (calls_queue_push l wait q item timeout) = of_queue-has l _ timeout _ _ refl
outcome-errors (calls_queue_pop l wait q timeout) = of_queue-has l _ timeout _ _ refl
outcome-errors (calls_queue_clear q) = ground arith
outcome-errors (calls_conn_rxq_push l wait c buffer n) =
    of_queue-has l _ default_queue_timeout_ms _ _ refl
outcome-errors (calls_connect sock port addr n) = ground arith

-- The functions of the mutex, `lsp_thread_create`, `lsp_conf_init`, the push, the pop and the clearing of a
-- queue, `lsp_conn_rxq_push` and `lsp_connect` return LSP_ERR_NONE or one of the codes listed for them,
-- whatever pthread and the clock give, and whatever happens in a wait; and it is the one that `outcome`
-- says: no error number of another kind comes out. A function of the mutex gives LSP_ERR_NONE if its
-- pthread call gives 0, else LSP_ERR_MUTEX, and so does a lock that times out or finds no time; a call on a
-- queue gives that of its lock if this fails, LSP_ERR_NONE if it goes on or is woken, the code of a full or an
-- empty queue if it may not wait, LSP_ERR_TIMEOUT if its wait times out, and else LSP_ERR_INVALID.
pub result-errors :
    (c : ApiCall) → (result c ≡ code (outcome c)) × (has (result c) (codes (errors c)) ≡ true)
result-errors c =
    let is_outcome = result-outcome c in
    (is_outcome, subst (λ n. has n (codes (errors c)) ≡ true) (sym is_outcome) (outcome-errors c))
