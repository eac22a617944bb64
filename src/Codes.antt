-- ===== src/Codes.antt =====
-- src/include/lsp_types.h: the error codes as a type, and the functions that return one and have no loop.
pub mod Outcome
pub mod Results
mod Tests
use liblsp.Prelude.{ℕ, Option, none, some, List, [], ◌∷◌, ◌==◌, if◌then◌else◌, Ptr}
use liblsp.Types.{
  err_none, err, err_nomem, err_mutex, err_timeout, err_invalid, err_resource_in_use,
  err_queue_full, err_queue_empty, err_port_in_use, err_port_invalid, err_addr_notfound,
  err_addr_invalid, err_sock_not_connected, err_sock_opt_invalid, err_conn_full,
}
use liblsp.Time.{Timespec}
use liblsp.Mutex.{lock, mutex_init, mutex_destroy, mutex_unlock}
use liblsp.Thread.{thread_create}
use liblsp.Conf.{Conf, conf_init}
use liblsp.Queue.{Queue, WaitResult, push, pop, clear}
use liblsp.Conn.{Net}
use liblsp.Conn.Close.{rxq_push}
use liblsp.Socket.{connect}

-- `LSP_ERR_*`
pub data ErrorCode : Type 0 where
  success : ErrorCode
  any_error : ErrorCode
  nomem : ErrorCode
  mutex_error : ErrorCode
  timeout_error : ErrorCode
  invalid : ErrorCode
  resource_in_use : ErrorCode
  queue_full : ErrorCode
  queue_empty : ErrorCode
  port_in_use : ErrorCode
  port_invalid : ErrorCode
  addr_notfound : ErrorCode
  addr_invalid : ErrorCode
  sock_not_connected : ErrorCode
  sock_opt_invalid : ErrorCode
  conn_full : ErrorCode

abbrev pub code : ErrorCode → ℕ
code ErrorCode.success = err_none
code ErrorCode.any_error = err
code ErrorCode.nomem = err_nomem
code ErrorCode.mutex_error = err_mutex
code ErrorCode.timeout_error = err_timeout
code ErrorCode.invalid = err_invalid
code ErrorCode.resource_in_use = err_resource_in_use
code ErrorCode.queue_full = err_queue_full
code ErrorCode.queue_empty = err_queue_empty
code ErrorCode.port_in_use = err_port_in_use
code ErrorCode.port_invalid = err_port_invalid
code ErrorCode.addr_notfound = err_addr_notfound
code ErrorCode.addr_invalid = err_addr_invalid
code ErrorCode.sock_not_connected = err_sock_not_connected
code ErrorCode.sock_opt_invalid = err_sock_opt_invalid
code ErrorCode.conn_full = err_conn_full

-- What `lsp_mutex_lock` needs: the results of the pthread calls, and the time.
pub record LockCall : Type 0 where
  pub pthread_mutex_lock : ℕ
  pub pthread_mutex_timedlock : Timespec → ℕ
  pub clock : Option Timespec
  pub timeout : ℕ

abbrev pub locks : LockCall → ℕ
locks l = lock l.pthread_mutex_lock l.pthread_mutex_timedlock l.clock l.timeout

-- What happens to a queue while a call waits.
abbrev pub Waits : Type 0
Waits = Queue Ptr → WaitResult × Queue Ptr

-- A call of a function with what it finds. A call on a queue takes the lock by `lsp_mutex_lock`.
pub data ApiCall : Type 0 where
  calls_mutex_lock : LockCall → ApiCall
  calls_mutex_init : (pthread_mutex_init : ℕ) → ApiCall
  calls_mutex_destroy : (pthread_mutex_destroy : ℕ) → ApiCall
  calls_mutex_unlock : (pthread_mutex_unlock : ℕ) → ApiCall
  calls_thread_create : (pthread_create : ℕ) → ApiCall
  calls_conf_init : Option Conf → Conf → ApiCall
  calls_queue_push : LockCall → Waits → Queue Ptr → Ptr → (timeout : ℕ) → ApiCall
  calls_queue_pop : LockCall → Waits → Queue Ptr → (timeout : ℕ) → ApiCall
  calls_queue_clear : Queue Ptr → ApiCall
  calls_conn_rxq_push : LockCall → Waits → (conn : Ptr) → (buffer : Ptr) → Net → ApiCall
  calls_connect : Ptr → (port addr : ℕ) → Net → ApiCall

abbrev pub result : ApiCall → ℕ
result (calls_mutex_lock l) = locks l
result (calls_mutex_init rc) = mutex_init rc
result (calls_mutex_destroy rc) = mutex_destroy rc
result (calls_mutex_unlock rc) = mutex_unlock rc
result (calls_thread_create rc) = thread_create rc
result (calls_conf_init conf current) = (conf_init conf current).0
result (calls_queue_push l wait q item timeout) = (push (locks l) wait q item timeout).0
result (calls_queue_pop l wait q timeout) = (pop (locks l) wait q timeout).0
result (calls_queue_clear q) = (clear q).0
result (calls_conn_rxq_push l wait c buffer n) = (rxq_push (locks l) wait c buffer n).0
result (calls_connect sock port addr n) = (connect sock port addr n).0

-- The codes of a function, besides LSP_ERR_NONE.
abbrev pub errors : ApiCall → List ErrorCode
errors (calls_mutex_lock l) = ErrorCode.mutex_error ∷ []
errors (calls_mutex_init rc) = ErrorCode.mutex_error ∷ []
errors (calls_mutex_destroy rc) = ErrorCode.mutex_error ∷ []
errors (calls_mutex_unlock rc) = ErrorCode.mutex_error ∷ []
errors (calls_thread_create rc) = ErrorCode.any_error ∷ []
errors (calls_conf_init conf current) = ErrorCode.addr_invalid ∷ []
errors (calls_queue_push l wait q item timeout) =
    ErrorCode.mutex_error ∷ ErrorCode.queue_full ∷ ErrorCode.timeout_error ∷ ErrorCode.invalid ∷ []
errors (calls_queue_pop l wait q timeout) =
    ErrorCode.mutex_error ∷ ErrorCode.queue_empty ∷ ErrorCode.timeout_error ∷ ErrorCode.invalid ∷ []
errors (calls_queue_clear q) = ErrorCode.resource_in_use ∷ []
errors (calls_conn_rxq_push l wait c buffer n) =
    ErrorCode.mutex_error ∷ ErrorCode.queue_full ∷ ErrorCode.timeout_error ∷ ErrorCode.invalid ∷ []
errors (calls_connect sock port addr n) = ErrorCode.port_invalid ∷ []
