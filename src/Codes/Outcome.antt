-- ===== src/Codes/Outcome.antt =====
-- The code that a call ends with: the pthread calls, the lock, the queue and the wait say which.
use liblsp.Prelude.{
  Bool, ◌&&◌, leb, int_to_size, is_nonpos, if◌then◌else◌, ◌||◌, ℕ, ◌≡◌, refl, inl, inr, Bool-cases,
  Option-cases, ◌⊎◌, inc_int, Ptr, none, some, ◌==◌, arith,
}
use liblsp.Types.{packet_addr_max, packet_port_max, port_any, timeout_max, default_queue_timeout_ms}
use liblsp.Mutex.{lock, lock_deadline, mutex_result, mutex_init, mutex_destroy, mutex_unlock}
use liblsp.Thread.{thread_create}
use liblsp.Conf.{conf_init}
use liblsp.Queue.{
  Queue, WaitResult, woken, timed_out, failed, push, pop, clear, enqueue, dequeue, push_woken,
  pop_woken,
}
use liblsp.Conn.Close.{rxq_push}
use liblsp.Socket.{connect}
use liblsp.Codes.{
  ErrorCode, code, LockCall, locks, Waits, ApiCall, result, calls_mutex_lock, calls_mutex_init,
  calls_mutex_destroy, calls_mutex_unlock, calls_thread_create, calls_conf_init, calls_queue_push,
  calls_queue_pop, calls_queue_clear, calls_conn_rxq_push, calls_connect,
}

-- What pthread gives to a function of the mutex, as its result.
abbrev pub of_pthread : ℕ → ErrorCode
of_pthread rc = if rc == 0 then ErrorCode.success else ErrorCode.mutex_error

-- A lock succeeds by the call that its timeout asks for, and a timed one only where there is a time.
abbrev pub of_lock : LockCall → ErrorCode
of_lock l = if l.timeout == timeout_max then of_pthread l.pthread_mutex_lock else elim l.clock [
  | none ↦ ErrorCode.mutex_error
  | some now ↦ of_pthread (l.pthread_mutex_timedlock (lock_deadline now l.timeout))
]

abbrev pub of_wait : WaitResult → ErrorCode
of_wait woken = ErrorCode.success
of_wait timed_out = ErrorCode.timeout_error
of_wait failed = ErrorCode.invalid

-- A call on a queue, after the lock: it goes on, it may not wait, or its wait ends.
abbrev pub of_queue :
    (locked : ErrorCode) → (blocked : Bool) → (timeout : ℕ) → ErrorCode → WaitResult → ErrorCode
of_queue ErrorCode.success blocked timeout no_wait w =
    if blocked then (if timeout == 0 then no_wait else of_wait w) else ErrorCode.success
of_queue locked blocked timeout no_wait w = locked

abbrev pub of_push : LockCall → Waits → Queue Ptr → (timeout : ℕ) → ErrorCode
of_push l wait q timeout =
    of_queue (of_lock l) (leb q.queue_size (int_to_size q.length)) timeout ErrorCode.queue_full
      (wait (record q { waiting_full = inc_int q.waiting_full })).0

abbrev pub of_pop : LockCall → Waits → Queue Ptr → (timeout : ℕ) → ErrorCode
of_pop l wait q timeout =
    of_queue (of_lock l) (is_nonpos q.length) timeout ErrorCode.queue_empty
      (wait (record q { waiting_empty = inc_int q.waiting_empty })).0

-- The code that a call ends with.
abbrev pub outcome : ApiCall → ErrorCode
outcome (calls_mutex_lock l) = of_lock l
outcome (calls_mutex_init rc) = of_pthread rc
outcome (calls_mutex_destroy rc) = of_pthread rc
outcome (calls_mutex_unlock rc) = of_pthread rc
outcome (calls_thread_create rc) = if rc == 0 then ErrorCode.success else ErrorCode.any_error
outcome (calls_conf_init none current) = ErrorCode.success
outcome (calls_conf_init (some conf) current) =
    if leb conf.addr packet_addr_max then ErrorCode.success else ErrorCode.addr_invalid
outcome (calls_queue_push l wait q item timeout) = of_push l wait q timeout
outcome (calls_queue_pop l wait q timeout) = of_pop l wait q timeout
outcome (calls_queue_clear q) =
    if q.waiting_empty == 0 && q.waiting_full == 0
    then ErrorCode.success
    else ErrorCode.resource_in_use
outcome (calls_conn_rxq_push l wait c buffer n) =
    of_push l wait (n.queues (n.conn c).rx_queue) default_queue_timeout_ms
outcome (calls_connect sock port addr n) =
    if port == port_any || leb port packet_port_max
    then ErrorCode.success
    else ErrorCode.port_invalid

mutex_result-of_pthread : (rc : ℕ) → mutex_result rc ≡ code (of_pthread rc)
unfolding mutex_result
mutex_result-of_pthread rc = elim (Bool-cases (rc == 0)) [
  | inl fine ↦ rw fine refl
  | inr other ↦ rw other refl
]

locks-of_lock : (l : LockCall) → locks l ≡ code (of_lock l)
unfolding lock
locks-of_lock l = elim (Bool-cases (l.timeout == timeout_max)) [
  | inl forever ↦ rw forever (mutex_result-of_pthread l.pthread_mutex_lock)
  | inr timed ↦ elim (Option-cases l.clock) [
    | inl no_time ↦ rw (timed, no_time) refl
    | inr (now, e) ↦
        rw (timed, e)
          (mutex_result-of_pthread (l.pthread_mutex_timedlock (lock_deadline now l.timeout)))
  ]
]

pub pthread_cases :
    (rc : ℕ) → (of_pthread rc ≡ ErrorCode.success) ⊎ (of_pthread rc ≡ ErrorCode.mutex_error)
pthread_cases rc = elim (Bool-cases (rc == 0)) [
  | inl fine ↦ inl (rw fine refl)
  | inr other ↦ inr (rw other refl)
]

pub lock_cases :
    (l : LockCall) → (of_lock l ≡ ErrorCode.success) ⊎ (of_lock l ≡ ErrorCode.mutex_error)
lock_cases l = elim (Bool-cases (l.timeout == timeout_max)) [
  | inl forever ↦ rw forever (pthread_cases l.pthread_mutex_lock)
  | inr timed ↦ elim (Option-cases l.clock) [
    | inl no_time ↦ inr (rw (timed, no_time) refl)
    | inr (now, e) ↦
        rw (timed, e) (pthread_cases (l.pthread_mutex_timedlock (lock_deadline now l.timeout)))
  ]
]

push_woken-of_wait :
    (item : Ptr) (end : WaitResult × Queue Ptr) → (push_woken item end).0 ≡ code (of_wait end.0)
unfolding push_woken enqueue
push_woken-of_wait item (woken, q) = refl
push_woken-of_wait item (timed_out, q) = refl
push_woken-of_wait item (failed, q) = refl

pop_woken-of_wait : (end : WaitResult × Queue Ptr) → (pop_woken end).0 ≡ code (of_wait end.0)
unfolding pop_woken dequeue
pop_woken-of_wait (woken, q) = refl
pop_woken-of_wait (timed_out, q) = refl
pop_woken-of_wait (failed, q) = refl

push-of_push :
    (l : LockCall) (wait : Waits) (q : Queue Ptr) (item : Ptr) (timeout : ℕ)
    → (push (locks l) wait q item timeout).0 ≡ code (of_push l wait q timeout)
unfolding push enqueue
push-of_push l wait q item timeout =
    let end = wait (record q { waiting_full = inc_int q.waiting_full }) in
    elim (lock_cases l) [
      | inr refused ↦ rw (locks-of_lock l, refused) refl
      | inl locked ↦ rw (locks-of_lock l, locked) (ground (arith, push_woken-of_wait item end))
    ]

pop-of_pop :
    (l : LockCall) (wait : Waits) (q : Queue Ptr) (timeout : ℕ)
    → (pop (locks l) wait q timeout).0 ≡ code (of_pop l wait q timeout)
unfolding pop dequeue
pop-of_pop l wait q timeout =
    let end = wait (record q { waiting_empty = inc_int q.waiting_empty }) in
    elim (lock_cases l) [
      | inr refused ↦ rw (locks-of_lock l, refused) refl
      | inl locked ↦ rw (locks-of_lock l, locked) (ground (arith, pop_woken-of_wait end))
    ]

pub result-outcome : (c : ApiCall) → result c ≡ code (outcome c)
unfolding mutex_init mutex_destroy mutex_unlock thread_create conf_init clear connect rxq_push
result-outcome (calls_mutex_lock l) = locks-of_lock l
result-outcome (calls_mutex_init rc) = mutex_result-of_pthread rc
result-outcome (calls_mutex_destroy rc) = mutex_result-of_pthread rc
result-outcome (calls_mutex_unlock rc) = mutex_result-of_pthread rc
result-outcome (calls_thread_create rc) = ground arith
result-outcome (calls_conf_init none current) = refl
result-outcome (calls_conf_init (some conf) current) = ground arith
result-outcome (calls_queue_push l wait q item timeout) = push-of_push l wait q item timeout
result-outcome (calls_queue_pop l wait q timeout) = pop-of_pop l wait q timeout
result-outcome (calls_queue_clear q) = ground arith
result-outcome (calls_conn_rxq_push l wait c buffer n) =
    push-of_push l wait (n.queues (n.conn c).rx_queue) buffer default_queue_timeout_ms
result-outcome (calls_connect sock port addr n) = ground arith
