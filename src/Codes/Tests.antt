-- ===== src/Codes/Tests.antt =====
-- The codes of a push on a full queue, whose wait times out, and of a lock that does.
use liblsp.Prelude.{◌≡◌, refl, true, some, has, Ptr, [], ◌∷◌}
use liblsp.Types.{err_timeout, err_mutex}
use liblsp.Queue.{Queue, timed_out, push, push_woken}
use liblsp.Mutex.{lock_deadline, lock, mutex_result}
use liblsp.Codes.{LockCall, ApiCall, result, errors, calls_queue_push, calls_mutex_lock}
use liblsp.Codes.Results.{codes, result-errors}

abbrev full : Queue Ptr
full = record {
  length = 1;
  head = 0;
  tail = 0;
  waiting_full = 0;
  waiting_empty = 0;
  queue_size = 1;
  itemsize = 8;
  slots = 77 ∷ [];
}

abbrev free_lock : LockCall
free_lock = record {
  pthread_mutex_lock = 0;
  pthread_mutex_timedlock = λ until. 0;
  clock = some (record { sec = 5; nsec = 0 });
  timeout = 100;
}

-- ETIMEDOUT is 110.
abbrev late_lock : LockCall
late_lock = record free_lock { pthread_mutex_timedlock = λ until. 110 }

abbrev push_times_out : ApiCall
push_times_out = calls_queue_push free_lock (λ q. (timed_out, q)) full 78 100

times_out : result push_times_out ≡ err_timeout
unfolding push push_woken lock mutex_result
times_out = refl

late_lock_fails : result (calls_mutex_lock late_lock) ≡ err_mutex
unfolding lock mutex_result
late_lock_fails = refl

result-errors_example :
    (result (calls_mutex_lock late_lock) ≡ err_mutex)
    × (has (result (calls_mutex_lock late_lock)) (codes (errors (calls_mutex_lock late_lock)))
        ≡ true)
unfolding lock_deadline
result-errors_example = result-errors (calls_mutex_lock late_lock)
