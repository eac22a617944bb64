-- ===== src/Mutex/Tests.antt =====
-- The theorem about deadlines, at one that carries over to the seconds.
use liblsp.Prelude.{◌≡◌, refl}
use liblsp.Time.{Timespec}
use liblsp.Mutex.{lock_deadline}

abbrev half_past : Timespec
half_past = record { sec = 7; nsec = 500000000 }

carried : lock_deadline half_past 1600 ≡ record { sec = 9; nsec = 100000000 }
unfolding lock_deadline
carried = refl
