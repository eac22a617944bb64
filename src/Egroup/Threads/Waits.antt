-- ===== src/Egroup/Threads/Waits.antt =====
-- src/arch/posix/lsp_egroup.c with any number of threads: a call of `lsp_egroup_wait` is cut where it waits,
-- since the mutex is held all the time but there, and `lsp_egroup_set` is one step.
use liblsp.Prelude.{
  ℕ, zero, suc, ◌≡◌, Bool, true, false, not, ◌||◌, ◌==◌, ltb, if◌then◌else◌, Option, none, some,
  update, Run, ok, out_of_fuel,
}
use liblsp.Types.{err_none, timeout_max}
use liblsp.Egroup.{Wake, met, egroup_set, leave_bits, time_left}

-- What a call of `lsp_egroup_wait` asks for.
pub record Want : Type 0 where
  pub bits : ℕ
  pub clear_on_exit : Bool
  pub wait_all : Bool
  pub timeout : ℕ

-- A piece of a call: the bits that it returns, none where it comes to a wait, and those that it leaves.
abbrev pub Piece : Type 0
Piece = Option ℕ × ℕ

abbrev pub returns : Want → ℕ → Piece
returns w e = (some e, leave_bits w.bits w.clear_on_exit e)

-- The test of a loop without a timeout, and what comes before the next wait, or the return.
unfoldable pub look : Want → ℕ → Piece
look w e = if met w.wait_all w.bits e then returns w e else (none, e)

-- The call from its beginning on, with the mutex locked.
unfoldable pub start : Want → ℕ → Piece
start w e =
    if w.timeout == timeout_max
    then look w e
    else if ltb 0 w.timeout
    then (none, e)
    else returns w e

-- The call from the end of a wait with a timeout on, with the result `rc` of the wait. `remaining` was left
-- of the timeout before it; `etimedout` is the number of that error.
unfoldable pub timed_woken : Want → (etimedout rc remaining : ℕ) → ℕ → Piece
timed_woken w etimedout rc remaining e =
    if not (rc == 0 || rc == etimedout)
    then returns w e
    else if met w.wait_all w.bits e
    then returns w e
    else if ltb 0 remaining
    then (none, e)
    else returns w e

-- The call from the end of any wait on.
unfoldable pub resume : Want → (etimedout rc remaining : ℕ) → ℕ → Piece
resume w etimedout rc remaining e =
    if w.timeout == timeout_max
    then if rc == 0 then look w e else returns w e
    else timed_woken w etimedout rc remaining e

-- Where a thread is: in no call, or in a wait of one.
pub data Pc : Type 0 where
  outside : Pc
  waiting : Want → Pc

-- A group and its threads. A thread in a wait is signalled where a broadcast came after the wait began.
pub record Group : Type 0 where
  pub event_bits : ℕ
  pub pc : ℕ → Pc
  pub signalled : ℕ → Bool

abbrev pub created : Group
created = record { event_bits = 0; pc = λ t. outside; signalled = λ t. false }

-- `lsp_egroup_set` on a group whose mutex it got, with `pthread_cond_broadcast`.
unfoldable pub set_bits : ℕ → Group → Group
set_bits b g = record {
  event_bits = egroup_set err_none b g.event_bits;
  pc = g.pc;
  signalled = λ t. true;
}

-- The thread `t` has run a piece of a call.
abbrev pub moved : (t : ℕ) → Want → Piece → Group → Group
moved t w (some result, e) g = record {
  event_bits = e;
  pc = update g.pc t outside;
  signalled = g.signalled;
}
moved t w (none, e) g = record {
  event_bits = e;
  pc = update g.pc t (waiting w);
  signalled = update g.signalled t false;
}

-- A wait may end at any time: by a signal, by an error, or for no reason.
pub data GroupStep (etimedout : ℕ) (g : Group) : Group → Type 0 where
  sets : (b : ℕ) → GroupStep etimedout g (set_bits b g)
  calls :
      (t : ℕ) (w : Want)
      → g.pc t ≡ outside
      → GroupStep etimedout g (moved t w (start w g.event_bits) g)
  wakes :
      (t : ℕ) (w : Want) (rc remaining : ℕ)
      → g.pc t ≡ waiting w
      → GroupStep etimedout g (moved t w (resume w etimedout rc remaining g.event_bits) g)

pub data GroupReach (etimedout : ℕ) : Group → Type 0 where
  here : GroupReach etimedout created
  next :
      {g g1 : Group} → GroupReach etimedout g → GroupStep etimedout g g1 → GroupReach etimedout g1

-- The pieces of one call in their order, between waits that `wake` ends at the times of `clock`. The
-- fuel is spent by the waits.
abbrev pub pieces :
    Wake → Want → (etimedout : ℕ) → (clock : ℕ → ℕ) → (max_time fuel i : ℕ) → Piece → Run Piece
pieces wake w etimedout clock max_time fuel i (some result, e) = ok (some result, e)
pieces wake w etimedout clock max_time zero i (none, e) = out_of_fuel
pieces wake w etimedout clock max_time (suc fuel) i (none, e) =
    let remaining =
      if w.timeout == timeout_max
      then timeout_max
      else time_left wake w.wait_all w.bits max_time (clock i) in
    let (rc, e1) = wake i remaining e in
    pieces wake w etimedout clock max_time fuel (suc i) (resume w etimedout rc remaining e1)
