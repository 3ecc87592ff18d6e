-- ===== src/Timer.antt =====
-- src/timer.c: the timer's thread, and the devices that it keeps in step. A device is named by its
-- number, which stands for the pointer to its container. What the program does between a lock and
-- its unlock is one step; a wait on a condition is a state without a step until its loop ends.
pub mod World
pub mod Keeping
pub mod Barrier
pub mod Rounds
mod Tests
use hk232_assignment_os.Base.{
  ℕ, zero, suc, ◌+◌, ◌%◌, ◌^◌, ◌≡◌, Bool, true, false, ◌&&◌, ◌||◌, ◌==◌, if◌then◌else◌, Option,
  none, some, List, [], ◌∷◌, update,
}

-- `struct timer_id_t`, without its locks and conditions.
pub record Device : Type 0 where
  pub done : ℕ
  pub fsh : ℕ

-- Where the timer's thread stands: not started, at the test of its loop, in one of the two `for`
-- loops with the devices to come and the counters `fsh` and `event`, or at its end. The counters
-- count devices, so they are far from overflow.
pub data Position : Type 0 where
  unborn : Position
  head : Position
  collect : (rest : List ℕ) (fsh event : ℕ) → Position
  release : (rest : List ℕ) (fsh event : ℕ) → Position
  exited : Position

-- The static variables of the file, the devices and the thread. `time` counts the slots without
-- the wrap of `_time`.
pub record Timer : Type 0 where
  pub time : ℕ
  pub timer_started : ℕ
  pub timer_stop : ℕ
  pub dev_list : List ℕ
  pub device : ℕ → Device
  pub position : Position

unfoldable pub current_time : Timer → ℕ
current_time t = t.time % 2 ^ 64

abbrev pub set_device : Timer → ℕ → Device → Timer
set_device t d v = record t { device = update t.device d v }

-- One step of `timer_routine` from a position; `none` where it waits, and where it is not running.
unfoldable pub timer_routine : Timer → Position → Option Timer
timer_routine t unborn = none
timer_routine t head =
    some (record t { position = if t.timer_stop == 0 then collect t.dev_list 0 0 else exited })
timer_routine t (collect (d ∷ rest) fsh event) =
    let id = t.device d in
    if (id.done == 0) && (id.fsh == 0)
    then none
    else some
        (record t { position = collect rest (if id.fsh == 0 then fsh else fsh + 1) (event + 1) })
timer_routine t (collect [] fsh event) =
    some (record t { time = t.time + 1; position = release t.dev_list fsh event })
timer_routine t (release (d ∷ rest) fsh event) =
    some (record (set_device t d (record (t.device d) { done = 0 })) {
      position = release rest fsh event;
    })
timer_routine t (release [] fsh event) =
    some (record t { position = if fsh == event then exited else head })
timer_routine t exited = none

unfoldable pub timer_step : Timer → Option Timer
unfolding timer_routine
timer_step t = timer_routine t t.position

-- The two parts of `next_slot`: the device is done, and it goes on once the timer has cleared that.
unfoldable pub next_slot : Timer → ℕ → Timer
next_slot t d = set_device t d (record (t.device d) { done = 1 })

unfoldable pub released : Timer → ℕ → Bool
released t d = (t.device d).done == 0

unfoldable pub detach_event : Timer → ℕ → Timer
detach_event t d = set_device t d (record (t.device d) { fsh = 1 })

unfoldable pub start_timer : Timer → Timer
start_timer t = record t { timer_started = 1; position = head }

-- `fresh` is what `malloc` returns; the result is NULL once the timer has started.
unfoldable pub attach_event : Timer → ℕ → Option ℕ × Timer
attach_event t fresh =
    if t.timer_started == 0
    then (
      some fresh,
      record (set_device t fresh (record { done = 0; fsh = 0 })) { dev_list = fresh ∷ t.dev_list },
    )
    else (none, t)

-- The two parts of `stop_timer`, before and after it joins the timer's thread.
unfoldable pub stop_timer : Timer → Timer
stop_timer t = record t { timer_stop = 1 }

unfoldable pub free_devices : Timer → Timer
free_devices t = record t { dev_list = [] }
