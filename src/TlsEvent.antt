-- ===== src/TlsEvent.antt =====
-- 722device/com/tls_event.c: events, each a flag with a pipe that has bytes in it while the flag is set.
--
-- A function that blocks for ever, unless another thread does something, has no outcome.
pub mod Refine
mod Tests
use ai_coding_for_business.Common.{
  ℕ, ◌+◌, ◌-◌, Bool, true, false, Option, none, some, ◌==◌, ltb, if◌then◌else◌,
}

-- `tls_event_t`: the bytes in the pipe, and the two flags.
pub record Event : Type 0 where
  pub pipe : ℕ
  pub auto_reset : Bool
  pub state : Bool

-- The sizes of the two texts: what is written, and what is read at most.
abbrev pub set_size : ℕ
set_size = 11

abbrev pub reset_size : ℕ
reset_size = 13

-- `tls_event_set`, and `tls_event_reset`, which reads nothing where the flag is not set.
pub set : Event → Event
set e = if e.state then e else record e { pipe = e.pipe + set_size; state = true }

pub reset : Event → Option Event
reset e =
    if e.state
    then (if e.pipe == 0
        then none
        else some (record e { pipe = e.pipe - reset_size; state = false }))
    else some (record e { state = false })

-- `tls_event_initialize`, with the flags that the structure had.
pub initialize : (auto_reset state : Bool) → Event
unfolding set
initialize auto_reset state =
    let e : Event = record { pipe = 0; auto_reset = auto_reset; state = false } in
    if state then set e else e

-- `tls_event_wait` and `tls_event_timewait`, at the moment when `select` returns: it finds bytes, or, with a time-out,
-- none.
abbrev pub ready : Event → Bool
ready e = ltb 0 e.pipe

abbrev pub woken : Event → Option Event
woken e = if e.auto_reset then reset e else some e

pub wait : Event → Option Event
unfolding reset
wait e = if ready e then woken e else none

abbrev pub returning : ℕ → Option Event → Option (ℕ × Event)
returning n none = none
returning n (some e) = some (n, e)

pub timewait : (timeout : ℕ) → Event → Option (ℕ × Event)
unfolding wait reset
timewait timeout e =
    if ltb 0 timeout
    then (if ready e then returning 1 (woken e) else some (0, e))
    else returning 1 (wait e)

-- `tls_event_trywait`.
abbrev pub trywait : Event → Option (ℕ × Event)
trywait e = timewait 0 e
