-- ===== src/Relay.antt =====
-- The relay of fsm/fsm.c, which copies what it reads from one descriptor to another. What read(2) and
-- write(2) answer at a drive is an argument; a drive returns the new machine, the bytes that it read
-- and the bytes that it handed to write(2) successfully.
pub mod Inv
pub mod Copy
mod Tests
use mycode_c.Base.{
  ℕ, ◌+◌, ◌≤◌, Bool, true, false, Option, none, some, List, [], ◌∷◌, ◌++◌, if◌then◌else◌, length,
  take, drop, replicate,
}
use mycode_c.Base.Int.{ℤ, pos, negsuc, pos_part, ◌-ℤ◌, ltb_ℤ}

-- BUFSIZE
abbrev pub bufsize : ℕ
bufsize = 1024

pub data State : Type 0 where
  state_r state_w state_e state_t : State

-- the names that `errmsg` may hold
pub data Call : Type 0 where
  read write : Call

-- `fsm_t`, without the descriptors
pub record Fsm : Type 0 where
  pub buf : List ℕ
  pub count : ℤ
  pub at : ℕ
  pub state : State
  pub errmsg : Option Call

-- What read(2) answers: -1, where `again` says whether `errno` is EAGAIN, or bytes, none at the end.
pub data Read : Type 0 where
  failed : (again : Bool) → Read
  got : List ℕ → Read

-- What write(2) answers: -1, or how many bytes it took.
pub data Write : Type 0 where
  refused : Write
  took : ℕ → Write

abbrev pub fsm_init : Fsm
fsm_init = record {
  buf = replicate bufsize 0;
  count = pos 0;
  at = 0;
  state = state_r;
  errmsg = none;
}

abbrev pub Drive : Type 0
Drive = Fsm × List ℕ × List ℕ

-- `case STATE_R`
pub drive_r : Fsm → Read → Drive
drive_r f (failed true) = (record f { count = negsuc 0 }, [], [])
drive_r f (failed false) =
    (record f { count = negsuc 0; errmsg = some read; state = state_e }, [], [])
drive_r f (got []) = (record f { count = pos 0; state = state_t }, [], [])
drive_r f (got (x ∷ xs)) = (
  record f {
    buf = (x ∷ xs) ++ drop (length (x ∷ xs)) f.buf;
    count = pos (length (x ∷ xs));
    at = 0;
    state = state_w;
  },
  x ∷ xs,
  [],
)

-- `case STATE_W`
pub drive_w : Fsm → Write → Drive
drive_w f refused = (record f { errmsg = some write; state = state_e }, [], [])
drive_w f (took ret) = (
  (if ltb_ℤ (pos ret) f.count
      then record f { at = f.at + ret; count = f.count -ℤ pos ret }
      else record f { state = state_r }),
  [],
  take ret (drop f.at f.buf),
)

drive_in : State → Fsm → Read → Write → Drive
unfolding drive_r drive_w
drive_in state_r f r w = drive_r f r
drive_in state_w f r w = drive_w f w
drive_in state_e f r w = (record f { state = state_t }, [], [])
drive_in state_t f r w = (f, [], [])

pub fsm_drive : Fsm → Read → Write → Drive
unfolding drive_in
fsm_drive f r w = drive_in f.state f r w

-- Drives one after the other, with all the bytes that they read and wrote.
pub drives : Fsm → List (Read × Write) → Drive
drives f [] = (f, [], [])
drives f ((r, w) ∷ rest) =
    let (f', ins, outs) = fsm_drive f r w in
    let (g, more_ins, more_outs) = drives f' rest in (g, ins ++ more_ins, outs ++ more_outs)
