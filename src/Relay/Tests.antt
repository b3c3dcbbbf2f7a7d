-- ===== src/Relay/Tests.antt =====
-- A run of the relay of fsm/fsm.c, and the theorems at it.
use mycode_c.Base.{◌≡◌, refl, List, [], ◌∷◌, ◌++◌, true, arith}
use mycode_c.Base.Int.{pos, ◌-ℤ◌}
use mycode_c.Relay.{
  Fsm, Read, failed, got, Write, refused, took, fsm_init, state_w, drives, fsm_drive,
}
use mycode_c.Relay.Inv.{pending}
use mycode_c.Relay.Copy.{drives_copy, writes_drain, writes, Drained}

-- three bytes come, one is written, then two, then the input ends
abbrev steps : List (Read × Write)
steps =
    (failed true, refused)
    ∷ (got (7 ∷ 8 ∷ 9 ∷ []), refused)
    ∷ (failed true, took 1)
    ∷ (failed true, took 2)
    ∷ (got [], refused)
    ∷ []

steps_written : (drives fsm_init steps).2 ≡ 7 ∷ 8 ∷ 9 ∷ []
unfolding drives fsm_drive ◌-ℤ◌
steps_written = refl

drives_copy_example : let (f, ins, outs) = drives fsm_init steps in outs ++ pending f ≡ ins
unfolding fsm_drive ◌-ℤ◌
drives_copy_example = drives_copy steps (omega arith)

-- the machine with two bytes to write
abbrev loaded : Fsm
loaded = record fsm_init { count = pos 2; at = 1; state = state_w }

writes_drain_example : Drained loaded (drives loaded (writes (1 ∷ 1 ∷ [])))
writes_drain_example =
    writes_drain loaded (1 ∷ 1 ∷ []) (record { size = refl; inside = omega arith }) refl
      (omega arith) refl
