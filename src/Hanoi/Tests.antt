-- ===== src/Hanoi/Tests.antt =====
-- The run that `main` of stack/06hanoi/hanoi.c starts.
use mycode_c.Base.{[], ◌∷◌, refl, arith}
use mycode_c.Hanoi.{hanoi, play}
use mycode_c.Hanoi.Towers.{IsOrdered}
use mycode_c.Hanoi.Play.{Does, play-Does}

play-Does_example : Does (play 5 0 1 2 hanoi) 32 0 1 2 [] (5 ∷ 4 ∷ 3 ∷ 2 ∷ 1 ∷ []) []
play-Does_example =
    play-Does 4 0 1 2 hanoi [] [] [] (5 ∷ 4 ∷ 3 ∷ 2 ∷ 1 ∷ []) (ground arith) (ground arith)
      (ground arith) refl ((refl, refl, refl), (refl, refl, refl), (refl, refl, refl))
      (ground arith) (ground arith) (ground arith) all_five all_five all_five
  where
    all_five : IsOrdered (5 ∷ 4 ∷ 3 ∷ 2 ∷ 1 ∷ [])
    all_five = (
      (ground arith, (ground arith, (ground arith, (ground arith, tt)))),
      (
        (ground arith, (ground arith, (ground arith, tt))),
        ((ground arith, (ground arith, tt)), ((ground arith, tt), (tt, tt))),
      ),
    )
