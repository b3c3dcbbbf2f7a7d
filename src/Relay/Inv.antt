-- ===== src/Relay/Inv.antt =====
-- The invariant of the relay of fsm/fsm.c, what its system calls may answer, and one drive.
use mycode_c.Base.{
  ℕ, ◌+◌, ◌-◌, ◌≤◌, ◌≡◌, sym, ap, ◌∙◌, inl, inr, Bool-cases, true, false, List, [], ◌∷◌, ◌++◌,
  length, take, drop, arith, length-append, length-drop, take-append, take-take, drop-drop,
  append-nil,
}
use mycode_c.Base.Int.{pos, pos_part, ◌-ℤ◌, ◌≤ℤ◌, -ℤ_parts, ltb_ℤ}
use mycode_c.Relay.{
  bufsize, State, state_r, state_w, Fsm, Read, failed, got, Write, refused, took, drive_r, drive_w,
  Drive,
}

-- A read fits the buffer.
abbrev pub Fits : Read → Type 0
Fits (failed again) = Unit {0}
Fits (got xs) = length xs ≤ bufsize

-- write(2) takes no more than it is given.
abbrev pub Takes : Fsm → Write → Type 0
Takes f refused = Unit {0}
Takes f (took n) = pos n ≤ℤ f.count

-- What the system calls document, of the call that is made in a state.
abbrev pub Answers : State → Fsm → Read → Write → Type 0
Answers state_r f r w = Fits r
Answers state_w f r w = Takes f w
Answers _ f r w = Unit {0}

-- In the state W the bytes still to be written lie in the buffer.
abbrev pub InBuffer : State → Fsm → Type 0
InBuffer state_w f = (pos 1 ≤ℤ f.count) × (f.at + pos_part f.count ≤ bufsize)
InBuffer _ f = Unit {0}

pub record IsValid (f : Fsm) : Type 0 where
  pub size : length f.buf ≡ bufsize
  pub inside : InBuffer f.state f

-- the bytes that were read and not yet written
abbrev pub pending_in : State → Fsm → List ℕ
pending_in state_r f = []
pending_in _ f = take (pos_part f.count) (drop f.at f.buf)

abbrev pub pending : Fsm → List ℕ
pending f = pending_in f.state f

-- One drive from `f` keeps the invariant and every byte.
pub record Keeps (f : Fsm) (out : Drive) : Type 0 where
  pub valid : IsValid out.0
  pub bytes : out.2 ++ pending out.0 ≡ pending f ++ out.1

pub drive_r-Keeps :
    (f : Fsm) (r : Read)
    → length f.buf ≡ bufsize
    → f.state ≡ state_r
    → Fits r
    → Keeps f (drive_r f r)
unfolding drive_r
drive_r-Keeps f (failed true) h s fit = record {
  valid = record { size = h; inside = rw s tt };
  bytes = rw s;
}
drive_r-Keeps f (failed false) h s fit = record {
  valid = record { size = h; inside = tt };
  bytes = rw s;
}
drive_r-Keeps f (got []) h s fit = record { valid = record { size = h; inside = tt }; bytes = rw s }
drive_r-Keeps f (got (x ∷ xs)) h s fit = record {
  valid = record {
    size = omega (
      arith,
      length-append (x ∷ xs) (drop (length (x ∷ xs)) f.buf),
      length-drop (length (x ∷ xs)) f.buf,
    );
    inside = (omega arith, omega arith);
  };
  bytes = rw s (take-append (x ∷ xs) (drop (length (x ∷ xs)) f.buf));
}

-- A part of the pending bytes, and what is left.
split_pending :
    (ret at c : ℕ) (buf : List ℕ)
    → ret ≤ c
    → take ret (drop at buf) ++ take (c - ret) (drop (at + ret) buf) ≡ take c (drop at buf)
split_pending ret at c buf h =
    let e : ret + (c - ret) ≡ c = omega arith in
    ap (λ xs. take ret (drop at buf) ++ take (c - ret) xs) (sym (drop-drop at ret buf))
    ∙ take-take ret (c - ret) (drop at buf)
    ∙ ap (λ k. take k (drop at buf)) e

pub drive_w-Keeps :
    (f : Fsm) (w : Write)
    → length f.buf ≡ bufsize
    → f.state ≡ state_w
    → InBuffer state_w f
    → Takes f w
    → Keeps f (drive_w f w)
unfolding drive_w
drive_w-Keeps f refused h s inside t = record {
  valid = record { size = h; inside = tt };
  bytes = rw s (sym (append-nil _));
}
drive_w-Keeps f (took ret) h s inside t = elim (Bool-cases (ltb_ℤ (pos ret) f.count)) [
  | inl part ↦
      let rest : pos_part (f.count -ℤ pos ret) ≡ pos_part f.count - ret =
        ground (arith, -ℤ_parts f.count (pos ret)) in
      let kept : take ret (drop f.at f.buf)
            ++ take (pos_part (f.count -ℤ pos ret)) (drop (f.at + ret) f.buf)
          ≡ take (pos_part f.count) (drop f.at f.buf) ++ [] =
        ap (λ n. take ret (drop f.at f.buf) ++ take n (drop (f.at + ret) f.buf)) rest
        ∙ split_pending ret f.at (pos_part f.count) f.buf (omega arith)
        ∙ sym (append-nil _) in
      rw part (record {
        valid = record {
          size = h;
          inside = rw s (ground (arith, -ℤ_parts f.count (pos ret)), omega (arith, rest));
        };
        bytes = rw s kept;
      })
  | inr all ↦
      let e : ret ≡ pos_part f.count = ground arith in
      rw all (record {
        valid = record { size = h; inside = tt };
        bytes = rw s (ap (λ n. take n (drop f.at f.buf) ++ []) e);
      })
]
