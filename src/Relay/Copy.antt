-- ===== src/Relay/Copy.antt =====
-- What the relay of fsm/fsm.c copies in the course of its drives.
use mycode_c.Base.{
  ℕ, ◌+◌, ◌≤◌, ◌≡◌, refl, sym, ap, ◌∙◌, List, [], ◌∷◌, ◌++◌, append_assoc, append-nil, arith,
  length-replicate, subst, All, true, false, take, drop,
}
use mycode_c.Base.Int.{pos, pos_part, ◌-ℤ◌, ltb_ℤ, -ℤ_parts, eq_of_parts}
use mycode_c.Relay.{
  bufsize, State, state_r, state_w, state_e, state_t, Fsm, Read, failed, Write, took, fsm_init,
  drive_w, drive_in, fsm_drive, drives, Drive,
}
use mycode_c.Relay.Inv.{Answers, InBuffer, IsValid, pending, Keeps, drive_r-Keeps, drive_w-Keeps}

drive_in-Keeps :
    (s : State) (f : Fsm) (r : Read) (w : Write)
    → f.state ≡ s
    → IsValid f
    → Answers s f r w
    → Keeps f (drive_in s f r w)
unfolding drive_in
drive_in-Keeps state_r f r w e v a = drive_r-Keeps f r v.size e a
drive_in-Keeps state_w f r w e v a =
    drive_w-Keeps f w v.size e (subst (λ s. InBuffer s f) e v.inside) a
drive_in-Keeps state_e f r w e v a = record {
  valid = record { size = v.size; inside = tt };
  bytes = rw e (sym (append-nil _));
}
drive_in-Keeps state_t f r w e v a = record { valid = v; bytes = sym (append-nil _) }

pub fsm_drive-Keeps :
    (f : Fsm) (r : Read) (w : Write) → IsValid f → Answers f.state f r w → Keeps f (fsm_drive f r w)
unfolding fsm_drive
fsm_drive-Keeps f r w v a = drive_in-Keeps f.state f r w refl v a

-- Every call that the drives make answers as documented.
abbrev pub Documented : Fsm → List (Read × Write) → Type 0
Documented f [] = Unit
Documented f ((r, w) ∷ rest) = Answers f.state f r w × Documented (fsm_drive f r w).0 rest

-- Two runs one after the other keep every byte if both do.
joined :
    {f : Fsm} (one two : Drive)
    → Keeps f one
    → Keeps one.0 two
    → (one.2 ++ two.2) ++ pending two.0 ≡ pending f ++ (one.1 ++ two.1)
joined {f} one two k m =
    append_assoc one.2 two.2 (pending two.0)
    ∙ ap (λ xs. one.2 ++ xs) m.bytes
    ∙ sym (append_assoc one.2 (pending one.0) two.1)
    ∙ ap (λ xs. xs ++ two.1) k.bytes
    ∙ append_assoc (pending f) one.1 two.1

drives-Keeps :
    (f : Fsm) (steps : List (Read × Write))
    → IsValid f
    → Documented f steps
    → Keeps f (drives f steps)
unfolding drives
drives-Keeps f [] v d = record { valid = v; bytes = sym (append-nil _) }
drives-Keeps f ((r, w) ∷ rest) v (a, d) =
    let k : Keeps f (fsm_drive f r w) = fsm_drive-Keeps f r w v a in
    let m : Keeps (fsm_drive f r w).0 (drives (fsm_drive f r w).0 rest) =
      drives-Keeps (fsm_drive f r w).0 rest k.valid d in
    record {
      valid = m.valid;
      bytes = joined (fsm_drive f r w) (drives (fsm_drive f r w).0 rest) k m;
    }

-- Whatever read(2) and write(2) answer within what they document, at every moment the bytes written
-- so far, followed by those of the buffer that are still pending, are the bytes read so far.
pub drives_copy :
    (steps : List (Read × Write))
    → Documented fsm_init steps
    → let (f, ins, outs) = drives fsm_init steps in outs ++ pending f ≡ ins
drives_copy steps d =
    (drives-Keeps fsm_init steps (record { size = length-replicate {A = ℕ} bufsize 0; inside = tt })
      d).bytes

abbrev pub sum : List ℕ → ℕ
sum [] = 0
sum (n ∷ ns) = n + sum ns

-- drives at which write(2) takes these numbers of bytes
abbrev pub writes : List ℕ → List (Read × Write)
writes [] = []
writes (n ∷ ns) = (failed true, took n) ∷ writes ns

pub record Drained (f : Fsm) (out : Drive) : Type 0 where
  pub ready : out.0.state ≡ state_r
  pub written : out.2 ≡ pending f

-- A drive in the state W that takes a part, and one that takes all.
took_part :
    (f : Fsm) (n : ℕ)
    → f.state ≡ state_w
    → ltb_ℤ (pos n) f.count ≡ true
    → fsm_drive f (failed true) (took n)
      ≡ (record f { at = f.at + n; count = f.count -ℤ pos n }, [], take n (drop f.at f.buf))
unfolding fsm_drive drive_w
took_part f n w part = ap (λ s. drive_in s f (failed true) (took n)) w ∙ rw (part, drive_in)

took_all :
    (f : Fsm) (n : ℕ)
    → f.state ≡ state_w
    → ltb_ℤ (pos n) f.count ≡ false
    → fsm_drive f (failed true) (took n)
      ≡ (record f { state = state_r }, [], take n (drop f.at f.buf))
unfolding fsm_drive drive_w
took_all f n w all = ap (λ s. drive_in s f (failed true) (took n)) w ∙ rw (all, drive_in)

-- Drives after a first one whose outcome is known.
after :
    (f : Fsm) (r : Read) (w : Write) (steps : List (Read × Write)) (out : Drive)
    → fsm_drive f r w ≡ out
    → drives f ((r, w) ∷ steps)
      ≡ ((drives out.0 steps).0, out.1 ++ (drives out.0 steps).1, out.2 ++ (drives out.0 steps).2)
unfolding drives
after f r w steps out e =
    ap
      (λ (o : Drive).
        ((drives o.0 steps).0, o.1 ++ (drives o.0 steps).1, o.2 ++ (drives o.0 steps).2))
      e

-- In the state W, as soon as write(2) has taken all that is pending, in portions of at least one byte
-- of any sizes, the machine has written the pending bytes in order and is ready to read again.
pub writes_drain :
    (f : Fsm) (ns : List ℕ)
    → IsValid f
    → f.state ≡ state_w
    → All (λ n. 1 ≤ n) ns
    → pos (sum ns) ≡ f.count
    → Drained f (drives f (writes ns))
unfolding drives
writes_drain f [] v w all e =
    let inside : InBuffer state_w f = subst (λ s. InBuffer s f) w v.inside in absurd (ground arith)
writes_drain f (n ∷ []) v w all e =
    let last : ltb_ℤ (pos n) f.count ≡ false = ground arith in
    let whole : n ≡ pos_part f.count = ground arith in
    rw (after f (failed true) (took n) [] _ (took_all f n w last)) (record {
      ready = refl;
      written = rw w (append-nil _ ∙ ap (λ k. take k (drop f.at f.buf)) whole);
    })
writes_drain f (n ∷ m ∷ ns) v w all e =
    let part : ltb_ℤ (pos n) f.count ≡ true = ground arith in
    let f' : Fsm = record f { at = f.at + n; count = f.count -ℤ pos n } in
    let k : Keeps f (fsm_drive f (failed true) (took n)) =
      fsm_drive-Keeps f (failed true) (took n) v (rw w (ground arith)) in
    let v' : IsValid f' = subst (λ (o : Drive). IsValid o.0) (took_part f n w part) k.valid in
    let b : take n (drop f.at f.buf) ++ pending f' ≡ pending f ++ [] =
      subst (λ (o : Drive). o.2 ++ pending o.0 ≡ pending f ++ o.1) (took_part f n w part) k.bytes in
    let left : pos (sum (m ∷ ns)) ≡ f'.count =
      eq_of_parts _ _ (ground (arith, -ℤ_parts f.count (pos n))) in
    let d : Drained f' (drives f' (writes (m ∷ ns))) = writes_drain f' (m ∷ ns) v' w all.1 left in
    rw (after f (failed true) (took n) (writes (m ∷ ns)) _ (took_part f n w part)) (record {
      ready = d.ready;
      written = ap (λ xs. take n (drop f.at f.buf) ++ xs) d.written ∙ b ∙ append-nil (pending f);
    })
