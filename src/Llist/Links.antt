-- ===== src/Llist/Links.antt =====
-- Doubly linked segments, ls facts about the two link fields alone.
use mycode_c.Base.{
  List, [], ◌∷◌, ◌++◌, ◌≡◌, ◌≢◌, refl, sym, ap, ◌∙◌, subst, ==_iff, ==_ne, if◌then◌else◌, All,
}
use mycode_c.Llist.{Ptr, update}

-- `a` is followed by `ps` and then by `z`, and each points back to the one before.
abbrev pub Links : (next prev : Ptr → Ptr) → Ptr → List Ptr → Ptr → Type 0
Links n v a [] z = (n a ≡ z) × (v z ≡ a)
Links n v a (p ∷ ps) z = (n a ≡ p) × (v p ≡ a) × Links n v p ps z

abbrev pub Fresh : Ptr → List Ptr → Type 0
Fresh x = All (λ y. x ≢ y)

abbrev pub Distinct : List Ptr → Type 0
Distinct [] = Unit {0}
Distinct (x ∷ xs) = Fresh x xs × Distinct xs

pub update_self {ℓ} : {B : Type ℓ} (f : Ptr → B) (p : Ptr) (v : B) → update f p v p ≡ v
update_self f p v = ap (λ b. if b then v else f p) ((==_iff p p).1 refl)

pub update_ne {ℓ} :
    {B : Type ℓ} (f : Ptr → B) (p : Ptr) (v : B) (q : Ptr) → p ≢ q → update f p v q ≡ f q
update_ne f p v q d = ap (λ b. if b then v else f q) (==_ne q p (λ e. d (sym e)))

pub update_both {ℓ} :
    {B : Type ℓ} (f : Ptr → B) (p q : Ptr) (v w : B) (x : Ptr)
    → p ≢ x
    → q ≢ x
    → update (update f p v) q w x ≡ f x
update_both f p q v w x d e = update_ne (update f p v) q w x e ∙ update_ne f p v x d

pub All-both :
    {B : Type 0} {P Q R : B → Type 0} (xs : List B)
    → All P xs
    → All Q xs
    → ((x : B) → P x → Q x → R x)
    → All R xs
All-both [] h k f = tt
All-both (x ∷ xs) h k f = (f x h.0 k.0, All-both xs h.1 k.1 f)

-- Writes that miss every field a segment uses leave it linked.
pub frame :
    (n v : Ptr → Ptr) (n' v' : Ptr → Ptr) (a : Ptr) (ps : List Ptr) (z : Ptr)
    → Links n v a ps z
    → All (λ x. n' x ≡ n x) (a ∷ ps)
    → All (λ x. v' x ≡ v x) ps
    → v' z ≡ v z
    → Links n' v' a ps z
frame n v n' v' a [] z l en ev ez = (en.0 ∙ l.0, ez ∙ l.1)
frame n v n' v' a (p ∷ ps) z l en ev ez =
    (en.0 ∙ l.0, ev.0 ∙ l.1, frame n v n' v' p ps z l.2 en.1 ev.1 ez)

pub Links-split :
    (n v : Ptr → Ptr) (a : Ptr) (ls : List Ptr) (p : Ptr) (bs : List Ptr) (z : Ptr)
    → Links n v a (ls ++ p ∷ bs) z
    → Links n v a ls p × Links n v p bs z
Links-split n v a [] p bs z l = ((l.0, l.1), l.2)
Links-split n v a (b ∷ ls) p bs z l =
    let both = Links-split n v b ls p bs z l.2 in ((l.0, l.1, both.0), both.1)

pub Links-join :
    (n v : Ptr → Ptr) (a : Ptr) (ls : List Ptr) (p : Ptr) (bs : List Ptr) (z : Ptr)
    → Links n v a ls p
    → Links n v p bs z
    → Links n v a (ls ++ p ∷ bs) z
Links-join n v a [] p bs z l r = (l.0, l.1, r)
Links-join n v a (b ∷ ls) p bs z l r = (l.0, l.1, Links-join n v b ls p bs z l.2 r)

-- What holds of the start and of every node between holds of the node before the end, and likewise the
-- node after the start.
pub last_of :
    (n v : Ptr → Ptr) (P : Ptr → Type 0) (a : Ptr) (ps : List Ptr) (z : Ptr)
    → Links n v a ps z
    → All P (a ∷ ps)
    → P (v z)
last_of n v P a [] z l all = subst P (sym l.1) all.0
last_of n v P a (p ∷ ps) z l all = last_of n v P p ps z l.2 all.1

pub first_of :
    (n v : Ptr → Ptr) (P : Ptr → Type 0) (a : Ptr) (ps : List Ptr) (z : Ptr)
    → Links n v a ps z
    → All P ps
    → P z
    → P (n a)
first_of n v P a [] z l all end = subst P (sym l.0) end
first_of n v P a (p ∷ ps) z l all end = subst P (sym l.0) all.0

-- The end of a segment moved to `w`.
pub retarget :
    (n v : Ptr → Ptr) (a : Ptr) (ps : List Ptr) (z w l : Ptr)
    → v z ≡ l
    → Links n v a ps z
    → Distinct (a ∷ ps)
    → Fresh w ps
    → Links (update n l w) (update v w l) a ps w
retarget n v a [] z w l e k d f = (
  subst (λ x. update n x w a ≡ w) (sym k.1 ∙ e) (update_self n a w),
  update_self v w l ∙ sym e ∙ k.1,
)
retarget n v a (p ∷ ps) z w l e k d f = (
  update_ne n l w a (λ q. subst (λ x. a ≢ x) e (last_of n v (λ x. a ≢ x) p ps z k.2 d.0) (sym q))
      ∙ k.0,
  update_ne v w l p f.0 ∙ k.1,
  retarget n v p ps z w l e k.2 d.1 f.1,
)

-- Taking the first node out of a ring that is entered at it, and putting one in after the entry.
pub unlink-Links :
    (n v : Ptr → Ptr) (cur c : Ptr) (cs : List Ptr)
    → Links n v cur (c ∷ cs) cur
    → Distinct (c ∷ cs)
    → Links (update n (v cur) c) (update v c (v cur)) c cs c
unlink-Links n v cur c cs k d = retarget n v c cs cur c (v cur) refl k.2 d d.0

pub link-Links :
    (n v : Ptr → Ptr) (new p f : Ptr) (bs : List Ptr)
    → n p ≡ f
    → Links n v p bs p
    → Distinct (p ∷ bs)
    → Fresh new (p ∷ bs)
    → Links (update (update n new f) p new) (update (update v new p) f new) p (new ∷ bs) p
link-Links n v new p f [] e k d fr =
    let here = sym e ∙ k.0 in
    (
      update_self (update n new f) p new,
      update_ne (update v new p) f new new (λ q. fr.0 (sym q ∙ here)) ∙ update_self v new p,
      (
        update_ne (update n new f) p new new (λ q. fr.0 (sym q)) ∙ update_self n new f ∙ here,
        subst (λ x. update (update v new p) x new p ≡ new) (sym here)
            (update_self (update v new p) p new),
      ),
    )
link-Links n v new p f (b ∷ bs) e k d fr =
    let here = sym e ∙ k.0 in
    (
      update_self (update n new f) p new,
      update_ne (update v new p) f new new (λ q. fr.1.0 (sym q ∙ here)) ∙ update_self v new p,
      (
        update_ne (update n new f) p new new (λ q. fr.0 (sym q)) ∙ update_self n new f ∙ here,
        subst (λ x. update (update v new p) x new b ≡ new) (sym here)
            (update_self (update v new p) b new),
        frame n v (update (update n new f) p new) (update (update v new p) f new) b bs p k.2
            (All-both (b ∷ bs) fr.1 d.0 (λ x. update_both n new p f new x))
            (All-both bs fr.1.1 d.1.0
              (λ x g h. update_both v new f p new x g (λ q. h (sym here ∙ q))))
            (update_both v new f p new p fr.0 (λ q. d.0.0 (sym q ∙ here))),
      ),
    )
