-- ===== src/Prog/Always.antt =====
-- Programs all of whose calls have a property, whatever the replies are.
use ink_node.Base.{Option, none, some, [], ◌∷◌, String, Fallible, good, bad}
use ink_node.Sdk.{Call, Reply}
use ink_node.Prog.{
  Prog, ret, fail, abort, call, ◌>>=◌, or_fail, expect, ok_or, map_err, History, Env, run,
}

abbrev pub All : (Call → Type 0) → History → Type 0
All P [] = Unit
All P (c ∷ h) = P c × All P h

abbrev pub Always : {E A : Type 0} → (Call → Type 0) → Prog E A → Type 0
Always P (ret a) = Unit
Always P (fail e) = Unit
Always P (abort s) = Unit
Always P (call c k) = P c × ((r : Reply c) → Always P (k r))

pub Always-run :
    {E A : Type 0} (P : Call → Type 0) (env : Env) (h : History) (m : Prog E A)
    → Always P m
    → All P h
    → All P (run env h m).0
Always-run P env h (ret a) p q = q
Always-run P env h (fail e) p q = q
Always-run P env h (abort s) p q = q
Always-run P env h (call c k) p q = Always-run P env (c ∷ h) (k (env h c)) (p.1 (env h c)) (p.0, q)

pub Always-bind :
    {E A B : Type 0} (P : Call → Type 0) (m : Prog E A) (f : A → Prog E B)
    → Always P m
    → ((a : A) → Always P (f a))
    → Always P (m >>= f)
Always-bind P (ret a) f p q = q a
Always-bind P (fail e) f p q = tt
Always-bind P (abort s) f p q = tt
Always-bind P (call c k) f p q = (p.0, λ r. Always-bind P (k r) f (p.1 r) q)

pub Always-map_err :
    {E F A : Type 0} (P : Call → Type 0) (w : E → F) (m : Prog E A)
    → Always P m
    → Always P (map_err w m)
Always-map_err P w (ret a) p = tt
Always-map_err P w (fail e) p = tt
Always-map_err P w (abort s) p = tt
Always-map_err P w (call c k) p = (p.0, λ r. Always-map_err P w (k r) (p.1 r))

-- After a call that can fail, an `expect` or an `ok_or`, only the success goes on.
pub Always-or_fail :
    {E A B : Type 0} (P : Call → Type 0) (w : String → E) (f : A → Prog E B)
    → ((a : A) → Always P (f a))
    → (r : Fallible A) → Always P (or_fail w r >>= f)
Always-or_fail P w f q (good a) = q a
Always-or_fail P w f q (bad e) = tt

pub Always-expect :
    {E A B : Type 0} (P : Call → Type 0) (s : String) (f : A → Prog E B)
    → ((a : A) → Always P (f a))
    → (o : Option A) → Always P (expect s o >>= f)
Always-expect P s f q none = tt
Always-expect P s f q (some a) = q a

pub Always-ok_or :
    {E A B : Type 0} (P : Call → Type 0) (e : E) (f : A → Prog E B)
    → ((a : A) → Always P (f a))
    → (o : Option A) → Always P (ok_or e o >>= f)
Always-ok_or P e f q none = tt
Always-ok_or P e f q (some a) = q a
