-- ===== src/Prog/Fails.antt =====
-- Programs that no run of ends well, whatever the replies are.
use ink_node.Base.{
  ◌≡◌, ◌∷◌, String, Fallible, good, bad, Option, none, some, Bool, true, false, if◌then◌else◌,
}
use ink_node.Sdk.{Reply}
use ink_node.Prog.{Prog, ret, fail, abort, call, ◌>>=◌, or_fail, ok_or, map_err, History, Env, run}
use ink_node.Prog.Trace.{IsOk}

abbrev pub Fails : {E A : Type 0} → Prog E A → Type 0
Fails (ret a) = ⊥
Fails (fail e) = Unit
Fails (abort s) = Unit
Fails (call c k) = (r : Reply c) → Fails (k r)

pub Fails-run :
    {E A : Type 0} (env : Env) (h : History) (m : Prog E A) → Fails m → ¬ IsOk (run env h m).1
Fails-run env h (ret a) f = λ _. f
Fails-run env h (fail e) f = λ o. o
Fails-run env h (abort s) f = λ o. o
Fails-run env h (call c k) f = Fails-run env (c ∷ h) (k (env h c)) (f (env h c))

-- A program fails if what follows its first part does.
pub Fails-bind :
    {E A B : Type 0} (m : Prog E A) (f : A → Prog E B) → ((a : A) → Fails (f a)) → Fails (m >>= f)
Fails-bind (ret a) f q = q a
Fails-bind (fail e) f q = tt
Fails-bind (abort s) f q = tt
Fails-bind (call c k) f q = λ r. Fails-bind (k r) f q

pub Fails-ok_or :
    {E A B : Type 0} (e : E) (o : Option A) (f : A → Prog E B) → o ≡ none → Fails (ok_or e o >>= f)
Fails-ok_or e none f h = tt
Fails-ok_or e (some a) f h = cc

pub Fails-map_err : {E F A : Type 0} (w : E → F) (m : Prog E A) → Fails m → Fails (map_err w m)
Fails-map_err w (ret a) q = q
Fails-map_err w (fail e) q = tt
Fails-map_err w (abort s) q = tt
Fails-map_err w (call c k) q = λ r. Fails-map_err w (k r) (q r)

pub Fails-or_fail :
    {E A B : Type 0} (w : String → E) (f : A → Prog E B)
    → ((a : A) → Fails (f a))
    → (r : Fallible A) → Fails (or_fail w r >>= f)
Fails-or_fail w f q (good a) = q a
Fails-or_fail w f q (bad e) = tt

pub Fails-if :
    {E A : Type 0} (b : Bool) (m n : Prog E A) → Fails m → Fails n → Fails (if b then m else n)
Fails-if true m n p q = p
Fails-if false m n p q = q
