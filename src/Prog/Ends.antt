-- ===== src/Prog/Ends.antt =====
-- Programs that end well, as long as the replies keep to what the caller relies on.
use ink_node.Base.{
  ◌≡◌, refl, ap, String, Fallible, good, bad, Option, none, some, ◌∷◌, Bool, true, false,
  if◌then◌else◌,
}
use ink_node.Sdk.{Call, Reply}
use ink_node.Prog.{
  Prog, ret, fail, abort, call, ◌>>=◌, or_fail, ok_or, map_err, History, Env, run, ok,
}
use ink_node.Prog.Quiet.{ok-injective}
use ink_node.Prog.{Rely}

-- With `Q` of the value.
abbrev pub Ends : {E A : Type 0} → Rely → (A → Type 0) → Prog E A → Type 0
Ends R Q (ret a) = Q a
Ends R Q (fail e) = ⊥
Ends R Q (abort s) = ⊥
Ends R Q (call c k) = (r : Reply c) → R c r → Ends R Q (k r)

pub Ends-run :
    {E A : Type 0} (R : Rely) (Q : A → Type 0) (env : Env) (h : History) (m : Prog E A)
    → ((g : History) (c : Call) → R c (env g c))
    → Ends R Q m
    → (a : A) × ((run env h m).1 ≡ ok a) × Q a
Ends-run R Q env h (ret a) keeps p = (a, refl, p)
Ends-run R Q env h (fail e) keeps p = absurd p
Ends-run R Q env h (abort s) keeps p = absurd p
Ends-run R Q env h (call c k) keeps p =
    Ends-run R Q env (c ∷ h) (k (env h c)) keeps (p (env h c) (keeps h c))

pub Ends-bind :
    {E A B : Type 0} (R : Rely) (Q : A → Type 0) (S : B → Type 0) (m : Prog E A) (f : A → Prog E B)
    → Ends R Q m
    → ((a : A) → Q a → Ends R S (f a))
    → Ends R S (m >>= f)
Ends-bind R Q S (ret a) f p q = q a p
Ends-bind R Q S (fail e) f p q = absurd p
Ends-bind R Q S (abort s) f p q = absurd p
Ends-bind R Q S (call c k) f p q = λ r a. Ends-bind R Q S (k r) f (p r a) q

-- A call that can fail and does not.
abbrev pub IsGood : {A : Type 0} → Fallible A → Type 0
IsGood (good a) = Unit
IsGood (bad e) = ⊥

abbrev pub IsSome : {A : Type 0} → Option A → Type 0
IsSome none = ⊥
IsSome (some a) = Unit

pub Ends-or_fail :
    {E A B : Type 0} (R : Rely) (S : B → Type 0) (w : String → E) (f : A → Prog E B)
    → ((a : A) → Ends R S (f a))
    → (r : Fallible A) → IsGood r
    → Ends R S (or_fail w r >>= f)
Ends-or_fail R S w f q (good a) g = q a
Ends-or_fail R S w f q (bad e) g = absurd g

pub Ends-ok_or :
    {E A B : Type 0} (R : Rely) (S : B → Type 0) (e : E) (f : A → Prog E B)
    → ((a : A) → Ends R S (f a))
    → (o : Option A) → IsSome o
    → Ends R S (ok_or e o >>= f)
Ends-ok_or R S e f q none g = absurd g
Ends-ok_or R S e f q (some a) g = q a

pub Ends-map_err :
    {E F A : Type 0} (R : Rely) (Q : A → Type 0) (w : E → F) (m : Prog E A)
    → Ends R Q m
    → Ends R Q (map_err w m)
Ends-map_err R Q w (ret a) p = p
Ends-map_err R Q w (fail e) p = absurd p
Ends-map_err R Q w (abort s) p = absurd p
Ends-map_err R Q w (call c k) p = λ r a. Ends-map_err R Q w (k r) (p r a)

pub Ends-if :
    {E A : Type 0} (R : Rely) (Q : A → Type 0) (b : Bool) (m n : Prog E A)
    → Ends R Q m
    → Ends R Q n
    → Ends R Q (if b then m else n)
Ends-if R Q true m n p q = p
Ends-if R Q false m n p q = q

-- A first part that ends well leaves the rest to run from its history.
pub run-bind :
    {E A B : Type 0} (env : Env) (h : History) (m : Prog E A) (f : A → Prog E B) (a : A)
    → (run env h m).1 ≡ ok a
    → run env h (m >>= f) ≡ run env (run env h m).0 (f a)
run-bind {E} env h (ret b) f a e = ap (λ x. run env h (f x)) (ok-injective E b a e)
run-bind env h (fail x) f a e = cc
run-bind env h (abort s) f a e = cc
run-bind env h (call c k) f a e = run-bind env (c ∷ h) (k (env h c)) f a e

pub Ends-weaken :
    {E A : Type 0} (R S : Rely) (Q : A → Type 0) (m : Prog E A)
    → ((c : Call) (r : Reply c) → S c r → R c r)
    → Ends R Q m
    → Ends S Q m
Ends-weaken R S Q (ret a) weaker p = p
Ends-weaken R S Q (fail e) weaker p = absurd p
Ends-weaken R S Q (abort s) weaker p = absurd p
Ends-weaken R S Q (call c k) weaker p = λ r a. Ends-weaken R S Q (k r) weaker (p r (weaker c r a))
