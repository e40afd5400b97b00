-- ===== src/Prog/Quiet.antt =====
-- Programs that make no call at all, with a property of the value that they return.
use ink_node.Base.{◌≡◌, refl, subst, Option, none, some, String}
use ink_node.Sdk.{Call}
use ink_node.Prog.Always.{Always}
use ink_node.Prog.{Prog, ret, fail, abort, call, ◌>>=◌, expect, History, Env, run, Outcome, ok}

abbrev Quiet : {E A : Type 0} → (A → Type 0) → Prog E A → Type 0
Quiet P (ret a) = P a
Quiet P (fail e) = Unit
Quiet P (abort s) = Unit
Quiet P (call c k) = ⊥

pub ok-injective : (E : Type 0) {A : Type 0} (a b : A) → ◌≡◌ {A = Outcome E A} (ok a) (ok b) → a ≡ b
ok-injective E a b e = cc

Quiet-run :
    {E A : Type 0} (P : A → Type 0) (env : Env) (h : History) (m : Prog E A)
    → Quiet P m
    → ((run env h m).0 ≡ h) × ((a : A) → (run env h m).1 ≡ ok a → P a)
Quiet-run {E} P env h (ret a) q = (refl, λ b e. subst P (ok-injective E a b e) q)
Quiet-run P env h (fail e) q = (refl, λ b e'. cc)
Quiet-run P env h (abort s) q = (refl, λ b e'. cc)
Quiet-run P env h (call c k) q = absurd q

-- The same behind a name, from which the program and the property can be read off.
pub record IsQuiet {E A : Type 0} (P : A → Type 0) (m : Prog E A) : Type 0 where
  pub holds : Quiet P m

Quiet-bind :
    {E A B : Type 0} (P : A → Type 0) (Q : B → Type 0) (m : Prog E A) (f : A → Prog E B)
    → Quiet P m
    → ((a : A) → P a → IsQuiet Q (f a))
    → Quiet Q (m >>= f)
Quiet-bind P Q (ret a) f p q = (q a p).holds
Quiet-bind P Q (fail e) f p q = tt
Quiet-bind P Q (abort s) f p q = tt
Quiet-bind P Q (call c k) f p q = absurd p

pub IsQuiet-ret : {E A : Type 0} {P : A → Type 0} (a : A) → P a → IsQuiet {E = E} P (ret a)
IsQuiet-ret a p = record { holds = p }

pub IsQuiet-bind :
    {E A B : Type 0} {P : A → Type 0} {Q : B → Type 0} {m : Prog E A} {f : A → Prog E B}
    → IsQuiet P m
    → ((a : A) → P a → IsQuiet Q (f a))
    → IsQuiet Q (m >>= f)
IsQuiet-bind {P} {Q} {m} {f} p q = record { holds = Quiet-bind P Q m f p.holds q }

pub IsQuiet-expect :
    {E A : Type 0} (s : String) (o : Option A) → IsQuiet {E = E} (λ _. Unit {0}) (expect s o)
IsQuiet-expect s none = record { holds = tt }
IsQuiet-expect s (some a) = record { holds = tt }

pub IsQuiet-expect-some :
    {E A : Type 0} (s : String) (o : Option A) → IsQuiet {E = E} (λ a. o ≡ some a) (expect s o)
IsQuiet-expect-some s none = record { holds = tt }
IsQuiet-expect-some s (some a) = record { holds = refl }

pub IsQuiet-run :
    {E A : Type 0} {P : A → Type 0} {m : Prog E A} (env : Env) (h : History)
    → IsQuiet P m
    → ((run env h m).0 ≡ h) × ((a : A) → (run env h m).1 ≡ ok a → P a)
IsQuiet-run {P} {m} env h q = Quiet-run P env h m q.holds

Quiet-Always :
    {E A : Type 0} (P : A → Type 0) (Q : Call → Type 0) (m : Prog E A) → Quiet P m → Always Q m
Quiet-Always P Q (ret a) p = tt
Quiet-Always P Q (fail e) p = tt
Quiet-Always P Q (abort s) p = tt
Quiet-Always P Q (call c k) p = absurd p

-- What makes no call makes only allowed ones.
pub IsQuiet-Always :
    {E A : Type 0} {P : A → Type 0} {m : Prog E A} (Q : Call → Type 0) → IsQuiet P m → Always Q m
IsQuiet-Always {P} {m} Q q = Quiet-Always P Q m q.holds
