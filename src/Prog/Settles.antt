-- ===== src/Prog/Settles.antt =====
-- Programs whose calls and replies agree on one thing, which the replies bring to light: a family of
-- what may hold of a call and its reply, of which one member holds all along each run.
use ink_node.Base.{◌≡◌, refl, ap, fun_ext, [], ◌∷◌}
use ink_node.Sdk.{Call, Reply}
use ink_node.Prog.{Prog, ret, fail, abort, call, ◌>>=◌, map_err, History, Env, run}
use ink_node.Prog.{Rely}
use ink_node.Prog.Always.{Always}

-- Each call of a history and the reply that it got.
abbrev pub AllReplies : Rely → Env → History → Type 0
AllReplies Q env [] = Unit
AllReplies Q env (c ∷ h) = Q c (env h c) × AllReplies Q env h

-- On every path some member of the family holds of what was found before and of all calls since.
abbrev pub Settles : {I E A : Type 0} → (I → Rely) → (I → Type 0) → Prog E A → Type 0
Settles {I} Q S (ret a) = (i : I) × S i
Settles {I} Q S (fail e) = (i : I) × S i
Settles {I} Q S (abort s) = (i : I) × S i
Settles Q S (call c k) = (r : Reply c) → Settles Q (λ i. S i × Q i c r) (k r)

pub Settles-run :
    {I E A : Type 0} (Q : I → Rely) (S : I → Type 0) (env : Env) (h : History) (m : Prog E A)
    → Settles Q S m
    → ((i : I) → S i → AllReplies (Q i) env h)
    → (i : I) × AllReplies (Q i) env (run env h m).0
Settles-run Q S env h (ret a) (i, s) before = (i, before i s)
Settles-run Q S env h (fail e) (i, s) before = (i, before i s)
Settles-run Q S env h (abort x) (i, s) before = (i, before i s)
Settles-run Q S env h (call c k) settles before =
    Settles-run Q (λ i. S i × Q i c (env h c)) env (c ∷ h) (k (env h c)) (settles (env h c))
      λ i s. (s.1, before i s.0)

-- Where the member is known, it is enough that it holds of every later call.
pub Always-Settles :
    {I E A : Type 0} (Q : I → Rely) (S : I → Type 0) (P : Call → Type 0) (i : I) (m : Prog E A)
    → ((c : Call) (r : Reply c) → P c → Q i c r)
    → S i
    → Always P m
    → Settles Q S m
Always-Settles Q S P i (ret a) holds s p = (i, s)
Always-Settles Q S P i (fail e) holds s p = (i, s)
Always-Settles Q S P i (abort x) holds s p = (i, s)
Always-Settles Q S P i (call c k) holds s p =
    λ r. Always-Settles Q (λ i. S i × Q i c r) P i (k r) holds (s, holds c r p.0) (p.1 r)

pub Settles-weaken :
    {I E A : Type 0} (Q : I → Rely) (S T : I → Type 0) (m : Prog E A)
    → ((i : I) → S i → T i)
    → Settles Q S m
    → Settles Q T m
Settles-weaken Q S T (ret a) more (i, s) = (i, more i s)
Settles-weaken Q S T (fail e) more (i, s) = (i, more i s)
Settles-weaken Q S T (abort x) more (i, s) = (i, more i s)
Settles-weaken Q S T (call c k) more settles = λ r.
    Settles-weaken Q (λ i. S i × Q i c r) (λ i. T i × Q i c r) (k r) (λ i s. (more i s.0, s.1))
      (settles r)

-- What a program ends with, for some replies.
abbrev pub Gives : {E A : Type 0} → Prog E A → A → Type 0
Gives (ret b) a = b ≡ a
Gives (fail e) a = ⊥
Gives (abort x) a = ⊥
Gives (call c k) a = (r : Reply c) × Gives (k r) a

pub Gives-map_err :
    {E F A : Type 0} (w : E → F) (m : Prog E A) (a : A) → Gives (map_err w m) a → Gives m a
Gives-map_err w (ret b) a e = e
Gives-map_err w (fail _) a e = elim e [ ]
Gives-map_err w (abort _) a e = elim e [ ]
Gives-map_err w (call c k) a (r, g) = (r, Gives-map_err w (k r) a g)

-- Calls that suit whatever suits what was found before settle nothing.
pub Settles-bind :
    {I E A B : Type 0} (Q : I → Rely) (S : I → Type 0) (i : I) (m : Prog E A) (f : A → Prog E B)
    → S i
    → Always (λ c. (i : I) (r : Reply c) → S i → Q i c r) m
    → ((a : A) → Gives m a → Settles Q S (f a))
    → Settles Q S (m >>= f)
Settles-bind Q S i (ret a) f s suits rest = rest a refl
Settles-bind Q S i (fail e) f s suits rest = (i, s)
Settles-bind Q S i (abort x) f s suits rest = (i, s)
Settles-bind Q S i (call c k) f s suits rest = λ r.
    Settles-weaken Q S (λ i. S i × Q i c r) (k r >>= f) (λ i s. (s, suits.0 i r s))
      (Settles-bind Q S i (k r) f s (suits.1 r) λ a g. rest a (r, g))

-- A program in several parts is the first part and then the others.
pub bind_assoc :
    {E A B C : Type 0} (m : Prog E A) (g : A → Prog E B) (f : B → Prog E C)
    → (m >>= g) >>= f ≡ m >>= λ a. g a >>= f
bind_assoc (ret a) g f = refl
bind_assoc (fail e) g f = refl
bind_assoc (abort x) g f = refl
bind_assoc (call c k) g f = ap (call c) (fun_ext λ r. bind_assoc (k r) g f)

pub map_err-bind :
    {E F A B C : Type 0} (w : E → F) (m : Prog E A) (g : A → Prog E B) (f : B → Prog F C)
    → map_err w (m >>= g) >>= f ≡ map_err w m >>= λ a. map_err w (g a) >>= f
map_err-bind w (ret a) g f = refl
map_err-bind w (fail e) g f = refl
map_err-bind w (abort x) g f = refl
map_err-bind w (call c k) g f = ap (call c) (fun_ext λ r. map_err-bind w (k r) g f)
