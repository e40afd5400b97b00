-- ===== src/Prog.antt =====
-- Programs that call the SDK. A program ends, or makes a call and goes on with the reply; an
-- environment answers each call from the calls made so far, so it can answer in any way that the
-- SDK can.
pub mod Trace
pub mod Always
pub mod Settles
pub mod Ends
pub mod Fails
pub mod Quiet
use ink_node.Base.{String, List, ◌∷◌, Option, none, some, Fallible, good, bad}
use ink_node.Sdk.{Call, Reply}

pub data Outcome (E A : Type 0) : Type 0 where
  ok : A → Outcome E A
  err : E → Outcome E A
  panic : String → Outcome E A

pub data Prog (E A : Type 0) : Type 0 where
  ret : A → Prog E A
  fail : E → Prog E A
  abort : String → Prog E A
  call : (c : Call) → (Reply c → Prog E A) → Prog E A

infixl 5 ◌>>=◌ ◌>>◌
abbrev pub ◌>>=◌ : {E A B : Type 0} → Prog E A → (A → Prog E B) → Prog E B
ret a >>= f = f a
fail e >>= f = fail e
abort s >>= f = abort s
call c k >>= f = call c (λ r. k r >>= f)

abbrev pub ◌>>◌ : {E A B : Type 0} → Prog E A → Prog E B → Prog E B
m >> k = m >>= λ _. k

-- A call whose reply is used as it is.
abbrev pub ask : {E : Type 0} (c : Call) → Prog E (Reply c)
ask c = call c ret

-- `?`, where the text of the error becomes an error of the caller's.
abbrev pub or_fail : {E A : Type 0} → (String → E) → Fallible A → Prog E A
or_fail wrap (good a) = ret a
or_fail wrap (bad s) = fail (wrap s)

-- `expect`.
abbrev pub expect : {E A : Type 0} → String → Option A → Prog E A
expect s none = abort s
expect s (some a) = ret a

-- `ok_or(e)?`.
abbrev pub ok_or : {E A : Type 0} → E → Option A → Prog E A
ok_or e none = fail e
ok_or e (some a) = ret a

-- `map_err`.
abbrev pub map_err : {E F A : Type 0} → (E → F) → Prog E A → Prog F A
map_err wrap (ret a) = ret a
map_err wrap (fail e) = fail (wrap e)
map_err wrap (abort s) = abort s
map_err wrap (call c k) = call c (λ r. map_err wrap (k r))

-- The calls made so far, the newest first.
abbrev pub History : Type 0
History = List Call

-- The world that answers.
abbrev pub Env : Type 0
Env = (h : History) → (c : Call) → Reply c

-- What may hold of a call with its reply.
abbrev pub Rely : Type 1
Rely = (c : Call) → Reply c → Type 0

abbrev pub run : {E A : Type 0} → Env → History → Prog E A → History × Outcome E A
run env h (ret a) = (h, ok a)
run env h (fail e) = (h, err e)
run env h (abort s) = (h, panic s)
run env h (call c k) = run env (c ∷ h) (k (env h c))
