-- ===== src/Prog/Trace.antt =====
-- The steps of a run, as a reader of the source would list them, and programs that follow a
-- schedule of steps: whatever the replies are, they take the steps in that order, stop early only
-- by an error, and end well only after the last.
use ink_node.Base.{
  ◌≡◌, refl, Option, none, some, List, [], ◌∷◌, ◌++◌, String, Bool, true, false, if◌then◌else◌,
  Fallible, good, bad,
}
use mathlib.Core.List.{append-nil, append_assoc}
use ink_node.Sdk.{Call, Reply, Task}
use ink_node.Prog.{
  Prog, ret, fail, abort, call, ◌>>=◌, or_fail, expect, ok_or, map_err, History, Env, run, Outcome,
  ok, err, panic,
}

pub data Job : Type 0 where
  telemetry_worker offchain_workers aura instant_seal delayed_finalize hwbench_telemetry : Job

pub data Kind : Type 0 where
  make_worker make_telemetry make_parts make_pool make_block_import make_import_queue : Kind
  make_proposer : Kind
  run_job : Job → Kind
  run_node_tasks join_relay_chain build_network make_offchain_workers ask_overseer : Kind
  start_relay_tasks merge_rpc make_directory measure_hardware show_hardware check_hardware : Kind
  ask_slot_duration seal_block read_chain create_runner run_command load_spec : Kind
  parse_relay_args make_relay_config run_until_exit : Kind

abbrev pub job : Task → Job
job (Task.run_telemetry _) = telemetry_worker
job (Task.run_offchain_workers _ _ _) = offchain_workers
job (Task.run_aura _) = aura
job (Task.run_instant_seal _) = instant_seal
job (Task.run_delayed_finalize _) = delayed_finalize
job (Task.initialize_hwbench_telemetry _ _) = hwbench_telemetry

-- A log line is no step.
abbrev pub kind : Call → Option Kind
kind (Call.telemetry_worker _) = some make_worker
kind (Call.new_telemetry _ _) = some make_telemetry
kind (Call.full_parts_record_import _ _ _ _) = some make_parts
kind (Call.full_parts _ _ _) = some make_parts
kind (Call.transaction_pool _) = some make_pool
kind (Call.block_import _ _) = some make_block_import
kind (Call.verifying_import_queue _) = some make_import_queue
kind (Call.manual_seal_import_queue _ _ _) = some make_import_queue
kind (Call.proposer _) = some make_proposer
kind (Call.spawn s) = some (run_job (job s.task))
kind (Call.spawn_tasks _) = some run_node_tasks
kind (Call.relay_chain_interface _ _ _ _ _ _) = some join_relay_chain
kind (Call.network _) = some build_network
kind (Call.solo_network _) = some build_network
kind (Call.offchain_workers _) = some make_offchain_workers
kind (Call.overseer_handle _) = some ask_overseer
kind (Call.relay_chain_tasks _) = some start_relay_tasks
kind (Call.merge _) = some merge_rpc
kind (Call.create_dir_all _) = some make_directory
kind (Call.gather_hwbench _) = some measure_hardware
kind (Call.print_hwbench _) = some show_hardware
kind (Call.check_hardware _ _) = some check_hardware
kind (Call.warn _) = none
kind (Call.slot_duration _) = some ask_slot_duration
kind (Call.seal_block _) = some seal_block
kind (Call.header _ _) = some read_chain
kind (Call.collect_collation_info _ _ _) = some read_chain
kind (Call.create_runner _) = some create_runner
kind (Call.run_command _) = some run_command
kind (Call.spec_from_file _) = some load_spec
kind (Call.parse_relay_args _) = some parse_relay_args
kind (Call.relay_configuration _ _) = some make_relay_config
kind (Call.run_until_exit _) = some run_until_exit

abbrev pub steps : Option Kind → List Kind
steps none = []
steps (some p) = p ∷ []

-- The steps of a history, the oldest first.
abbrev pub trace : History → List Kind
trace [] = []
trace (c ∷ h) = trace h ++ steps (kind c)

abbrev Next : Option Kind → List Kind → (List Kind → Type 0) → Type 0
Next none s P = P s
Next (some p) [] P = ⊥
Next (some p) (q ∷ s) P = (q ≡ p) × P s

-- With `P` of the value that a run which ends well returns.
abbrev pub Follows : {E A : Type 0} → (A → Type 0) → List Kind → Prog E A → Type 0
Follows P s (ret a) = (s ≡ []) × P a
Follows P s (fail e) = Unit
Follows P s (abort t) = Unit
Follows P s (call c k) = Next (kind c) s (λ t. (r : Reply c) → Follows P t (k r))

abbrev pub IsOk : {E A : Type 0} → Outcome E A → Type 0
IsOk (ok a) = Unit
IsOk (err e) = ⊥
IsOk (panic s) = ⊥

-- The run from an empty history takes the steps of `s` in order, and all of them if it ends well.
abbrev pub Refines : {E A : Type 0} → Env → Prog E A → List Kind → Type 0
Refines env m s =
    (rest : List Kind) × (s ≡ trace (run env [] m).0 ++ rest) × (IsOk (run env [] m).1 → rest ≡ [])

Next-elim :
    (o : Option Kind) (s : List Kind) (P : List Kind → Type 0) (pre : List Kind)
    (R : List Kind → Type 0)
    → Next o s P
    → ((t : List Kind) → P t → R ((pre ++ steps o) ++ t))
    → R (pre ++ s)
Next-elim none s P pre R f i = rw append-nil at (i s f)
Next-elim (some p) [] P pre R f i = absurd f
Next-elim (some p) (q ∷ s) P pre R f i = rw f.0 (rw append_assoc at (i s f.1))

pub Refines_from :
    {E A : Type 0} (P : A → Type 0) (env : Env) (h : History) (s : List Kind) (m : Prog E A)
    → Follows P s m
    → (rest : List Kind) × (trace h ++ s ≡ trace (run env h m).0 ++ rest)
      × (IsOk (run env h m).1 → rest ≡ [])
Refines_from P env h s (ret a) f = (s, refl, λ _. f.0)
Refines_from P env h s (fail e) f = (s, refl, λ x. absurd x)
Refines_from P env h s (abort t) f = (s, refl, λ x. absurd x)
Refines_from P env h s (call c k) f =
    Next-elim (kind c) s _ (trace h)
      (λ x.
        (rest : List Kind) × (x ≡ trace (run env (c ∷ h) (k (env h c))).0 ++ rest)
        × (IsOk (run env (c ∷ h) (k (env h c))).1 → rest ≡ []))
      f (λ t p. Refines_from P env (c ∷ h) t (k (env h c)) (p (env h c)))

-- A program that follows a schedule refines it in every environment.
pub Follows-Refines :
    {E A : Type 0} (P : A → Type 0) (env : Env) (s : List Kind) (m : Prog E A)
    → Follows P s m
    → Refines env m s
Follows-Refines P env s m f = Refines_from P env [] s m f

Next-append :
    (o : Option Kind) (s t : List Kind) (P Q : List Kind → Type 0)
    → ((u : List Kind) → P u → Q (u ++ t))
    → Next o s P
    → Next o (s ++ t) Q
Next-append none s t P Q i f = i s f
Next-append (some p) [] t P Q i f = absurd f
Next-append (some p) (q ∷ s) t P Q i f = (f.0, i s f.1)

pub Follows-bind :
    {E A B : Type 0} (P : A → Type 0) (Q : B → Type 0) (s t : List Kind) (m : Prog E A)
    (f : A → Prog E B)
    → Follows P s m
    → ((a : A) → P a → Follows Q t (f a))
    → Follows Q (s ++ t) (m >>= f)
Follows-bind P Q s t (ret a) f p q = rw p.0 (q a p.1)
Follows-bind P Q s t (fail e) f p q = tt
Follows-bind P Q s t (abort x) f p q = tt
Follows-bind P Q s t (call c k) f p q =
    Next-append (kind c) s t _ _ (λ u g r. Follows-bind P Q u t (k r) f (g r) q) p

-- After a call that can fail, only its success has to be followed.
pub Follows-or_fail :
    {E A B : Type 0} (P : B → Type 0) (s : List Kind) (w : String → E) (f : A → Prog E B)
    → ((a : A) → Follows P s (f a))
    → (r : Fallible A) → Follows P s (or_fail w r >>= f)
Follows-or_fail P s w f q (good a) = q a
Follows-or_fail P s w f q (bad x) = tt

pub Follows-expect :
    {E A B : Type 0} (P : B → Type 0) (s : List Kind) (w : String) (f : A → Prog E B)
    → ((a : A) → Follows P s (f a))
    → (r : Option A) → Follows P s (expect w r >>= f)
Follows-expect P s w f q none = tt
Follows-expect P s w f q (some x) = q x

pub Follows-ok_or :
    {E A B : Type 0} (P : B → Type 0) (s : List Kind) (e : E) (f : A → Prog E B)
    → ((a : A) → Follows P s (f a))
    → (r : Option A) → Follows P s (ok_or e r >>= f)
Follows-ok_or P s w f q none = tt
Follows-ok_or P s w f q (some x) = q x

-- Where nothing is left to be done after the first part.
pub Follows-last :
    {E A B : Type 0} (P : A → Type 0) (Q : B → Type 0) (s : List Kind) (m : Prog E A)
    (f : A → Prog E B)
    → Follows P s m
    → ((a : A) → P a → Follows Q [] (f a))
    → Follows Q s (m >>= f)
Follows-last P Q s m f p q = rw append-nil at (Follows-bind P Q s [] m f p q)

Next-map :
    (o : Option Kind) (s : List Kind) (P Q : List Kind → Type 0)
    → ((u : List Kind) → P u → Q u)
    → Next o s P
    → Next o s Q
Next-map none s P Q i f = i s f
Next-map (some p) [] P Q i f = absurd f
Next-map (some p) (q ∷ s) P Q i f = (f.0, i s f.1)

pub Follows-map_err :
    {E F A : Type 0} (P : A → Type 0) (s : List Kind) (w : E → F) (m : Prog E A)
    → Follows P s m
    → Follows P s (map_err w m)
Follows-map_err P s w (ret a) p = p
Follows-map_err P s w (fail e) p = tt
Follows-map_err P s w (abort x) p = tt
Follows-map_err P s w (call c k) p =
    Next-map (kind c) s _ _ (λ u g r. Follows-map_err P u w (k r) (g r)) p

pub Follows-if :
    {E A : Type 0} (P : A → Type 0) (b : Bool) (s t : List Kind) (m n : Prog E A)
    → Follows P s m
    → Follows P t n
    → Follows P (if b then s else t) (if b then m else n)
Follows-if P true s t m n p q = p
Follows-if P false s t m n p q = q
