-- ===== src/Service/Warnings.antt =====
-- node/src/service.rs: the warning about the hardware of a collator.
use ink_node.Base.{
  ◌≡◌, ◌↔◌, refl, String, Bool, true, false, Option, none, some, [], ◌∷◌, good, bad, Fallible,
}
use ink_node.Sdk.{TaskManager, Telemetry, HwBench, Call}
use ink_node.Sdk
use ink_node.Prog.{Env, History, run, ◌>>◌}
use ink_node.Prog.Trace.{IsOk}
use ink_node.Service.Hardware.{report_hardware, warn_hardware, send_hwbench}

abbrev pub is_warning : Call → Bool
is_warning (Call.warn _) = true
is_warning _ = false

-- Whether a history holds a warning.
abbrev pub warned : History → Bool
warned [] = false
warned (c ∷ h) = elim (is_warning c) [ true ↦ true | false ↦ warned h ]

-- The rest of the report, for the result of the check.
after_check :
    (env : Env) (h : History) (validator : Bool) (tm : TaskManager) (t : Option Telemetry)
    (b : HwBench) (meets : Fallible (Unit {0}))
    → warned h ≡ false
    → let r = run env h (warn_hardware validator meets >> send_hwbench tm t b) in
      IsOk r.1 × ((warned r.0 ≡ true) ↔ ((validator ≡ true) × (e : String) × (meets ≡ bad e)))
unfolding warn_hardware send_hwbench
after_check env h false tm none b (good _) q = (tt, (λ w. cc, λ x. cc))
after_check env h false tm (some t) b (good _) q = (tt, (λ w. cc, λ x. cc))
after_check env h false tm none b (bad e) q = (tt, (λ w. cc, λ x. cc))
after_check env h false tm (some t) b (bad e) q = (tt, (λ w. cc, λ x. cc))
after_check env h true tm none b (good _) q = (tt, (λ w. cc, λ x. cc (x.2)))
after_check env h true tm (some t) b (good _) q = (tt, (λ w. cc, λ x. cc (x.2)))
after_check env h true tm none b (bad e) q = (tt, (λ _. (refl, e, refl), λ _. refl))
after_check env h true tm (some t) b (bad e) q = (tt, (λ _. (refl, e, refl), λ _. refl))

-- Whatever the SDK answers, the report of a benchmark ends well, and it warns exactly if the node is
-- an authority's and the check of the hardware fails.
pub report_hardware-warned :
    (env : Env) (validator : Bool) (tm : TaskManager) (t : Option Telemetry) (b : HwBench)
    → let r = run env [] (report_hardware validator tm t (some b)) in
      IsOk r.1
      × ((warned r.0 ≡ true) ↔ (
          (validator ≡ true)
          × (e : String) × (env (Sdk.print_hwbench b ∷ []) (Sdk.check_hardware b false) ≡ bad e)))
unfolding report_hardware
report_hardware-warned env validator tm t b =
    after_check env (Sdk.check_hardware b false ∷ Sdk.print_hwbench b ∷ []) validator tm t b
      (env (Sdk.print_hwbench b ∷ []) (Sdk.check_hardware b false)) refl
