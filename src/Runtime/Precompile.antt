-- ===== src/Runtime/Precompile.antt =====
-- runtime/src/demo_precompile.rs: the demo precompile, with its interface runtime/src/IDemo.sol.
use ink_node.Base.{
  ℕ, String, ◌≡◌, ◌≢◌, ◌↔◌, Option, none, some, Bool, true, false, ◌&&◌, ◌*◌, refl, List, [], ◌∷◌,
  ◌==◌, if◌then◌else◌, arith,
}

-- A call of the interface: `echo(uint8 mode, bytes message)`.
pub data DemoCalls : Type 0 where
  echo : ℕ → List ℕ → DemoCalls

pub data PrecompileError : Type 0 where
  revert : String → PrecompileError

pub data CallResult : Type 0 where
  ok : List ℕ → CallResult
  err : PrecompileError → CallResult

-- `DemoPrecompile::call`, for `SolValue::abi_encode`; the address and the caller are only logged.
unfoldable pub call : (List ℕ → List ℕ) → (address caller : ℕ) → DemoCalls → CallResult
call abi_encode address caller (echo mode message) =
    if mode == 0 then err (revert "mode was set to 0") else ok (abi_encode message)

-- `AddressMatcher::Fixed`, and whether a contract's information is kept.
abbrev pub matcher : ℕ
matcher = 11

abbrev pub has_contract_info : Bool
has_contract_info = false

abbrev same_bytes : List ℕ → List ℕ → Bool
same_bytes [] [] = true
same_bytes (a ∷ ls) (b ∷ ms) = a == b && same_bytes ls ms
same_bytes _ _ = false

abbrev returned : Option (List ℕ) → Bool
returned none = false
returned (some m) = same_bytes m (123 ∷ [])

-- The test `foobar`: whether its assertions hold, for a pallet that is called at an address by an
-- account, the encoding of calls and the decoding of bytes.
unfoldable pub foobar :
    (ℕ → ℕ → List ℕ → CallResult) → (DemoCalls → List ℕ) → (List ℕ → Option (List ℕ)) → ℕ → Bool
foobar bare_call encode_call abi_decode alice =
    elim (bare_call 720_896 alice (encode_call (echo 1 (123 ∷ [])))) [
      | ok bytes ↦ returned (abi_decode bytes)
      | err e ↦ false
    ]

-- A call reverts exactly if its mode is 0, and otherwise returns what decodes to the message that
-- was sent, whoever calls.
call-echo :
    (abi_encode : List ℕ → List ℕ) (abi_decode : List ℕ → Option (List ℕ))
    → ((m : List ℕ) → abi_decode (abi_encode m) ≡ some m)
    → (address caller mode : ℕ) (message : List ℕ)
    → ((call abi_encode address caller (echo mode message) ≡ err (revert "mode was set to 0"))
        ↔ (mode ≡ 0))
      × (mode ≢ 0
          → (out : List ℕ) × (call abi_encode address caller (echo mode message) ≡ ok out)
            × (abi_decode out ≡ some message))
unfolding call
call-echo enc dec back address caller mode message =
    (ground arith, λ n. (enc message, ground arith, back message))

-- If the pallet serves a precompile with a fixed matcher at the address of that number times 65536,
-- and what is encoded is decoded again, a call of the address 0xB0000, which is 720896, by any account reverts exactly
-- if its mode is 0 and otherwise returns what decodes to the message that was sent, and the test of
-- the source passes.
pub foobar-echo :
    (bare_call : ℕ → ℕ → List ℕ → CallResult) (abi_encode : List ℕ → List ℕ)
    (abi_decode : List ℕ → Option (List ℕ)) (encode_call : DemoCalls → List ℕ)
    → ((m : List ℕ) → abi_decode (abi_encode m) ≡ some m)
    → ((caller : ℕ) (c : DemoCalls)
        → bare_call (matcher * 65_536) caller (encode_call c)
          ≡ call abi_encode (matcher * 65_536) caller c)
    → (caller mode : ℕ) (message : List ℕ)
    → let result = bare_call 720_896 caller (encode_call (echo mode message)) in
      ((result ≡ err (revert "mode was set to 0")) ↔ (mode ≡ 0))
      × (mode ≢ 0 → (out : List ℕ) × (result ≡ ok out) × (abi_decode out ≡ some message))
      × (foobar bare_call encode_call abi_decode caller ≡ true)
unfolding foobar call
foobar-echo bare_call enc dec encode_call back served caller mode message =
    let known = served caller (echo 1 (123 ∷ [])) in
    let answer = call-echo enc dec back 720_896 caller mode message in
    rw (served caller (echo mode message))
      (answer.0, answer.1, rw (known, foobar, call, back (123 ∷ [])) refl)
