-- ===== src/Tests/Messages.antt =====
-- The theorems about messages of other chains at concrete inputs.
use ink_node.Base.{ℕ, ◌≡◌, ◌≢◌, ◌↔◌, ◌⊎◌, true, false, some, [], ◌∷◌}
use ink_node.Runtime.Origins.{Location}
use ink_node.Runtime.Messages.{native, RuntimeOrigin, barrier, transact_dispatch_origin}
use ink_node.Runtime.Messages.Admission.{IsAdmitted, Within, barrier_iff}
use ink_node.Runtime.Messages.Assets.{
  fungible, non_fungible, Asset, complete, asset_not_found, ancestor, IsToken, asset_transactors,
  asset_transactors-adapted,
}
use ink_node.Runtime.Messages.Dispatch.{transact_dispatch_origin-origin_of}
use ink_node.Tests.Letters.{
  Letter, letters, letters-Builds, letter, letters-Converts, neighbour, deposits, deposits-Deposits,
}

barrier_iff_example :
    ((barrier letters 1000 letter ≡ true) ↔ (
      (letters.deny_recursively letters.deny_reserve_transfer_to_relay_chain letter ≡ false)
      × ((letter.credit ≡ true)
          ⊎ ((c : Letter) × (some letter ≡ some c) × IsAdmitted letters letters-Builds 1000 c))))
    × (barrier letters 1000 letter ≡ true
        → (n : Letter) → Within letters-Builds n letter
        → n.reserve ≡ false)
barrier_iff_example = barrier_iff letters letters-Builds 1000 letter

transact_dispatch_origin-origin_of_example :
    (transact_dispatch_origin letters neighbour native ≡ some (RuntimeOrigin.sibling_para 2000))
    × (transact_dispatch_origin letters neighbour native ≢ some RuntimeOrigin.root)
transact_dispatch_origin-origin_of_example =
    transact_dispatch_origin-origin_of letters letters-Converts neighbour native

asset_transactors-adapted_example :
    ((i : Location) (n : ℕ)
      → IsToken i
      → asset_transactors letters deposits (record { id = i; fun = fungible n }) (ancestor 1) []
        ≡ (complete, (77, n) ∷ []))
    × ((asset : Asset)
        → ¬ IsToken asset.id
        → asset_transactors letters deposits asset (ancestor 1) [] ≡ (asset_not_found, []))
    × ((i : Location) (n : ℕ)
        → asset_transactors letters deposits
            (record { id = i; fun = non_fungible n })
            (ancestor 1)
            []
          ≡ (asset_not_found, []))
asset_transactors-adapted_example =
    asset_transactors-adapted letters deposits letters-Converts deposits-Deposits (ancestor 1) []
