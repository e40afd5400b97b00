-- ===== src/Tests/Weighing.antt =====
-- The theorem about the weights of messages at a concrete message.
use ink_node.Base.{ltb, ℕ, ◌+◌, ◌*◌, ◌/◌, ◌≤◌, ◌<◌, ◌≡◌, refl, ◌↔◌, false, none, some, arith}
use ink_node.Runtime.Origins.{Location}
use ink_node.Runtime.Weights.{Weight, from_parts, para_maximum_block_weight}
use ink_node.Runtime.Messages.Executor.{weigher}
use ink_node.Runtime.Messages.Weighing.{Weighs, weigher_fits}
use ink_node.Tests.Letters.{letters, letter, deposits, test_senders}
use ink_node.Tests.Figures.{picoseconds}
use ink_node.Runtime.Messages.Transport.{message_queue_config, parachain_system_config}
use ink_node.Tests.Queues.{channels, queues}
use ink_node.Tests.Trust.{instructions, configs}

abbrev configs-Weighs : Weighs letters configs
configs-Weighs = record {
  instructions = instructions;
  holds_calls = λ m. false;
  bounds_lem = λ u n m plain. refl;
}

abbrev as_pair : Location → ℕ → Location × ℕ
as_pair l m = (l, m)

abbrev same_core : ℕ → ℕ
same_core n = n

abbrev rounded : ℕ → Weight → Weight
rounded r w = from_parts ((r * w.ref_time + 50) / 100) ((r * w.proof_size + 50) / 100)

weigher_fits_example :
    let max = para_maximum_block_weight picoseconds 10_485_760 in
    let queue = (message_queue_config queues as_pair rounded max).service_weight in
    let system = parachain_system_config queues ltb same_core max in
    let dmp = system.reserved_dmp_weight in
    let xcmp = system.reserved_xcmp_weight in
    let weigh = weigher letters deposits channels test_senders configs in
    ((weigh letter ≡ none) ↔ (100 < 100))
    × ((w : Weight)
        → weigh letter ≡ some w
        → (w.ref_time ≤ queue.ref_time) × ((w.proof_size ≤ queue.proof_size) ↔ (100 ≤ 56)))
    × (xcmp.ref_time + dmp.ref_time + queue.ref_time ≤ max.ref_time)
    × (xcmp.proof_size + dmp.proof_size + queue.proof_size ≤ max.proof_size)
weigher_fits_example =
    weigher_fits letters deposits channels test_senders configs configs-Weighs queues as_pair ltb
      same_core rounded picoseconds 2 letter
      (λ r w. (omega arith, omega arith, omega arith, omega arith)) refl (omega arith) refl
