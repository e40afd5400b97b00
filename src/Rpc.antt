-- ===== src/Rpc.antt =====
-- node/src/rpc.rs: the RPC extensions of a node.
use ink_node.Base.{String, List, [], ◌∷◌}
use ink_node.Sdk.{RpcModule, FullDeps, Call}
use ink_node.Sdk
use ink_node.Prog.{Prog, ret, ask, or_fail, ◌>>=◌, ◌>>◌}

-- The extension that is built up: the modules that were merged into it, the newest first.
abbrev pub RpcExtension : Type 0
RpcExtension = List RpcModule

abbrev pub rpc_error : String → String
rpc_error e = e

-- `module.merge(…)?`.
unfoldable pub merge : RpcExtension → RpcModule → Prog String RpcExtension
merge extension m = do ask (Sdk.merge m) >>= or_fail rpc_error; ret (m ∷ extension)

unfoldable pub create_full : FullDeps → Prog String RpcExtension
unfolding merge
create_full deps = do
  module' ← merge [] (RpcModule.system_rpc deps.client deps.pool)
  merge module' (RpcModule.transaction_payment_rpc deps.client)

-- The two calls that `create_full` makes.
abbrev pub system_call : FullDeps → Call
system_call deps = Sdk.merge (RpcModule.system_rpc deps.client deps.pool)

abbrev pub payment_call : FullDeps → Call
payment_call deps = Sdk.merge (RpcModule.transaction_payment_rpc deps.client)
