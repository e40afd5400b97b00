-- ===== src/Command/Main.antt =====
-- node/src/main.rs: `main`, and how the program ends with an SDK whose calls succeed.
use ink_node.Base.{String, Bool, List}
use ink_node.Sdk.{Sdk}
use ink_node.Sdk
use ink_node.Cli.{Cli}
use ink_node.Command.Run.{Done, run_cli}

-- `command::run`, for `Cli::from_args` on arguments that it accepts; else that ends the process.
unfoldable pub main : Sdk → (List String → Cli) → Bool → List String → Done
unfolding run_cli
main sdk from_args features args = run_cli sdk features (from_args args)
