-- ===== src/Service/Errors.antt =====
-- The errors that a start can end with: `sc_service::Error` and `sc_cli::Error`, by the variant that
-- the source names or that `?` converts into.
use ink_node.Base.{String}

pub data ServiceError : Type 0 where
  telemetry : String → ServiceError
  sdk : String → ServiceError
  application : String → ServiceError
  other : String → ServiceError

pub data CliError : Type 0 where
  service : ServiceError → CliError
  input : String → CliError
  application : String → CliError
  sdk : String → CliError
