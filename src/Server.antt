-- ===== src/Server.antt =====
-- src/server.rs: the commands of the process, the first connection to the database, and the start of the server.
pub mod Retry
pub mod Startup
use registry_api_contract.Prelude.{
  ℕ, zero, suc, ◌+◌, ◌*◌, String, Bool, true, false, Option, none, some, List, [], ◌∷◌, ◌++◌, ◌==◌,
  drop, leb, unwrap_or, if◌then◌else◌,
}
use registry_api_contract.Text.{Text, codes, after_last}
use registry_api_contract.Text.Numbers.{parse_u64}
use registry_api_contract.Config.{Env}
use registry_api_contract.RateLimit.{nanos}

pub data ProcessCommand : Type 0 where
  create_token_command revoke_token_command : List String → ProcessCommand
  healthcheck_command serve_command : ProcessCommand

abbrev pub second : List String → Option String
second [] = none
second (x ∷ []) = none
second (x ∷ y ∷ rest) = some y

unfoldable pub process_command : List String → ProcessCommand
process_command args = elim (second args) [
  | none ↦ serve_command
  | some command ↦
      if command == "create-token"
      then create_token_command (drop 2 args)
      else if command == "revoke-token"
      then revoke_token_command (drop 2 args)
      else if command == "healthcheck"
      then healthcheck_command
      else serve_command
]

unfoldable pub healthcheck_url : Text → Text
healthcheck_url bind = codes "http://127.0.0.1:" ++ (after_last b':' bind ++ codes "/healthz")

-- `DB_CONNECT_MAX_WAIT_SECS`, in nanoseconds
abbrev pub parsed_u64 : Option String → Option ℕ
parsed_u64 none = none
parsed_u64 (some v) = parse_u64 (codes v)

unfoldable pub max_wait : Env → ℕ
max_wait env = unwrap_or 30 (parsed_u64 (env "DB_CONNECT_MAX_WAIT_SECS")) * nanos

-- How the attempts to connect ended, and at which of them.
pub data Connection : Type 0 where
  connected gave_up : ℕ → Connection

-- Attempt `n` answers or not, and a failed one is looked at when `elapsed n` nanoseconds have passed; a
-- wait of two seconds follows. `none` is fuel that ran out.
module _ (answers : ℕ → Bool) (elapsed : ℕ → ℕ) (limit : ℕ) where
  unfoldable pub connect_loop : ℕ → ℕ → Option Connection
  connect_loop zero attempt = none
  connect_loop (suc fuel) attempt =
      let rest = connect_loop fuel (suc attempt) in
      if answers (suc attempt)
      then some (connected (suc attempt))
      else if leb limit (elapsed (suc attempt))
      then some (gave_up (suc attempt))
      else rest

unfoldable pub connect_with_retry : (ℕ → Bool) → (ℕ → ℕ) → Env → ℕ → Option Connection
unfolding connect_loop max_wait
connect_with_retry answers elapsed env fuel = connect_loop answers elapsed (max_wait env) fuel 0
