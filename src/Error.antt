-- ===== src/Error.antt =====
-- crates/chassis-core/src/error.rs: the error of the core and what the caller of a plugin sees of
-- it. The errors of std and toml are given by their text.
use ai_garage.Common.{ℕ, ◌≡◌, refl, Bool, true, false, Text, text, ◌++◌, show_nat}
use ai_garage.Int.{ℤ}
use ai_garage.Protocol.RpcError
use ai_garage.Protocol.RpcError.{RpcError, policy_violation_code, internal_error_code}

pub data CoreError : Type 0 where
  manifest_parse policy_parse lockfile_parse policy_violation : Text → CoreError
  -- the path and the workspace
  path_escape_detected : Text → Text → CoreError
  forbidden_path : Text → CoreError
  -- the plugin, the expected and the actual hash
  checksum_mismatch : Text → Text → Text → CoreError
  -- the sequence number and the reason
  wal_integrity_violation : ℕ → Text → CoreError
  io toml vault_error : Text → CoreError

-- `Display`
unfoldable pub show : CoreError → Text
show (manifest_parse m) = text "Manifest parse error: " ++ m
show (policy_parse m) = text "Security policy parse error: " ++ m
show (lockfile_parse m) = text "Lockfile parse error: " ++ m
show (policy_violation m) = text "Policy violation: " ++ m
show (path_escape_detected path workspace) =
    text "Path escape detected: " ++ path ++ text " escapes workspace root " ++ workspace
show (forbidden_path path) = text "Forbidden path pattern matched: " ++ path
show (checksum_mismatch plugin_id expected actual) =
    text "Integrity check failed: checksum mismatch for plugin '"
    ++ plugin_id
    ++ text "' (expected "
    ++ expected
    ++ text ", found "
    ++ actual
    ++ text ")"
show (wal_integrity_violation seq reason) =
    text "WAL integrity check failed at seq " ++ show_nat seq ++ text ": " ++ reason
show (io m) = text "IO error: " ++ m
show (toml m) = text "TOML error: " ++ m
show (vault_error m) = text "Vault error: " ++ m

-- `impl From<CoreError> for RpcError`
unfoldable pub to_rpc : {V : Type 0} → CoreError → RpcError V
unfolding RpcError.new RpcError.internal_error show
to_rpc (policy_violation m) = RpcError.new policy_violation_code m
to_rpc (path_escape_detected path workspace) =
    RpcError.new policy_violation_code
      (text "Path '" ++ path ++ text "' escapes allowed workspace root '" ++ workspace ++ text "'")
to_rpc (forbidden_path path) =
    RpcError.new policy_violation_code
      (text "Access to forbidden path '" ++ path ++ text "' is denied by policy")
to_rpc e = RpcError.internal_error (show e)

-- The refusals that the security policy makes.
abbrev pub is_refusal : CoreError → Bool
is_refusal (policy_violation m) = true
is_refusal (path_escape_detected path workspace) = true
is_refusal (forbidden_path path) = true
is_refusal _ = false

abbrev pub code_of : Bool → ℤ
code_of true = policy_violation_code
code_of false = internal_error_code

-- The caller gets the code of a policy violation for a refusal by the policy, and the code of an
-- internal error for every other error.
pub code-to_rpc : (V : Type 0) (e : CoreError) → (to_rpc {V = V} e).code ≡ code_of (is_refusal e)
unfolding to_rpc
code-to_rpc V (policy_violation m) = refl
code-to_rpc V _ = refl

-- How a call of the core can end other than by its value: by an error, or by a panic.
pub data Fault : Type 0 where
  failed : CoreError → Fault
  panic : Fault
