-- ===== src/Go/Status.antt =====
-- gRPC's status codes, and the errors that an RPC returns.
use Prim.Native.String.{String}

pub data Code : Type 0 where
  invalid_argument not_found already_exists permission_denied : Code
  failed_precondition internal unauthenticated : Code

-- `status.Error(code, message)`
pub record Status : Type 0 where
  pub code : Code
  pub message : String
