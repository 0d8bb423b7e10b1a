-- ===== src/Go/Errors.antt =====
-- Go's error values: the sentinels of a package, what `fmt.Errorf` wraps around them with one `%w`,
-- and the errors of other packages, which wrap none of them.
use Prim.Native.String.{String, ◌++◌}
use mathlib.Core.Option.{Option, none, some}

pub data GoError {ℓ} (S : Type ℓ) : Type ℓ where
  sentinel : S → GoError S
  wrap : String → GoError S → String → GoError S
  foreign : String → GoError S

module _ {ℓ} {S : Type ℓ} where
  -- `errors.Is(err, Err)` holds for the one sentinel at the end of the chain of wraps
  abbrev pub root : GoError S → Option S
  root (sentinel s) = some s
  root (wrap before e after) = root e
  root (foreign msg) = none

  -- `err.Error()`
  abbrev pub text : (S → String) → GoError S → String
  text name (sentinel s) = name s
  text name (wrap before e after) = (before ++ text name e) ++ after
  text name (foreign msg) = msg
