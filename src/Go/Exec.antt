-- ===== src/Go/Exec.antt =====
-- Methods that read and write a component's state and return a value or an error. What was written
-- before an error stays written, so the state comes back beside it. `panic` is Go's runtime panic:
-- an index out of range, or a write to a nil map.
pub mod Keeps

pub data Result {ℓ} (E A : Type ℓ) : Type ℓ where
  ok : A → Result E A
  err : E → Result E A
  panic : Result E A

abbrev pub Exec {ℓ} : Type ℓ → Type ℓ → Type ℓ → Type ℓ
Exec S E A = S → Result E A × S

module _ {ℓ} {E F A : Type ℓ} where
  -- `if err != nil { return nil, f(err) }`
  abbrev pub convert : (E → F) → Result E A → Result F A
  convert f (ok a) = ok a
  convert f (err e) = err (f e)
  convert f panic = panic

module _ {ℓ} {E A : Type ℓ} where
  -- a handler that looks at the error and may swallow it
  abbrev pub handle : (E → Result E A) → Result E A → Result E A
  handle h (ok a) = ok a
  handle h (err e) = h e
  handle h panic = panic

  abbrev pub IsOk : Result E A → Type 0
  IsOk (ok a) = Unit
  IsOk (err e) = ⊥
  IsOk panic = ⊥

module _ {ℓ} {S E A : Type ℓ} where
  unfoldable pub pure : A → Exec S E A
  pure a s = (ok a, s)

  unfoldable pub raise : E → Exec S E A
  raise e s = (err e, s)

  unfoldable pub lift : Result E A → Exec S E A
  lift r s = (r, s)

  unfoldable pub gets : (S → A) → Exec S E A
  gets f s = (ok (f s), s)

  -- `m`, with its error handled
  unfoldable pub catch : Exec S E A → (E → Result E A) → Exec S E A
  catch m h s = let (r, s') = m s in (handle h r, s')

module _ {ℓ} {S E F A : Type ℓ} where
  -- `m`, with its error converted
  unfoldable pub convert_err : (E → F) → Exec S E A → Exec S F A
  convert_err f m s = let (r, s') = m s in (convert f r, s')

module _ {ℓ} {S E A B : Type ℓ} where
  abbrev pub continue : Result E A → (A → Exec S E B) → Exec S E B
  continue (ok a) f s = f a s
  continue (err e) f s = (err e, s)
  continue panic f s = (panic, s)

  infixl 10 ◌>>=◌ ◌>>◌
  -- opening this opens the other combinators too
  unfoldable pub ◌>>=◌ : Exec S E A → (A → Exec S E B) → Exec S E B
  unfolding pure raise lift gets catch convert_err
  ◌>>=◌ m f s = let (r, s') = m s in continue r f s'

  abbrev pub ◌>>◌ : Exec S E A → Exec S E B → Exec S E B
  m >> n = m >>= λ _. n

module _ {ℓ} {S T E A : Type ℓ} where
  -- a method of the first of two stores
  unfoldable pub on_first : Exec S E A → Exec (S × T) E A
  on_first m (s, t) = let (r, s') = m s in (r, (s', t))

  -- a method of the second
  unfoldable pub on_second : Exec T E A → Exec (S × T) E A
  on_second m (s, t) = let (r, t') = m t in (r, (s, t'))
