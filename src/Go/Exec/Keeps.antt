-- ===== src/Go/Exec/Keeps.antt =====
-- Invariants of methods, with one rule for each way to build a method.
use go_microservices_chat.Prelude.{◌≡◌, refl, Bool, true, false, if◌then◌else◌}
use go_microservices_chat.Go.Exec.{
  Result, ok, err, panic, Exec, pure, raise, lift, catch, convert_err, continue, ◌>>=◌,
}

-- `method` keeps `Inv`, whatever it returns
pub record Keeps {ℓ} {S E A : Type ℓ} (Inv : S → Type ℓ) (method : Exec S E A) : Type ℓ where
  pub at : (s : S) → Inv s → Inv (method s).1

module _ {ℓ} {S E A B : Type ℓ} {Inv : S → Type ℓ} where
  Keeps-continue :
      (r : Result E A) (rest : A → Exec S E B)
      → ((a : A) → Keeps Inv (rest a))
      → (s : S) → Inv s
      → Inv (continue r rest s).1
  Keeps-continue (ok a) rest k s inv = (k a).at s inv
  Keeps-continue (err e) rest k s inv = inv
  Keeps-continue panic rest k s inv = inv

  pub Keeps-after_bind :
      (method : Exec S E A) (rest : A → Exec S E B) (s : S)
      → Inv (method s).1
      → ((a : A) → Keeps Inv (rest a))
      → Inv ((method >>= rest) s).1
  unfolding ◌>>=◌
  Keeps-after_bind method rest s inv k = let (r, s') = method s in Keeps-continue r rest k s' inv

  pub Keeps-bind :
      (method : Exec S E A) (rest : A → Exec S E B)
      → Keeps Inv method
      → ((a : A) → Keeps Inv (rest a))
      → Keeps Inv (method >>= rest)
  Keeps-bind method rest k l = record {
    at = λ s inv. Keeps-after_bind method rest s (k.at s inv) l;
  }

  -- the rest may use what `r` returned
  pub Keeps-bind-lift :
      (r : Result E A) (rest : A → Exec S E B)
      → ((a : A) → r ≡ ok a → Keeps Inv (rest a))
      → Keeps Inv (lift r >>= rest)
  unfolding ◌>>=◌
  Keeps-bind-lift panic rest k = record { at = λ s inv. inv }
  Keeps-bind-lift (err e) rest k = record { at = λ s inv. inv }
  Keeps-bind-lift (ok a) rest k = k a refl

module _ {ℓ} {S E F A : Type ℓ} {Inv : S → Type ℓ} where
  pub Keeps-convert_err :
      (f : E → F) (method : Exec S E A) → Keeps Inv method → Keeps Inv (convert_err f method)
  unfolding convert_err
  Keeps-convert_err f method k = record { at = λ s inv. k.at s inv }

module _ {ℓ} {S E A : Type ℓ} {Inv : S → Type ℓ} where
  pub Keeps-catch :
      (method : Exec S E A) (f : E → Result E A) → Keeps Inv method → Keeps Inv (catch method f)
  unfolding catch
  Keeps-catch method f k = record { at = λ s inv. k.at s inv }

  pub Keeps-raise : (e : E) → Keeps {A = A} Inv (raise e)
  unfolding raise
  Keeps-raise e = record { at = λ s inv. inv }

  pub Keeps-if :
      (b : Bool) (yes' no' : Exec S E A)
      → Keeps Inv yes'
      → Keeps Inv no'
      → Keeps Inv (if b then yes' else no')
  Keeps-if true yes' no' k l = k
  Keeps-if false yes' no' k l = l

  pub Keeps-lift : (r : Result E A) → Keeps Inv (lift r)
  unfolding lift
  Keeps-lift r = record { at = λ s inv. inv }

  pub Keeps-pure : (a : A) → Keeps {E = E} Inv (pure a)
  unfolding pure
  Keeps-pure a = record { at = λ s inv. inv }

pub ruleset keeps_rules =
    (Keeps-bind, Keeps-if, Keeps-raise, Keeps-lift, Keeps-pure, Keeps-catch, Keeps-convert_err)
