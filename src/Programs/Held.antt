-- ===== src/Programs/Held.antt =====
-- What a run holds after its events, and runs that leave nothing held.
use Prim.Native.String.{◌++◌ as append}
use mathlib.Core.Bool.{false≢true}
use mathlib.Core.List.{append_assoc, append-nil}
use go_microservices_chat.Prelude.{
  ℕ, eqb, arith, if◌then◌else◌, String, ◌≡◌, refl, sym, ap, ◌∙◌, ◌⊎◌, inl, inr, ◌≢◌, Bool, true,
  false, Option, none, some, List, [], ◌∷◌, ◌++◌,
}
use go_microservices_chat.Go.Exec.{Result, ok, err, panic}
use go_microservices_chat.Programs.{
  Resource, Event, acquires, releases, starts, stops, Task, Run, doing, holding, checking, signals,
  database, user_service, chat_service, redis, hub, shutdown_timer, listener,
}

abbrev number : Resource → ℕ
number signals = 0
number database = 1
number user_service = 2
number chat_service = 3
number redis = 4
number hub = 5
number shutdown_timer = 6
number listener = 7

abbrev and_then : {A B : Type 0} → Option A → (A → Option B) → Option B
and_then none f = none
and_then (some a) f = f a

-- the resources without the last acquired `x`; `none` when it is not held
abbrev take_out : Resource → List Resource → Option (List Resource)
take_out x [] = none
take_out x (y ∷ held) =
    if eqb (number x) (number y)
    then some held
    else and_then (take_out x held) (λ rest. some (y ∷ rest))

-- what is held after some events; `none` if something is released that is not held
abbrev pub held_after : List Event → List Resource → Option (List Resource)
held_after [] held = some held
held_after (acquires x ∷ t) held = held_after t (x ∷ held)
held_after (starts x ∷ t) held = held_after t held
held_after (stops x ∷ t) held = held_after t held
held_after (releases x ∷ t) held = and_then (take_out x held) (held_after t)

abbrev pub succeeds : {A : Type 0} → Result String A → Bool
succeeds (ok a) = true
succeeds (err e) = false
succeeds panic = false

abbrev pub value : {A : Type 0} → A → Result String A → A
value default (ok a) = a
value default (err e) = default
value default panic = default

pub Result-cases :
    {A : Type 0} (r : Result String A) → ((a : A) × (r ≡ ok a)) ⊎ ((a : A) → r ≢ ok a)
Result-cases (ok a) = inl (a, refl)
Result-cases (err e) = inr (λ a p. false≢true (ap succeeds p))
Result-cases panic = inr (λ a p. false≢true (ap succeeds p))

-- a run leaves what was held before it as it was, and `kept` besides
pub record Leaves (kept : List Resource) (m : Run) : Type 0 where
  pub leaves :
      (held : List Resource) (later : List Event)
      → held_after (m.1 ++ later) held ≡ held_after later (kept ++ held)

abbrev pub Tidy : Run → Type 0
Tidy = Leaves []

last_out : (x : Resource) (held : List Resource) → take_out x (x ∷ held) ≡ some held
last_out x held = ground arith

-- `x` is given back although `kept` stays
pub holding-Leaves :
    {m : Run} {kept : List Resource} (x : Resource)
    → ((held : List Resource) → take_out x (kept ++ x ∷ held) ≡ some (kept ++ held))
    → Leaves kept m
    → Leaves kept (holding x m)
holding-Leaves {m} {kept} x out h = record {
  leaves = λ held later.
      ap (λ l. held_after l (x ∷ held)) (append_assoc m.1 (releases x ∷ []) later)
      ∙ h.leaves (x ∷ held) (releases x ∷ later)
      ∙ ap (λ o. and_then o (held_after later)) (out held);
}

pub holding-Tidy : {m : Run} (x : Resource) → Tidy m → Tidy (holding x m)
holding-Tidy x h = holding-Leaves x (last_out x) h

pub starts-Tidy : {m : Run} (x : Task) → Tidy m → Tidy (doing (starts x) m)
starts-Tidy x h = record { leaves = h.leaves }

pub stops-Tidy : {m : Run} (x : Task) → Tidy m → Tidy (doing (stops x) m)
stops-Tidy x h = record { leaves = h.leaves }

pub finished-Tidy : (e : Option String) → Tidy (e, [])
finished-Tidy e = record { leaves = λ held later. refl }

pub checking-Tidy :
    {A : Type 0} (before : String) (r : Result String A) (go : A → Run)
    → ((a : A) → r ≡ ok a → Tidy (go a))
    → Tidy (checking before r go)
checking-Tidy before (ok a) go h = h a refl
checking-Tidy before (err e) go h = finished-Tidy (some (append before e))
checking-Tidy before panic go h = finished-Tidy (some "panic")

pub nothing_held : (m : Run) → Tidy m → held_after m.1 [] ≡ some []
nothing_held m h = ap (λ l. held_after l []) (sym (append-nil m.1)) ∙ h.leaves [] []

pub left_over : {m : Run} {x : Resource} → Leaves (x ∷ []) m → held_after m.1 [] ≡ some (x ∷ [])
left_over {m} h = ap (λ l. held_after l []) (sym (append-nil m.1)) ∙ h.leaves [] []
