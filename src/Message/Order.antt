-- ===== src/Message/Order.antt =====
-- The order of messages, and the lists that `ListByRoom` returns.

use text.Mathlib.TextEquality.{Char-path}
use go_microservices_chat.Prelude.{String, ◌≡◌, refl, ap, ◌∙◌, ◌≢◌, true, false, arith}
use go_microservices_chat.Go.Strings.{str_ltb}
use go_microservices_chat.Message.Types.{Message}
use go_microservices_chat.Message.Inmem.{newer}

pub str_ltb_irrefl : (a : String) → str_ltb a a ≡ false
unfolding str_ltb
str_ltb_irrefl String.[] = refl
str_ltb_irrefl (String.◌∷◌ c s) = ground (arith, str_ltb_irrefl s)

str_ltb_asym : (a b : String) → str_ltb a b ≡ true → str_ltb b a ≡ false
unfolding str_ltb
str_ltb_asym String.[] String.[] h = refl
str_ltb_asym String.[] (String.◌∷◌ d t) h = refl
str_ltb_asym (String.◌∷◌ c s) String.[] h = ground arith
str_ltb_asym (String.◌∷◌ c s) (String.◌∷◌ d t) h = ground (arith, str_ltb_asym s t)

-- "not less" is transitive
str_ltb_not_trans :
    (a b c : String) → str_ltb b a ≡ false → str_ltb c b ≡ false → str_ltb c a ≡ false
unfolding str_ltb
str_ltb_not_trans String.[] String.[] String.[] h k = refl
str_ltb_not_trans (String.◌∷◌ c s) String.[] String.[] h k = ground arith
str_ltb_not_trans a (String.◌∷◌ d t) String.[] h k = ground arith
str_ltb_not_trans String.[] b (String.◌∷◌ e u) h k = refl
str_ltb_not_trans (String.◌∷◌ c s) String.[] (String.◌∷◌ e u) h k = ground arith
str_ltb_not_trans (String.◌∷◌ c s) (String.◌∷◌ d t) (String.◌∷◌ e u) h k =
    ground (arith, str_ltb_not_trans s t u)

str_ltb_total : (a b : String) → str_ltb a b ≡ false → str_ltb b a ≡ false → a ≡ b
unfolding str_ltb
str_ltb_total String.[] String.[] h k = refl
str_ltb_total String.[] (String.◌∷◌ d t) h k = ground arith
str_ltb_total (String.◌∷◌ c s) String.[] h k = ground arith
str_ltb_total (String.◌∷◌ c s) (String.◌∷◌ d t) h k =
    ap (λ x. String.◌∷◌ x s) (Char-path c d (ground arith))
    ∙ ap (String.◌∷◌ d) (str_ltb_total s t (ground arith) (ground arith))

pub newer_irrefl : (a : Message) → newer a a ≡ false
unfolding newer
newer_irrefl a = ground (arith, str_ltb_irrefl a.id)

pub newer_asym : (a b : Message) → newer a b ≡ true → newer b a ≡ false
unfolding newer
newer_asym a b h = ground (arith, str_ltb_asym b.id a.id)

pub newer_not_trans : (a b c : Message) → newer b a ≡ false → newer c b ≡ false → newer c a ≡ false
unfolding newer
newer_not_trans a b c h k =
    ground (arith, str_ltb_not_trans c.id b.id a.id, str_ltb_not_trans a.id b.id c.id)

-- of two messages with different ids one is newer
pub newer_total : (a b : Message) → a.id ≢ b.id → newer b a ≡ false → newer a b ≡ true
unfolding newer
newer_total a b ne h = ground (arith, str_ltb_total a.id b.id)
