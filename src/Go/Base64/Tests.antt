-- ===== src/Go/Base64/Tests.antt =====
-- Base64 at a few texts.
use go_microservices_chat.Prelude.{◌≡◌, refl, [], ◌∷◌}
use go_microservices_chat.Go.Base64.{encode_to_string, decode_string, corrupt_input}
use go_microservices_chat.Go.Strings.{bytes}
use go_microservices_chat.Go.Exec.{ok, err}

man : encode_to_string (77 ∷ 97 ∷ 110 ∷ []) ≡ "TWFu"
unfolding encode_to_string
man = refl

exponent : encode_to_string (1 ∷ 0 ∷ 1 ∷ []) ≡ "AQAB"
unfolding encode_to_string
exponent = refl

broken : decode_string "TW\nE" ≡ ok (77 ∷ 97 ∷ [])
unfolding decode_string bytes
broken = refl

no_letter : decode_string "TW=" ≡ err "illegal base64 data at input byte 2"
unfolding decode_string bytes corrupt_input
no_letter = refl

too_short : decode_string "TWFuT" ≡ err "illegal base64 data at input byte 4"
unfolding decode_string bytes corrupt_input
too_short = refl

url_safe : encode_to_string (255 ∷ 239 ∷ []) ≡ "_-8"
unfolding encode_to_string
url_safe = refl
