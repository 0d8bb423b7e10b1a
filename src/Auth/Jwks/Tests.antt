-- ===== src/Auth/Jwks/Tests.antt =====
-- The theorem on the key set at the usual exponent and a short modulus.
use go_microservices_chat.Prelude.{ℕ, ◌≡◌, ◌≤◌, List, [], ◌∷◌, length, arith}
use go_microservices_chat.Go.Base64.{decode_string}
use go_microservices_chat.Go.Exec.{ok}
use go_microservices_chat.Auth.Jwks.{
  JwksHandler, Jwk, serve_jwks, number_of, Minimal, serve_jwks_lem,
}

abbrev handler : JwksHandler
handler = record { public_key = record { modulus = 193 ∷ 0 ∷ 7 ∷ []; e = 65537 }; key_id = "k1" }

serve_jwks_lem_example :
    (key : Jwk) × ((serve_jwks handler).keys ≡ key ∷ [])
    × (key.kid ≡ "k1")
    × (key.alg ≡ "RS256")
    × (decode_string key.n ≡ ok (193 ∷ 0 ∷ 7 ∷ []))
    × ((b : List ℕ) × (decode_string key.e ≡ ok b)
        × (number_of 0 b ≡ 65537)
        × Minimal b
        × (length b ≤ 4))
serve_jwks_lem_example =
    serve_jwks_lem handler (omega arith) (omega arith, (omega arith, (omega arith, tt)))
