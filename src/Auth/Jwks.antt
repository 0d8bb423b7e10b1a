-- ===== src/Auth/Jwks.antt =====
-- pkg/auth/jwks.go. The JSON encoder is a parameter; an answer is the document and the headers that
-- go with it.
mod Tests
use go_microservices_chat.Prelude.{
  ℕ, zero, suc, ◌+◌, ◌*◌, ◌^◌, ◌/◌, ◌%◌, ◌<◌, ◌≤◌, ◌≡◌, ◌≢◌, refl, ap, ◌∙◌, ◌⊎◌, inl, inr, String,
  List, [], ◌∷◌, All, length, eqb, Bool-cases, arith, if◌then◌else◌,
}
use go_microservices_chat.Go.Base64.{
  encode_to_string, decode_string, decode_string-encode_to_string,
}
use go_microservices_chat.Go.Exec.{ok}

-- a conversion `byte(n)`
abbrev byte : ℕ → ℕ
byte n = n % 256

-- the loop of `encodeExponent`
unfoldable pub strip : List ℕ → List ℕ
strip [] = []
strip (b ∷ []) = b ∷ []
strip (b ∷ c ∷ l) = let rest = strip (c ∷ l) in if eqb b 0 then rest else b ∷ c ∷ l

unfoldable pub encode_exponent : ℕ → List ℕ
unfolding strip
encode_exponent e = strip (byte (e / 2 ^ 24) ∷ byte (e / 2 ^ 16) ∷ byte (e / 2 ^ 8) ∷ byte e ∷ [])

-- `rsa.PublicKey`, with the bytes of its modulus
pub record PublicKey : Type 0 where
  pub modulus : List ℕ
  pub e : ℕ

pub record JwksHandler : Type 0 where
  pub public_key : PublicKey
  pub key_id : String

-- one key of the document
pub record Jwk : Type 0 where
  pub kty : String
  pub kid : String
  pub alg : String
  pub use' : String
  pub n : String
  pub e : String

pub record Answer : Type 0 where
  pub keys : List Jwk
  pub headers : List (String × String)

abbrev base64url : List ℕ → String
base64url b = encode_to_string b

unfoldable pub serve_jwks : JwksHandler → Answer
unfolding encode_exponent
serve_jwks h = record {
  keys =
      record {
        kty = "RSA";
        kid = h.key_id;
        alg = "RS256";
        use' = "sig";
        n = base64url h.public_key.modulus;
        e = base64url (encode_exponent h.public_key.e);
      }
      ∷ [];
  headers = ("Content-Type", "application/json") ∷ ("Cache-Control", "public, max-age=300") ∷ [];
}

-- the number that the bytes stand for, most significant first
unfoldable pub number_of : ℕ → List ℕ → ℕ
number_of acc [] = acc
number_of acc (b ∷ l) = number_of (acc * 256 + b) l

-- without a zero byte in front of others
abbrev pub Minimal : List ℕ → Type 0
Minimal l = (length l ≡ 1) ⊎ ((b : ℕ) × (rest : List ℕ) × (l ≡ b ∷ rest) × (b ≢ 0))

-- what `strip` keeps: the number, the bytes, and a shortest form
strip_lem :
    (b : ℕ) (l : List ℕ)
    → All (λ c. c < 256) (b ∷ l)
    → (number_of 0 (strip (b ∷ l)) ≡ number_of 0 (b ∷ l))
      × All (λ c. c < 256) (strip (b ∷ l))
      × Minimal (strip (b ∷ l))
      × (length (strip (b ∷ l)) ≤ length (b ∷ l))
unfolding strip number_of
strip_lem b [] all = (refl, all, inl refl, omega arith)
strip_lem b (c ∷ l) all = elim (Bool-cases (eqb b 0)) [
  | inl e ↦
      let zero' : b ≡ 0 = ground arith in
      let (n, bytes, minimal, short) = strip_lem c l all.1 in
      rw (e, strip) (n ∙ ap (λ x. number_of x l) (omega arith), bytes, minimal, omega arith)
  | inr e ↦ rw (e, strip) (refl, all, inr (b, c ∷ l, refl, ground arith), omega arith)
]

-- the bytes of an exponent below 2^32 stand for it, most significant first, are one to four bytes, and
-- do not begin with a zero byte that could be left out.
encode_exponent_lem :
    (e : ℕ)
    → e < 2 ^ 32
    → (number_of 0 (encode_exponent e) ≡ e)
      × All (λ b. b < 256) (encode_exponent e)
      × Minimal (encode_exponent e)
      × (length (encode_exponent e) ≤ 4)
unfolding encode_exponent number_of
encode_exponent_lem e h =
    let (n, bytes, minimal, short) =
      strip_lem (byte (e / 2 ^ 24)) (byte (e / 2 ^ 16) ∷ byte (e / 2 ^ 8) ∷ byte e ∷ [])
        (omega arith, (omega arith, (omega arith, (omega arith, tt)))) in
    (n ∙ omega arith, bytes, minimal, short)

-- Whoever decodes the answer gets the key back: it lists one key, for the handler's key id and RS256,
-- whose `n` decodes to the bytes of the modulus, and whose `e` decodes to one to four bytes that stand
-- for the exponent and do not begin with a zero byte that could be left out. The hypotheses: the
-- exponent is below 2^32, and the bytes of the modulus are bytes.
pub serve_jwks_lem :
    (h : JwksHandler)
    → h.public_key.e < 2 ^ 32
    → All (λ b. b < 256) h.public_key.modulus
    → (key : Jwk) × ((serve_jwks h).keys ≡ key ∷ [])
      × (key.kid ≡ h.key_id)
      × (key.alg ≡ "RS256")
      × (decode_string key.n ≡ ok h.public_key.modulus)
      × ((b : List ℕ) × (decode_string key.e ≡ ok b)
          × (number_of 0 b ≡ h.public_key.e)
          × Minimal b
          × (length b ≤ 4))
unfolding serve_jwks
serve_jwks_lem h small all =
    let (number, bytes, minimal, short) = encode_exponent_lem h.public_key.e small in
    (
      _,
      refl,
      refl,
      refl,
      decode_string-encode_to_string h.public_key.modulus all,
      (
        encode_exponent h.public_key.e,
        decode_string-encode_to_string (encode_exponent h.public_key.e) bytes,
        number,
        minimal,
        short,
      ),
    )
