-- ===== src/Go/Base64.antt =====
-- `base64.RawURLEncoding`: the URL-safe alphabet, without padding, and not strict.
mod Tests
use Prim.Native.Char.{Char, code}
use Prim.Native.String.{char_at, ◌++◌ as append}
use go_microservices_chat.Prelude.{
  ℕ, zero, suc, ◌+◌, ◌-◌, ◌*◌, ◌/◌, ◌%◌, ◌<◌, ◌≡◌, ◌≢◌, refl, ap, ◌∙◌, String, Bool, ◌||◌, ◌&&◌,
  true, false, Bool-cases, inl, inr, Option, none, some, List, [], ◌∷◌, ◌++◌, All, eqb, leb, ltb,
  if◌then◌else◌, arith,
}
use mathlib.Core.Option.{map}
use go_microservices_chat.Go.Exec.{Result, ok, err, panic, convert}
use go_microservices_chat.Go.Strings.{bytes, bytes_ascii}

abbrev alphabet : String
alphabet = "ABCDEFGHIJKLMNOPQRSTUVWXYZabcdefghijklmnopqrstuvwxyz0123456789-_"

digit : ℕ → Char
digit n = char_at alphabet n

position : ℕ → String → Option ℕ
position b String.[] = none
position b (String.◌∷◌ c s) =
    let rest = position b s in if eqb (code c) b then some 0 else map suc rest

-- `EncodeToString`
unfoldable pub encode_to_string : List ℕ → String
unfolding digit
encode_to_string [] = ""
encode_to_string (a ∷ []) = String.◌∷◌ (digit (a / 4)) (String.◌∷◌ (digit (a % 4 * 16)) "")
encode_to_string (a ∷ b ∷ []) =
    String.◌∷◌ (digit (a / 4))
      (String.◌∷◌ (digit (a % 4 * 16 + b / 16)) (String.◌∷◌ (digit (b % 16 * 4)) ""))
encode_to_string (a ∷ b ∷ c ∷ l) = String.◌∷◌ (digit (a / 4)) (
    String.◌∷◌ (digit (a % 4 * 16 + b / 16))
      (String.◌∷◌ (digit (b % 16 * 4 + c / 64)) (String.◌∷◌ (digit (c % 64)) (encode_to_string l))))

-- the bytes of two to four values of six bits
abbrev quantum : List ℕ → List ℕ
quantum [] = []
quantum (x ∷ []) = []
quantum (x ∷ y ∷ []) = (x * 4 + y / 16) ∷ []
quantum (x ∷ y ∷ z ∷ []) = (x * 4 + y / 16) ∷ (y % 16 * 16 + z / 4) ∷ []
quantum (x ∷ y ∷ z ∷ w ∷ l) = (x * 4 + y / 16) ∷ (y % 16 * 16 + z / 4) ∷ (z % 4 * 64 + w) ∷ []

abbrev prepend : List ℕ → Result ℕ (List ℕ) → Result ℕ (List ℕ)
prepend l (ok m) = ok (l ++ m)
prepend l (err e) = err e
prepend l panic = panic

-- one more value, behind those that wait for a fourth
abbrev collect : List ℕ → ℕ → (List ℕ → Result ℕ (List ℕ)) → Result ℕ (List ℕ)
collect [] w rest = rest (w ∷ [])
collect (x ∷ []) w rest = rest (x ∷ w ∷ [])
collect (x ∷ y ∷ []) w rest = rest (x ∷ y ∷ w ∷ [])
collect (x ∷ y ∷ z ∷ l) w rest = prepend (quantum (x ∷ y ∷ z ∷ w ∷ [])) (rest [])

-- at the end of the text, one value alone is an error
abbrev finish : List ℕ → ℕ → Result ℕ (List ℕ)
finish (x ∷ []) place = err (place - 1)
finish seen place = ok (quantum seen)

-- line ends are skipped, and the error is the place of a byte that is not in the alphabet
decode : List ℕ → ℕ → List ℕ → Result ℕ (List ℕ)
unfolding position
decode seen place [] = finish seen place
decode seen place (b ∷ l) = elim (position b alphabet) [
  | some v ↦ collect seen v (λ now. decode now (suc place) l)
  | none ↦ if eqb b 10 || eqb b 13 then decode seen (suc place) l else err place
]

-- `CorruptInputError.Error`, with `strconv.FormatInt`: an `int64` has at most nineteen digits
decimal : ℕ → ℕ → String
decimal zero n = ""
decimal (suc k) n =
    let front = decimal k (n / 10) in
    append (if ltb n 10 then "" else front) (String.◌∷◌ (char_at "0123456789" (n % 10)) "")

unfoldable pub corrupt_input : ℕ → String
unfolding decimal
corrupt_input place = append "illegal base64 data at input byte " (decimal 19 place)

-- `DecodeString`
unfoldable pub decode_string : String → Result String (List ℕ)
unfolding decode
decode_string s = convert corrupt_input (decode [] 0 (bytes s))

abbrev is_some_of : ℕ → Option ℕ → Bool
is_some_of n none = false
is_some_of n (some m) = eqb m n

-- what decoding needs to know of a digit
reads_back : ℕ → Bool
unfolding digit position
reads_back n = leb (code (digit n)) 127 && is_some_of n (position (code (digit n)) alphabet)

below : ℕ → (ℕ → Bool) → Bool
below zero test = true
below (suc n) test = test n && below n test

all_digits : below 64 reads_back ≡ true
unfolding below reads_back digit position
all_digits = refl

below_lem : (n : ℕ) (test : ℕ → Bool) (k : ℕ) → below n test ≡ true → k < n → test k ≡ true
unfolding below
below_lem zero test k h less = ground arith
below_lem (suc n) test k h less = elim (Bool-cases (eqb k n)) [
  | inl e ↦ let same : k ≡ n = ground arith in rw same (ground arith)
  | inr e ↦ below_lem n test k (ground arith) (ground arith)
]

is_some_of_lem : (n : ℕ) (o : Option ℕ) → is_some_of n o ≡ true → o ≡ some n
is_some_of_lem n none h = ground arith
is_some_of_lem n (some m) h = ap some (ground arith)

digit_lem :
    (n : ℕ) (s : String)
    → n < 64
    → (position (code (digit n)) alphabet ≡ some n)
      × (bytes (String.◌∷◌ (digit n) s) ≡ code (digit n) ∷ bytes s)
unfolding reads_back
digit_lem n s h =
    let back : reads_back n ≡ true = below_lem 64 reads_back n all_digits h in
    (
      is_some_of_lem n (position (code (digit n)) alphabet) (ground arith),
      bytes_ascii (digit n) s (ground arith),
    )

decode-digit :
    (seen : List ℕ) (place n : ℕ) (s : String)
    → n < 64
    → decode seen place (bytes (String.◌∷◌ (digit n) s))
      ≡ collect seen n (λ now. decode now (suc place) (bytes s))
unfolding decode
decode-digit seen place n s h =
    let (found, front) = digit_lem n s h in rw (front, decode, found) refl

quantum_two :
    (a b : ℕ)
    → a < 256
    → b < 256
    → quantum (a / 4 ∷ (a % 4 * 16 + b / 16) ∷ b % 16 * 4 ∷ []) ≡ a ∷ b ∷ []
quantum_two a b less less' =
    let first : a / 4 * 4 + (a % 4 * 16 + b / 16) / 16 ≡ a = omega arith in
    let second : (a % 4 * 16 + b / 16) % 16 * 16 + b % 16 * 4 / 4 ≡ b = omega arith in
    rw (first, second)

quantum_three :
    (a b c : ℕ)
    → a < 256
    → b < 256
    → c < 256
    → quantum (a / 4 ∷ (a % 4 * 16 + b / 16) ∷ (b % 16 * 4 + c / 64) ∷ c % 64 ∷ []) ≡ a ∷ b ∷ c ∷ []
quantum_three a b c less less' less'' =
    let first : a / 4 * 4 + (a % 4 * 16 + b / 16) / 16 ≡ a = omega arith in
    let second : (a % 4 * 16 + b / 16) % 16 * 16 + (b % 16 * 4 + c / 64) / 4 ≡ b = omega arith in
    let third : (b % 16 * 4 + c / 64) % 4 * 64 + c % 64 ≡ c = omega arith in
    rw (first, second, third)

decode-encode :
    (l : List ℕ) (place : ℕ)
    → All (λ b. b < 256) l
    → decode [] place (bytes (encode_to_string l)) ≡ ok l
unfolding decode encode_to_string bytes
decode-encode [] place all = refl
decode-encode (a ∷ []) place all =
    let less : a < 256 = all.0 in
    let x = a / 4 in
    let y = a % 4 * 16 in
    decode-digit [] place x (String.◌∷◌ (digit y) "") (omega arith)
    ∙ decode-digit (x ∷ []) (suc place) y "" (omega arith)
    ∙ ap (λ n. ok (n ∷ [])) (omega arith)
decode-encode (a ∷ b ∷ []) place all =
    let less : a < 256 = all.0 in
    let less' : b < 256 = all.1.0 in
    let x = a / 4 in
    let y = a % 4 * 16 + b / 16 in
    let z = b % 16 * 4 in
    decode-digit [] place x (String.◌∷◌ (digit y) (String.◌∷◌ (digit z) "")) (omega arith)
    ∙ decode-digit (x ∷ []) (suc place) y (String.◌∷◌ (digit z) "") (omega arith)
    ∙ decode-digit (x ∷ y ∷ []) (suc (suc place)) z "" (omega arith)
    ∙ ap ok (quantum_two a b less less')
decode-encode (a ∷ b ∷ c ∷ l) place all =
    let less : a < 256 = all.0 in
    let less' : b < 256 = all.1.0 in
    let less'' : c < 256 = all.1.1.0 in
    let x = a / 4 in
    let y = a % 4 * 16 + b / 16 in
    let z = b % 16 * 4 + c / 64 in
    let w = c % 64 in
    let last = String.◌∷◌ (digit w) (encode_to_string l) in
    decode-digit [] place x (String.◌∷◌ (digit y) (String.◌∷◌ (digit z) last)) (omega arith)
    ∙ decode-digit (x ∷ []) (suc place) y (String.◌∷◌ (digit z) last) (omega arith)
    ∙ decode-digit (x ∷ y ∷ []) (suc (suc place)) z last (omega arith)
    ∙ decode-digit (x ∷ y ∷ z ∷ []) (suc (suc (suc place))) w (encode_to_string l) (omega arith)
    ∙ ap (prepend (quantum (x ∷ y ∷ z ∷ w ∷ [])))
        (decode-encode l (suc (suc (suc (suc place)))) all.1.1.1)
    ∙ ap (λ m. ok (m ++ l)) (quantum_three a b c less less' less'')

pub decode_string-encode_to_string :
    (l : List ℕ) → All (λ b. b < 256) l → decode_string (encode_to_string l) ≡ ok l
unfolding decode_string
decode_string-encode_to_string l all = ap (convert corrupt_input) (decode-encode l 0 all)

abbrev has_first : String → Bool
has_first String.[] = false
has_first (String.◌∷◌ c s) = true

not_empty : (s : String) → has_first s ≡ true → s ≢ ""
not_empty s h e = let none_left : has_first s ≡ false = ap has_first e in ground arith

pub encode_to_string_filled : (b : ℕ) (l : List ℕ) → encode_to_string (b ∷ l) ≢ ""
unfolding encode_to_string
encode_to_string_filled b [] = not_empty _ refl
encode_to_string_filled b (c ∷ []) = not_empty _ refl
encode_to_string_filled b (c ∷ d ∷ l) = not_empty _ refl
