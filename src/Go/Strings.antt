-- ===== src/Go/Strings.antt =====
-- The functions of `strings`, `encoding/hex` and the conversion `[]byte(s)` that the services call.
-- Go's strings of valid UTF-8 are the texts `String`.
use Prim.Native.Nat.{ℕ, ◌+◌, ◌/◌, ◌%◌}
use Prim.Native.Char.{Char, code}
use Prim.Native.String.{String, ◌++◌ as append}
use Prim.Native.String.append.{nil, cons}
use mathlib.Core.Option.{get_or}
use go_microservices_chat.Prelude.{
  ◌≡◌, ◌≤◌, ap, Option, none, some, arith, Bool, true, false, ◌||◌, ◌&&◌, List, [], ◌∷◌, ◌++◌, ltb,
  leb, eqb, if◌then◌else◌, get_elem?, ◌==◌,
}

-- `unicode.IsSpace`
pub is_space : ℕ → Bool
is_space c =
    (leb 9 c && leb c 13)
    || eqb c 32
    || eqb c 0x85
    || eqb c 0xa0
    || eqb c 0x1680
    || (leb 0x2000 c && leb c 0x200a)
    || eqb c 0x2028
    || eqb c 0x2029
    || eqb c 0x202f
    || eqb c 0x205f
    || eqb c 0x3000

trim_left : String → String
unfolding is_space
trim_left String.[] = String.[]
trim_left (String.◌∷◌ c s) =
    let rest = trim_left s in if is_space (code c) then rest else String.◌∷◌ c s

trim_right : String → String
unfolding is_space
trim_right String.[] = String.[]
trim_right (String.◌∷◌ c s) =
    let rest = trim_right s in if rest == "" && is_space (code c) then "" else String.◌∷◌ c rest

-- `strings.TrimSpace`
unfoldable pub trim_space : String → String
unfolding trim_left trim_right
trim_space s = trim_right (trim_left s)

-- `strings.ToLower`, over `unicode.ToLower`
unfoldable pub to_lower : (Char → Char) → String → String
to_lower lower String.[] = String.[]
to_lower lower (String.◌∷◌ c s) = String.◌∷◌ (lower c) (to_lower lower s)

starts : String → String → Bool
starts String.[] t = true
starts (String.◌∷◌ c s) String.[] = false
starts (String.◌∷◌ c s) (String.◌∷◌ d t) = eqb (code c) (code d) && starts s t

-- `strings.Contains(t, s)`, with the part first
unfoldable pub contained : String → String → Bool
unfolding starts
contained s String.[] = starts s ""
contained s (String.◌∷◌ d t) = starts s (String.◌∷◌ d t) || contained s t

-- `a < b` on strings: the order of UTF-8 is that of the code points
unfoldable pub str_ltb : String → String → Bool
str_ltb s String.[] = false
str_ltb String.[] (String.◌∷◌ d t) = true
str_ltb (String.◌∷◌ c s) (String.◌∷◌ d t) =
    let rest = str_ltb s t in
    if ltb (code c) (code d) then true else if ltb (code d) (code c) then false else rest

-- the UTF-8 of a code point
utf8 : ℕ → List ℕ
utf8 c =
    if ltb c 0x80
    then c ∷ []
    else if ltb c 0x800
    then (0xc0 + c / 64) ∷ (0x80 + c % 64) ∷ []
    else if ltb c 0x10000
    then (0xe0 + c / 4096) ∷ (0x80 + c / 64 % 64) ∷ (0x80 + c % 64) ∷ []
    else (0xf0 + c / 262144) ∷ (0x80 + c / 4096 % 64) ∷ (0x80 + c / 64 % 64) ∷ (0x80 + c % 64) ∷ []

-- `[]byte(s)`
unfoldable pub bytes : String → List ℕ
unfolding utf8
bytes String.[] = []
bytes (String.◌∷◌ c s) = utf8 (code c) ++ bytes s

abbrev hex_digits : List String
hex_digits =
    "0" ∷ "1" ∷ "2" ∷ "3" ∷ "4" ∷ "5" ∷ "6" ∷ "7" ∷ "8" ∷ "9" ∷ "a" ∷ "b" ∷ "c" ∷ "d" ∷ "e" ∷ "f"
    ∷ []

hex_digit : ℕ → String
hex_digit n = get_or (get_elem? hex_digits n) ""

-- `hex.EncodeToString`
unfoldable pub encode_hex : List ℕ → String
unfolding hex_digit
encode_hex [] = ""
encode_hex (b ∷ l) = append (append (hex_digit (b / 16)) (hex_digit (b % 16))) (encode_hex l)

-- the rest of `t` behind `s`, if `t` starts with it
after_prefix : String → String → Option String
after_prefix String.[] t = some t
after_prefix (String.◌∷◌ c s) String.[] = none
after_prefix (String.◌∷◌ c s) (String.◌∷◌ d t) =
    let rest = after_prefix s t in if eqb (code c) (code d) then rest else none

-- `strings.TrimPrefix(t, s)`
unfoldable pub trim_prefix : String → String → String
unfolding after_prefix
trim_prefix t s = get_or (after_prefix s t) t

head_append : (c : Char) (s t : String) → append (String.◌∷◌ c s) t ≡ String.◌∷◌ c (append s t)
head_append c s t = λ i. cons c s t i

after_prefix-append : (s t : String) → after_prefix s (append s t) ≡ some t
unfolding after_prefix
after_prefix-append String.[] t = ap some (λ i. nil t i)
after_prefix-append (String.◌∷◌ c s) t = ground (arith, head_append c s t, after_prefix-append s t)

pub trim_prefix-append : (s t : String) → trim_prefix (append s t) s ≡ t
unfolding trim_prefix
trim_prefix-append s t = rw after_prefix-append

pub bytes_ascii : (c : Char) (s : String) → code c ≤ 127 → bytes (String.◌∷◌ c s) ≡ code c ∷ bytes s
unfolding bytes utf8
bytes_ascii c s h = ground arith
