-- ===== src/Text/Utf8.antt =====
-- UTF-8: `as_bytes` of a text, and `String::from_utf8`, which refuses what is not well formed.
use Prim.Native.Char.{Char, code, char, IsLt}
use Prim.Native.Nat.{compare, Ordering}
use mathlib.Core.Option
use ifascada.Prelude.{
  ℕ, zero, suc, ◌+◌, ◌-◌, ◌*◌, ◌/◌, ◌%◌, ◌<◌, ◌≡◌, refl, String, ◌&&◌, Option, none, some, List, [],
  ◌∷◌, ◌++◌, ap, ◌∙◌, ltb, leb, if◌then◌else◌, arith,
}

-- The UTF-8 of a character and of a text.
unfoldable pub utf8 : Char → List ℕ
utf8 c =
    let n = code c in
    if ltb n 128
    then n ∷ []
    else if ltb n 2048
    then (192 + n / 64) ∷ (128 + n % 64) ∷ []
    else if ltb n 65536
    then (224 + n / 4096) ∷ (128 + n / 64 % 64) ∷ (128 + n % 64) ∷ []
    else (240 + n / 262144) ∷ (128 + n / 4096 % 64) ∷ (128 + n / 64 % 64) ∷ (128 + n % 64) ∷ []

unfoldable pub as_bytes : String → List ℕ
as_bytes String.[] = []
as_bytes (String.◌∷◌ c s) = utf8 c ++ as_bytes s

-- `IsScalar n` unfolds to this at three comparisons.
abbrev ScalarType : Ordering → Ordering → Ordering → Type 0
ScalarType Ordering.lt _ _ = Unit
ScalarType _ Ordering.lt o = IsLt o
ScalarType _ _ _ = ⊥

scalar_when : (o p q : Ordering) → Option (ScalarType o p q)
scalar_when Ordering.lt p q = some tt
scalar_when Ordering.eq Ordering.lt Ordering.lt = some tt
scalar_when Ordering.gt Ordering.lt Ordering.lt = some tt
scalar_when _ _ _ = none

-- `char::from_u32`.
char_of : ℕ → Option Char
unfolding scalar_when
char_of n =
    Option.map (char n) (scalar_when (compare n 55296) (compare 57343 n) (compare n 1114112))

-- What a byte brings: a character that waits for more bytes, a whole one, or bytes that are not UTF-8.
data Progress : Type 0 where
  waiting : (bytes number lowest : ℕ) → Progress
  whole : Char → Progress
  malformed : Progress

from_number : ℕ → Progress
from_number n = elim (char_of n) [ some c ↦ whole c | none ↦ malformed ]

-- The first byte of a character says how many follow, and below which number a shorter form is due.
lead : ℕ → Progress
unfolding from_number
lead b =
    if ltb b 128
    then from_number b
    else if ltb b 194
    then malformed
    else if ltb b 224
    then waiting 1 (b - 192) 128
    else if ltb b 240
    then waiting 2 (b - 224) 2048
    else if ltb b 245
    then waiting 3 (b - 240) 65536
    else malformed

continue : ℕ → ℕ → ℕ → Progress
unfolding from_number
continue zero number lowest = if ltb number lowest then malformed else from_number number
continue (suc bytes) number lowest = waiting (suc bytes) number lowest

read_byte : (bytes number lowest b : ℕ) → Progress
unfolding lead continue
read_byte zero number lowest b = lead b
read_byte (suc bytes) number lowest b =
    if leb 128 b && ltb b 192 then continue bytes (number * 64 + (b - 128)) lowest else malformed

read_bytes : (bytes number lowest : ℕ) → List ℕ → Option String
unfolding read_byte
read_bytes zero number lowest [] = some ""
read_bytes (suc bytes) number lowest [] = none
read_bytes bytes number lowest (b ∷ bs) = elim (read_byte bytes number lowest b) [
  | waiting more n least ↦ read_bytes more n least bs
  | whole c ↦ Option.map (String.◌∷◌ c) (read_bytes 0 0 0 bs)
  | malformed ↦ none
]

pub from_utf8 : List ℕ → Option String
unfolding read_bytes
from_utf8 bs = read_bytes 0 0 0 bs

scalar_when-lem : (o p q : Ordering) (h : ScalarType o p q) → scalar_when o p q ≡ some h
unfolding scalar_when
scalar_when-lem Ordering.lt p q h = refl
scalar_when-lem Ordering.eq Ordering.lt Ordering.lt h = refl
scalar_when-lem Ordering.gt Ordering.lt Ordering.lt h = refl
scalar_when-lem Ordering.eq Ordering.lt Ordering.eq h = absurd h
scalar_when-lem Ordering.eq Ordering.lt Ordering.gt h = absurd h
scalar_when-lem Ordering.gt Ordering.lt Ordering.eq h = absurd h
scalar_when-lem Ordering.gt Ordering.lt Ordering.gt h = absurd h
scalar_when-lem Ordering.eq Ordering.eq q h = absurd h
scalar_when-lem Ordering.eq Ordering.gt q h = absurd h
scalar_when-lem Ordering.gt Ordering.eq q h = absurd h
scalar_when-lem Ordering.gt Ordering.gt q h = absurd h

char_of-code : (c : Char) → char_of (code c) ≡ some c
unfolding char_of
char_of-code (char n h) =
    ap (Option.map (char n))
      (scalar_when-lem (compare n 55296) (compare 57343 n) (compare n 1114112) h)

from_number-code : (c : Char) → from_number (code c) ≡ whole c
unfolding from_number
from_number-code c = rw (char_of-code c, from_number) refl

ScalarType-lt :
    (n : ℕ) (o p q : Ordering)
    → compare n 55296 ≡ o
    → compare n 1114112 ≡ q
    → ScalarType o p q
    → n < 1114112
ScalarType-lt n Ordering.lt p q e g h = ground arith
ScalarType-lt n Ordering.eq Ordering.lt Ordering.lt e g h = ground arith
ScalarType-lt n Ordering.gt Ordering.lt Ordering.lt e g h = ground arith
ScalarType-lt n Ordering.eq Ordering.lt Ordering.eq e g h = absurd h
ScalarType-lt n Ordering.eq Ordering.lt Ordering.gt e g h = absurd h
ScalarType-lt n Ordering.gt Ordering.lt Ordering.eq e g h = absurd h
ScalarType-lt n Ordering.gt Ordering.lt Ordering.gt e g h = absurd h
ScalarType-lt n Ordering.eq Ordering.eq q e g h = absurd h
ScalarType-lt n Ordering.eq Ordering.gt q e g h = absurd h
ScalarType-lt n Ordering.gt Ordering.eq q e g h = absurd h
ScalarType-lt n Ordering.gt Ordering.gt q e g h = absurd h

code-lt : (c : Char) → code c < 1114112
code-lt (char n h) =
    ScalarType-lt n (compare n 55296) (compare 57343 n) (compare n 1114112) refl refl h

-- The bytes of a character, read from the start, give the character, and reading goes on behind them.
read_bytes-utf8 :
    (c : Char) (bs : List ℕ)
    → read_bytes 0 0 0 (utf8 c ++ bs) ≡ Option.map (String.◌∷◌ c) (read_bytes 0 0 0 bs)
unfolding utf8 read_bytes read_byte lead continue
read_bytes-utf8 c bs = ground (arith, from_number-code c, code-lt c)

-- Well-formed bytes give back their text.
pub from_utf8-as_bytes : (s : String) → from_utf8 (as_bytes s) ≡ some s
unfolding from_utf8 as_bytes
from_utf8-as_bytes String.[] = refl
from_utf8-as_bytes (String.◌∷◌ c s) =
    read_bytes-utf8 c (as_bytes s) ∙ ap (Option.map (String.◌∷◌ c)) (from_utf8-as_bytes s)
