-- ===== src/Text.antt =====
-- The parts of the standard library for text that the sources use.
pub mod Utf8
pub mod Prefix
pub mod Trim
use Prim.Native.Char.{Char, code}
use Prim.Native.String.{◌++◌ as add_text, char_at, count}
use Prim.Native.String
use Prim.Native.String.count
use ifascada.Prelude.{
  Option, none, some, is_some, ◌+◌, ◌≡◌, refl, inl, inr, Option-cases, ◌≢◌, ◌≤◌, ◌<◌, arith, ℕ,
  zero, suc, ◌-◌, ◌/◌, ◌%◌, String, Bool, ltb, List, [], ◌∷◌, get_elem?, unwrap_or, ◌==◌, same,
  if◌then◌else◌, ◌&&◌,
}

-- The decimal digits of a number, the last one first.
next_digits : List ℕ → List ℕ
next_digits [] = 1 ∷ []
next_digits (d ∷ ds) = let carried = next_digits ds in if d == 9 then 0 ∷ carried else suc d ∷ ds

digits : ℕ → List ℕ
unfolding next_digits
digits zero = 0 ∷ []
digits (suc n) = next_digits (digits n)

abbrev digit : ℕ → String
digit d =
    unwrap_or (get_elem? ("0" ∷ "1" ∷ "2" ∷ "3" ∷ "4" ∷ "5" ∷ "6" ∷ "7" ∷ "8" ∷ "9" ∷ []) d) ""

print_digits : List ℕ → String → String
print_digits [] s = s
print_digits (d ∷ ds) s = print_digits ds (add_text (digit d) s)

unfoldable pub decimal : ℕ → String
unfolding digits print_digits
decimal n = print_digits (digits n) ""

-- `trim`; `is_whitespace` is Unicode's table.
module _ (is_whitespace : Char → Bool) where
  pub trim_start : String → String
  trim_start String.[] = ""
  trim_start (String.◌∷◌ c s) =
      let rest = trim_start s in if is_whitespace c then rest else String.◌∷◌ c s

  pub trim_end : String → String
  trim_end String.[] = ""
  trim_end (String.◌∷◌ c s) =
      let rest = trim_end s in if same rest "" && is_whitespace c then "" else String.◌∷◌ c rest

  unfoldable pub trim : String → String
  unfolding trim_start trim_end
  trim s = trim_end (trim_start s)

-- `strip_prefix` and `starts_with`.
unfoldable pub strip_prefix : String → String → Option String
strip_prefix String.[] s = some s
strip_prefix (String.◌∷◌ c p) String.[] = none
strip_prefix (String.◌∷◌ c p) (String.◌∷◌ d s) =
    let rest = strip_prefix p s in if code c == code d then rest else none

unfoldable pub starts_with : String → String → Bool
starts_with s p = is_some (strip_prefix p s)

-- The prefix is taken away at most so many times.
pub strip_times : ℕ → String → String → String
strip_times zero p s = s
strip_times (suc n) p s = elim (strip_prefix p s) [ none ↦ s | some t ↦ strip_times n p t ]

-- `trim_start_matches`: the prefix is taken away as long as the text begins with it.
unfoldable pub trim_start_matches : String → String → String
unfolding strip_times
trim_start_matches s p = strip_times (suc (count s)) p s

-- `{:02X}` of a byte.
abbrev hex_digit : ℕ → Char
hex_digit d = if ltb d 10 then char_at "0123456789" d else char_at "ABCDEF" (d - 10)

unfoldable pub hex : ℕ → String
hex b = String.◌∷◌ (hex_digit (b / 16)) (String.◌∷◌ (hex_digit (b % 16)) "")

-- The bytes in hexadecimal, joined by spaces.
unfoldable pub hex_string : List ℕ → String
unfolding hex
hex_string [] = ""
hex_string (b ∷ []) = hex b
hex_string (b ∷ c ∷ bs) = add_text (hex b) (add_text " " (hex_string (c ∷ bs)))

-- The fuel: a character for each prefix that is taken away.
strip_prefix-count : (p s t : String) → strip_prefix p s ≡ some t → count t + count p ≡ count s
unfolding strip_prefix
strip_prefix-count String.[] s t e = ground (arith, count.nil, e)
strip_prefix-count (String.◌∷◌ c p) String.[] t e = absurd (ground arith)
strip_prefix-count (String.◌∷◌ c p) (String.◌∷◌ d s) t e =
    ground (arith, count.cons c p, count.cons d s, strip_prefix-count p s t, e)

strip_times-none :
    (n : ℕ) (c : Char) (p s : String)
    → count s < n
    → strip_prefix (String.◌∷◌ c p) (strip_times n (String.◌∷◌ c p) s) ≡ none
unfolding strip_times
strip_times-none zero c p s h = absurd (omega (arith, h))
strip_times-none (suc n) c p s h = elim (Option-cases (strip_prefix (String.◌∷◌ c p) s)) [
  | inl e ↦ rw (e, strip_times) e
  | inr (t, e) ↦
      rw (e, strip_times)
        (strip_times-none n c p t
          (omega (arith, h, strip_prefix-count (String.◌∷◌ c p) s t e, count.cons c p)))
]

-- What is left does not begin with the prefix: there was fuel for all of them.
pub trim_start_matches-none :
    (s p : String) → p ≢ "" → strip_prefix p (trim_start_matches s p) ≡ none
unfolding trim_start_matches
trim_start_matches-none s String.[] h = absurd (h refl)
trim_start_matches-none s (String.◌∷◌ c p) h = strip_times-none (suc (count s)) c p s (omega arith)
