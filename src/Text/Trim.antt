-- ===== src/Text/Trim.antt =====
-- Texts that are trimmed after they were put together.
use Prim.Native.Char.{Char}
use Prim.Native.String.{◌++◌, count}
use Prim.Native.String.append
use Prim.Native.String.count
use ifascada.Prelude.{
  ◌≡◌, refl, ap, ◌∙◌, ◌≢◌, String, Bool, false, same, same_iff, inl, inr, arith, Bool-cases,
}
use ifascada.Text.{trim_start, trim_end, trim}

-- A text with a character is not empty.
cons-≢ : (c : Char) (s : String) → String.◌∷◌ c s ≢ ""
cons-≢ c s e = absurd (ground (arith, count.cons c s, count.nil, ap count e))

pub same-cons : (c : Char) (s : String) → same (String.◌∷◌ c s) "" ≡ false
same-cons c s = elim (Bool-cases (same (String.◌∷◌ c s) "")) [
  | inl e ↦ absurd (cons-≢ c s ((same_iff (String.◌∷◌ c s) "").0 e))
  | inr e ↦ e
]

pub same-append : (c : Char) (p s : String) → same (p ++ String.◌∷◌ c s) "" ≡ false
same-append c String.[] s = rw (append.nil (String.◌∷◌ c s)) (same-cons c s)
same-append c (String.◌∷◌ d p) s =
    rw (append.cons d p (String.◌∷◌ c s)) (same-cons d (p ++ String.◌∷◌ c s))

module _ (is_whitespace : Char → Bool) where
  -- Nothing is cut off before the last character that is not white space.
  trim_end-append :
      (c : Char) (p s : String)
      → is_whitespace c ≡ false
      → trim_end is_whitespace (p ++ String.◌∷◌ c s) ≡ p ++ String.◌∷◌ c (trim_end is_whitespace s)
  unfolding trim_end
  trim_end-append c String.[] s h =
      rw (append.nil (String.◌∷◌ c s), append.nil (String.◌∷◌ c (trim_end is_whitespace s)))
        (ground (arith, h))
  trim_end-append c (String.◌∷◌ d p) s h =
      rw
        (
          append.cons d p (String.◌∷◌ c s),
          append.cons d p (String.◌∷◌ c (trim_end is_whitespace s)),
          trim_end,
          trim_end-append c p s h,
          same-append c p (trim_end is_whitespace s),
        )
        refl

  -- What is left of a text in front of a character that is not white space.
  pub record Trimmed (p t s : String) : Type 0 where
    pub cut : String
    pub kept : String
    pub splits : cut ++ kept ≡ p
    pub left : t ≡ kept ++ s

  trim_start-append :
      (c : Char) (p s : String)
      → is_whitespace c ≡ false
      → Trimmed p (trim_start is_whitespace (p ++ String.◌∷◌ c s)) (String.◌∷◌ c s)
  unfolding trim_start
  trim_start-append c String.[] s h = record {
    cut = "";
    kept = "";
    splits = append.nil "";
    left = rw (append.nil (String.◌∷◌ c s), trim_start, h) refl;
  }
  trim_start-append c (String.◌∷◌ d p) s h = elim (Bool-cases (is_whitespace d)) [
    | inl e ↦
        let r = trim_start-append c p s h in
        record {
          cut = String.◌∷◌ d r.cut;
          kept = r.kept;
          splits = append.cons d r.cut r.kept ∙ ap (λ t. String.◌∷◌ d t) r.splits;
          left = rw (append.cons d p (String.◌∷◌ c s), trim_start, e) r.left;
        }
    | inr e ↦ record {
      cut = "";
      kept = String.◌∷◌ d p;
      splits = append.nil (String.◌∷◌ d p);
      left = rw (append.cons d p (String.◌∷◌ c s), trim_start, e) refl;
    }
  ]

  pub trim-append :
      (c : Char) (p s : String)
      → is_whitespace c ≡ false
      → Trimmed p
          (trim is_whitespace (p ++ String.◌∷◌ c s))
          (String.◌∷◌ c (trim_end is_whitespace s))
  unfolding trim
  trim-append c p s h =
      let r = trim_start-append c p s h in
      record {
        cut = r.cut;
        kept = r.kept;
        splits = r.splits;
        left = ap (trim_end is_whitespace) r.left ∙ trim_end-append c r.kept s h;
      }
