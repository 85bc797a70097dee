-- ===== src/Text/Prefix.antt =====
-- Prefixes of texts that were put together.
use Prim.Native.Char.{code}
use Prim.Native.String.{◌++◌, count}
use Prim.Native.String.append
use ifascada.Prelude.{
  ℕ, zero, suc, ◌≡◌, refl, ap, String, Bool, true, false, none, some, ◌==◌, arith, is_some,
  if◌then◌else◌,
}
use ifascada.Text.{strip_prefix, starts_with, strip_times, trim_start_matches}

pub strip_prefix-append : (p s : String) → strip_prefix p (p ++ s) ≡ some s
unfolding strip_prefix
strip_prefix-append String.[] s = ground (arith, append.nil s)
strip_prefix-append (String.◌∷◌ c p) s =
    rw (append.cons c p s) (ground (arith, strip_prefix-append p s))

-- The texts have different characters at one place.
abbrev pub differ : String → String → Bool
differ (String.◌∷◌ c p) (String.◌∷◌ d q) =
    let rest = differ p q in if code c == code d then rest else true
differ _ _ = false

strip_prefix-differ : (p q s : String) → differ p q ≡ true → strip_prefix p (q ++ s) ≡ none
unfolding strip_prefix
strip_prefix-differ String.[] q s h = absurd (ground arith)
strip_prefix-differ (String.◌∷◌ c p) String.[] s h = absurd (ground arith)
strip_prefix-differ (String.◌∷◌ c p) (String.◌∷◌ d q) s h =
    rw (append.cons d q s) (ground (arith, strip_prefix-differ p q s, h))

pub starts_with-append : (p s : String) → starts_with (p ++ s) p ≡ true
unfolding starts_with
starts_with-append p s = ap is_some (strip_prefix-append p s)

pub starts_with-differ : (p q s : String) → differ p q ≡ true → starts_with (q ++ s) p ≡ false
unfolding starts_with
starts_with-differ p q s h = ap is_some (strip_prefix-differ p q s h)

strip_times-none : (n : ℕ) (p s : String) → strip_prefix p s ≡ none → strip_times n p s ≡ s
unfolding strip_times
strip_times-none zero p s e = refl
strip_times-none (suc n) p s e = rw (e, strip_times) refl

-- One prefix is taken away, if what is behind it does not begin with another.
pub trim_start_matches-append :
    (p s : String) → strip_prefix p s ≡ none → trim_start_matches (p ++ s) p ≡ s
unfolding trim_start_matches strip_times
trim_start_matches-append p s e =
    rw (trim_start_matches, strip_prefix-append p s, strip_times)
      (strip_times-none (count (p ++ s)) p s e)
