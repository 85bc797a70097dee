-- ===== src/Pipeline/Scale/Labels.antt =====
-- What the scale parser of crates/infrastructure/src/pipeline.rs does with the text around a weight.
use Prim.Native.Char.{Char, code}
use Prim.Native.String.{◌++◌}
use Prim.Native.String.append
use ifascada.Prelude.{
  ◌≡◌, refl, ap, sym, subst, ◌∙◌, String, true, false, none, some, ◌==◌, arith, same, if-elim,
}
use ifascada.Float.{Float}
use ifascada.Text.{trim_end}
use ifascada.Text.Trim.{trim-append, same-cons}
use ifascada.Pipeline.Parsers.{TextTools}
use ifascada.Pipeline.Scale.{
  is_start, from_start, remove_char, weight_in, cleaned, normalized, scale_parse,
}

-- A text without a start is dropped.
from_start-suffix : (p q : String) → from_start (p ++ q) ≡ none → from_start q ≡ none
unfolding from_start
from_start-suffix String.[] q e = subst (λ t. from_start t ≡ none) (append.nil q) e
from_start-suffix (String.◌∷◌ c p) q e =
    let h = subst (λ t. from_start t ≡ none) (append.cons c p q) e in
    ground (arith, from_start-suffix p q, h)

is_start-code : (c : Char) → is_start c ≡ true → (code c == 160) ≡ false
unfolding is_start
is_start-code c h = ground (arith, h)

-- The parser of the number sees nothing of a text without a start.
record Skipped (raw t : String) : Type 0 where
  not_empty : same raw "" ≡ false
  rest : from_start raw ≡ some t

remove_char-Skipped :
    (p : String) (c : Char) (s : String)
    → from_start p ≡ none
    → is_start c ≡ true
    → Skipped (remove_char 160 (p ++ String.◌∷◌ c s)) (String.◌∷◌ c (remove_char 160 s))
unfolding from_start remove_char
remove_char-Skipped String.[] c s e h =
    rw (append.nil (String.◌∷◌ c s), remove_char, is_start-code c h)
      (record { not_empty = same-cons c (remove_char 160 s); rest = ground (arith, h) })
remove_char-Skipped (String.◌∷◌ d p) c s e h =
    let r = remove_char-Skipped p c s (ground (arith, e)) h in
    rw (append.cons d p (String.◌∷◌ c s), remove_char)
      (if-elim (λ t. Skipped t (String.◌∷◌ c (remove_char 160 s))) (code d == 160)
        (remove_char 160 (p ++ String.◌∷◌ c s))
        (String.◌∷◌ d (remove_char 160 (p ++ String.◌∷◌ c s))) r
        (record {
          not_empty = same-cons d (remove_char 160 (p ++ String.◌∷◌ c s));
          rest = ground (arith, e, r.rest);
        }))

module _ {F : Type 0} ⦃x : Float F⦄ (tools : TextTools F) where
  scale_parse-Skipped :
      (raw t : String)
      → Skipped (cleaned tools raw) t
      → scale_parse tools raw ≡ weight_in tools (normalized tools t)
  unfolding scale_parse
  scale_parse-Skipped raw t h = rw (h.not_empty, h.rest) refl

  -- Hypothesis on Unicode's table: white space does not begin a number.
  abbrev pub NoStart : Type 0
  NoStart = (c : Char) → is_start c ≡ true → tools.is_whitespace c ≡ false

  scale_parse-start :
      (p : String) (c : Char) (s : String)
      → NoStart
      → from_start p ≡ none
      → is_start c ≡ true
      → scale_parse tools (p ++ String.◌∷◌ c s)
        ≡ weight_in tools
            (normalized tools (String.◌∷◌ c (remove_char 160 (trim_end tools.is_whitespace s))))
  unfolding cleaned
  scale_parse-start p c s ws e h =
      let r = trim-append tools.is_whitespace c p s (ws c h) in
      scale_parse-Skipped (p ++ String.◌∷◌ c s)
        (String.◌∷◌ c (remove_char 160 (trim_end tools.is_whitespace s)))
        (subst
          (λ t.
            Skipped (remove_char 160 t)
              (String.◌∷◌ c (remove_char 160 (trim_end tools.is_whitespace s))))
          (sym r.left)
          (remove_char-Skipped r.kept c (trim_end tools.is_whitespace s)
            (from_start-suffix r.cut r.kept (ap from_start r.splits ∙ e)) h))

  -- A label in front of a weight makes no difference to what the scale parser returns, errors included, if no character of the label can begin a number, and if white space cannot begin a number: "ST,GS,+ 12.50 kg" is read like "+ 12.50 kg".
  pub scale_parse-label :
      (p : String) (c : Char) (s : String)
      → NoStart
      → from_start p ≡ none
      → is_start c ≡ true
      → scale_parse tools (p ++ String.◌∷◌ c s) ≡ scale_parse tools (String.◌∷◌ c s)
  unfolding from_start
  scale_parse-label p c s ws e h =
      scale_parse-start p c s ws e h
      ∙ sym (scale_parse-start "" c s ws refl h)
      ∙ ap (scale_parse tools) (append.nil (String.◌∷◌ c s))
