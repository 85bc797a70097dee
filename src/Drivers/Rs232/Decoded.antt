-- ===== src/Drivers/Rs232/Decoded.antt =====
-- What the drivers of crates/infrastructure/src/drivers/rs232.rs make of the bytes that arrive.
use Prim.Native.Char.{Char}
use ifascada.Prelude.{
  ℕ, ◌≡◌, refl, ap, ◌∙◌, ◌≢◌, inl, inr, ◌≤◌, length, take, zero, suc, String, Bool, some, none,
  List, [], ◌∷◌, ◌++◌, ok, same, same_iff, arith, Bool-cases,
}
use ifascada.Text.{trim}
use ifascada.Text.Utf8.{as_bytes, from_utf8, from_utf8-as_bytes}
use ifascada.Json.{Value, Serde, null, bool, number, string, array, object}
use ifascada.Drivers.Rs232.{
  SerialStream, Rs232Connection, bytes, Writing, parsed, decoded, received, taken, finish_read,
  read_value, text_of, data_of, transmit, write_value,
}

take-all : {A : Type 0} (n : ℕ) (xs : List A) → length xs ≤ n → take n xs ≡ xs
take-all zero [] h = refl
take-all (suc n) [] h = refl
take-all zero (x ∷ xs) h = absurd (omega (arith, h))
take-all (suc n) (x ∷ xs) h = ap (λ l. x ∷ l) (take-all n xs (omega (arith, h)))

module _ {F : Type 0} ⦃serde : Serde F⦄ (ws : Char → Bool) where
  -- What serde_json makes of the text of a value: a text is not JSON, and any other value is parsed as it was printed.
  abbrev pub Printed : Value F → Type 0
  Printed (string s) = serde.from_str s ≡ none
  Printed v = serde.from_str (serde.to_string v) ≡ some v

  -- A value that can be told from its text, which stands without white space around it and fits into one read.
  pub record IsPlain (v : Value F) : Type 0 where
    pub printed : Printed v
    pub trimmed : trim ws (text_of v) ≡ text_of v
    pub not_empty : text_of v ≢ ""
    pub fits : length (data_of v) ≤ 1024

  parsed-text_of : (v : Value F) → Printed v → parsed ws (text_of v) ≡ v
  unfolding parsed text_of
  parsed-text_of (string s) h = rw (h, parsed) refl
  parsed-text_of null h = rw (h, parsed) refl
  parsed-text_of (bool b) h = rw (h, parsed) refl
  parsed-text_of (number n) h = rw (h, parsed) refl
  parsed-text_of (array vs) h = rw (h, parsed) refl
  parsed-text_of (object m) h = rw (h, parsed) refl

  decoded-text :
      (bs : List ℕ) (s : String)
      → trim ws s ≡ s
      → s ≢ ""
      → decoded {F = F} ws bs (some s) ≡ some (parsed ws s)
  unfolding decoded
  decoded-text bs s e ne = elim (Bool-cases (same s "")) [
    | inl g ↦ absurd (ne ((same_iff s "").0 g))
    | inr g ↦ rw (e, g) refl
  ]

  -- The bytes of a text, in UTF-8, are parsed.
  received-text :
      (bs : List ℕ) (s : String)
      → from_utf8 bs ≡ some s
      → trim ws s ≡ s
      → s ≢ ""
      → received {F = F} ws bs ≡ some (parsed ws s)
  unfolding received as_bytes
  received-text [] s u e ne = absurd (ne (ground (arith, u, from_utf8-as_bytes "")))
  received-text (b ∷ bs) s u e ne = ap (decoded ws (b ∷ bs)) u ∙ decoded-text (b ∷ bs) s e ne

  taken-data_of : (v : Value F) → IsPlain v → taken {F = F} ws (data_of v) ≡ some v
  unfolding taken data_of
  taken-data_of v h =
      ap (received ws) (take-all 1024 (data_of v) h.fits)
      ∙ received-text (data_of v) (text_of v) (from_utf8-as_bytes (text_of v)) h.trimmed h.not_empty
      ∙ ap some (parsed-text_of v h.printed)

  -- A value whose text has no white space around it, is not empty and is at most 1024 bytes long is sent as exactly these bytes, if the write and the flush succeed, and a connection at the other end that they reach in one read gives the same value; for a text provided that it is not JSON, for any other value provided that serde_json parses what it printed.
  pub read_value-write_value :
      (w : Writing) (v : Value F) (x y : Rs232Connection) (p q : SerialStream)
      → x.port ≡ some p
      → y.port ≡ some q
      → w.write_all ≡ ok tt
      → w.flush ≡ ok tt
      → IsPlain v
      → (write_value w v x
          ≡ (record x { port = some (record { written = p.written ++ data_of v }) }, ok tt))
        × ((read_value ws (bytes (data_of v)) y).1 ≡ ok (some v))
  unfolding write_value transmit read_value finish_read
  read_value-write_value w v x y p q xp yq e g h =
      (rw (xp, e, g) refl, rw yq (ap ok (taken-data_of v h)))
