-- ===== src/Messaging/Publisher/Rows.antt =====
-- The rows of the buffer: crates/infrastructure/src/database/sqlite_buffer.rs.
use ifascada.Prelude.{
  ℕ, ◌≡◌, ◌≢◌, sym, ap, ◌∙◌, subst, inl, inr, true, List, [], ◌∷◌, ◌++◌, In, In-append, arith, ◌==◌,
  if◌then◌else◌, Bool-cases,
}
use ifascada.Messaging.Publisher.{Message, Row, delete}

pub eq_of_test : (m n : ℕ) → (m == n) ≡ true → m ≡ n
eq_of_test m n h = ground arith

test_self : (n : ℕ) → (n == n) ≡ true
test_self n = ground arith

pub In-delete : (r : Row) (id : ℕ) (rows : List Row) → In r rows → r.id ≢ id → In r (delete id rows)
unfolding delete
In-delete r id [] h ne = absurd h
In-delete r id (q ∷ rows) h ne = elim (Bool-cases (q.id == id)) [
  | inl t ↦ rw t (elim h [
    | inl e ↦ absurd (ne (ap (λ x. x.id) e ∙ eq_of_test q.id id t))
    | inr g ↦ In-delete r id rows g ne
  ])
  | inr f ↦ rw f (elim h [ inl e ↦ inl e | inr g ↦ inr (In-delete r id rows g ne) ])
]

pub delete-In : (r : Row) (id : ℕ) (rows : List Row) → In r (delete id rows) → In r rows
unfolding delete
delete-In r id [] h = absurd h
delete-In r id (q ∷ rows) h = elim (Bool-cases (q.id == id)) [
  | inl t ↦ inr (
      delete-In r id rows
        (subst (λ b. In r (if b then delete id rows else q ∷ delete id rows)) t h))
  | inr f ↦ elim (subst (λ b. In r (if b then delete id rows else q ∷ delete id rows)) f h) [
    | inl e ↦ inl e
    | inr g ↦ inr (delete-In r id rows g)
  ]
]

abbrev pub message : Row → Message
message r = (r.topic, r.payload)

-- No two rows of a list have one id, and no row of a list has the id.
abbrev pub DistinctIds : List Row → Type 0
DistinctIds [] = Unit
DistinctIds (r ∷ rows) = ((q : Row) → In q rows → q.id ≢ r.id) × DistinctIds rows

pub append_unique :
    (row : Row) (rows : List Row)
    → ((q : Row) → In q rows → q.id ≢ row.id)
    → ((r q : Row) → In r rows → In q rows → r.id ≡ q.id → r ≡ q)
    → (r q : Row) → In r (rows ++ row ∷ [])
    → In q (rows ++ row ∷ [])
    → r.id ≡ q.id
    → r ≡ q
append_unique row rows fresh unique r q hr hq e = elim (In-append r rows (row ∷ []) hr) [
  | inl a ↦ elim (In-append q rows (row ∷ []) hq) [
    | inl b ↦ unique r q a b e
    | inr b ↦ elim b [ inl g ↦ absurd (fresh r a (e ∙ ap (λ x. x.id) g)) | inr n ↦ absurd n ]
  ]
  | inr a ↦ elim a [
    | inl g ↦ elim (In-append q rows (row ∷ []) hq) [
      | inl b ↦ absurd (fresh q b (sym e ∙ ap (λ x. x.id) g))
      | inr b ↦ elim b [ inl g' ↦ g ∙ sym g' | inr n ↦ absurd n ]
    ]
    | inr n ↦ absurd n
  ]
]
