-- ===== src/Cli/Summary/Ordered.antt =====
-- The maps of a summary stay ordered, and count what they are told.
use a2g_cli.Base.{
  ap, sym, ℕ, suc, ◌≡◌, refl, Bool, true, false, [], ◌∷◌, All, arith, Bool-cases, inl, inr,
}
use a2g_cli.Base.Text.{Text, text_eq, text_lt, text_eq→eq}
use a2g_cli.Cli.Summary.Tally.{Counts, count_key, count_of}

text_lt_irrefl : (t : Text) → text_lt t t ≡ false
unfolding text_lt
text_lt_irrefl [] = refl
text_lt_irrefl (x ∷ xs) = ground (arith, text_lt_irrefl xs)

text_lt_trans : (s t u : Text) → text_lt s t ≡ true → text_lt t u ≡ true → text_lt s u ≡ true
unfolding text_lt
text_lt_trans s t [] h k = ground arith
text_lt_trans s [] (z ∷ zs) h k = ground arith
text_lt_trans [] (y ∷ ys) (z ∷ zs) h k = refl
text_lt_trans (x ∷ xs) (y ∷ ys) (z ∷ zs) h k = ground (arith, text_lt_trans xs ys zs)

text_lt_total : (s t : Text) → text_eq s t ≡ false → text_lt s t ≡ false → text_lt t s ≡ true
unfolding text_lt text_eq
text_lt_total [] [] h k = ground arith
text_lt_total [] (y ∷ ys) h k = ground arith
text_lt_total (x ∷ xs) [] h k = refl
text_lt_total (x ∷ xs) (y ∷ ys) h k = ground (arith, text_lt_total xs ys)

text_lt-text_eq : (s t : Text) → text_lt s t ≡ true → text_eq t s ≡ false
text_lt-text_eq s t h = elim (Bool-cases (text_eq t s)) [
  | inr other ↦ other
  | inl same ↦ let e = text_eq→eq t s same in ground (arith, text_lt_irrefl s)
]

-- The keys stand in ascending order.
abbrev pub IsOrdered : Counts → Type 0
IsOrdered [] = Unit
IsOrdered ((k, n) ∷ rest) = All (λ e. text_lt k e.0 ≡ true) rest × IsOrdered rest

count_of-absent :
    (key : Text) (m : Counts) → All (λ e. text_lt key e.0 ≡ true) m → count_of key m ≡ 0
unfolding count_of
count_of-absent key [] h = refl
count_of-absent key ((k, n) ∷ rest) h =
    rw (text_lt-text_eq key k h.0) (count_of-absent key rest h.1)

All-below :
    (s t : Text) (m : Counts)
    → text_lt s t ≡ true
    → All (λ e. text_lt t e.0 ≡ true) m
    → All (λ e. text_lt s e.0 ≡ true) m
All-below s t [] h a = tt
All-below s t ((k, n) ∷ rest) h a = (text_lt_trans s t k h a.0, All-below s t rest h a.1)

All-count_key :
    (s key : Text) (m : Counts)
    → text_lt s key ≡ true
    → All (λ e. text_lt s e.0 ≡ true) m
    → All (λ e. text_lt s e.0 ≡ true) (count_key key m)
unfolding count_key
All-count_key s key [] h a = (h, tt)
All-count_key s key ((k, n) ∷ rest) h a = elim (Bool-cases (text_eq k key)) [
  | inl same ↦ rw same (a.0, a.1)
  | inr other ↦ elim (Bool-cases (text_lt k key)) [
    | inl less ↦ rw (other, less) (a.0, All-count_key s key rest h a.1)
    | inr more ↦ rw (other, more) (h, (a.0, a.1))
  ]
]

pub count_key-IsOrdered : (key : Text) (m : Counts) → IsOrdered m → IsOrdered (count_key key m)
unfolding count_key
count_key-IsOrdered key [] o = (tt, tt)
count_key-IsOrdered key ((k, n) ∷ rest) o = elim (Bool-cases (text_eq k key)) [
  | inl same ↦ rw same o
  | inr other ↦ elim (Bool-cases (text_lt k key)) [
    | inl less ↦
        rw (other, less) (All-count_key k key rest less o.0, count_key-IsOrdered key rest o.1)
    | inr more ↦
        let before = text_lt_total k key other more in
        rw (other, more) ((before, All-below key k rest before o.0), o)
  ]
]

abbrev pub bumped : Bool → ℕ → ℕ
bumped true n = suc n
bumped false n = n

-- Counting a key raises its own count and no other.
pub count_of-count_key :
    (k key : Text) (m : Counts)
    → IsOrdered m
    → count_of k (count_key key m) ≡ bumped (text_eq key k) (count_of k m)
unfolding count_of count_key
count_of-count_key k key [] o = ground arith
count_of-count_key k key ((j, n) ∷ rest) o = elim (Bool-cases (text_eq j key)) [
  | inl same ↦ let e = text_eq→eq j key same in rw (same, e) (ground arith)
  | inr other ↦ elim (Bool-cases (text_lt j key)) [
    | inl less ↦ elim (Bool-cases (text_eq j k)) [
      | inl hit ↦
          let q = text_eq→eq j k hit in
          let no : text_eq key k ≡ false = rw (sym q) (text_lt-text_eq j key less) in
          rw (other, less, hit, no) refl
      | inr miss ↦ rw (other, less, miss) (count_of-count_key k key rest o.1)
    ]
    | inr more ↦
        let before = text_lt_total j key other more in
        elim (Bool-cases (text_eq key k)) [
          | inl hit ↦
              let q = text_eq→eq key k hit in
              let first : text_lt k j ≡ true = rw (sym q) before in
              let none_there =
                count_of-absent k ((j, n) ∷ rest) (first, All-below k j rest first o.0) in
              rw (other, more, hit) (ap suc (sym none_there))
          | inr miss ↦ rw (other, more, miss) refl
        ]
  ]
]
