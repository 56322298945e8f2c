-- ===== src/Base/Text.antt =====
-- Rust text as the list of its code points, and the `str` methods that the program calls.
use Prim.Native.Char.{code}
use Prim.Native.String.{String}
use Prim.Native.Nat.{ℕ, zero, suc, ◌+◌, ◌-◌, ◌*◌, ◌/◌, ◌%◌}
use mathlib.Core.Path.{◌≡◌, refl}
use mathlib.Core.Logic.{◌↔◌}
use mathlib.Core.Bool.{Bool, true, false, ◌&&◌, ◌||◌}
use mathlib.Core.Option.{Option, none, some}
use mathlib.Core.List.{List, [], ◌∷◌, ◌++◌, reverse}
use native.Mathlib.Omega.{arith}
use a2g_cli.Base.Tests.{leb, ltb, ◌==◌, if◌then◌else◌}
use a2g_cli.Base.Lists.{length, drop}

abbrev pub Text : Type 0
Text = List ℕ

-- A literal as its code points.
abbrev pub codes : String → Text
codes String.[] = []
codes (String.◌∷◌ c s) = code c ∷ codes s

-- `==` on `str`.
unfoldable pub text_eq : Text → Text → Bool
text_eq [] [] = true
text_eq [] (y ∷ ys) = false
text_eq (x ∷ xs) [] = false
text_eq (x ∷ xs) (y ∷ ys) = x == y && text_eq xs ys

-- `t.starts_with(p)`
unfoldable pub starts_with : Text → Text → Bool
starts_with t [] = true
starts_with [] (y ∷ ys) = false
starts_with (x ∷ xs) (y ∷ ys) = x == y && starts_with xs ys

-- `t.ends_with(p)`
unfoldable pub ends_with : Text → Text → Bool
unfolding text_eq
ends_with [] p = text_eq [] p
ends_with (x ∷ xs) p = text_eq (x ∷ xs) p || ends_with xs p

-- `t.find(p)`: where the first occurrence begins.
unfoldable pub find : Text → Text → Option ℕ
unfolding starts_with
find [] p = if starts_with [] p then some 0 else none
find (x ∷ xs) p =
    let rest = find xs p in
    elim (starts_with (x ∷ xs) p) [
      | true ↦ some 0
      | false ↦ elim rest [ none ↦ none | some i ↦ some (suc i) ]
    ]

-- `t.contains(p)`
unfoldable pub contains : Text → Text → Bool
unfolding starts_with
contains [] p = starts_with [] p
contains (x ∷ xs) p = starts_with (x ∷ xs) p || contains xs p

-- `list.contains(&t)`
unfoldable pub list_contains : List Text → Text → Bool
unfolding text_eq
list_contains [] t = false
list_contains (x ∷ xs) t = text_eq x t || list_contains xs t

abbrev pub cons_part : ℕ → List Text → List Text
cons_part c [] = (c ∷ []) ∷ []
cons_part c (p ∷ ps) = (c ∷ p) ∷ ps

-- `t.split(c)`: never empty.
unfoldable pub split : ℕ → Text → List Text
split c [] = [] ∷ []
split c (x ∷ xs) = let rest = split c xs in if x == c then [] ∷ rest else cons_part x rest

-- `t.splitn(2, p)` where `p` occurs: what stands before its first occurrence, and after it.
unfoldable pub split_once : Text → Text → Option (Text × Text)
unfolding starts_with
split_once [] p = if starts_with [] p then some ([], []) else none
split_once (x ∷ xs) p =
    let rest = split_once xs p in
    elim (starts_with (x ∷ xs) p) [
      | true ↦ some ([], drop (length p) (x ∷ xs))
      | false ↦ elim rest [ none ↦ none | some (a, b) ↦ some (x ∷ a, b) ]
    ]

-- `t.strip_prefix(p)`
unfoldable pub strip_prefix : Text → Text → Option Text
unfolding starts_with
strip_prefix t p = if starts_with t p then some (drop (length p) t) else none

-- `t.trim_start_matches(c)`
unfoldable pub trim_start_matches : ℕ → Text → Text
trim_start_matches c [] = []
trim_start_matches c (x ∷ xs) =
    let rest = trim_start_matches c xs in if x == c then rest else x ∷ xs

-- `t.trim_end_matches(c)`
unfoldable pub trim_end_matches : ℕ → Text → Text
unfolding trim_start_matches
trim_end_matches c t = reverse (trim_start_matches c (reverse t))

-- `t.replace(p, "")`: the counter skips what is left of an occurrence.
unfoldable pub remove_from : ℕ → Text → Text → Text
unfolding starts_with
remove_from k p [] = []
remove_from (suc k) p (x ∷ xs) = remove_from k p xs
remove_from zero p (x ∷ xs) =
    let hit = starts_with (x ∷ xs) p in
    let rest = remove_from (if hit then length p - 1 else 0) p xs in if hit then rest else x ∷ rest

unfoldable pub remove_all : Text → Text → Text
unfolding remove_from
remove_all t p = remove_from 0 p t

-- `char::is_whitespace`: Unicode's White_Space.
unfoldable pub is_whitespace : ℕ → Bool
is_whitespace c =
    (leb 9 c && leb c 13)
    || (c == 32 || c == 0x85 || c == 0xA0 || c == 0x1680)
    || (leb 0x2000 c && leb c 0x200A)
    || (c == 0x2028 || c == 0x2029 || c == 0x202F || c == 0x205F || c == 0x3000)

unfoldable pub skip_whitespace : Text → Text
unfolding is_whitespace
skip_whitespace [] = []
skip_whitespace (x ∷ xs) = let rest = skip_whitespace xs in if is_whitespace x then rest else x ∷ xs

unfoldable pub until_whitespace : Text → Text
unfolding is_whitespace
until_whitespace [] = []
until_whitespace (x ∷ xs) =
    let rest = until_whitespace xs in if is_whitespace x then [] else x ∷ rest

-- `t.split_whitespace().next()`
unfoldable pub first_word : Text → Option Text
unfolding skip_whitespace until_whitespace
first_word t = elim (until_whitespace (skip_whitespace t)) [ [] ↦ none | x ∷ xs ↦ some (x ∷ xs) ]

-- `t.trim()`
unfoldable pub trim : Text → Text
unfolding skip_whitespace
trim t = reverse (skip_whitespace (reverse (skip_whitespace t)))

-- `parts.join(sep)`
unfoldable pub join : Text → List Text → Text
join sep [] = []
join sep (p ∷ []) = p
join sep (p ∷ q ∷ ps) = p ++ (sep ++ join sep (q ∷ ps))

-- `c.len_utf8()`
abbrev pub len_utf8 : ℕ → ℕ
len_utf8 c = if ltb c 0x80 then 1 else if ltb c 0x800 then 2 else if ltb c 0x10000 then 3 else 4

-- `&t[..n]`: the bytes before `n`; `none` is the panic out of range or inside a character.
unfoldable pub slice_to : ℕ → Text → Option Text
slice_to n [] = if n == 0 then some [] else none
slice_to n (x ∷ xs) =
    let rest = slice_to (n - len_utf8 x) xs in
    if n == 0
    then some []
    else if ltb n (len_utf8 x)
    then none
    else elim rest [ none ↦ none | some r ↦ some (x ∷ r) ]

-- `{}` of an unsigned number: its decimal digits before `rest`. A number has fewer digits than its
-- successor, which is the fuel.
unfoldable pub digits_before : ℕ → ℕ → Text → Text
digits_before zero n rest = rest
digits_before (suc fuel) n rest = elim (ltb n 10) [
  | true ↦ (48 + n) ∷ rest
  | false ↦ digits_before fuel (n / 10) ((48 + n % 10) ∷ rest)
]

unfoldable pub decimal : ℕ → Text
unfolding digits_before
decimal n = digits_before (suc n) n []

-- `u32::from_str`: an optional `+`, then digits; `none` on an empty text, another character, or a
-- value of 2^32 or more.
unfoldable pub digits_from : ℕ → Text → Option ℕ
digits_from acc [] = if ltb acc 4294967296 then some acc else none
digits_from acc (x ∷ xs) =
    let rest = digits_from (acc * 10 + (x - 48)) xs in if leb 48 x && leb x 57 then rest else none

unfoldable pub parse_u32 : Text → Option ℕ
unfolding digits_from
parse_u32 [] = none
parse_u32 (x ∷ []) = if x == b'+' then none else digits_from 0 (x ∷ [])
parse_u32 (x ∷ y ∷ xs) = digits_from 0 (if x == b'+' then y ∷ xs else x ∷ y ∷ xs)

pub text_eq_refl : (t : Text) → text_eq t t ≡ true
unfolding text_eq
text_eq_refl [] = refl
text_eq_refl (x ∷ xs) = ground (arith, text_eq_refl xs)

pub text_eq→eq : (s t : Text) → text_eq s t ≡ true → s ≡ t
unfolding text_eq
text_eq→eq [] [] h = refl
text_eq→eq [] (y ∷ ys) h = cc
text_eq→eq (x ∷ xs) [] h = cc
text_eq→eq (x ∷ xs) (y ∷ ys) h = ground (arith, text_eq→eq xs ys)

pub text_eq_iff : (s t : Text) → (text_eq s t ≡ true) ↔ (s ≡ t)
text_eq_iff s t = (text_eq→eq s t, λ e. rw e (text_eq_refl t))

pub text_eq_comm : (s t : Text) → text_eq s t ≡ text_eq t s
unfolding text_eq
text_eq_comm [] [] = refl
text_eq_comm [] (y ∷ ys) = refl
text_eq_comm (x ∷ xs) [] = refl
text_eq_comm (x ∷ xs) (y ∷ ys) = ground (arith, text_eq_comm xs ys)

pub starts_with-append : (p t : Text) → starts_with (p ++ t) p ≡ true
unfolding starts_with
starts_with-append [] t = refl
starts_with-append (x ∷ xs) t = ground (arith, starts_with-append xs t)

-- `a < b` on `str`: by bytes, which for UTF-8 is the order of the code points.
unfoldable pub text_lt : Text → Text → Bool
text_lt t [] = false
text_lt [] (y ∷ ys) = true
text_lt (x ∷ xs) (y ∷ ys) = ltb x y || (x == y && text_lt xs ys)

unfoldable pub sorted_insert : Text → List Text → List Text
unfolding text_lt
sorted_insert t [] = t ∷ []
sorted_insert t (x ∷ xs) =
    let rest = sorted_insert t xs in if text_lt x t then x ∷ rest else t ∷ x ∷ xs

-- `Vec<String>::sort`
unfoldable pub sort : List Text → List Text
unfolding sorted_insert
sort [] = []
sort (x ∷ xs) = sorted_insert x (sort xs)
