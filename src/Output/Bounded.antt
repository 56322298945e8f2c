-- ===== src/Output/Bounded.antt =====
-- crates/a2g-core/src/output_gov.rs: what `govern_output` returns.
use a2g_cli.Base.{
  All, ◌↔◌, ◌∙◌, ◌&&◌, ◌⊎◌, sym, ℕ, zero, suc, ◌+◌, ◌-◌, ◌≤◌, ◌<◌, ◌==◌, ltb, ◌≡◌, refl, ap, true,
  false, none, some, List, [], ◌∷◌, ◌++◌, find_first, arith, Bool-cases, Option-cases, inl, inr,
}
use a2g_cli.Error.{some-injective}
use a2g_cli.Base.Text.{codes, Text, slice_to, len_utf8}
use a2g_cli.Mandate.Types.{OutputGovernance}
use a2g_cli.Output.{
  min, denied, Regex, byte_len, is_char_boundary, walk_back, blocked, truncation_notice, hits,
  redact_with, redact, truncate, limit_length, unless_denied, govern_output,
}

len_utf8_pos : (c : ℕ) → 1 ≤ len_utf8 c
len_utf8_pos c = ground arith

-- What a slice holds: that many bytes, the first of the text.
abbrev Prefix : ℕ → Text → Text → Type 0
Prefix n t r = (byte_len r ≡ n) × ((rest : Text) × (t ≡ r ++ rest))

slice_fits :
    (n x : ℕ) (xs r : Text) → (n == 0) ≡ false → slice_to n (x ∷ xs) ≡ some r → len_utf8 x ≤ n
unfolding slice_to
slice_fits n x xs r e h = ground arith

unsliced :
    (n x : ℕ) (xs r : Text)
    → (n == 0) ≡ false
    → slice_to (n - len_utf8 x) xs ≡ none
    → ¬ (slice_to n (x ∷ xs) ≡ some r)
unfolding slice_to
unsliced n x xs r e f h = ground arith

sliced :
    (n x : ℕ) (xs r s : Text)
    → (n == 0) ≡ false
    → slice_to (n - len_utf8 x) xs ≡ some s
    → slice_to n (x ∷ xs) ≡ some r
    → r ≡ x ∷ s
unfolding slice_to
sliced n x xs r s e f h = ground arith

slice_to-cons :
    (n x : ℕ) (xs r : Text)
    → (n == 0) ≡ false
    → slice_to n (x ∷ xs) ≡ some r
    → (len_utf8 x ≤ n) × ((s : Text) × (slice_to (n - len_utf8 x) xs ≡ some s) × (r ≡ x ∷ s))
unfolding slice_to
slice_to-cons n x xs r e h = elim (Option-cases (slice_to (n - len_utf8 x) xs)) [
  | inl f ↦ elim (unsliced n x xs r e f h) [ ]
  | inr (s, f) ↦ (slice_fits n x xs r e h, (s, f, sliced n x xs r s e f h))
]

slice_to-Prefix : (n : ℕ) (t r : Text) → slice_to n t ≡ some r → Prefix n t r
unfolding slice_to byte_len
slice_to-Prefix n [] r h = elim (Bool-cases (n == 0)) [
  | inl e ↦ let r_is : [] ≡ r = ground arith in rw (sym r_is) (ground arith, ([], refl))
  | inr e ↦ ground arith
]
slice_to-Prefix n (x ∷ xs) r h = elim (Bool-cases (n == 0)) [
  | inl e ↦ let r_is : [] ≡ r = ground arith in rw (sym r_is) (ground arith, (x ∷ xs, refl))
  | inr e ↦
      let (fits, (s, f, r_is)) = slice_to-cons n x xs r e h in
      let (size, (rest, whole)) = slice_to-Prefix (n - len_utf8 x) xs s f in
      rw r_is (omega arith, (rest, ap (λ y. x ∷ y) whole))
]

walk_back-le : (n : ℕ) (t : Text) → walk_back n t ≤ n
unfolding walk_back
walk_back-le zero t = omega arith
walk_back-le (suc n) t = ground (arith, walk_back-le n t)

slice_to-zero : (t : Text) → slice_to 0 t ≡ some []
unfolding slice_to
slice_to-zero [] = refl
slice_to-zero (x ∷ xs) = refl

boundary-slice :
    (t : Text) (n : ℕ) → is_char_boundary t n ≡ true → (r : Text) × (slice_to n t ≡ some r)
unfolding is_char_boundary
boundary-slice t n h = elim (Option-cases (slice_to n t)) [
  | inl e ↦ ground arith
  | inr found ↦ found
]

-- The loop ends at a boundary, so that the slice is one.
walk_back-slice : (n : ℕ) (t : Text) → (r : Text) × (slice_to (walk_back n t) t ≡ some r)
unfolding walk_back
walk_back-slice zero t = ([], slice_to-zero t)
walk_back-slice (suc n) t = elim (Bool-cases (is_char_boundary t (suc n))) [
  | inl e ↦ rw e (boundary-slice t (suc n) e)
  | inr e ↦ rw e (walk_back-slice n t)
]

byte_len-append : (s t : Text) → byte_len (s ++ t) ≡ byte_len s + byte_len t
unfolding byte_len
byte_len-append [] t = omega arith
byte_len-append (x ∷ s) t = omega (arith, byte_len-append s t)

notice_len : byte_len truncation_notice ≡ 30
unfolding byte_len
notice_len = refl

blocked_len : byte_len blocked ≡ 56
unfolding byte_len
blocked_len = refl

-- At most `max` bytes from the front of `whole`, and then the notice.
pub record IsTruncation (max : ℕ) (whole content : Text) : Type 0 where
  pub kept : Text
  pub rest : Text
  pub is_prefix : whole ≡ kept ++ rest
  pub within : byte_len kept ≤ max
  pub marked : content ≡ kept ++ truncation_notice

module _ {R : Type 0} (x : Regex R) where
  truncate-IsTruncation : (max : ℕ) (t : Text) → IsTruncation max t (truncate x max t).content
  unfolding truncate
  truncate-IsTruncation max t =
      let (r, e) = walk_back-slice (min max (byte_len t)) t in
      let (size, (rest, whole)) = slice_to-Prefix _ t r e in
      record {
        kept = r;
        rest = rest;
        is_prefix = whole;
        within = omega (arith, walk_back-le (min max (byte_len t)) t);
        marked = rw e refl;
      }

  -- What is left of a response that no deny pattern blocks.
  abbrev pub IsLimited : ℕ → Text → Text → Type 0
  IsLimited max whole content =
      ((content ≡ whole) × ((0 < max) → byte_len content ≤ max))
      ⊎ ((max < byte_len whole) × IsTruncation max whole content)

  limit_length-IsLimited :
      (max count : ℕ) (t : Text) → IsLimited max t (limit_length x max (count, t)).content
  unfolding limit_length
  limit_length-IsLimited max count t = elim (Bool-cases (ltb 0 max && ltb max (byte_len t))) [
    | inl e ↦ rw e (inr (ground arith, truncate-IsTruncation max t))
    | inr e ↦ rw e (inl (refl, λ h. ground arith))
  ]

  -- A pattern that compiles and matches the response.
  abbrev pub Matches : Text → Text → Type 0
  Matches response pattern =
      (re : R) × (x.build pattern ≡ some re) × (x.is_match re response ≡ true)

  hits_iff : (response pattern : Text) → (hits x response pattern ≡ true) ↔ Matches response pattern
  unfolding hits
  hits_iff response pattern = elim (Option-cases (x.build pattern)) [
    | inl e ↦
        (λ h. let no : false ≡ true = rw (hits, e) at h in ground arith, λ m. ground (arith, m.1))
    | inr (re, e) ↦ (
      λ h. (re, e, rw (hits, e) at h),
      λ m. let same = some-injective (sym e ∙ m.1) in rw (hits, e, same) (m.2),
    )
  ]

  -- The first of the patterns that matches.
  pub record IsBlocking (response : Text) (patterns : List Text) (pattern : Text) : Type 0 where
    pub before : List Text
    pub after : List Text
    pub listed : patterns ≡ before ++ pattern ∷ after
    pub free : All (λ q. ¬ (Matches response q)) before
    pub matched : Matches response pattern

  find_first-IsBlocking :
      (response : Text) (patterns : List Text)
      → ((find_first (hits x response) patterns ≡ none)
          × All (λ q. ¬ (Matches response q)) patterns)
        ⊎ ((pattern : Text) × (find_first (hits x response) patterns ≡ some pattern)
            × IsBlocking response patterns pattern)
  find_first-IsBlocking response [] = inl (refl, tt)
  find_first-IsBlocking response (q ∷ qs) = elim (Bool-cases (hits x response q)) [
    | inl e ↦ inr (
      q,
      ground arith,
      record {
        before = [];
        after = qs;
        listed = refl;
        free = tt;
        matched = (hits_iff response q).0 e;
      },
    )
    | inr e ↦
        let other : ¬ (Matches response q) =
          λ m. let yes = (hits_iff response q).1 m in ground arith in
        elim (find_first-IsBlocking response qs) [
          | inl (g, h) ↦ inl (ground arith, (other, h))
          | inr (pattern, g, b) ↦ inr (
            pattern,
            ground arith,
            record {
              before = q ∷ b.before;
              after = b.after;
              listed = ap (λ t. q ∷ t) b.listed;
              free = (other, b.free);
              matched = b.matched;
            },
          )
        ]
  ]

  -- The patterns in turn: one that compiles replaces its matches, another leaves the text as it is.
  pub data IsRedacted : List Text → Text → Text → Type 0 where
    done : (t : Text) → IsRedacted [] t t
    skips :
        {pattern t u : Text} {patterns : List Text}
        → x.build pattern ≡ none
        → IsRedacted patterns t u
        → IsRedacted (pattern ∷ patterns) t u
    replaces :
        {pattern t u : Text} {patterns : List Text} (re : R)
        → x.build pattern ≡ some re
        → IsRedacted patterns (x.replace_all re t (codes "[REDACTED]")) u
        → IsRedacted (pattern ∷ patterns) t u

  redact-IsRedacted :
      (patterns : List Text) (count : ℕ) (t : Text)
      → IsRedacted patterns t (redact x patterns (count, t)).1
  unfolding redact redact_with
  redact-IsRedacted [] count t = done t
  redact-IsRedacted (pattern ∷ patterns) count t = elim (Option-cases (x.build pattern)) [
    | inl e ↦ skips e (rw (redact, e) (redact-IsRedacted patterns count t))
    | inr (re, e) ↦
        replaces re e
          (rw (redact, e) (redact-IsRedacted patterns _ (x.replace_all re t (codes "[REDACTED]"))))
  ]

  pub govern_output-cases :
      (response : Text) (rules : OutputGovernance)
      → ((pattern : Text) × IsBlocking response rules.deny_patterns pattern
          × (govern_output x response rules
              ≡ record { action = denied pattern; content = blocked }))
        ⊎ (All (λ q. ¬ (Matches response q)) rules.deny_patterns
            × ((left : Text) × IsRedacted rules.redact_patterns response left
                × IsLimited rules.max_output_length left (govern_output x response rules).content))
  unfolding govern_output unless_denied
  govern_output-cases response rules = elim (find_first-IsBlocking response rules.deny_patterns) [
    | inl (e, free) ↦ rw e (
        inr (
          free,
          (
            _,
            redact-IsRedacted rules.redact_patterns 0 response,
            limit_length-IsLimited rules.max_output_length _ _,
          ),
        ))
    | inr (pattern, e, first) ↦ rw e (inl (pattern, first, refl))
  ]

  limited-bounded :
      (max : ℕ) (whole content : Text)
      → 0 < max
      → IsLimited max whole content
      → byte_len content ≤ max + 30
  limited-bounded max whole content h (inl (same, fits)) = omega (arith, fits h)
  limited-bounded max whole content h (inr (longer, cut)) =
      rw cut.marked
        (omega (arith, byte_len-append cut.kept truncation_notice, notice_len, cut.within))

  -- Under a length limit, the content that takes the place of a response that a deny pattern blocks
  -- has the 56 bytes of its notice; the content of a response that no deny pattern matches has at
  -- most the bytes of the limit and the 30 of the notice.
  pub govern_output-bounded :
      (response : Text) (rules : OutputGovernance)
      → 0 < rules.max_output_length
      → (((pattern : Text) × IsBlocking response rules.deny_patterns pattern)
          × (byte_len (govern_output x response rules).content ≡ 56))
        ⊎ (All (λ q. ¬ (Matches response q)) rules.deny_patterns
            × (byte_len (govern_output x response rules).content ≤ rules.max_output_length + 30))
  govern_output-bounded response rules h = elim (govern_output-cases response rules) [
    | inl (pattern, first, e) ↦ inl ((pattern, first), ap (λ v. byte_len v.content) e ∙ blocked_len)
    | inr (free, (left, redacted, limited)) ↦
        inr (free, limited-bounded rules.max_output_length left _ h limited)
  ]
