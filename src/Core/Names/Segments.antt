-- ===== src/Core/Names/Segments.antt =====
-- What the name rules of types.rs exclude.
use hyperion_vault.Prelude.{
  ℕ, ◌≡◌, refl, sym, ap, ◌∙◌, ◌↔◌, ◌++◌, bytes_eq_iff, ◌≢◌, List, [], ◌∷◌, true, false, ◌&&◌, arith,
  Bytes, all, any, All, codes, starts_with, Bool-cases, inl, inr, ◌==◌, ◌≤◌, ◌<◌, length,
}
use hyperion_vault.Core.Names.{
  name_char, is_valid_secret_name, split, onto_first, ends_with_byte, clean_segment,
  is_normalized_secret_name, is_empty,
}

name_char_range : (c : ℕ) → name_char c ≡ true → (45 ≤ c) × (c < 123) × (c ≢ 58)
unfolding name_char
name_char_range c h = ground arith

name_chars-All : (s : Bytes) → all name_char s ≡ true → All (λ c. (45 ≤ c) × (c < 123) × (c ≢ 58)) s
name_chars-All [] h = tt
name_chars-All (c ∷ s) h = (name_char_range c (ground arith), name_chars-All s (ground arith))

-- A valid secret name has between 1 and 255 bytes, all of them printable ASCII, and no colon: so it
-- holds no byte that separates a name from a version in a key or in associated data.
pub is_valid_secret_name_lem :
    (name : Bytes)
    → is_valid_secret_name name ≡ true
    → (1 ≤ length name) × (length name ≤ 255) × All (λ c. (45 ≤ c) × (c < 123) × (c ≢ 58)) name
unfolding is_valid_secret_name
is_valid_secret_name_lem [] h = cc
is_valid_secret_name_lem (c ∷ s) h =
    (omega arith, ground arith, name_chars-All (c ∷ s) (ground arith))

-- A leading separator makes the first part empty.
clean-starts_with :
    (s : Bytes) → all clean_segment (split b'/' s) ≡ true → starts_with s (codes "/") ≡ false
unfolding split clean_segment starts_with
clean-starts_with [] h = cc
clean-starts_with (c ∷ s) h = ground arith

abbrev later_parts : List Bytes → List Bytes
later_parts [] = []
later_parts (part ∷ parts) = parts

any_later :
    (parts : List Bytes) → any is_empty (later_parts parts) ≡ true → any is_empty parts ≡ true
any_later [] h = h
any_later (part ∷ parts) h = ground arith

later-onto_first :
    (c : ℕ) (parts : List Bytes) → later_parts (onto_first c parts) ≡ later_parts parts
later-onto_first c [] = refl
later-onto_first c (part ∷ parts) = refl

-- A trailing separator makes a part after the first empty.
ends_with-empty :
    (sep : ℕ) (s : Bytes)
    → ends_with_byte sep s ≡ true
    → any is_empty (later_parts (split sep s)) ≡ true
unfolding ends_with_byte split
ends_with-empty sep [] h = cc
ends_with-empty sep (c ∷ []) h = ground arith
ends_with-empty sep (c ∷ d ∷ s) h = elim (Bool-cases (c == sep)) [
  | inl at_sep ↦ rw at_sep (any_later (split sep (d ∷ s)) (ends_with-empty sep (d ∷ s) h))
  | inr other ↦ rw (other, later-onto_first c (split sep (d ∷ s))) (ends_with-empty sep (d ∷ s) h)
]

clean-not_empty : (parts : List Bytes) → all clean_segment parts ≡ true → any is_empty parts ≡ false
unfolding clean_segment
clean-not_empty [] h = refl
clean-not_empty (part ∷ parts) h = ground (arith, clean-not_empty parts)

clean-ends_with :
    (s : Bytes) → all clean_segment (split b'/' s) ≡ true → ends_with_byte b'/' s ≡ false
clean-ends_with s h = elim (Bool-cases (ends_with_byte b'/' s)) [
  | inl e ↦
      cc (any_later (split b'/' s) (ends_with-empty b'/' s e), clean-not_empty (split b'/' s) h)
  | inr e ↦ e
]

-- the tests for a slash at either end add nothing
normalized_clean :
    (name : Bytes)
    → is_normalized_secret_name name
      ≡ (is_valid_secret_name name && all clean_segment (split b'/' name))
unfolding is_normalized_secret_name
normalized_clean name = ground (arith, clean-starts_with name, clean-ends_with name)

-- parts written one after the other, with a separator between two of them
abbrev pub joined : ℕ → List Bytes → Bytes
joined sep [] = []
joined sep (part ∷ []) = part
joined sep (part ∷ next ∷ parts) = part ++ (sep ∷ joined sep (next ∷ parts))

abbrev Without : ℕ → Bytes → Type 0
Without sep = All (λ c. c ≢ sep)

joined-onto_first :
    (sep c : ℕ) (parts : List Bytes) → joined sep (onto_first c parts) ≡ c ∷ joined sep parts
joined-onto_first sep c [] = refl
joined-onto_first sep c (part ∷ []) = refl
joined-onto_first sep c (part ∷ next ∷ parts) = refl

split-cons :
    (sep : ℕ) (s : Bytes) → (part : Bytes) × ((parts : List Bytes) × (split sep s ≡ part ∷ parts))
unfolding split
split-cons sep [] = ([], ([], refl))
split-cons sep (c ∷ s) =
    let (part, (parts, e)) = split-cons sep s in
    elim (Bool-cases (c == sep)) [
      | inl at_sep ↦ ([], (split sep s, rw at_sep refl))
      | inr other ↦ (c ∷ part, (parts, rw (other, e) refl))
    ]

joined-empty_first :
    (sep : ℕ) (parts rest : List Bytes) (part : Bytes)
    → parts ≡ part ∷ rest
    → joined sep ([] ∷ parts) ≡ sep ∷ joined sep parts
joined-empty_first sep parts rest part e = rw e refl

joined-split : (sep : ℕ) (s : Bytes) → joined sep (split sep s) ≡ s
unfolding split
joined-split sep [] = refl
joined-split sep (c ∷ s) = elim (Bool-cases (c == sep)) [
  | inl at_sep ↦
      let (part, (parts, e)) = split-cons sep s in
      let same : c ≡ sep = ground arith in
      rw (at_sep, joined-empty_first sep (split sep s) parts part e, joined-split sep s, same) refl
  | inr other ↦ rw (other, joined-onto_first sep c (split sep s), joined-split sep s) refl
]

onto_first-Without :
    (sep c : ℕ) (parts : List Bytes)
    → c ≢ sep
    → All (Without sep) parts
    → All (Without sep) (onto_first c parts)
onto_first-Without sep c [] ne h = ((ne, tt), tt)
onto_first-Without sep c (part ∷ parts) ne h = ((ne, h.0), h.1)

split-Without : (sep : ℕ) (s : Bytes) → All (Without sep) (split sep s)
unfolding split
split-Without sep [] = (tt, tt)
split-Without sep (c ∷ s) = elim (Bool-cases (c == sep)) [
  | inl at_sep ↦ rw at_sep (tt, split-Without sep s)
  | inr other ↦
      rw other (onto_first-Without sep c (split sep s) (ground arith) (split-Without sep s))
]

split-one : (sep : ℕ) (part : Bytes) → Without sep part → split sep part ≡ part ∷ []
unfolding split
split-one sep [] h = refl
split-one sep (c ∷ s) h = rw (split-one sep s h.1) (ground arith)

split-append :
    (sep : ℕ) (part rest : Bytes)
    → Without sep part
    → split sep (part ++ (sep ∷ rest)) ≡ part ∷ split sep rest
unfolding split
split-append sep [] rest h = ground arith
split-append sep (c ∷ s) rest h = rw (split-append sep s rest h.1) (ground arith)

split-joined :
    (sep : ℕ) (part : Bytes) (parts : List Bytes)
    → All (Without sep) (part ∷ parts)
    → split sep (joined sep (part ∷ parts)) ≡ part ∷ parts
split-joined sep part [] h = split-one sep part h.0
split-joined sep part (next ∷ parts) h =
    split-append sep part (joined sep (next ∷ parts)) h.0
    ∙ ap (λ rest. part ∷ rest) (split-joined sep next parts h.1)

-- a segment of a normalized name
abbrev pub Segment : Bytes → Type 0
Segment part = (part ≢ []) × (part ≢ codes ".") × (part ≢ codes "..") × All (λ c. c ≢ b'/') part

is_empty_iff : (s : Bytes) → (is_empty s ≡ true) ↔ (s ≡ [])
is_empty_iff [] = (λ e. refl, λ e. refl)
is_empty_iff (c ∷ s) = (λ e. absurd (cc), λ e. absurd (cc))

clean-Segment : (part : Bytes) → clean_segment part ≡ true → All (λ c. c ≢ b'/') part → Segment part
unfolding clean_segment
clean-Segment part clean without = (
  (λ e. absurd (ground (arith, is_empty_iff part))),
  (λ e. absurd (ground (arith, bytes_eq_iff part (codes ".")))),
  (λ e. absurd (ground (arith, bytes_eq_iff part (codes "..")))),
  without,
)

Segment-clean : (part : Bytes) → Segment part → clean_segment part ≡ true
unfolding clean_segment
Segment-clean part (filled, one, two, without) =
    ground (arith, is_empty_iff part, bytes_eq_iff part (codes "."), bytes_eq_iff part (codes ".."))

clean-Segments :
    (parts : List Bytes)
    → all clean_segment parts ≡ true
    → All (Without b'/') parts
    → All Segment parts
clean-Segments [] h without = tt
clean-Segments (part ∷ parts) h without =
    (clean-Segment part (ground arith) without.0, clean-Segments parts (ground arith) without.1)

Segments-clean :
    (parts : List Bytes)
    → All Segment parts
    → (all clean_segment parts ≡ true) × All (Without b'/') parts
Segments-clean [] h = (refl, tt)
Segments-clean (part ∷ parts) h =
    let (clean, without) = Segments-clean parts h.1 in
    (ground (arith, Segment-clean part h.0), (h.0.3, without))

-- names made of segments
abbrev pub FromSegments : Bytes → Type 0
FromSegments name = (parts : List Bytes) × ((joined b'/' parts ≡ name) × All Segment parts)

FromSegments-clean :
    (name : Bytes)
    → is_valid_secret_name name ≡ true
    → FromSegments name
    → all clean_segment (split b'/' name) ≡ true
unfolding is_valid_secret_name
FromSegments-clean name valid ([], (e, h)) = absurd (ground (arith, is_empty_iff name))
FromSegments-clean name valid (part ∷ parts, (e, h)) =
    let (clean, without) = Segments-clean (part ∷ parts) h in
    rw (sym e, split-joined b'/' part parts without) clean

-- A name is normalized exactly when it is valid and it is some segments with a slash between each two,
-- where a segment is not empty, is neither `.` nor `..`, and has no slash in it.
pub is_normalized_secret_name_iff :
    (name : Bytes)
    → (is_normalized_secret_name name ≡ true)
      ↔ ((is_valid_secret_name name ≡ true) × FromSegments name)
is_normalized_secret_name_iff name = (
  (λ h.
      let both = normalized_clean name in
      (
        ground (arith, both),
        (
          split b'/' name,
          (
            joined-split b'/' name,
            clean-Segments (split b'/' name) (ground (arith, both)) (split-Without b'/' name),
          ),
        ),
      )),
  (λ (valid, parts). ground (arith, normalized_clean name, FromSegments-clean name valid parts)),
)
