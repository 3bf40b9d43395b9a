-- ===== src/Canon/Number/Length.antt =====
-- The bound on canonical numbers, and numbers that the writer must accept.
use provehito.Common.{
  Option-cases, is_empty, Option, none, some, ap, ◌^◌, leb, ℕ, zero, suc, ◌+◌, ◌-◌, ◌≤◌, ◌<◌, Text,
  Bool, ◌≡◌, [], ◌∷◌, ◌++◌, length, take, drop, length-append, arith, inl, inr, Bool-cases, ltb,
}
use provehito.Common.Ints.{ℤ, pos, negsuc, int_le, int64, ◌+ℤ◌, ◌-ℤ◌}
use provehito.Failure.Outcome.{Result-cases, ok, ◌>>◌, >>-eq-ok, reject_if, ok-injective}
use provehito.Canon.Number.{
  is_point, parse_int, is_exponent_mark, exponent_of, nat_eq, fraction_of, exponent_overflows,
  expansion_error, prepend, final_scale, trim_left_zeros, trim_right_zeros, cut, replicate,
  expanded, bounded, expanded_number_length, place_point, expand, number_from, unsigned_number,
  canonical_number, max_expanded_number_bytes, split_exponent, split_fraction,
}

length-replicate : (n c : ℕ) → length (replicate n c) ≡ n
length-replicate zero c = omega arith
length-replicate (suc n) c = omega (arith, length-replicate n c)

length-take-drop : (n : ℕ) (t : Text) → length (take n t) + length (drop n t) ≡ length t
length-take-drop zero t = omega arith
length-take-drop (suc n) [] = omega arith
length-take-drop (suc n) (x ∷ t) = omega (arith, length-take-drop n t)

-- The values of int64.
abbrev InRange : ℤ → Type 0
InRange (pos n) = n < 2 ^ 63
InRange (negsuc n) = n < 2 ^ 63

int64-InRange : (z : ℤ) → InRange (int64 z)
unfolding int64
int64-InRange (pos n) = ground arith
int64-InRange (negsuc n) = ground arith

length-place_point_pos :
    (digits : Text) (p : ℕ)
    → p < 2 ^ 63
    → length digits < 2 ^ 62
    → (expanded (length digits) (pos p) ≡ pos (length (place_point digits (pos p))))
      × (length (place_point digits (pos p)) < 2 ^ 63)
unfolding place_point int_le int64 ◌+ℤ◌ ◌-ℤ◌
length-place_point_pos digits p r k = elim (Bool-cases (leb (length digits) p)) [
  | inl h ↦ rw h (
      ground (
        arith,
        length-append digits (replicate (p - length digits) b'0'),
        length-replicate (p - length digits) b'0',
      ))
  | inr h ↦ rw h (elim (Bool-cases (ltb 0 p)) [
    | inl g ↦ rw g (
        ground
          (arith, length-append (take p digits) (b'.' ∷ drop p digits), length-take-drop p digits))
    | inr g ↦
        rw g (ground (arith, length-append (replicate p b'0') digits, length-replicate p b'0'))
  ])
]

length-place_point_negsuc :
    (digits : Text) (p : ℕ) → length (place_point digits (negsuc p)) ≡ p + 3 + length digits
unfolding place_point int_le
length-place_point_negsuc digits p =
    omega (arith, length-replicate (suc p) b'0', length-append (replicate (suc p) b'0') digits)

int64_small : (a : ℕ) → a < 2 ^ 63 → int64 (pos a) ≡ pos a
unfolding int64
int64_small a h = ground arith

int64_large :
    (a : ℕ)
    → a < 2 ^ 63 + 2 ^ 62 + 3
    → 2 ^ 63 ≤ a
    → (m : ℕ) × (int64 (pos a) ≡ negsuc m) × (2 ^ 62 - 4 ≤ m) × (m < 2 ^ 63)
unfolding int64
int64_large a h g = (2 ^ 64 - 1 - a, ground arith, omega arith, omega arith)

bounded-ok : (z : ℤ) (n : ℕ) → bounded z ≡ ok n → (z ≡ pos n) × (n ≤ max_expanded_number_bytes)
bounded-ok (pos m) n h = ground arith
bounded-ok (negsuc m) n h = cc

sum_small : (a s n : ℕ) → a < 2 ^ 63 → s ≤ 1 → int64 (pos a +ℤ pos s) ≡ pos n → n ≡ a + s
unfolding int64 ◌+ℤ◌
sum_small a s n h k e = ground arith

sum_large : (m s n : ℕ) → 2 ≤ m → m < 2 ^ 63 → s ≤ 1 → int64 (negsuc m +ℤ pos s) ≡ pos n → ⊥
unfolding int64 ◌+ℤ◌
sum_large m zero n h g k e = ground arith
sum_large m (suc zero) n h g k e = ground arith
sum_large m (suc (suc s)) n h g k e = absurd (omega arith)

-- The sum that `expandedNumberLength` tests never wraps to an accepted value.
bounded_sum :
    (a s n : ℕ)
    → a < 2 ^ 63 + 2 ^ 62 + 3
    → s ≤ 1
    → bounded (int64 (int64 (pos a) +ℤ pos s)) ≡ ok n
    → (n ≡ a + s) × (n ≤ max_expanded_number_bytes)
bounded_sum a s n h k e =
    let (z, below) = bounded-ok (int64 (int64 (pos a) +ℤ pos s)) n e in
    elim (Bool-cases (ltb a (2 ^ 63))) [
      | inl g ↦
          let small : a < 2 ^ 63 = ground arith in
          (sum_small a s n small k (rw (int64_small a small) at z), below)
      | inr g ↦
          let large : 2 ^ 63 ≤ a = ground arith in
          let (m, p, q, r) = int64_large a h large in
          absurd (sum_large m s n (omega arith) r k (rw p at z))
    ]

expanded_negsuc : (d p : ℕ) → expanded d (negsuc p) ≡ int64 (pos (p + 3 + d))
unfolding int_le ◌+ℤ◌ ◌-ℤ◌
expanded_negsuc d p = ap (λ (x : ℤ). int64 x) (ground arith)

-- What the length test accepts is the length of what is written.
length-place_point :
    (s : ℕ) (digits : Text) (point : ℤ) (n : ℕ)
    → s ≤ 1
    → length digits < 2 ^ 62
    → InRange point
    → expanded_number_length s (length digits) point ≡ ok n
    → (n ≡ length (place_point digits point) + s) × (n ≤ max_expanded_number_bytes)
unfolding expanded_number_length
length-place_point s digits (pos p) n k d r h =
    let (q, small) = length-place_point_pos digits p r d in
    let (z, below) = bounded-ok _ n (rw q at h) in
    (sum_small (length (place_point digits (pos p))) s n small k z, below)
length-place_point s digits (negsuc p) n k d r h =
    let (sum, below) =
      bounded_sum (p + 3 + length digits) s n (omega arith) k
        (rw (expanded_negsuc (length digits) p) at h) in
    (omega (arith, length-place_point_negsuc digits p), below)

written :
    (sign digits out : Text) (point : ℤ) (n : ℕ)
    → length sign ≤ 1
    → length digits < 2 ^ 62
    → InRange point
    → expanded_number_length (length sign) (length digits) point ≡ ok n
    → (reject_if (ltb max_expanded_number_bytes n) expansion_error
        >> ok (sign ++ place_point digits point))
      ≡ ok out
    → length out ≤ max_expanded_number_bytes
written sign digits out point n k d r e h =
    let (_, last) = >>-eq-ok (reject_if (ltb max_expanded_number_bytes n) expansion_error) _ h in
    rw (← ok-injective last) (
      omega (
        arith,
        length-append sign (place_point digits point),
        length-place_point (length sign) digits point n k d r e,
      ))

expand-le :
    (sign digits out : Text) (scale : ℤ)
    → length sign ≤ 1
    → length digits < 2 ^ 62
    → expand sign digits scale ≡ ok out
    → length out ≤ max_expanded_number_bytes
unfolding expand
expand-le sign digits out scale k d h =
    let point = int64 (pos (length digits) +ℤ scale) in
    elim (Bool-cases (exponent_overflows scale point (length digits))) [
      | inl z ↦ absurd (cc (rw z at h))
      | inr z ↦ elim (Result-cases (expanded_number_length (length sign) (length digits) point)) [
        | inr (x, e) ↦ absurd (cc (rw (z, e) at h))
        | inl (n, e) ↦
            written sign digits out point n k d (int64-InRange (pos (length digits) +ℤ scale)) e
              (rw (z, e) at h)
      ]
    ]

length-trim_left_zeros-le : (t : Text) → length (trim_left_zeros t) ≤ length t
unfolding trim_left_zeros
length-trim_left_zeros-le [] = omega arith
length-trim_left_zeros-le (c ∷ t) = ground (arith, length-trim_left_zeros-le t)

length-trim_right_zeros-le : (t : Text) → length (trim_right_zeros t) ≤ length t
unfolding trim_right_zeros
length-trim_right_zeros-le [] = omega arith
length-trim_right_zeros-le (c ∷ t) = ground (arith, length-trim_right_zeros-le t)

-- What `cut` returns on a text of the given length.
abbrev Cuts : Option (Text × Text) → ℕ → Type 0
Cuts none n = Unit
Cuts (some (a, b)) n = suc (length a + length b) ≡ n

prepend-Cuts : (c : ℕ) (o : Option (Text × Text)) (n : ℕ) → Cuts o n → Cuts (prepend c o) (suc n)
prepend-Cuts c none n h = tt
prepend-Cuts c (some (a, b)) n h = omega arith

cut-Cuts : (p : ℕ → Bool) (t : Text) → Cuts (cut p t) (length t)
unfolding cut
cut-Cuts p [] = tt
cut-Cuts p (c ∷ t) = elim (Bool-cases (p c)) [
  | inl h ↦ rw h (omega arith)
  | inr h ↦ rw h (prepend-Cuts c (cut p t) (length t) (cut-Cuts p t))
]

number_from-le :
    (sign integer fraction out : Text) (exponent : ℤ)
    → length sign ≤ 1
    → length integer + length fraction < 2 ^ 62
    → number_from sign exponent integer fraction ≡ ok out
    → length out ≤ max_expanded_number_bytes
unfolding number_from
number_from-le sign integer fraction out exponent k d h =
    let digits = trim_left_zeros (integer ++ fraction) in
    elim (Bool-cases (is_empty digits)) [
      | inl z ↦ omega (arith, ap (λ (x : Text). length x) (ok-injective (rw z at h)))
      | inr z ↦
          expand-le sign (trim_right_zeros digits) out (final_scale exponent fraction digits) k
            (omega (
              arith,
              length-trim_right_zeros-le digits,
              length-trim_left_zeros-le (integer ++ fraction),
              length-append integer fraction,
            ))
            (rw z at h)
    ]

fraction_of-le :
    (t : Text) (o : Option (Text × Text))
    → Cuts o (length t)
    → length (fraction_of t o).0 + length (fraction_of t o).1 ≤ length t
fraction_of-le t none h = omega arith
fraction_of-le t (some (a, b)) h = omega arith

exponent_of-le :
    (t m : Text) (e : ℤ) (o : Option (Text × Text))
    → Cuts o (length t)
    → exponent_of t o ≡ ok (e, m)
    → length m ≤ length t
exponent_of-le t m e none c h = omega (arith, ap (λ (r : ℤ × Text). length r.1) (ok-injective h))
exponent_of-le t m e (some (a, b)) c h = elim (Option-cases (parse_int b)) [
  | inl z ↦ absurd (cc (rw z at h))
  | inr (x, z) ↦ omega (arith, ap (λ (r : ℤ × Text). length r.1) (ok-injective (rw z at h)))
]

unsigned_number-le :
    (sign t out : Text)
    → length sign ≤ 1
    → length t < 2 ^ 62
    → unsigned_number sign t ≡ ok out
    → length out ≤ max_expanded_number_bytes
unfolding unsigned_number split_exponent split_fraction
unsigned_number-le sign t out k d h = elim (Result-cases (exponent_of t (cut is_exponent_mark t))) [
  | inr (x, z) ↦ absurd (cc (rw z at h))
  | inl ((e, m), z) ↦
      number_from-le sign (fraction_of m (cut is_point m)).0 (fraction_of m (cut is_point m)).1 out
        e k
        (omega (
          arith,
          fraction_of-le m (cut is_point m) (cut-Cuts is_point m),
          exponent_of-le t m e (cut is_exponent_mark t) (cut-Cuts is_exponent_mark t) z,
        ))
        (rw z at h)
]

-- A number that is accepted is written in at most 4096 bytes, whatever its exponent: no 64-bit sum
-- on the way wraps to an accepted length. The input is shorter than 2 ^ 62 bytes, as every text
-- that fits the memory is.
pub length-canonical_number-le :
    (t out : Text)
    → length t < 2 ^ 62
    → canonical_number t ≡ ok out
    → length out ≤ max_expanded_number_bytes
unfolding canonical_number
length-canonical_number-le [] out d h = unsigned_number-le [] [] out (omega arith) d h
length-canonical_number-le (c ∷ t) out d h = elim (Bool-cases (nat_eq c b'-')) [
  | inl z ↦ unsigned_number-le (b'-' ∷ []) t out (omega arith) (omega arith) (rw z at h)
  | inr z ↦ unsigned_number-le [] (c ∷ t) out (omega arith) d (rw z at h)
]
