-- ===== src/Types/Arrays/RoundTrip.antt =====
-- Arrays are read back from their bytes.
use srad.Prelude.{
  if_cases, push_head, ℕ, zero, suc, ◌*◌, ◌/◌, ◌%◌, ◌^◌, ◌<◌, ◌≡◌, refl, ap, ap₂, ◌∙◌, true, false,
  List, [], ◌∷◌, ◌++◌, ◌==◌, ok, length, length-append, All, split, split-append, arith, Bool,
}
use native.Mathlib.Nat.{pow-succ', mul-div_cancel, mul-mod_left}
use srad.Types.Text.{Text}
use srad.Types.Arrays.Slices.{take-append, drop-append}
use srad.Types.Arrays.{
  to_le_bytes, from_le_bytes, first_chunks, map_from, vec_to_proto, proto_to_vec,
  string_vec_to_proto, proto_to_string_vec, last_is_zero, strings,
}

pub from_le_bytes-to_le_bytes :
    (size x : ℕ) → x < 256 ^ size → from_le_bytes (to_le_bytes size x) ≡ x
from_le_bytes-to_le_bytes zero x h = omega (arith, h)
from_le_bytes-to_le_bytes (suc size) x h =
    let e = pow-succ' 256 size in
    let l : x / 256 < 256 ^ size = omega (arith, h, e) in
    omega (arith, from_le_bytes-to_le_bytes size (x / 256) l)

pub length-to_le_bytes : (size x : ℕ) → length (to_le_bytes size x) ≡ size
length-to_le_bytes zero x = refl
length-to_le_bytes (suc size) x = ap suc (length-to_le_bytes size (x / 256))

length-vec_to_proto : (size : ℕ) (xs : List ℕ) → length (vec_to_proto size xs) ≡ length xs * size
unfolding vec_to_proto
length-vec_to_proto size [] = omega arith
length-vec_to_proto size (x ∷ xs) =
    let ih = length-vec_to_proto size xs in
    rw (length-append, length-to_le_bytes size x, ih) (omega arith)

chunks-vec_to_proto :
    (size : ℕ) (xs : List ℕ)
    → All (λ x. x < 256 ^ size) xs
    → map_from (first_chunks (length xs) size (vec_to_proto size xs)) ≡ xs
unfolding vec_to_proto
chunks-vec_to_proto size [] h = refl
chunks-vec_to_proto size (x ∷ xs) h =
    let e = length-to_le_bytes size x in
    let rest = vec_to_proto size xs in
    rw (take-append size (to_le_bytes size x) rest e, drop-append size (to_le_bytes size x) rest e)
      (ap₂ ◌∷◌ (from_le_bytes-to_le_bytes size x h.0) (chunks-vec_to_proto size xs h.1))

-- An array of numbers of `size` bytes, each within its range, written as bytes and read from them,
-- is what it was.
pub proto_to_vec-vec_to_proto :
    (size : ℕ) (xs : List ℕ)
    → 0 < size
    → All (λ x. x < 256 ^ size) xs
    → proto_to_vec size (vec_to_proto size xs) ≡ ok xs
unfolding proto_to_vec
proto_to_vec-vec_to_proto size xs l h =
    let e = length-vec_to_proto size xs in
    let q : length (vec_to_proto size xs) / size ≡ length xs =
      ap (λ x. x / size) e ∙ mul-div_cancel (length xs) l in
    let r : length (vec_to_proto size xs) % size ≡ 0 =
      ap (λ x. x % size) e ∙ mul-mod_left (length xs) size in
    rw (r, q) (ap ok (chunks-vec_to_proto size xs h))

-- A string without a NUL character.
abbrev pub NoNul : Text → Type 0
NoNul s = All (λ c. (c == 0) ≡ false) s

last-string_vec_to_proto :
    (b : ℕ) (s : Text) (ss : List Text) → last_is_zero b (s ++ 0 ∷ string_vec_to_proto ss) ≡ true
unfolding string_vec_to_proto
last-string_vec_to_proto b [] [] = refl
last-string_vec_to_proto b [] (t ∷ ss) = last-string_vec_to_proto 0 t ss
last-string_vec_to_proto b (c ∷ s) ss = last-string_vec_to_proto c s ss

abbrev IsCons : List Text → Type 0
IsCons [] = ⊥
IsCons (_ ∷ _) = Unit

push_head-IsCons : (x : ℕ) (ps : List Text) → IsCons (push_head x ps)
push_head-IsCons x [] = tt
push_head-IsCons x (p ∷ ps) = tt

split-IsCons : (bs : List ℕ) → IsCons (split 0 bs)
split-IsCons [] = tt
split-IsCons (b ∷ bs) =
    if_cases IsCons (b == 0) ([] ∷ split 0 bs) (push_head b (split 0 bs)) (λ e. tt)
      (λ e. push_head-IsCons b (split 0 bs))

module _ (is_utf8 : List ℕ → Bool) where
  -- What is read after the first string.
  strings_after :
      (s : Text) (ps : List Text) (ss : List Text)
      → is_utf8 s ≡ true
      → strings is_utf8 ps ≡ ok ss
      → IsCons ps
      → strings is_utf8 (s ∷ ps) ≡ ok (s ∷ ss)
  strings_after s (p ∷ ps) ss u h c = rw (u, h) refl
  strings_after s [] ss u h c = elim c [ ]

  strings-split :
      (ss : List Text)
      → All (λ s. NoNul s × (is_utf8 s ≡ true)) ss
      → strings is_utf8 (split 0 (string_vec_to_proto ss)) ≡ ok ss
  unfolding string_vec_to_proto
  strings-split [] h = refl
  strings-split (s ∷ ss) h = rw (split-append 0 s (string_vec_to_proto ss) h.0.0) (
      strings_after s (split 0 (string_vec_to_proto ss)) ss h.0.1 (strings-split ss h.1)
        (split-IsCons (string_vec_to_proto ss)))

  -- An array of strings without NUL characters, each valid UTF-8, written as bytes and read from
  -- them, is what it was.
  pub proto_to_string_vec-string_vec_to_proto :
      (ss : List Text)
      → All (λ s. NoNul s × (is_utf8 s ≡ true)) ss
      → proto_to_string_vec is_utf8 (string_vec_to_proto ss) ≡ ok ss
  unfolding proto_to_string_vec string_vec_to_proto
  proto_to_string_vec-string_vec_to_proto [] h = refl
  proto_to_string_vec-string_vec_to_proto ([] ∷ ss) h =
      rw (last-string_vec_to_proto 0 [] ss) (strings-split ([] ∷ ss) h)
  proto_to_string_vec-string_vec_to_proto ((c ∷ s) ∷ ss) h =
      rw (last-string_vec_to_proto c s ss) (strings-split ((c ∷ s) ∷ ss) h)
