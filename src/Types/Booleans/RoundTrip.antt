-- ===== src/Types/Booleans/RoundTrip.antt =====
-- Arrays of booleans are read back from their bytes, but for the last eight of full bytes.
use srad.Prelude.{
  ℕ, zero, suc, ◌+◌, ◌-◌, ◌*◌, ◌/◌, ◌%◌, ◌^◌, ◌<◌, ◌≤◌, ◌≡◌, refl, ap, ap₂, ◌∙◌, Bool, true, false,
  ◌&&◌, Option, none, some, List, [], ◌∷◌, ◌++◌, ◌==◌, if◌then◌else◌, ok, length, length-append,
  map, arith, Eq, list_eq, ◌↔◌, append_assoc, Bool-cases, subst, inl, inr, ltb,
}
use srad.Types.Arrays.{to_le_bytes, from_le_bytes, take, drop, first_chunks}
use srad.Types.Arrays.RoundTrip.{length-to_le_bytes, from_le_bytes-to_le_bytes}
use srad.Types.Arrays.Slices.{
  take-append, drop-append, take-length, length-take, length-drop, take-drop, take-take,
}
use srad.Types.Booleans.{
  bool_vec_to_proto, proto_to_bool_vec, pack_byte_with_bool, bits_from, read_bits, last_bits,
  all_bits, push_all, get_elem?, div_ceil,
}

-- A test of every list of at most `n` booleans.
every : ℕ → (List Bool → Bool) → Bool
every zero p = p []
every (suc n) p = p [] && (every n (λ bs. p (true ∷ bs)) && every n (λ bs. p (false ∷ bs)))

every_sound :
    (n : ℕ) (p : List Bool → Bool) (bs : List Bool) → every n p ≡ true → length bs ≤ n → p bs ≡ true
unfolding every
every_sound zero p [] h l = h
every_sound zero p (b ∷ bs) h l = absurd (omega (arith, l))
every_sound (suc n) p [] h l = ground (arith, h)
every_sound (suc n) p (true ∷ bs) h l =
    every_sound n (λ bs. p (true ∷ bs)) bs (ground (arith, h)) (omega (arith, l))
every_sound (suc n) p (false ∷ bs) h l =
    every_sound n (λ bs. p (false ∷ bs)) bs (ground (arith, h)) (omega (arith, l))

abbrev same_bool : Bool → Bool → Bool
same_bool true b = b
same_bool false true = false
same_bool false false = true

same_bool_iff : (b c : Bool) → (same_bool b c ≡ true) ↔ (b ≡ c)
same_bool_iff true true = ground arith
same_bool_iff true false = ground arith
same_bool_iff false true = ground arith
same_bool_iff false false = ground arith

instance abbrev bool_eq : Eq Bool
bool_eq = record { beq = same_bool; beq_iff = same_bool_iff }

abbrev read_back : List Bool → Bool
read_back bs = list_eq.beq (bits_from (length bs) 0 (pack_byte_with_bool bs)) bs

-- All 511 lists.
bytes_read_back : every 8 read_back ≡ true
unfolding every pack_byte_with_bool
bytes_read_back = refl

bits_from-pack :
    (bs : List Bool) → length bs ≤ 8 → bits_from (length bs) 0 (pack_byte_with_bool bs) ≡ bs
bits_from-pack bs l =
    (list_eq.beq_iff (bits_from (length bs) 0 (pack_byte_with_bool bs)) bs).0
      (every_sound 8 read_back bs bytes_read_back l)

-- What is left of an array: of full bytes, all but the last.
abbrev pub kept : List Bool → List Bool
kept bs = if length bs % 8 == 0 then take (length bs - 8) bs else bs

push_all-append :
    (a b : List Bool) (o : Option (List Bool)) → push_all (a ++ b) o ≡ push_all a (push_all b o)
push_all-append a b none = refl
push_all-append a b (some c) = ap some (append_assoc a b c)

-- The bytes of the first `k + 1` chunks.
abbrev bytes : ℕ → List Bool → List ℕ
bytes k bs = map pack_byte_with_bool (first_chunks (suc k) 8 bs)

last_bits_of_byte : (n b : ℕ) → last_bits n (some b) ≡ some (bits_from n 0 b)
last_bits_of_byte zero b = refl
last_bits_of_byte (suc n) b = refl

last_chunk :
    (bs : List Bool)
    → 0 < length bs
    → length bs ≤ 8
    → last_bits (length bs % 8) (some (pack_byte_with_bool (take 8 bs))) ≡ some (kept bs)
last_chunk bs p l = elim (Bool-cases (length bs % 8 == 0)) [
  | inl e ↦
      let z : length bs % 8 ≡ 0 = ground (arith, e) in
      let n : length bs - 8 ≡ 0 = omega (arith, z, p, l) in rw (z, n) refl
  | inr e ↦
      let m : length bs % 8 ≡ length bs = ground (arith, e, l) in
      let e' : (length bs == 0) ≡ false = ground (arith, p) in
      rw (take-length 8 bs l, m, e', last_bits_of_byte (length bs) (pack_byte_with_bool bs))
        (ap some (bits_from-pack bs l))
]

kept-drop : (bs : List Bool) → 8 < length bs → take 8 bs ++ kept (drop 8 bs) ≡ kept bs
kept-drop bs l =
    let d = length-drop 8 bs in
    let m : length (drop 8 bs) % 8 ≡ length bs % 8 = omega (arith, d, l) in
    elim (Bool-cases (length bs % 8 == 0)) [
      | inl e ↦
          let s : length bs - 8 ≡ 8 + (length (drop 8 bs) - 8) = ground (arith, d, l, e) in
          rw (m, e) (take-take 8 (length (drop 8 bs) - 8) (length bs - 8) bs s)
      | inr e ↦ rw (m, e) (take-drop 8 bs)
    ]

read_more :
    (b : ℕ) (c y : List Bool) (x : List ℕ) (o : Option (List Bool))
    → bits_from 8 0 b ≡ c
    → push_all (all_bits x) o ≡ some y
    → push_all (all_bits (b ∷ x)) o ≡ some (c ++ y)
read_more b c y x o e h = push_all-append (bits_from 8 0 b) (all_bits x) o ∙ ap₂ push_all e h

read_bytes :
    (k : ℕ) (bs : List Bool)
    → 8 * k < length bs
    → length bs ≤ 8 * k + 8
    → push_all
        (all_bits (take k (bytes k bs)))
        (last_bits (length bs % 8) (get_elem? (bytes k bs) k))
      ≡ some (kept bs)
read_bytes zero bs p l = rw (last_chunk bs (omega (arith, p)) (omega (arith, l))) refl
read_bytes (suc k) bs p l =
    let d = length-drop 8 bs in
    let t : length (take 8 bs) ≡ 8 = length-take 8 bs (omega (arith, p)) in
    let m : length (drop 8 bs) % 8 ≡ length bs % 8 = omega (arith, d, p) in
    let c = bits_from-pack (take 8 bs) (omega (arith, t)) in
    let ih = read_bytes k (drop 8 bs) (omega (arith, d, p)) (omega (arith, d, p, l)) in
    read_more (pack_byte_with_bool (take 8 bs)) (take 8 bs) (kept (drop 8 bs))
      (take k (bytes k (drop 8 bs))) (last_bits (length bs % 8) (get_elem? (bytes k (drop 8 bs)) k))
      (subst (λ n. bits_from n 0 (pack_byte_with_bool (take 8 bs)) ≡ take 8 bs) t c)
      (subst
        (λ n.
          push_all (all_bits (take k (bytes k (drop 8 bs))))
            (last_bits n (get_elem? (bytes k (drop 8 bs)) k))
          ≡ some (kept (drop 8 bs)))
        m ih)
    ∙ ap some (kept-drop bs (omega (arith, p)))

length-bytes : (k : ℕ) (bs : List Bool) → length (bytes k bs) ≡ suc k
length-bytes zero bs = refl
length-bytes (suc k) bs = ap suc (length-bytes k (drop 8 bs))

-- An array of `n` booleans in `q + 1` bytes.
read_array :
    (head packed : List ℕ) (n q : ℕ) (r : List Bool)
    → length head ≡ 4
    → from_le_bytes head ≡ n
    → 0 < n
    → length packed ≡ suc q
    → div_ceil n 8 ≡ suc q
    → push_all (all_bits (take q packed)) (last_bits (n % 8) (get_elem? packed q)) ≡ some r
    → proto_to_bool_vec (head ++ packed) ≡ some (ok r)
unfolding proto_to_bool_vec read_bits
read_array head packed n q r l c p m d h =
    let a : length (head ++ packed) ≡ 5 + q = omega (arith, length-append head packed, l, m) in
    let b : ltb (5 + q) 4 ≡ false = ground arith in
    let z : (n == 0) ≡ false = ground (arith, p) in
    let f : ltb (5 + q) (4 + suc q) ≡ false = ground arith in
    let s : 5 + q - 4 - 1 ≡ q = omega arith in
    rw (a, b, take-append 4 head packed l, drop-append 4 head packed l, c, z, d, f, s, h) refl

-- An array of fewer than 2 ^ 32 booleans, written as bytes and read from them, is what it was when
-- their number is not a multiple of 8; when it is, the last eight of them are lost. There is no
-- panic and no error.
pub proto_to_bool_vec-bool_vec_to_proto :
    (bs : List Bool)
    → length bs < 2 ^ 32
    → proto_to_bool_vec (bool_vec_to_proto bs) ≡ some (ok (kept bs))
unfolding bool_vec_to_proto proto_to_bool_vec
proto_to_bool_vec-bool_vec_to_proto [] l = refl
proto_to_bool_vec-bool_vec_to_proto (b ∷ bs) l =
    let n = length (b ∷ bs) in
    let q = (n - 1) / 8 in
    let e : n % 2 ^ 32 ≡ n = omega (arith, l) in
    let d : div_ceil n 8 ≡ suc q = omega arith in
    rw (e, d)
      (read_array (to_le_bytes 4 n) (bytes q (b ∷ bs)) n q (kept (b ∷ bs)) (length-to_le_bytes 4 n)
        (from_le_bytes-to_le_bytes 4 n (omega (arith, l))) (omega arith) (length-bytes q (b ∷ bs)) d
        (read_bytes q (b ∷ bs) (omega arith) (omega arith)))
