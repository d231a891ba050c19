-- ===== src/Eon/Ids/Free.antt =====
-- The number that the loop ends with is not taken, and it is the first such.
use srad.Prelude.{
  ℕ, zero, suc, ◌+◌, ◌-◌, ◌%◌, ◌≤◌, ◌<◌, ◌≡◌, true, false, List, [], ◌∷◌, contains, nat_eq, leb,
  ltb, length, if◌then◌else◌, arith, Bool-cases, inl, inr,
}
use native.Mathlib.Nat.{mod-eq_of_lt, mod_self}
use srad.Eon.Ids.{next_free}

-- How far `x` is after `start`, counted up with the wrap.
abbrev pub distance : (limit start x : ℕ) → ℕ
distance limit start x = if leb start x then x - start else (x + limit) - start

-- How many taken numbers are `n` or more after `start`.
ahead : (limit start n : ℕ) → List ℕ → ℕ
ahead limit start n [] = 0
ahead limit start n (x ∷ xs) =
    let rest = ahead limit start n xs in if leb n (distance limit start x) then suc rest else rest

ahead-length : (limit start n : ℕ) (xs : List ℕ) → ahead limit start n xs ≤ length xs
unfolding ahead
ahead-length limit start n [] = omega arith
ahead-length limit start n (x ∷ xs) = ground (arith, ahead-length limit start n xs)

ahead_mono :
    (limit start n : ℕ) (xs : List ℕ) → ahead limit start (suc n) xs ≤ ahead limit start n xs
unfolding ahead
ahead_mono limit start n [] = omega arith
ahead_mono limit start n (x ∷ xs) = ground (arith, ahead_mono limit start n xs)

-- A taken number is no longer ahead once it is passed.
ahead-contains :
    (limit start n id : ℕ) (xs : List ℕ)
    → distance limit start id ≡ n
    → contains id xs ≡ true
    → ahead limit start (suc n) xs < ahead limit start n xs
unfolding ahead contains
ahead-contains limit start n id [] d c = ground arith
ahead-contains limit start n id (x ∷ xs) d c =
    ground (
      arith,
      nat_eq.beq_iff x id,
      ahead-contains limit start n id xs d,
      ahead_mono limit start n xs,
    )

next-wraps :
    (limit id : ℕ) → id < limit → (id + 1) % limit ≡ (if ltb (id + 1) limit then id + 1 else 0)
next-wraps limit id h = elim (Bool-cases (ltb (id + 1) limit)) [
  | inl e ↦ rw e (mod-eq_of_lt (ground arith))
  | inr e ↦ let s : id + 1 ≡ limit = ground arith in rw (e, s) (mod_self limit)
]

-- The next number is one further from the start, until all numbers are passed.
distance-next :
    (limit start n id : ℕ)
    → start < limit
    → id < limit
    → distance limit start id ≡ n
    → n + 1 < limit
    → (distance limit start ((id + 1) % limit) ≡ n + 1) × ((id + 1) % limit < limit)
distance-next limit start n id s h d l = rw (next-wraps limit id h) (ground arith)

-- `id` is not taken, and it is at most so many numbers after the start as are taken.
pub record IsFree (limit start : ℕ) (taken : List ℕ) (id : ℕ) : Type 0 where
  pub free : contains id taken ≡ false
  pub below : id < limit
  pub near : distance limit start id ≤ length taken

next_free-from :
    (limit start fuel n id : ℕ) (taken : List ℕ)
    → start < limit
    → id < limit
    → distance limit start id ≡ n
    → ahead limit start n taken ≤ fuel
    → n + ahead limit start n taken ≤ length taken
    → length taken < limit
    → IsFree limit start taken (next_free limit fuel taken id)
unfolding next_free
next_free-from limit start zero n id taken s i d f w l = record {
  free = ground (arith, ahead-contains limit start n id taken d);
  below = i;
  near = ground arith;
}
next_free-from limit start (suc fuel) n id taken s i d f w l =
    elim (Bool-cases (contains id taken)) [
      | inl e ↦
          let p = ahead-contains limit start n id taken d e in
          let q = distance-next limit start n id s i d (omega (arith, p, w, l)) in
          rw (next_free, e)
            (next_free-from limit start fuel (n + 1) ((id + 1) % limit) taken s q.1 q.0
              (ground (arith, p, f)) (ground (arith, p, w)) l)
      | inr e ↦ rw (next_free, e) (record { free = e; below = i; near = ground arith })
    ]

-- From any number on, with as much fuel as there are taken numbers, fewer than all: the loop ends
-- at a number that is not taken, at most so many steps on as there are taken numbers.
pub next_free-IsFree :
    (limit start : ℕ) (taken : List ℕ)
    → start < limit
    → length taken < limit
    → IsFree limit start taken (next_free limit (length taken) taken start)
next_free-IsFree limit start taken s l =
    next_free-from limit start (length taken) 0 start taken s s (ground arith)
      (ahead-length limit start 0 taken) (omega (arith, ahead-length limit start 0 taken)) l
