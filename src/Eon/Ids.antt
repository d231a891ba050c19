-- ===== src/Eon/Ids.antt =====
-- The loops of `generate_alias` in srad-eon/src/birth.rs and of `generate_device_id` in
-- srad-eon/src/device.rs: the first number, from a hash on, that is not taken. Their `+= 1` wraps
-- at 64 and at 32 bits.
pub mod Free
use srad.Prelude.{ℕ, zero, suc, ◌+◌, ◌%◌, true, false, List, contains, nat_eq}

-- The loop `while taken.contains(&id) { id += 1 }`. Of one number more than are taken, one is free,
-- so as many rounds as there are taken numbers are enough, and `next_free` needs no more fuel.
unfoldable pub next_free : (limit fuel : ℕ) → List ℕ → ℕ → ℕ
next_free limit zero taken id = id
next_free limit (suc fuel) taken id = elim (contains id taken) [
  | true ↦ next_free limit fuel taken ((id + 1) % limit)
  | false ↦ id
]
