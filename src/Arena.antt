-- ===== src/Arena.antt =====
-- src/memory/arena.hpp, src/memory/arena.cpp: a region that is only ever appended to. Its
-- memory is a function from addresses, counted from the start of the region, to bytes.
pub mod Slices
use pars_c.Common.{
  ℕ, zero, suc, ◌+◌, ◌-◌, ◌%◌, ◌&&◌, [], ◌∷◌, Bytes, length, get_or, ltb, leb, if◌then◌else◌,
}

pub record Arena : Type 0 where
  pub memory : ℕ → ℕ
  pub capacity : ℕ
  pub occupied : ℕ

abbrev pub u64 : ℕ → ℕ
u64 n = n % 18446744073709551616

-- `fresh` is the memory that `virtual_alloc` hands out.
unfoldable pub init : ℕ → (ℕ → ℕ) → Arena
init capacity fresh = record { memory = fresh; capacity = capacity; occupied = 0 }

-- `memcpy` to `memory + start`
unfoldable pub copy_to : (ℕ → ℕ) → ℕ → Bytes → ℕ → ℕ
copy_to memory start bytes i =
    if leb start i && ltb i (start + length bytes) then get_or bytes (i - start) 0 else memory i

-- The capacity is not looked at.
unfoldable pub write : Bytes → Arena → Arena
unfolding copy_to
write bytes a = record a {
  memory = copy_to a.memory a.occupied bytes;
  occupied = u64 (a.occupied + length bytes);
}

-- the bytes of a `std::string_view` of `count` bytes at `start`
unfoldable pub view_of : (ℕ → ℕ) → ℕ → ℕ → Bytes
view_of memory start zero = []
view_of memory start (suc count) = memory start ∷ view_of memory (start + 1) count

unfoldable pub get_slice : ℕ → Arena → Bytes
get_slice start a = view_of a.memory start (u64 (a.occupied + 18446744073709551616 - start))
