-- ===== src/Arena/Slices.antt =====
-- The slices that src/memory/arena.cpp hands out of what was written to an arena.
use pars_c.Common.{
  ℕ, zero, suc, ◌+◌, ◌-◌, ◌<◌, ◌≤◌, [], ◌∷◌, ◌++◌, ◌≡◌, refl, sym, ap, ap₂, ◌∙◌, arith, Bytes,
  length, get_or,
}
use pars_c.Arena.{Arena, u64, copy_to, write, view_of, get_slice}

-- Below the place that is written nothing changes.
view_of-copy_to_below :
    (m : ℕ → ℕ) (start : ℕ) (bytes : Bytes) (count from : ℕ)
    → from + count ≤ start
    → view_of (copy_to m start bytes) from count ≡ view_of m from count
unfolding view_of copy_to
view_of-copy_to_below m start bytes zero from h = refl
view_of-copy_to_below m start bytes (suc count) from h =
    ground (arith, view_of-copy_to_below m start bytes count (from + 1))

suc_shift : (a b : ℕ) → suc a + b ≡ suc (a + b)
suc_shift a b = omega arith

sub_self : (a : ℕ) → a - a ≡ 0
sub_self a = omega arith

next_start : (from a : ℕ) → (from + 1) + a ≡ from + suc a
next_start from a = omega arith

view_of-append :
    (m : ℕ → ℕ) (a b from : ℕ) → view_of m from (a + b) ≡ view_of m from a ++ view_of m (from + a) b
unfolding view_of
view_of-append m zero b from =
    let e : from + 0 ≡ from = omega arith in let z : 0 + b ≡ b = omega arith in rw (e, z)
view_of-append m (suc a) b from =
    rw (suc_shift a b)
      (rw (← next_start from a) (ap (◌∷◌ (m from)) (view_of-append m a b (from + 1))))

view_of-pointwise :
    (m : ℕ → ℕ) (bytes : Bytes) (from : ℕ)
    → ((i : ℕ) → i < length bytes → m (from + i) ≡ get_or bytes i 0)
    → view_of m from (length bytes) ≡ bytes
unfolding view_of
view_of-pointwise m [] from h = refl
view_of-pointwise m (x ∷ bytes) from h =
    let z : from + 0 ≡ from = omega arith in
    ap₂ ◌∷◌ (ap m (sym z) ∙ h 0 (omega arith)) (
      view_of-pointwise m bytes (from + 1)
        (λ i p. ap m (next_start from i) ∙ h (suc i) (omega arith)))

view_of-copy_to :
    (m : ℕ → ℕ) (start : ℕ) (bytes : Bytes)
    → view_of (copy_to m start bytes) start (length bytes) ≡ bytes
unfolding copy_to
view_of-copy_to m start bytes =
    view_of-pointwise (copy_to m start bytes) bytes start
      λ i h. let e : (start + i) - start ≡ i = omega arith in ground arith

-- An arena that is within bounds, and has room for `count` bytes more.
pub record HasRoom (a : Arena) (count : ℕ) : Type 0 where
  pub within : a.occupied + count ≤ a.capacity
  pub addressable : a.capacity < 4294967295

pub occupied-write :
    (a : Arena) (bytes : Bytes)
    → HasRoom a (length bytes)
    → (write bytes a).occupied ≡ a.occupied + length bytes
unfolding write
occupied-write a bytes h = omega arith

slice_size :
    (a : Arena) (start : ℕ)
    → start ≤ a.occupied
    → a.occupied < 4294967295
    → u64 (a.occupied + 18446744073709551616 - start) ≡ a.occupied - start
slice_size a start h k = omega arith

-- What was handed out stays as it is.
pub view_of-write :
    (a : Arena) (bytes : Bytes) (from count : ℕ)
    → from + count ≤ a.occupied
    → view_of (write bytes a).memory from count ≡ view_of a.memory from count
unfolding write
view_of-write a bytes from count = view_of-copy_to_below a.memory a.occupied bytes count from

pub view_of-write_end :
    (a : Arena) (bytes : Bytes) → view_of (write bytes a).memory a.occupied (length bytes) ≡ bytes
unfolding write
view_of-write_end a bytes = view_of-copy_to a.memory a.occupied bytes

-- A slice that reaches to the end grows by what is written.
pub get_slice-write :
    (a : Arena) (bytes : Bytes) (start : ℕ)
    → start ≤ a.occupied
    → HasRoom a (length bytes)
    → get_slice start (write bytes a) ≡ get_slice start a ++ bytes
unfolding get_slice
get_slice-write a bytes start h room =
    let o = occupied-write a bytes room in
    let before = slice_size a start h (omega (arith, room.within, room.addressable)) in
    let after : u64 ((write bytes a).occupied + 18446744073709551616 - start)
        ≡ (a.occupied - start) + length bytes =
      omega (arith, o, room.within, room.addressable) in
    let place : start + (a.occupied - start) ≡ a.occupied = omega arith in
    rw (after, before)
      (view_of-append (write bytes a).memory (a.occupied - start) (length bytes) start
        ∙ ap₂ ◌++◌ (view_of-write a bytes start (a.occupied - start) (omega arith)) (
            ap (λ n. view_of (write bytes a).memory n (length bytes)) place
            ∙ view_of-write_end a bytes))

pub get_slice_end : (a : Arena) → a.occupied < 4294967295 → get_slice a.occupied a ≡ []
unfolding get_slice view_of
get_slice_end a h = rw (slice_size a a.occupied (omega arith) h, sub_self a.occupied)

pub HasRoom-mono : (a : Arena) {m : ℕ} (n : ℕ) → HasRoom a m → n ≤ m → HasRoom a n
HasRoom-mono a n room h = record {
  within = omega (arith, room.within);
  addressable = room.addressable;
}

pub HasRoom-write :
    (a : Arena) (bytes : Bytes) {m : ℕ} (n : ℕ)
    → HasRoom a m
    → length bytes + n ≤ m
    → HasRoom (write bytes a) n
unfolding write
HasRoom-write a bytes n room h = record {
  within = omega (arith, room.within, room.addressable);
  addressable = room.addressable;
}

-- Two writes that the arena has room for are read back as one slice.
pub get_slice-write-write :
    (a : Arena) (bytes more : Bytes)
    → HasRoom a (length bytes)
    → HasRoom (write bytes a) (length more)
    → get_slice a.occupied (write more (write bytes a)) ≡ bytes ++ more
get_slice-write-write a bytes more room room' =
    let o = occupied-write a bytes room in
    get_slice-write (write bytes a) more a.occupied (omega (arith, o)) room'
    ∙ rw (
      get_slice-write a bytes a.occupied (omega arith) room,
      get_slice_end a (omega (arith, room.within, room.addressable)),
    )
