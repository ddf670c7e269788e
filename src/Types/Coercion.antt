-- ===== src/Types/Coercion.antt =====
-- What `is_assignable_from` of src/type.cpp makes of numbers, of pointers, and of arrays and slices.
use pars_c.Common.{
  Bool, Bytes, List, Option, ap, arith, false, inl, inr, none, refl, some, suc, true, zero, ℕ, ◌+◌,
  ◌<◌, ◌≡◌, ◌∙◌, ◌⊎◌, sym,
}
use mathlib.Core.Path.{subst}
use pars_c.Types.{
  TypeNode, TypeStore, is_slice, slice, alias, array, bool, can_coerce_into, char,
  check_type_equality, coerces_of, equal_of, float, integer, integral_coerces, integral_of,
  is_assignable_from, is_equal, or_else, pointer, pointer_equal, produced, void, void_equal,
  void_pointer,
}
use pars_c.Types.Ranks.{Answers, Ranked, Under}
use pars_c.Types.Answers.{can_coerce_into-Answers, check_type_equality-Answers, is_equal-Answers}
use pars_c.Types.Equality.{produced_self, real_alias}

-- The numbers among the types: integers, floats, booleans and characters.
abbrev pub IsNumber : TypeNode → Type 0
IsNumber (integer bits s) = Unit
IsNumber (float bits s) = Unit
IsNumber (bool bits s) = Unit
IsNumber (char bits s) = Unit
IsNumber _ = ⊥

bits_of : TypeNode → ℕ
bits_of (integer bits s) = bits
bits_of (float bits s) = bits
bits_of (bool bits s) = bits
bits_of (char bits s) = bits
bits_of _ = 0

sign_of : TypeNode → Bool
sign_of (integer bits s) = s
sign_of (float bits s) = s
sign_of (bool bits s) = s
sign_of (char bits s) = s
sign_of _ = false

or_else_any :
    (x y z : Option Bool)
    → Answers x
    → Answers y
    → (y ≡ some true) ⊎ (z ≡ some true)
    → or_else x (or_else y z) ≡ some true
or_else_any none y z h k c = absurd h
or_else_any (some true) y z h k c = refl
or_else_any (some false) none z h k c = absurd k
or_else_any (some false) (some true) z h k c = refl
or_else_any (some false) (some false) z h k (inl e) = cc
or_else_any (some false) (some false) z h k (inr e) = e

-- How a number `p` is coerced into the type `b`.
abbrev by_bits : TypeStore → TypeNode → ℕ → Option Bool
by_bits t p b = some (integral_coerces (bits_of p) (sign_of p) (integral_of (produced t b)))

module _ (t : TypeStore) (rank : ℕ → ℕ) (ranked : Ranked t rank) where
  alias_step :
      (n a b type : ℕ) (name : Bytes) (is_distinct : Bool)
      → t.node a ≡ alias name is_distinct type
      → can_coerce_into t (suc n) a b ≡ can_coerce_into t n type b
  unfolding can_coerce_into coerces_of
  alias_step n a b type name is_distinct e = rw e

  void-equal : (n v : ℕ) → 0 < n → t.node v ≡ void → is_equal t n v t.void_type ≡ some true
  unfolding is_equal equal_of void_equal
  void-equal zero v lt e = absurd (omega arith)
  void-equal (suc n) v lt e = rw (e, ranked.void_is)

  -- One of two pointers is to `void`.
  pointers_equal :
      (n x y : ℕ)
      → rank x + rank y < n
      → (t.node x ≡ void) ⊎ (t.node y ≡ void)
      → pointer_equal t (is_equal t n) x (pointer y) ≡ some true
  unfolding pointer_equal
  pointers_equal n x y lt c =
      let lowest = ranked.void_rank in
      or_else_any _ _ _ (is_equal-Answers t rank ranked n x y lt)
        (is_equal-Answers t rank ranked n y t.void_type (omega arith))
        (elim c [
          | inl e ↦ inr (void-equal n x (omega arith) e)
          | inr e ↦ inl (void-equal n y (omega arith) e)
        ])

  pointer-equal :
      (n from to x y : ℕ)
      → rank from + rank to < n
      → (t.node from ≡ pointer x) ⊎ (t.node from ≡ void_pointer x)
      → t.node to ≡ pointer y
      → (t.node x ≡ void) ⊎ (t.node y ≡ void)
      → is_equal t n from to ≡ some true
  unfolding is_equal equal_of
  pointer-equal zero from to x y lt p q c = absurd (omega arith)
  pointer-equal (suc n) from to x y lt (inl p) q c =
      let u : rank x < rank from = subst (Under rank (rank from)) p (ranked.below from) in
      let w : rank y < rank to = subst (Under rank (rank to)) q (ranked.below to) in
      rw (p, produced_self t to (pointer y) q refl) (pointers_equal n x y (omega arith) c)
  pointer-equal (suc n) from to x y lt (inr p) q c =
      let u : rank x < rank from = subst (Under rank (rank from)) p (ranked.below from) in
      let w : rank y < rank to = subst (Under rank (rank to)) q (ranked.below to) in
      rw (p, produced_self t to (pointer y) q refl) (pointers_equal n x y (omega arith) c)

  -- Where no type contains itself, with fuel for more than the sum of the ranks, a pointer, the type
  -- of `nil` among them, can be assigned to a pointer if one of them points to `void`.
  pub is_assignable_from-pointers :
      (n from to x y : ℕ)
      → rank from + rank to < n
      → (t.node from ≡ pointer x) ⊎ (t.node from ≡ void_pointer x)
      → t.node to ≡ pointer y
      → (t.node x ≡ void) ⊎ (t.node y ≡ void)
      → is_assignable_from t n from to ≡ some true
  unfolding is_assignable_from check_type_equality
  is_assignable_from-pointers n from to x y lt p q c = rw (pointer-equal n from to x y lt p q c)

  array_itself :
      (n a b size element element' : ℕ) (members : List Bytes)
      → t.node a ≡ array size element members
      → produced t b ≡ slice element'
      → can_coerce_into t (suc n) a b ≡ some true
  unfolding can_coerce_into coerces_of is_slice
  array_itself n a b size element element' members e q = rw (e, q)

  -- An array, or an alias of one, is coerced into any slice.
  can_coerce_into-slice :
      (n a b size element element' : ℕ) (members : List Bytes) (node : TypeNode)
      → t.node a ≡ node
      → produced t a ≡ array size element members
      → produced t b ≡ slice element'
      → rank a < n
      → can_coerce_into t n a b ≡ some true
  can_coerce_into-slice zero a b size x y members node e p q lt = absurd (omega arith)
  can_coerce_into-slice (suc zero) a b size x y members (alias name d type) e p q lt =
      let under : rank type < rank a = subst (Under rank (rank a)) e (ranked.below a) in
      absurd (omega arith)
  can_coerce_into-slice (suc (suc n)) a b size x y members (alias name d type) e p q lt =
      alias_step (suc n) a b type name d e
      ∙ array_itself n type b size x y members (sym (ap t.node (real_alias t a name d type e)) ∙ p)
          q
  can_coerce_into-slice (suc n) a b size x y members node e p q lt =
      array_itself n a b size x y members (e ∙ sym (produced_self t a node e refl) ∙ p) q

  -- Where no type contains itself, with fuel for more than the sum of the ranks, an array can be
  -- assigned to a slice, and the slice to the array, whatever the types of their elements are and
  -- whether they are behind an alias, distinct or not.
  pub is_assignable_from-slices :
      (n a b size element element' : ℕ) (members : List Bytes)
      → rank a + rank b < n
      → produced t a ≡ array size element members
      → produced t b ≡ slice element'
      → (is_assignable_from t n a b ≡ some true) × (is_assignable_from t n b a ≡ some true)
  unfolding is_assignable_from
  is_assignable_from-slices n a b size x y members lt p q =
      let coerced =
        can_coerce_into-slice n a b size x y members (t.node a) refl p q (omega arith) in
      (
        or_else_any _ _ _ (check_type_equality-Answers t rank ranked n a b lt)
            (can_coerce_into-Answers t rank ranked n b a (omega arith)) (inr coerced),
        or_else_any _ _ _ (check_type_equality-Answers t rank ranked n b a (omega arith))
            (can_coerce_into-Answers t rank ranked n a b (omega arith)) (inl coerced),
      )
