-- ===== src/Types/Answers.antt =====
-- The fuel of the tests of src/type.cpp on the equality and the assignability of types.
use pars_c.Common.{
  Bool-cases, ap, ==_iff, Bool, Option, arith, false, inl, inr, refl, some, suc, true, zero, ℕ, ◌+◌,
  ◌<◌, ◌==◌, ◌≡◌, ◌≤◌, ◌⊎◌, if◌then◌else◌,
}
use pars_c.Types.{
  TypeNode, TypeStore, alias, and_then, array, bool, can_coerce_into, char, check_type_equality,
  coerces_of, element_equal, enum, equal_of, float, fn, get_inner, get_real_type, integer, is_array,
  is_assignable_from, is_equal, packed, pointer, produced, range, slice, str, struct,
  unresolved_symbol, void, void_pointer,
}
use pars_c.Types.Ranks.{
  Answers, Ranked, Under, array_equal-Answers, bool_equal-Answers, char_equal-Answers,
  float_equal-Answers, fn_equal-Answers, integer_equal-Answers, is_array_cases, or_else-Answers,
  pointer_equal-Answers, range_equal-Answers, real-le, str_equal-Answers, struct_equal-Answers,
  void_equal-Answers,
}

module _ (t : TypeStore) (rank : ℕ → ℕ) (ranked : Ranked t rank) where
  slice-Answers :
      (eq : ℕ → ℕ → Option Bool) (n b element : ℕ)
      → ((x : ℕ) → rank x < rank b → Answers (eq element x))
      → (is_array t n b ≡ some false)
        ⊎ ((x : ℕ) × (is_array t n b ≡ some true) × (get_inner t n b ≡ some x) × (rank x < rank b))
      → Answers (and_then (is_array t n b) (element_equal t eq element (get_inner t n b)))
  unfolding element_equal
  slice-Answers eq n b element h (inl e) = rw e tt
  slice-Answers eq n b element h (inr (x, found, inner, less)) = rw (found, inner) (h x less)

  module _ (n a b : ℕ) (eq : ℕ → ℕ → Option Bool)
      (h : (x y : ℕ) → rank x + rank y < rank a + rank b → Answers (eq x y))
      (le : rank a + rank b ≤ n) where
    lower : (x y : ℕ) → rank x + rank y < rank a + rank (get_real_type t b) → Answers (eq x y)
    lower x y lt = let bound = real-le t rank ranked b (t.node b) refl in h x y (omega arith)

    other : Under rank (rank (get_real_type t b)) (produced t b)
    other = ranked.below (get_real_type t b)

    distinct-Answers :
        (type : ℕ) → rank type < rank a → Answers (if a == b then eq type type else some false)
    distinct-Answers type u = elim (Bool-cases (a == b)) [
      | inl e ↦ rw e (h type type (omega (arith, ap rank ((==_iff a b).0 e))))
      | inr e ↦ rw e tt
    ]

    equal_of-Answers :
        (node : TypeNode) → Under rank (rank a) node → Answers (equal_of t eq n a b node)
    unfolding equal_of
    equal_of-Answers (unresolved_symbol name) u = tt
    equal_of-Answers void u = void_equal-Answers (t.node b)
    equal_of-Answers (integer bits s) u = integer_equal-Answers bits s (t.node b)
    equal_of-Answers (float bits s) u = float_equal-Answers bits s (t.node b)
    equal_of-Answers (bool bits s) u = bool_equal-Answers bits s (t.node b)
    equal_of-Answers (char bits s) u = char_equal-Answers bits s (t.node b)
    equal_of-Answers (void_pointer x) u =
        pointer_equal-Answers t rank ranked eq _ _ lower x (produced t b) u other
    equal_of-Answers (pointer x) u =
        pointer_equal-Answers t rank ranked eq _ _ lower x (produced t b) u other
    equal_of-Answers packed u = tt
    equal_of-Answers str u = str_equal-Answers (t.node b)
    equal_of-Answers range u = range_equal-Answers (t.node b)
    equal_of-Answers (alias name true type) u = distinct-Answers type u
    equal_of-Answers (alias name false type) u =
        let bound = real-le t rank ranked b (t.node b) refl in
        h type (get_real_type t b) (omega arith)
    equal_of-Answers (struct name fields) u =
        struct_equal-Answers t rank ranked eq _ _ lower name fields (a == b) (produced t b) u other
    equal_of-Answers (array size x members) u =
        array_equal-Answers t rank ranked eq _ _ lower size x (produced t b) u other
    equal_of-Answers (slice x) u =
        slice-Answers eq n b x (λ y less. h x y (omega arith))
          (is_array_cases t rank ranked n b (t.node b) refl (omega arith))
    equal_of-Answers (fn params x) u =
        fn_equal-Answers t rank ranked eq _ _ lower params x (produced t b) u.0 u.1 other
    equal_of-Answers (enum name variants) u = tt

  pub is_equal-Answers : (n a b : ℕ) → rank a + rank b < n → Answers (is_equal t n a b)
  unfolding is_equal
  is_equal-Answers zero a b lt = absurd (omega arith)
  is_equal-Answers (suc n) a b lt =
      equal_of-Answers n a b (is_equal t n) (λ x y less. is_equal-Answers n x y (omega arith))
        (omega arith) (t.node a) (ranked.below a)

  pub check_type_equality-Answers :
      (n a b : ℕ) → rank a + rank b < n → Answers (check_type_equality t n a b)
  unfolding check_type_equality
  check_type_equality-Answers n a b lt =
      or_else-Answers _ _ (is_equal-Answers n a b lt) (is_equal-Answers n b a (omega arith))

  coerces_of-Answers :
      (r : ℕ) (next : ℕ → Option Bool) (node desired : TypeNode)
      → ((type : ℕ) → rank type < r → Answers (next type))
      → Under rank r node
      → Answers (coerces_of next node desired)
  unfolding coerces_of
  coerces_of-Answers r next (alias name is_distinct type) desired h u = h type u
  coerces_of-Answers r next (array size x members) desired h u = tt
  coerces_of-Answers r next (integer bits s) desired h u = tt
  coerces_of-Answers r next (float bits s) desired h u = tt
  coerces_of-Answers r next (bool bits s) desired h u = tt
  coerces_of-Answers r next (char bits s) desired h u = tt
  coerces_of-Answers r next _ desired h u = tt

  pub can_coerce_into-Answers : (n a b : ℕ) → rank a < n → Answers (can_coerce_into t n a b)
  unfolding can_coerce_into
  can_coerce_into-Answers zero a b lt = absurd (omega arith)
  can_coerce_into-Answers (suc n) a b lt =
      coerces_of-Answers (rank a) _ (t.node a) (produced t b)
        (λ type less. can_coerce_into-Answers n type b (omega arith)) (ranked.below a)

  -- Where no type contains itself, the test whether one type can be assigned from another has an
  -- answer, with fuel for more than the sum of their ranks.
  pub is_assignable_from-Answers :
      (n from to : ℕ) → rank from + rank to < n → Answers (is_assignable_from t n from to)
  unfolding is_assignable_from
  is_assignable_from-Answers n from to lt =
      or_else-Answers _ _ (check_type_equality-Answers n from to lt) (
        or_else-Answers _ _ (can_coerce_into-Answers n to from (omega arith))
          (can_coerce_into-Answers n from to (omega arith)))
