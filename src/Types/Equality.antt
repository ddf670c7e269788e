-- ===== src/Types/Equality.antt =====
-- The `is_equal` functions of src/type.cpp and src/type.hpp for a type and itself.
use pars_c.Common.{
  Bool, Bool-cases, Bytes, List, Option, [], ap, arith, bytes_eq, false, inl, inr, length, refl,
  some, suc, true, zero, ℕ, ◌+◌, ◌<◌, ==_iff, ◌||◌, ◌∷◌, ◌≡◌, ◌≤◌, ◌∙◌,
}
use mathlib.Core.Bool.{true≢false}
use pars_c.Types.{
  Field, Param, TypeNode, TypeStore, alias, and_then, array, array_equal, bool, bool_equal, char,
  char_equal, element_equal, enum, equal_of, fields_equal, float, float_equal, fn, fn_equal,
  get_inner, get_real_type, integer, integer_equal, is_array, is_empty, is_equal, packed,
  params_equal, pointer, pointer_equal, produced, range, range_equal, same_integral, slice, str,
  str_equal, struct, struct_equal, unresolved_symbol, void, void_equal, void_pointer,
}
use pars_c.Types.Ranks.{FieldsUnder, ParamsUnder, Ranked, Under}

-- Neither a name that stands for a type, nor the type of `nil`.
abbrev pub IsResolved : TypeNode → Type 0
IsResolved (unresolved_symbol name) = ⊥
IsResolved (void_pointer inner) = ⊥
IsResolved _ = Unit

same_integral_self : (bits : ℕ) (s : Bool) → same_integral bits s bits s ≡ some true
unfolding same_integral
same_integral_self bits true = ap some ((==_iff bits bits).1 refl)
same_integral_self bits false = ap some ((==_iff bits bits).1 refl)

abbrev is_alias : TypeNode → Bool
is_alias (alias name is_distinct type) = true
is_alias _ = false

module _ (t : TypeStore) where
  real_self :
      (a : ℕ) (node : TypeNode) → t.node a ≡ node → is_alias node ≡ false → get_real_type t a ≡ a
  unfolding get_real_type
  real_self a (alias name is_distinct type) e h = absurd (true≢false h)
  real_self a _ e h = rw e

  pub produced_self :
      (a : ℕ) (node : TypeNode) → t.node a ≡ node → is_alias node ≡ false → produced t a ≡ node
  produced_self a node e h = ap t.node (real_self a node e h) ∙ e

  module _ (eq : ℕ → ℕ → Option Bool) (rank : ℕ → ℕ) (r : ℕ)
      (h : (x : ℕ) → rank x < r → eq x x ≡ some true) where
    fields_equal_self :
        (name : Bytes) (fields : List Field)
        → FieldsUnder rank r fields
        → fields_equal eq name fields fields ≡ some true
    unfolding fields_equal
    fields_equal_self name [] u = refl
    fields_equal_self name (field ∷ fields) u = elim (Bool-cases (bytes_eq field.name name)) [
      | inl e ↦ rw (e, fields_equal_self name fields u.1)
      | inr e ↦ rw (e, h field.type u.0, fields_equal_self name fields u.1)
    ]

    params_equal_self :
        (params : List Param)
        → ParamsUnder rank r params
        → params_equal eq params params ≡ some true
    unfolding params_equal
    params_equal_self [] u = refl
    params_equal_self (param ∷ params) u = rw (
      h param.type u.0,
      (==_iff param.mut_set param.mut_set).1 refl,
      params_equal_self params u.1,
    )

    struct_equal_self :
        (name : Bytes) (fields : List Field)
        → FieldsUnder rank r fields
        → struct_equal t eq name fields true (struct name fields) ≡ some true
    unfolding struct_equal
    struct_equal_self name fields u = elim (Bool-cases (is_empty name || is_empty name)) [
      | inl e ↦ rw e (fields_equal_self name fields u)
      | inr e ↦ rw e
    ]

    fn_equal_self :
        (params : List Param) (return_type : ℕ)
        → rank return_type < r
        → ParamsUnder rank r params
        → fn_equal t eq params return_type (fn params return_type) ≡ some true
    unfolding fn_equal
    fn_equal_self params return_type p u = rw (
      (==_iff (length params) (length params)).1 refl,
      h return_type p,
      params_equal_self params u,
    )

    array_equal_self :
        (size element : ℕ) (members : List Bytes)
        → array_equal t eq size element (array size element members) ≡ some true
    unfolding array_equal
    array_equal_self size element members = rw ((==_iff size size).1 refl)

    pointer_equal_self :
        (inner : ℕ) → rank inner < r → pointer_equal t eq inner (pointer inner) ≡ some true
    unfolding pointer_equal
    pointer_equal_self inner p = rw (h inner p)

  slice_self :
      (eq : ℕ → ℕ → Option Bool) (n a x : ℕ)
      → 0 < n
      → t.node a ≡ slice x
      → eq x x ≡ some true
      → and_then (is_array t n a) (element_equal t eq x (get_inner t n a)) ≡ some true
  unfolding is_array get_inner element_equal
  slice_self eq zero a x lt e h = absurd (omega arith)
  slice_self eq (suc n) a x lt e h = rw (e, is_array, get_inner) h

  pub real_alias :
      (a : ℕ) (name : Bytes) (is_distinct : Bool) (type : ℕ)
      → t.node a ≡ alias name is_distinct type
      → get_real_type t a ≡ type
  unfolding get_real_type
  real_alias a name is_distinct type e = rw e

  module _ (eq : ℕ → ℕ → Option Bool) (rank : ℕ → ℕ) (n a : ℕ) (lt : rank a ≤ n)
      (h : (x : ℕ) → rank x < rank a → eq x x ≡ some true) where
    equal_of_self :
        (node : TypeNode)
        → t.node a ≡ node
        → Under rank (rank a) node
        → IsResolved node
        → equal_of t eq n a a node ≡ some true
    unfolding equal_of
    equal_of_self (unresolved_symbol name) e u k = absurd k
    equal_of_self void e u k = unfold void_equal in rw e
    equal_of_self (integer bits s) e u k = unfold integer_equal in rw e (same_integral_self bits s)
    equal_of_self (float bits s) e u k = unfold float_equal in rw e (same_integral_self bits s)
    equal_of_self (bool bits s) e u k = unfold bool_equal in rw e (same_integral_self bits s)
    equal_of_self (char bits s) e u k = unfold char_equal in rw e (same_integral_self bits s)
    equal_of_self (void_pointer x) e u k = absurd k
    equal_of_self (pointer x) e u k =
        rw (produced_self a (pointer x) e refl) (pointer_equal_self eq rank _ h x u)
    equal_of_self packed e u k = refl
    equal_of_self str e u k = unfold str_equal in rw e
    equal_of_self range e u k = unfold range_equal in rw e
    equal_of_self (alias name true type) e u k = rw ((==_iff a a).1 refl) (h type u)
    equal_of_self (alias name false type) e u k = rw (real_alias a name false type e) (h type u)
    equal_of_self (struct name fields) e u k =
        rw (produced_self a (struct name fields) e refl, (==_iff a a).1 refl)
          (struct_equal_self eq rank _ h name fields u)
    equal_of_self (array size x members) e u k =
        rw (produced_self a (array size x members) e refl)
          (array_equal_self eq rank _ h size x members)
    equal_of_self (slice x) e u k = slice_self eq n a x (omega arith) e (h x u)
    equal_of_self (fn params x) e u k =
        rw (produced_self a (fn params x) e refl) (fn_equal_self eq rank _ h params x u.0 u.1)
    equal_of_self (enum name variants) e u k = ap some ((==_iff a a).1 refl)

-- Where no type contains itself, no name is left unresolved and the type of `nil` does not occur,
-- every type equals itself, with fuel for more than twice its rank.
pub is_equal_self :
    (t : TypeStore) (rank : ℕ → ℕ)
    → Ranked t rank
    → ((a : ℕ) → IsResolved (t.node a))
    → (n a : ℕ) → rank a + rank a < n
    → is_equal t n a a ≡ some true
unfolding is_equal
is_equal_self t rank ranked resolved zero a lt = absurd (omega arith)
is_equal_self t rank ranked resolved (suc n) a lt =
    equal_of_self t (is_equal t n) rank n a (omega arith)
      (λ x less. is_equal_self t rank ranked resolved n x (omega arith)) (t.node a) refl
      (ranked.below a) (resolved a)
