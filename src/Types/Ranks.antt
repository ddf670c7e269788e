-- ===== src/Types/Ranks.antt =====
-- Ranks of types, along which they contain one another, and the parts that the `is_equal`
-- functions of src/type.cpp are made of.
use pars_c.Common.{
  Bool, Bytes, List, Option, [], arith, bytes_eq, false, if◌then◌else◌, inl, inr, length, none, not,
  refl, some, suc, true, zero, ℕ, ◌+◌, ◌<◌, ◌==◌, ◌||◌, ◌∷◌, ◌≡◌, ◌≤◌, ◌⊎◌,
}
use mathlib.Core.Path.{subst}
use pars_c.Parser.Types.{unsized_array}
use pars_c.Types.{
  Field, Param, TypeNode, TypeStore, alias, and_then, array, array_equal, bool, bool_equal, char,
  char_equal, fields_equal, float, float_equal, fn, fn_equal, get_inner, get_real_type, integer,
  integer_equal, is_array, is_empty, or_else, params_equal, pointer, pointer_equal, range,
  range_equal, same_integral, slice, str, str_equal, struct, struct_equal, void, void_equal,
  void_pointer,
}

abbrev pub FieldsUnder : (ℕ → ℕ) → ℕ → List Field → Type 0
FieldsUnder rank r [] = Unit
FieldsUnder rank r (field ∷ fields) = (rank field.type < r) × FieldsUnder rank r fields

abbrev pub ParamsUnder : (ℕ → ℕ) → ℕ → List Param → Type 0
ParamsUnder rank r [] = Unit
ParamsUnder rank r (param ∷ params) = (rank param.type < r) × ParamsUnder rank r params

-- The types that a type has inside.
abbrev pub Under : (ℕ → ℕ) → ℕ → TypeNode → Type 0
Under rank r (pointer inner) = rank inner < r
Under rank r (void_pointer inner) = rank inner < r
Under rank r (alias name is_distinct type) = rank type < r
Under rank r (struct name fields) = FieldsUnder rank r fields
Under rank r (array size element members) = rank element < r
Under rank r (slice element) = rank element < r
Under rank r (fn params return_type) = (rank return_type < r) × ParamsUnder rank r params
Under rank r _ = Unit

-- No type contains itself, and `void` is the simplest one.
pub record Ranked (t : TypeStore) (rank : ℕ → ℕ) : Type 0 where
  pub below : (a : ℕ) → Under rank (rank a) (t.node a)
  pub void_is : t.node t.void_type ≡ void
  pub void_rank : rank t.void_type ≡ 0

-- A call that had fuel enough.
abbrev pub Answers : Option Bool → Type 0
Answers none = ⊥
Answers (some b) = Unit

pub or_else-Answers : (x y : Option Bool) → Answers x → Answers y → Answers (or_else x y)
or_else-Answers none y h k = h
or_else-Answers (some true) y h k = tt
or_else-Answers (some false) y h k = k

pub and_then-Answers : (x y : Option Bool) → Answers x → Answers y → Answers (and_then x y)
and_then-Answers none y h k = h
and_then-Answers (some true) y h k = k
and_then-Answers (some false) y h k = tt

Answers-if : (b : Bool) (x y : Option Bool) → Answers x → Answers y → Answers (if b then x else y)
Answers-if true x y h k = h
Answers-if false x y h k = k

same_integral-Answers :
    (bits : ℕ) (s : Bool) (bits' : ℕ) (s' : Bool) → Answers (same_integral bits s bits' s')
unfolding same_integral
same_integral-Answers bits true bits' true = tt
same_integral-Answers bits true bits' false = tt
same_integral-Answers bits false bits' true = tt
same_integral-Answers bits false bits' false = tt

pub integer_equal-Answers :
    (bits : ℕ) (s : Bool) (other : TypeNode) → Answers (integer_equal bits s other)
unfolding integer_equal
integer_equal-Answers bits s (integer bits' s') = same_integral-Answers bits s bits' s'
integer_equal-Answers bits s (void_pointer inner) = same_integral-Answers bits s 64 true
integer_equal-Answers bits s _ = tt

pub float_equal-Answers :
    (bits : ℕ) (s : Bool) (other : TypeNode) → Answers (float_equal bits s other)
unfolding float_equal
float_equal-Answers bits s (float bits' s') = same_integral-Answers bits s bits' s'
float_equal-Answers bits s _ = tt

pub bool_equal-Answers :
    (bits : ℕ) (s : Bool) (other : TypeNode) → Answers (bool_equal bits s other)
unfolding bool_equal
bool_equal-Answers bits s (bool bits' s') = same_integral-Answers bits s bits' s'
bool_equal-Answers bits s _ = tt

pub char_equal-Answers :
    (bits : ℕ) (s : Bool) (other : TypeNode) → Answers (char_equal bits s other)
unfolding char_equal
char_equal-Answers bits s (char bits' s') = same_integral-Answers bits s bits' s'
char_equal-Answers bits s _ = tt

pub void_equal-Answers : (other : TypeNode) → Answers (void_equal other)
unfolding void_equal
void_equal-Answers void = tt
void_equal-Answers _ = tt

pub str_equal-Answers : (other : TypeNode) → Answers (str_equal other)
unfolding str_equal
str_equal-Answers str = tt
str_equal-Answers _ = tt

pub range_equal-Answers : (other : TypeNode) → Answers (range_equal other)
unfolding range_equal
range_equal-Answers range = tt
range_equal-Answers _ = tt

module _ (t : TypeStore) (rank : ℕ → ℕ) (ranked : Ranked t rank) where
  -- Whether a type is an array, and its elements, are found at the end of its aliases.
  pub is_array_cases :
      (n b : ℕ) (node : TypeNode)
      → t.node b ≡ node
      → rank b < n
      → (is_array t n b ≡ some false)
        ⊎ ((x : ℕ) × (is_array t n b ≡ some true) × (get_inner t n b ≡ some x) × (rank x < rank b))
  unfolding is_array get_inner
  is_array_cases zero b node e lt = absurd (omega arith)
  is_array_cases (suc n) b (alias name is_distinct type) e lt =
      let under : rank type < rank b = subst (Under rank (rank b)) e (ranked.below b) in
      elim (is_array_cases n type (t.node type) refl (omega arith)) [
        | inl no_array ↦ inl (rw (e, is_array) no_array)
        | inr (x, found, inner, less) ↦
            inr (x, rw (e, is_array) found, rw (e, get_inner) inner, omega arith)
      ]
  is_array_cases (suc n) b (array size element members) e lt =
      let under : rank element < rank b = subst (Under rank (rank b)) e (ranked.below b) in
      inr (element, rw (e, is_array), rw (e, get_inner), under)
  is_array_cases (suc n) b (slice element) e lt =
      let under : rank element < rank b = subst (Under rank (rank b)) e (ranked.below b) in
      inr (element, rw (e, is_array), rw (e, get_inner), under)
  is_array_cases (suc n) b _ e lt = inl (rw (e, is_array))

  pub real-le : (b : ℕ) (node : TypeNode) → t.node b ≡ node → rank (get_real_type t b) ≤ rank b
  unfolding get_real_type
  real-le b (alias name is_distinct type) e =
      let under : rank type < rank b = subst (Under rank (rank b)) e (ranked.below b) in
      rw e (omega arith)
  real-le b _ e = rw e (omega arith)

  module _ (eq : ℕ → ℕ → Option Bool) (r r' : ℕ)
      (h : (x y : ℕ) → rank x + rank y < r + r' → Answers (eq x y)) where
    fields_equal-Answers :
        (name : Bytes) (fields others : List Field)
        → FieldsUnder rank r fields
        → FieldsUnder rank r' others
        → Answers (fields_equal eq name fields others)
    unfolding fields_equal
    fields_equal-Answers name [] others p q = tt
    fields_equal-Answers name (field ∷ fields) [] p q = tt
    fields_equal-Answers name (field ∷ fields) (other ∷ others) p q =
        and_then-Answers _ _
          (Answers-if (bytes_eq field.name name) (some true) (eq field.type other.type) tt
            (h _ _ (let a = p.0 in let b = q.0 in omega arith)))
          (fields_equal-Answers name fields others p.1 q.1)

    params_equal-Answers :
        (params others : List Param)
        → ParamsUnder rank r params
        → ParamsUnder rank r' others
        → Answers (params_equal eq params others)
    unfolding params_equal
    params_equal-Answers [] others p q = tt
    params_equal-Answers (param ∷ params) [] p q = tt
    params_equal-Answers (param ∷ params) (other ∷ others) p q =
        and_then-Answers _ _
          (and_then-Answers _ _ (h _ _ (let a = p.0 in let b = q.0 in omega arith)) tt)
          (params_equal-Answers params others p.1 q.1)

    pub pointer_equal-Answers :
        (inner : ℕ) (other : TypeNode)
        → rank inner < r
        → Under rank r' other
        → Answers (pointer_equal t eq inner other)
    unfolding pointer_equal
    pointer_equal-Answers inner (pointer other) p q =
        let zero_rank = ranked.void_rank in
        or_else-Answers _ _ (h inner other (omega arith)) (
          or_else-Answers _ _ (h other t.void_type (omega arith))
            (h inner t.void_type (omega arith)))
    pointer_equal-Answers inner _ p q = tt

    pub array_equal-Answers :
        (size element : ℕ) (other : TypeNode)
        → rank element < r
        → Under rank r' other
        → Answers (array_equal t eq size element other)
    unfolding array_equal
    array_equal-Answers size element (array size' element' members) p q =
        Answers-if (size' == size) _ _ tt (
          Answers-if (size' == unsized_array) (eq element' element) (some false)
            (h element' element (omega arith)) tt)
    array_equal-Answers size element _ p q = tt

    pub struct_equal-Answers :
        (name : Bytes) (fields : List Field) (same : Bool) (other : TypeNode)
        → FieldsUnder rank r fields
        → Under rank r' other
        → Answers (struct_equal t eq name fields same other)
    unfolding struct_equal
    struct_equal-Answers name fields same (struct name' fields') p q =
        Answers-if (is_empty name || is_empty name') (fields_equal eq name' fields fields') _
          (fields_equal-Answers name' fields fields' p q) tt
    struct_equal-Answers name fields same _ p q = tt

    pub fn_equal-Answers :
        (params : List Param) (return_type : ℕ) (other : TypeNode)
        → rank return_type < r
        → ParamsUnder rank r params
        → Under rank r' other
        → Answers (fn_equal t eq params return_type other)
    unfolding fn_equal
    fn_equal-Answers params return_type (fn params' return_type') p p' q =
        let returns : Answers (eq return_type return_type') =
          h return_type return_type' (let b = q.0 in omega arith) in
        Answers-if (not (length params' == length params)) (some false) _ tt (
          and_then-Answers _ _ returns
            (and_then-Answers _ _ (params_equal-Answers params params' p' q.1) returns))
    fn_equal-Answers params return_type _ p p' q = tt
