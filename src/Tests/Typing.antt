-- ===== src/Tests/Typing.antt =====
-- Types that refer to one another.
use pars_c.Common.{
  Bool, Bytes, List, Option, none, [], arith, false, inl, inr, refl, some, suc, true, zero, ℕ, ◌≡◌,
  ◌∷◌,
}
use pars_c.Lexer.Keywords.{codes}
use pars_c.Types.{
  TypeNode, TypeStore, alias, array, char, fn, get_real_type, integer, is_assignable_from, is_equal,
  pointer, slice, struct, void,
}
use pars_c.Types.Members.{Method, access_member, get_member_index}
use pars_c.Types.Members.Accessed.{AccessFound, access_member-Found}
use pars_c.Types.Members.Indices.{IsFirst, get_member_index-IsFirst}
use pars_c.FnCollection.{FnType, get_fn}
use pars_c.Types.Overloads.{get_fn-TypedAs, typing_of}
use pars_c.Types.Ranks.{Answers, Ranked, Under}
use pars_c.Types.Answers.{is_assignable_from-Answers}
use pars_c.Types.Equality.{IsResolved, is_equal_self}
use pars_c.Types.Coercion.{is_assignable_from-slices, is_assignable_from-pointers}

-- 1: i32, 2: u8, 3: ^i32, 4: ^void, 5: distinct i32, 6: [3]i32, 7: [3]^i32, 8: { x: ^i32 },
-- 9: [][3]i32, 10: fn(u8): i32, 11: char, 12: a pointer to 8; the others are void.
node_at : ℕ → TypeNode
node_at (suc zero) = integer 32 true
node_at (suc (suc zero)) = integer 8 false
node_at (suc (suc (suc zero))) = pointer 1
node_at (suc (suc (suc (suc zero)))) = pointer 0
node_at (suc (suc (suc (suc (suc zero))))) = alias (codes "Unique") true 1
node_at (suc (suc (suc (suc (suc (suc zero)))))) = array 3 1 []
node_at (suc (suc (suc (suc (suc (suc (suc zero))))))) = array 3 3 []
node_at (suc (suc (suc (suc (suc (suc (suc (suc zero)))))))) =
    struct [] (record { name = codes "x"; type = 3 } ∷ [])
node_at (suc (suc (suc (suc (suc (suc (suc (suc (suc zero))))))))) = slice 6
node_at (suc (suc (suc (suc (suc (suc (suc (suc (suc (suc zero)))))))))) =
    fn (record { mut_set = 0; type = 2 } ∷ []) 1
node_at (suc (suc (suc (suc (suc (suc (suc (suc (suc (suc (suc zero))))))))))) = char 8 true
node_at (suc (suc (suc (suc (suc (suc (suc (suc (suc (suc (suc (suc zero)))))))))))) = pointer 8
node_at _ = void

abbrev types : TypeStore
types = record { node = node_at; void_type = 0; char_type = 11 }

abbrev by_number : ℕ → ℕ
by_number a = a

below : (a : ℕ) → Under by_number a (node_at a)
unfolding node_at
below zero = tt
below (suc zero) = tt
below (suc (suc zero)) = tt
below (suc (suc (suc zero))) = omega arith
below (suc (suc (suc (suc zero)))) = omega arith
below (suc (suc (suc (suc (suc zero))))) = omega arith
below (suc (suc (suc (suc (suc (suc zero)))))) = omega arith
below (suc (suc (suc (suc (suc (suc (suc zero))))))) = omega arith
below (suc (suc (suc (suc (suc (suc (suc (suc zero)))))))) = omega arith
below (suc (suc (suc (suc (suc (suc (suc (suc (suc zero))))))))) = omega arith
below (suc (suc (suc (suc (suc (suc (suc (suc (suc (suc zero)))))))))) = omega arith
below (suc (suc (suc (suc (suc (suc (suc (suc (suc (suc (suc zero))))))))))) = tt
below (suc (suc (suc (suc (suc (suc (suc (suc (suc (suc (suc (suc zero)))))))))))) = omega arith
below (suc (suc (suc (suc (suc (suc (suc (suc (suc (suc (suc (suc (suc n))))))))))))) = tt

types-Ranked : Ranked types by_number
unfolding node_at
types-Ranked = record { below = below; void_is = refl; void_rank = refl }

all-IsResolved : (a : ℕ) → IsResolved (node_at a)
unfolding node_at
all-IsResolved zero = tt
all-IsResolved (suc zero) = tt
all-IsResolved (suc (suc zero)) = tt
all-IsResolved (suc (suc (suc zero))) = tt
all-IsResolved (suc (suc (suc (suc zero)))) = tt
all-IsResolved (suc (suc (suc (suc (suc zero))))) = tt
all-IsResolved (suc (suc (suc (suc (suc (suc zero)))))) = tt
all-IsResolved (suc (suc (suc (suc (suc (suc (suc zero))))))) = tt
all-IsResolved (suc (suc (suc (suc (suc (suc (suc (suc zero)))))))) = tt
all-IsResolved (suc (suc (suc (suc (suc (suc (suc (suc (suc zero))))))))) = tt
all-IsResolved (suc (suc (suc (suc (suc (suc (suc (suc (suc (suc zero)))))))))) = tt
all-IsResolved (suc (suc (suc (suc (suc (suc (suc (suc (suc (suc (suc zero))))))))))) = tt
all-IsResolved (suc (suc (suc (suc (suc (suc (suc (suc (suc (suc (suc (suc zero)))))))))))) = tt
all-IsResolved (suc (suc (suc (suc (suc (suc (suc (suc (suc (suc (suc (suc (suc n))))))))))))) = tt

is_assignable_from-Answers_example : Answers (is_assignable_from types 30 9 10)
is_assignable_from-Answers_example =
    is_assignable_from-Answers types by_number types-Ranked 30 9 10 (omega arith)

is_equal_self_example : is_equal types 30 8 8 ≡ some true
is_equal_self_example = is_equal_self types by_number types-Ranked all-IsResolved 30 8 (omega arith)

is_assignable_from-pointers_example : is_assignable_from types 30 3 4 ≡ some true
unfolding node_at
is_assignable_from-pointers_example =
    is_assignable_from-pointers types by_number types-Ranked 30 3 4 1 0 (omega arith) (inl refl)
      refl (inr refl)

is_assignable_from-slices_example :
    (is_assignable_from types 30 7 9 ≡ some true) × (is_assignable_from types 30 9 7 ≡ some true)
unfolding node_at get_real_type
is_assignable_from-slices_example =
    is_assignable_from-slices types by_number types-Ranked 30 7 9 3 3 6 [] (omega arith) refl refl

-- The struct has a method.
impl : ℕ → Option (List Method)
impl (suc (suc (suc (suc (suc (suc (suc (suc zero)))))))) =
    some (record { name = codes "run"; type = 10 } ∷ [])
impl _ = none

access_member-Found_example :
    AccessFound types impl 12 true (codes "run") (access_member types impl 30 true 12 (codes "run"))
unfolding node_at
access_member-Found_example =
    access_member-Found types impl (codes "run") by_number types-Ranked 8 true refl 30 12 true
      (omega arith)

abbrev members : List Bytes
members = codes "x" ∷ codes "y" ∷ codes "y" ∷ []

get_member_index-IsFirst_example :
    IsFirst members 3 (codes "y") (get_member_index members 3 (codes "y"))
get_member_index-IsFirst_example = get_member_index-IsFirst members 3 (codes "y")

-- An expression is the type that it has, if it has one.
abbrev type_of : Option ℕ → Option ℕ
type_of expr = expr

abbrev is_ctx_sensitive : Option ℕ → Bool
is_ctx_sensitive expr = true

abbrev visit_expr : Option ℕ → ℕ → Option ℕ
visit_expr expr type = some type

abbrev taking : ℕ → FnType ℕ
taking type = record { parameters = type ∷ 6 ∷ []; callable_arity = 1 }

get_fn-TypedAs_example :
    get_fn
      (typing_of type_of is_ctx_sensitive visit_expr types 30)
      (taking 8 ∷ taking 5 ∷ [])
      (some 8 ∷ some 6 ∷ [])
    ≡ (some (taking 8), some 8 ∷ some 6 ∷ [])
get_fn-TypedAs_example =
    get_fn-TypedAs type_of is_ctx_sensitive visit_expr types by_number types-Ranked all-IsResolved
      30 (taking 8) (taking 5 ∷ []) (some 8) (some 6 ∷ []) (omega arith)
      (refl, omega arith, (refl, omega arith, tt))
