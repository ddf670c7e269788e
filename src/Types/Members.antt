-- ===== src/Types/Members.antt =====
-- Members and methods of types, `get_member` and `get_method` of src/type.cpp, and what
-- `visit(ArrowExpr)` of src/analyzer.cpp makes of them.
pub mod Found
pub mod Accessed
pub mod Indices
use pars_c.Common.{
  Bool, Bytes, List, Option, [], bytes_eq, if◌then◌else◌, leb, none, some, suc, true, false, zero,
  ℕ, ◌∷◌,
}
use mathlib.Core.Option.{map}
use pars_c.Lexer.Keywords.{codes}
use pars_c.Types.{
  Field, TypeNode, TypeStore, alias, array, enum, pointer, slice, str, struct, void_pointer,
}

pub data MemberAccess : Type 0 where
  public : MemberAccess
  private : MemberAccess
  readonly : MemberAccess

-- The type of a member: one of the store, `U32_TYPE`, or a new pointer to one of the store.
pub data MemberType : Type 0 where
  stored : ℕ → MemberType
  u32_type : MemberType
  new_pointer : ℕ → MemberType

pub record MemberInfo : Type 0 where
  pub name : Bytes
  pub type : MemberType
  pub access : MemberAccess

-- A method of an `impl`: its name and the number of its type
pub record Method : Type 0 where
  pub name : Bytes
  pub type : ℕ

unfoldable pub find_field : Bytes → List Field → Option MemberInfo
find_field symbol [] = none
find_field symbol (field ∷ fields) =
    let rest = find_field symbol fields in
    if bytes_eq field.name symbol
    then some (record { name = field.name; type = stored field.type; access = public })
    else rest

-- `std::find_if` and `std::distance`
unfoldable pub find_name : Bytes → List Bytes → Option ℕ
find_name member [] = none
find_name member (name ∷ names) =
    let rest = find_name member names in if bytes_eq name member then some 0 else map suc rest

unfoldable pub index_within : ℕ → Option ℕ → Option ℕ
index_within size none = none
index_within size (some index) = if leb size index then none else some index

-- The index -1 is none.
unfoldable pub get_member_index : List Bytes → ℕ → Bytes → Option ℕ
unfolding index_within
get_member_index members size member = index_within size (find_name member members)

unfoldable pub base_array_member : ℕ → Bytes → Option MemberInfo
base_array_member element symbol =
    if bytes_eq symbol (codes "length")
    then some (record { name = codes "length"; type = u32_type; access = readonly })
    else if bytes_eq symbol (codes "ptr")
    then some (record { name = codes "ptr"; type = new_pointer element; access = readonly })
    else none

unfoldable pub index_member : ℕ → Bytes → Option ℕ → Option MemberInfo
index_member element symbol none = none
index_member element symbol (some index) =
    some (record { name = symbol; type = stored element; access = public })

unfoldable pub array_member : ℕ → Bytes → Option ℕ → Option MemberInfo → Option MemberInfo
unfolding index_member
array_member element symbol index (some member) = some member
array_member element symbol index none = index_member element symbol index

-- The member that a type has itself.
unfoldable pub own_member : TypeNode → Bytes → Option MemberInfo
own_member (struct name fields) symbol = find_field symbol fields
own_member (array size element members) symbol =
    array_member element symbol (get_member_index members size symbol)
      (base_array_member element symbol)
own_member (slice element) symbol = base_array_member element symbol
own_member _ symbol = none

-- `UserDefType::get_method` without an `impl`, and with one
unfoldable pub find_method : Bytes → List Method → Option MemberInfo
find_method symbol [] = none
find_method symbol (method ∷ methods) =
    let rest = find_method symbol methods in
    if bytes_eq method.name symbol
    then some (record { name = []; type = stored method.type; access = public })
    else rest

unfoldable pub impl_method : Bytes → Option (List Method) → Option MemberInfo
impl_method symbol none = none
impl_method symbol (some methods) = find_method symbol methods

-- A lookup that may run out of fuel.
abbrev pub Lookup : Type 0
Lookup = Option (Option MemberInfo)

unfoldable pub own_or : Option MemberInfo → Lookup → Lookup
own_or none next = next
own_or (some member) next = some (some member)

-- What `visit(ArrowExpr)` found, and whether it is a method.
pub data Access : Type 0 where
  no_fuel : Access
  no_member : Access
  found : MemberInfo → Bool → Access

unfoldable pub accessed : Bool → Lookup → Access
accessed is_method none = no_fuel
accessed is_method (some none) = no_member
accessed is_method (some (some member)) = found member is_method

-- A method that is not there may be a field that holds a function.
unfoldable pub or_field : Lookup → Access → Access
or_field none field = no_fuel
or_field (some none) field = field
or_field (some (some member)) field = found member true

module _ (t : TypeStore) where
  unfoldable pub member_of : (ℕ → Lookup) → TypeNode → Bytes → Lookup
  unfolding own_member
  member_of next (alias name is_distinct type) symbol = next type
  member_of next (pointer inner) symbol = next inner
  member_of next (void_pointer inner) symbol = next inner
  member_of next str symbol = next t.char_type
  member_of next node symbol = some (own_member node symbol)

  unfoldable pub get_member : ℕ → ℕ → Bytes → Lookup
  unfolding member_of
  get_member zero a symbol = none
  get_member (suc n) a symbol = member_of (λ type. get_member n type symbol) (t.node a) symbol

  module _ (impl : ℕ → Option (List Method)) where
    unfoldable pub method_of : (ℕ → Lookup) → ℕ → TypeNode → Bytes → Lookup
    unfolding impl_method own_or
    method_of next a (alias name is_distinct type) symbol =
        own_or (impl_method symbol (impl a)) (next type)
    method_of next a (struct name fields) symbol = some (impl_method symbol (impl a))
    method_of next a (enum name variants) symbol = some (impl_method symbol (impl a))
    method_of next a (pointer inner) symbol = next inner
    method_of next a (void_pointer inner) symbol = next inner
    method_of next a str symbol = next t.char_type
    method_of next a _ symbol = some none

    unfoldable pub get_method : ℕ → ℕ → Bytes → Lookup
    unfolding method_of
    get_method zero a symbol = none
    get_method (suc n) a symbol = method_of (λ type. get_method n type symbol) a (t.node a) symbol

    -- the lookup in `visit(ArrowExpr)`, where `no_member` stands for its error
    unfoldable pub access_member : ℕ → Bool → ℕ → Bytes → Access
    unfolding accessed or_field
    access_member n true a symbol =
        or_field (get_method n a symbol) (accessed false (get_member n a symbol))
    access_member n false a symbol = accessed false (get_member n a symbol)
