-- ===== src/Types.antt =====
-- Types once they are resolved, src/type.hpp and src/type.cpp: what equality, coercion and the access
-- to members read of them. A pointer to a type is its number in a store, so that types may share
-- parts, and a type may contain itself.
pub mod Ranks
pub mod Answers
pub mod Equality
pub mod Coercion
pub mod Members
pub mod Overloads
use pars_c.Common.{
  Bool, Bytes, List, Option, [], bytes_eq, false, if◌then◌else◌, leb, length, ltb, none, not, some,
  suc, true, zero, ℕ, ◌&&◌, ◌==◌, ◌||◌, ◌∷◌,
}
use pars_c.Lexer.Keywords.{codes}
use pars_c.Parser.Types.{unsized_array}
use pars_c.Syntax.{EnumVariant, MutSet}

-- `StructFieldInfo`, and a parameter of a function
pub record Field : Type 0 where
  pub name : Bytes
  pub type : ℕ

pub record Param : Type 0 where
  pub mut_set : MutSet
  pub type : ℕ

-- The dynamic class of a type with its fields. `void_pointer` is the class `PointerType` with the kind
-- `Integer`, which its constructor from an inner type gives.
pub data TypeNode : Type 0 where
  unresolved_symbol : Bytes → TypeNode
  void : TypeNode
  integer : ℕ → Bool → TypeNode
  float : ℕ → Bool → TypeNode
  bool : ℕ → Bool → TypeNode
  char : ℕ → Bool → TypeNode
  void_pointer : ℕ → TypeNode
  pointer : ℕ → TypeNode
  packed : TypeNode
  str : TypeNode
  range : TypeNode
  -- name, is_distinct, type
  alias : Bytes → Bool → ℕ → TypeNode
  struct : Bytes → List Field → TypeNode
  -- size, element type, members
  array : ℕ → ℕ → List Bytes → TypeNode
  slice : ℕ → TypeNode
  fn : List Param → ℕ → TypeNode
  enum : Bytes → List (Bytes × EnumVariant) → TypeNode

-- The types by their numbers, and the numbers of `VOID_TYPE` and `CHAR_TYPE`.
pub record TypeStore : Type 0 where
  pub node : ℕ → TypeNode
  pub void_type : ℕ
  pub char_type : ℕ

-- `a || b` and `a && b` of calls that may run out of fuel: the second is made only if it is needed.
abbrev pub or_else : Option Bool → Option Bool → Option Bool
or_else none other = none
or_else (some true) other = some true
or_else (some false) other = other

abbrev pub and_then : Option Bool → Option Bool → Option Bool
and_then none other = none
and_then (some true) other = other
and_then (some false) other = some false

-- `bits` and `is_signed`, by the `classof` of `IntegralType`
unfoldable pub integral_of : TypeNode → Option (ℕ × Bool)
integral_of (integer bits is_signed) = some (bits, is_signed)
integral_of (float bits is_signed) = some (bits, is_signed)
integral_of (bool bits is_signed) = some (bits, is_signed)
integral_of (char bits is_signed) = some (bits, is_signed)
integral_of (void_pointer inner) = some (64, true)
integral_of (pointer inner) = some (64, true)
integral_of str = some (64, true)
integral_of _ = none

-- `DEFAULT_INTEGRAL_EQUAL`, once the other type is of the class
unfoldable pub same_integral : ℕ → Bool → ℕ → Bool → Option Bool
same_integral bits true bits' true = some (bits == bits')
same_integral bits false bits' false = some (bits == bits')
same_integral bits _ bits' _ = some false

unfoldable pub integer_equal : ℕ → Bool → TypeNode → Option Bool
integer_equal bits is_signed (integer bits' is_signed') =
    same_integral bits is_signed bits' is_signed'
integer_equal bits is_signed (void_pointer inner) = same_integral bits is_signed 64 true
integer_equal bits is_signed _ = some false

unfoldable pub float_equal : ℕ → Bool → TypeNode → Option Bool
float_equal bits is_signed (float bits' is_signed') = same_integral bits is_signed bits' is_signed'
float_equal bits is_signed _ = some false

unfoldable pub bool_equal : ℕ → Bool → TypeNode → Option Bool
bool_equal bits is_signed (bool bits' is_signed') = same_integral bits is_signed bits' is_signed'
bool_equal bits is_signed _ = some false

unfoldable pub char_equal : ℕ → Bool → TypeNode → Option Bool
char_equal bits is_signed (char bits' is_signed') = same_integral bits is_signed bits' is_signed'
char_equal bits is_signed _ = some false

-- `DEFAULT_TYPE_EQUAL`
unfoldable pub void_equal : TypeNode → Option Bool
void_equal void = some true
void_equal _ = some false

unfoldable pub str_equal : TypeNode → Option Bool
str_equal str = some true
str_equal _ = some false

unfoldable pub range_equal : TypeNode → Option Bool
range_equal range = some true
range_equal _ = some false

abbrev pub is_empty : Bytes → Bool
is_empty [] = true
is_empty (c ∷ cs) = false

-- The loops of `is_equal` over fields and parameters. The name of a field is compared with that of the
-- other struct, as in the source.
unfoldable pub fields_equal : (ℕ → ℕ → Option Bool) → Bytes → List Field → List Field → Option Bool
fields_equal eq other_name [] others = some true
fields_equal eq other_name (field ∷ fields) [] = some true
fields_equal eq other_name (field ∷ fields) (other ∷ others) =
    and_then (if bytes_eq field.name other_name then some true else eq field.type other.type)
      (fields_equal eq other_name fields others)

unfoldable pub params_equal : (ℕ → ℕ → Option Bool) → List Param → List Param → Option Bool
params_equal eq [] others = some true
params_equal eq (param ∷ params) [] = some true
params_equal eq (param ∷ params) (other ∷ others) =
    and_then (and_then (eq param.type other.type) (some (param.mut_set == other.mut_set)))
      (params_equal eq params others)

unfoldable pub integral_coerces : ℕ → Bool → Option (ℕ × Bool) → Bool
integral_coerces bits is_signed none = false
integral_coerces bits is_signed (some (bits', is_signed')) =
    leb bits bits' || (bits == bits' && (if is_signed then is_signed' else not is_signed'))

unfoldable pub is_slice : TypeNode → Bool
is_slice (slice element) = true
is_slice _ = false

unfoldable pub coerces_of : (ℕ → Option Bool) → TypeNode → TypeNode → Option Bool
unfolding integral_coerces is_slice integral_of
coerces_of next (alias name is_distinct type) desired = next type
coerces_of next (array size element members) desired = some (is_slice desired)
coerces_of next (integer bits is_signed) desired =
    some (integral_coerces bits is_signed (integral_of desired))
coerces_of next (float bits is_signed) desired =
    some (integral_coerces bits is_signed (integral_of desired))
coerces_of next (bool bits is_signed) desired =
    some (integral_coerces bits is_signed (integral_of desired))
coerces_of next (char bits is_signed) desired =
    some (integral_coerces bits is_signed (integral_of desired))
coerces_of next _ desired = some false

module _ (t : TypeStore) where
  -- `get_real_type`: one step of an alias.
  unfoldable pub real_of : ℕ → TypeNode → ℕ
  real_of a (alias name is_distinct type) = type
  real_of a _ = a

  unfoldable pub get_real_type : ℕ → ℕ
  unfolding real_of
  get_real_type a = real_of a (t.node a)

  -- The class of what `produce_type` casts.
  abbrev pub produced : ℕ → TypeNode
  produced b = t.node (get_real_type b)

  -- `is_array` and `get_inner` go on along the aliases.
  unfoldable pub is_array_of : (ℕ → Option Bool) → TypeNode → Option Bool
  is_array_of next (alias name is_distinct type) = next type
  is_array_of next (array size element members) = some true
  is_array_of next (slice element) = some true
  is_array_of next _ = some false

  unfoldable pub is_array : ℕ → ℕ → Option Bool
  unfolding is_array_of
  is_array zero a = none
  is_array (suc n) a = is_array_of (is_array n) (t.node a)

  unfoldable pub inner_of : (ℕ → Option ℕ) → TypeNode → Option ℕ
  inner_of next (alias name is_distinct type) = next type
  inner_of next (array size element members) = some element
  inner_of next (slice element) = some element
  inner_of next (pointer inner) = some inner
  inner_of next (void_pointer inner) = some inner
  inner_of next str = some t.char_type
  inner_of next _ = none

  unfoldable pub get_inner : ℕ → ℕ → Option ℕ
  unfolding inner_of
  get_inner zero a = none
  get_inner (suc n) a = inner_of (get_inner n) (t.node a)

  -- The `is_equal` of each class; `eq` is the call of another one.
  module _ (eq : ℕ → ℕ → Option Bool) where
    unfoldable pub pointer_equal : ℕ → TypeNode → Option Bool
    pointer_equal inner (pointer other) =
        or_else (eq inner other) (or_else (eq other t.void_type) (eq inner t.void_type))
    pointer_equal inner _ = some false

    unfoldable pub array_equal : ℕ → ℕ → TypeNode → Option Bool
    array_equal size element (array size' element' members) =
        if size' == size
        then some true
        else if size' == unsized_array
        then eq element' element
        else some false
    array_equal size element _ = some false

    -- Structural equality if one of the structs is anonymous, else that of the addresses.
    unfoldable pub struct_equal : Bytes → List Field → Bool → TypeNode → Option Bool
    struct_equal name fields same (struct name' fields') =
        if is_empty name || is_empty name' then fields_equal eq name' fields fields' else some same
    struct_equal name fields same _ = some same

    -- The return types are compared before the parameters and behind them.
    unfoldable pub fn_equal : List Param → ℕ → TypeNode → Option Bool
    fn_equal params return_type (fn params' return_type') =
        if not (length params' == length params)
        then some false
        else and_then (eq return_type return_type')
            (and_then (params_equal eq params params') (eq return_type return_type'))
    fn_equal params return_type _ = some false

    unfoldable pub element_equal : ℕ → Option ℕ → Option Bool
    element_equal element none = none
    element_equal element (some inner) = eq element inner

    unfoldable pub equal_of : ℕ → ℕ → ℕ → TypeNode → Option Bool
    unfolding pointer_equal array_equal struct_equal fn_equal element_equal integer_equal
        float_equal bool_equal char_equal void_equal str_equal range_equal
    equal_of n a b (unresolved_symbol name) = some false
    equal_of n a b void = void_equal (t.node b)
    equal_of n a b (integer bits is_signed) = integer_equal bits is_signed (t.node b)
    equal_of n a b (float bits is_signed) = float_equal bits is_signed (t.node b)
    equal_of n a b (bool bits is_signed) = bool_equal bits is_signed (t.node b)
    equal_of n a b (char bits is_signed) = char_equal bits is_signed (t.node b)
    equal_of n a b (void_pointer inner) = pointer_equal inner (produced b)
    equal_of n a b (pointer inner) = pointer_equal inner (produced b)
    equal_of n a b packed = some true
    equal_of n a b str = str_equal (t.node b)
    equal_of n a b range = range_equal (t.node b)
    equal_of n a b (alias name true type) = if a == b then eq type type else some false
    equal_of n a b (alias name false type) = eq type (get_real_type b)
    equal_of n a b (struct name fields) = struct_equal name fields (a == b) (produced b)
    equal_of n a b (array size element members) = array_equal size element (produced b)
    equal_of n a b (slice element) = and_then (is_array n b) (element_equal element (get_inner n b))
    equal_of n a b (fn params return_type) = fn_equal params return_type (produced b)
    equal_of n a b (enum name variants) = some (a == b)

  unfoldable pub is_equal : ℕ → ℕ → ℕ → Option Bool
  unfolding equal_of
  is_equal zero a b = none
  is_equal (suc n) a b = equal_of (is_equal n) n a b (t.node a)

  unfoldable pub check_type_equality : ℕ → ℕ → ℕ → Option Bool
  check_type_equality n a b = or_else (is_equal n a b) (is_equal n b a)

  unfoldable pub can_coerce_into : ℕ → ℕ → ℕ → Option Bool
  unfolding coerces_of
  can_coerce_into zero a b = none
  can_coerce_into (suc n) a b =
      coerces_of (λ type. can_coerce_into n type b) (t.node a) (produced b)

  unfoldable pub is_assignable_from : ℕ → ℕ → ℕ → Option Bool
  is_assignable_from n from to =
      or_else (check_type_equality n from to)
        (or_else (can_coerce_into n to from) (can_coerce_into n from to))
