-- ===== src/Parser/Balance/Typings.antt =====
-- The stacks and the attributes under the functions of src/ast.cpp on types and signatures.
use pars_c.Common.{Bool, Bool-cases, false, inl, inr, ltb, suc, true, zero, ℕ, ◌+◌}
use pars_c.Symbol.{Symbol}
use pars_c.Syntax.{
  Fields, MutSet, Node, Ty, VarDecl, VarDecls, no_fields, no_vars, null_expr, null_type,
}
use pars_c.Parser.State.{Calls, Parser}
use pars_c.Parser.Types.{
  comma_unless, count_param, fields_loop, member_loop, no_symbol, param_loop, param_symbol,
  parse_array, parse_field, parse_fields, parse_fn_param, parse_fn_signature, parse_fn_type,
  parse_members, parse_pointer, parse_size, parse_struct, parse_type_at, parse_type_meta,
  return_type, set_at, struct_fields, type_meta_of,
}
use pars_c.Parser.Balance.{
  Keeping, Keeping-exhausted, Keeping-gets, Keeping-if, Keeping-lexing, Keeping-pure, Keeping-throw,
  Kept-refl, first_match-cons, first_match-nil, new_node-Keeping, scoping-Keeping, ◌▸◌,
}
use pars_c.Parser.Balance.Names.{get_symbol-Keeping}
use pars_c.Parser.Balance.Primaries.{KeepingCalls}
use pars_c.Parser.Types

set_at-Keeping : (position : ℕ) (mut_set : MutSet) → Keeping (set_at position mut_set)
unfolding set_at
set_at-Keeping position mut_set = record {
  at = λ s. elim (Bool-cases (ltb position 32)) [
    | inl inside ↦ rw inside (Kept-refl s)
    | inr outside ↦ rw outside tt
  ];
}

fields_loop-Keeping :
    {S : Type 0} (n : ℕ) (round : S → Parser S) (state : S)
    → ((s : S) → Keeping (round s))
    → Keeping (fields_loop n round state)
unfolding fields_loop
fields_loop-Keeping zero round state h = Keeping-exhausted
fields_loop-Keeping (suc n) round state h = Keeping-lexing _ ▸ λ ended.
    Keeping-if ended (Keeping-pure _)
      (h state ▸ λ state'. Keeping-lexing _ ▸ λ _. fields_loop-Keeping n round state' h)

pub parse_fields-Keeping :
    {S : Type 0} (n : ℕ) (round : S → Parser S) (state : S)
    → ((s : S) → Keeping (round s))
    → Keeping (parse_fields n round state)
unfolding parse_fields
parse_fields-Keeping n round state h = Keeping-lexing _ ▸ λ _.
    fields_loop-Keeping n round state h ▸ λ state'. Keeping-lexing _ ▸ λ _. Keeping-pure _

type_meta_of-Keeping : (c : Calls) (type : Ty × MutSet) → Keeping (type_meta_of c type)
unfolding type_meta_of
type_meta_of-Keeping c (null_type, mut_set) = Keeping-gets _ ▸ λ token. Keeping-throw _ _
type_meta_of-Keeping c (_, mut_set) = Keeping-pure _

param_symbol-Keeping : (c : Calls) (parse_name : Bool) → Keeping (param_symbol c parse_name)
unfolding param_symbol
param_symbol-Keeping c false = Keeping-pure _
param_symbol-Keeping c true = get_symbol-Keeping ▸ λ name. Keeping-lexing _ ▸ λ _. Keeping-pure _

comma_unless-Keeping : (closed : Bool) → Keeping (comma_unless closed)
unfolding comma_unless
comma_unless-Keeping true = Keeping-pure _
comma_unless-Keeping false = Keeping-lexing _ ▸ λ _. Keeping-pure _

count_param-Keeping :
    (c : Calls) (saw_default : Bool) (param : VarDecl) → Keeping (count_param c saw_default param)
unfolding count_param
count_param-Keeping c saw_default param =
    Keeping-if _ (Keeping-pure _) (Keeping-if saw_default (Keeping-throw _ _) (Keeping-pure _))

module _ (c : Calls) (h : KeepingCalls c) where
  pub parse_type_meta-Keeping : Keeping (parse_type_meta c)
  unfolding parse_type_meta
  parse_type_meta-Keeping = h.parse_type 0 0 false ▸ type_meta_of-Keeping c

  parse_fn_param-Keeping : (parse_name : Bool) → Keeping (parse_fn_param c parse_name)
  unfolding parse_fn_param
  parse_fn_param-Keeping parse_name = new_node-Keeping ▸ λ node.
      param_symbol-Keeping c parse_name ▸ λ name. parse_type_meta-Keeping ▸ λ (type, mut_set).
      Keeping-lexing _ ▸ λ has_default.
      Keeping-if has_default h.expression (Keeping-pure null_expr) ▸ λ initializer. Keeping-pure _

  param_loop-Keeping :
      (n : ℕ) (parse_names saw_default : Bool) → Keeping (param_loop c n parse_names saw_default)
  unfolding param_loop
  param_loop-Keeping zero parse_names saw_default = Keeping-exhausted
  param_loop-Keeping (suc n) parse_names saw_default = Keeping-lexing _ ▸ λ ended.
      Keeping-if ended (Keeping-pure _) (
        Keeping-lexing _ ▸ λ variadic. Keeping-if variadic (Keeping-pure _) (
          parse_fn_param-Keeping parse_names ▸ λ param.
          count_param-Keeping c saw_default param ▸ λ count. Keeping-lexing _ ▸ λ closed.
          comma_unless-Keeping closed ▸ λ _.
          param_loop-Keeping n parse_names _ ▸ λ later. Keeping-pure _))

  return_type-Keeping : (has_return : Bool) → Keeping (return_type c has_return)
  unfolding return_type
  return_type-Keeping true = parse_type_meta-Keeping
  return_type-Keeping false = Keeping-pure _

  pub parse_fn_signature-Keeping :
      (parse_names : Bool) (added_params : VarDecls)
      → Keeping (parse_fn_signature c parse_names added_params)
  unfolding parse_fn_signature
  parse_fn_signature-Keeping parse_names added_params = Keeping-lexing _ ▸ λ _.
      param_loop-Keeping c.rounds parse_names false ▸ λ params. Keeping-lexing _ ▸ λ _.
      Keeping-lexing _ ▸ λ has_return.
      return_type-Keeping has_return ▸ λ (type, mut_set). Keeping-pure _

  parse_field-Keeping : (before : Fields) → Keeping (parse_field c before)
  unfolding parse_field
  parse_field-Keeping before = get_symbol-Keeping ▸ λ name.
      Keeping-lexing _ ▸ λ _. parse_type_meta-Keeping ▸ λ (type, mut_set). Keeping-pure _

  struct_fields-Keeping : (node : Node) (name : Symbol) → Keeping (struct_fields c node name)
  unfolding struct_fields
  struct_fields-Keeping node name =
      parse_fields-Keeping c.rounds (parse_field c) no_fields parse_field-Keeping ▸ λ fields.
      Keeping-pure _

  pub parse_struct-Keeping : (skip_signature : Bool) → Keeping (parse_struct c skip_signature)
  unfolding parse_struct
  parse_struct-Keeping true = new_node-Keeping ▸ λ node. struct_fields-Keeping node no_symbol
  parse_struct-Keeping false = new_node-Keeping ▸ λ node. get_symbol-Keeping ▸ λ name.
      scoping-Keeping _ ▸ λ _. Keeping-lexing _ ▸ λ braced.
      Keeping-if braced (struct_fields-Keeping node name) (Keeping-pure _)

  member_loop-Keeping : (n : ℕ) → Keeping (member_loop c n)
  unfolding member_loop
  member_loop-Keeping zero = Keeping-exhausted
  member_loop-Keeping (suc n) = Keeping-lexing _ ▸ λ token. Keeping-lexing _ ▸ λ more.
      Keeping-if more (member_loop-Keeping n ▸ λ names. Keeping-pure _) (Keeping-pure _)

  parse_members-Keeping : (has_members : Bool) → Keeping (parse_members c has_members)
  unfolding parse_members
  parse_members-Keeping false = Keeping-pure _
  parse_members-Keeping true =
      member_loop-Keeping c.rounds ▸ λ members. Keeping-lexing _ ▸ λ _. Keeping-pure _

  parse_size-Keeping : (open_size : Bool) → Keeping (parse_size c open_size)
  unfolding parse_size
  parse_size-Keeping true = Keeping-pure _
  parse_size-Keeping false = h.expression ▸ λ e. Keeping-pure _

  parse_array-Keeping :
      (mut_set : MutSet) (position : ℕ) (is_slice : Bool)
      → Keeping (parse_array c mut_set position is_slice)
  unfolding parse_array
  parse_array-Keeping mut_set position true = new_node-Keeping ▸ λ node.
      h.parse_type mut_set position false ▸ λ (inner, mut_set'). Keeping-pure _
  parse_array-Keeping mut_set position false = new_node-Keeping ▸ λ node.
      Keeping-lexing _ ▸ λ open_size. parse_size-Keeping open_size ▸ λ (size, size_expr).
      Keeping-lexing _ ▸ λ _. h.parse_type mut_set position false ▸ λ (inner, mut_set').
      Keeping-lexing _ ▸ λ has_members.
      parse_members-Keeping has_members ▸ λ members. Keeping-pure _

  parse_pointer-Keeping :
      (mut_set : MutSet) (position : ℕ) → Keeping (parse_pointer c mut_set position)
  unfolding parse_pointer
  parse_pointer-Keeping mut_set position = new_node-Keeping ▸ λ node.
      h.parse_type mut_set position false ▸ λ (inner, mut_set'). Keeping-pure _

  parse_fn_type-Keeping : Keeping (parse_fn_type c)
  unfolding parse_fn_type
  parse_fn_type-Keeping =
      new_node-Keeping ▸ λ node. parse_fn_signature-Keeping false no_vars ▸ λ sig. Keeping-pure _

  parse_type_at-Keeping :
      (mut_set : MutSet) (position : ℕ) → Keeping (parse_type_at c mut_set position)
  unfolding parse_type_at
  parse_type_at-Keeping mut_set position =
      first_match-cons _ _ _ _ (new_node-Keeping ▸ λ node. Keeping-gets _ ▸ λ token. Keeping-pure _)
        (first_match-cons _ _ _ _ (parse_pointer-Keeping mut_set position) (
          first_match-cons _ _ _ _ (Keeping-lexing _ ▸ parse_array-Keeping mut_set position) (
            first_match-cons _ _ _ _ (parse_fn_type-Keeping ▸ λ type. Keeping-pure _) (
              first_match-nil _ (
                Keeping-lexing _ ▸ λ braced.
                Keeping-if braced (parse_struct-Keeping true ▸ λ type. Keeping-pure _)
                  (Keeping-lexing _ ▸ λ is_packed. Keeping-pure _))))))

  pub parse_type-Keeping :
      (mut_set : MutSet) (position : ℕ) (imut_override : Bool)
      → Keeping (Types.parse_type c mut_set position imut_override)
  unfolding Types.parse_type
  parse_type-Keeping mut_set position imut_override = Keeping-lexing _ ▸ λ imut.
      Keeping-if _
        (set_at-Keeping position mut_set ▸ λ mut_set'. Keeping-lexing _ ▸ λ grouped.
          Keeping-if grouped
            (h.parse_type mut_set' (position + 1) true ▸ λ (type, mut_set'').
              Keeping-lexing _ ▸ λ _. Keeping-pure _)
            (parse_type_at-Keeping mut_set' (position + 1)))
        (parse_type_at-Keeping mut_set (position + 1))
