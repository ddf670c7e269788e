-- ===== src/Parser/Ends/Typings.antt =====
-- The fuel of the functions of src/ast.cpp on types, signatures and structs.
use pars_c.Common.{
  Bool, Bool-cases, [], arith, false, if◌then◌else◌, inl, inr, ltb, refl, suc, true, zero, ℕ, ◌+◌,
  ◌<◌, ◌≡◌, ◌≤◌,
}
use pars_c.Token.{TokenType}
use pars_c.Symbol.{Symbol}
use pars_c.Syntax.{
  Fields, MutSet, Node, Ty, VarDecl, VarDecls, no_fields, no_vars, null_expr, null_type,
}
use pars_c.Parser.State.{Calls, Parser, match, pure, ◌>>=◌}
use pars_c.Parser.Types.{
  comma_unless, count_param, fields_loop, member_loop, param_loop, param_symbol, parse_array,
  parse_field, parse_fields, parse_fn_param, parse_fn_signature, parse_fn_type, parse_members,
  parse_pointer, parse_size, parse_struct, parse_type_at, parse_type_meta, return_type, set_at,
  struct_fields, type_meta_of,
}
use pars_c.Parser.Ends.{
  Ends, Ends-gets, Ends-if, Ends-pure, Ends-throw, expect-Ends, loosely, match-Ends, peek_is-Ends,
  takes_any, takes_some, took_or, ◌▸◌, ◌▹◌,
}
use pars_c.Parser.Ends.Steps.{
  Good, first_match-cons, first_match-nil, match_then, new_node-Ends, scoping-Ends, typed,
}
use pars_c.Parser.Ends.Names.{get_symbol-Ends}
use mathlib.Core.Bool.{true≢false}
use pars_c.Parser.Types

set_at-Ends : {w : ℕ} (position : ℕ) (mut_set : MutSet) → Ends takes_any w (set_at position mut_set)
unfolding set_at
set_at-Ends position mut_set = record {
  at = λ s h. elim (Bool-cases (ltb position 32)) [
    | inl inside ↦ rw inside h
    | inr outside ↦ rw outside tt
  ];
}

fields_loop-Ends :
    {S : Type 0} (r w : ℕ) (round : S → Parser S) (state : S)
    → w < r
    → ((s : S) (v : ℕ) → v ≤ w → Ends takes_some v (round s))
    → Ends takes_any w (fields_loop r round state)
unfolding fields_loop
fields_loop-Ends zero w round state lt h = absurd (omega arith)
fields_loop-Ends (suc r) w round state lt h = peek_is-Ends TokenType.right_brace ▸ λ ended.
    Ends-if ended (Ends-pure _) (
      h state w (omega arith) ▹ λ state' v lower. match-Ends TokenType.comma refl ▸ λ _.
      fields_loop-Ends r v round state' (omega arith) (λ s u le. h s u (omega arith)))

pub parse_fields-Ends :
    {S : Type 0} (r w : ℕ) (round : S → Parser S) (state : S)
    → w ≤ r
    → ((s : S) (v : ℕ) → v < w → Ends takes_some v (round s))
    → Ends takes_some w (parse_fields r round state)
unfolding parse_fields
parse_fields-Ends r w round state le h = expect-Ends TokenType.left_brace refl ▹ λ _ v lower.
    fields_loop-Ends r v round state (omega arith) (λ s u at_most. h s u (omega arith)) ▸ λ state'.
    expect-Ends TokenType.right_brace refl ▸ λ _. Ends-pure _

-- A type that is missing is an error, and any other has taken a token.
type_meta_of-Ends :
    {w : ℕ} (c : Calls) (type : Ty × MutSet) → Ends takes_any w (type_meta_of c type)
unfolding type_meta_of
type_meta_of-Ends c (null_type, mut_set) = Ends-gets _ ▸ λ token. Ends-throw _ _ _
type_meta_of-Ends c (_, mut_set) = Ends-pure _

missing-Ends :
    {w : ℕ} (c : Calls) (type : Ty × MutSet)
    → typed type ≡ false
    → Ends takes_some w (type_meta_of c type)
unfolding type_meta_of
missing-Ends c (null_type, mut_set) e = Ends-gets _ ▸ λ token. Ends-throw _ _ _
missing-Ends c (_, mut_set) e = absurd (true≢false e)

param_symbol-Ends :
    {w : ℕ} (c : Calls) (parse_name : Bool) → Ends takes_any w (param_symbol c parse_name)
unfolding param_symbol
param_symbol-Ends c false = Ends-pure _
param_symbol-Ends c true =
    get_symbol-Ends ▸ λ name. expect-Ends TokenType.colon refl ▸ λ _. Ends-pure _

count_param-Ends :
    {w : ℕ} (c : Calls) (saw_default : Bool) (param : VarDecl)
    → Ends takes_any w (count_param c saw_default param)
unfolding count_param
count_param-Ends c saw_default param =
    Ends-if _ (Ends-pure 0) (Ends-if saw_default (Ends-throw _ _ _) (Ends-pure 1))

comma_unless-Ends : {w : ℕ} (closed : Bool) → Ends takes_any w (comma_unless closed)
unfolding comma_unless
comma_unless-Ends true = Ends-pure tt
comma_unless-Ends false = expect-Ends TokenType.comma refl ▸ λ _. Ends-pure tt

member_loop-Ends : (c : Calls) (r w : ℕ) → w < r → Ends takes_any w (member_loop c r)
unfolding member_loop
member_loop-Ends c zero w lt = absurd (omega arith)
member_loop-Ends c (suc r) w lt = expect-Ends TokenType.identifier refl ▹ λ token v lower.
    match_then TokenType.comma _ refl
      (λ u below. member_loop-Ends c r u (omega arith) ▸ λ names. Ends-pure _) (Ends-pure _)

parse_members-Ends :
    (c : Calls) (w : ℕ) (has_members : Bool)
    → w < c.rounds
    → Ends takes_any w (parse_members c has_members)
unfolding parse_members
parse_members-Ends c w false lt = Ends-pure []
parse_members-Ends c w true lt = member_loop-Ends c c.rounds w lt ▸ λ members.
    expect-Ends TokenType.right_brace refl ▸ λ _. Ends-pure _

module _ (c : Calls) (n : ℕ) (g : Good n c) where
  pub parse_type_meta-Ends : (w : ℕ) → w < n → Ends takes_some w (parse_type_meta c)
  unfolding parse_type_meta
  parse_type_meta-Ends w lt =
      took_or (g.parse_type w lt 0 0 false) (λ type v lower e. type_meta_of-Ends c type)
        (λ type e. missing-Ends c type e)

  parse_fn_param-Ends :
      (w : ℕ) (parse_name : Bool) → w < n → Ends takes_some w (parse_fn_param c parse_name)
  unfolding parse_fn_param
  parse_fn_param-Ends w parse_name lt = new_node-Ends ▸ λ node.
      param_symbol-Ends c parse_name ▸ λ name.
      parse_type_meta-Ends w lt ▹ λ (type, mut_set) v lower.
      match-Ends TokenType.equal refl ▸ λ has_default.
      Ends-if has_default (loosely (g.expression v (omega arith))) (Ends-pure null_expr)
      ▸ λ initializer. Ends-pure _

  param_loop-Ends :
      (r w : ℕ) (parse_names saw_default : Bool)
      → w < r
      → w < n
      → Ends takes_any w (param_loop c r parse_names saw_default)
  unfolding param_loop
  param_loop-Ends zero w parse_names saw_default lt below = absurd (omega arith)
  param_loop-Ends (suc r) w parse_names saw_default lt below =
      peek_is-Ends TokenType.right_paren ▸ λ ended. Ends-if ended (Ends-pure _) (
        match_then TokenType.ellipse _ refl (λ v lower. Ends-pure _)
          (parse_fn_param-Ends w parse_names below ▹ λ param v lower.
            count_param-Ends c saw_default param ▸ λ count.
            peek_is-Ends TokenType.right_paren ▸ λ closed. comma_unless-Ends closed ▸ λ _.
            param_loop-Ends r v parse_names _ (omega arith) (omega arith) ▸ λ later. Ends-pure _))

  return_type-Ends :
      (w : ℕ) (has_return : Bool) → w < n → Ends takes_any w (return_type c has_return)
  unfolding return_type
  return_type-Ends w true lt = loosely (parse_type_meta-Ends w lt)
  return_type-Ends w false lt = Ends-pure _

  pub parse_fn_signature-Ends :
      (w : ℕ) (parse_names : Bool) (added_params : VarDecls)
      → w < n
      → Ends takes_any w (parse_fn_signature c parse_names added_params)
  unfolding parse_fn_signature
  parse_fn_signature-Ends w parse_names added_params lt =
      let enough = g.rounds in
      expect-Ends TokenType.left_paren refl ▸ λ _.
      param_loop-Ends c.rounds w parse_names false (omega arith) lt ▸ λ params.
      expect-Ends TokenType.right_paren refl ▸ λ _. match-Ends TokenType.colon refl ▸ λ has_return.
      return_type-Ends w has_return lt ▸ λ (type, mut_set). Ends-pure _

  parse_field-Ends : (w : ℕ) (so_far : Fields) → w < n → Ends takes_some w (parse_field c so_far)
  unfolding parse_field
  parse_field-Ends w so_far lt = get_symbol-Ends ▹ λ name v lower.
      expect-Ends TokenType.colon refl ▸ λ _.
      parse_type_meta-Ends v (omega arith) ▸ λ (type, mut_set). Ends-pure _

  struct_fields-Ends :
      (w : ℕ) (node : Node) (name : Symbol) → w ≤ n → Ends takes_some w (struct_fields c node name)
  unfolding struct_fields
  struct_fields-Ends w node name le =
      let enough = g.rounds in
      parse_fields-Ends c.rounds w _ no_fields (omega arith)
        (λ so_far v lower. parse_field-Ends v so_far (omega arith))
      ▹ λ all v lower. Ends-pure _

  pub parse_struct-Ends :
      (w : ℕ) (anonymous : Bool) → w ≤ n → Ends takes_some w (parse_struct c anonymous)
  unfolding parse_struct
  parse_struct-Ends w true le = new_node-Ends ▸ λ node. struct_fields-Ends w node _ le
  parse_struct-Ends w false le = new_node-Ends ▸ λ node. get_symbol-Ends ▹ λ name v lower.
      scoping-Ends _ ▸ λ _. peek_is-Ends TokenType.left_brace ▸ λ braced.
      Ends-if braced (loosely (struct_fields-Ends v node name (omega arith))) (Ends-pure _)

  parse_size-Ends : (w : ℕ) (open_size : Bool) → w < n → Ends takes_any w (parse_size c open_size)
  unfolding parse_size
  parse_size-Ends w true lt = Ends-pure _
  parse_size-Ends w false lt = g.expression w lt ▸ λ e. Ends-pure _

  parse_array-Ends :
      (w : ℕ) (mut_set : MutSet) (position : ℕ) (closed : Bool)
      → w < n
      → Ends takes_any w (parse_array c mut_set position closed)
  unfolding parse_array
  parse_array-Ends w mut_set position true lt = new_node-Ends ▸ λ node.
      g.parse_type w lt mut_set position false ▸ λ (inner, mut_set'). Ends-pure _
  parse_array-Ends w mut_set position false lt =
      let enough = g.rounds in
      new_node-Ends ▸ λ node. match-Ends TokenType.question refl ▸ λ open_size.
      parse_size-Ends w open_size lt ▸ λ (size, size_expr).
      expect-Ends TokenType.right_bracket refl ▸ λ _.
      g.parse_type w lt mut_set position false ▸ λ (inner, mut_set').
      match-Ends TokenType.left_brace refl ▸ λ has_members.
      parse_members-Ends c w has_members (omega arith) ▸ λ members. Ends-pure _

  parse_pointer-Ends :
      (w : ℕ) (mut_set : MutSet) (position : ℕ)
      → w < n
      → Ends takes_any w (parse_pointer c mut_set position)
  unfolding parse_pointer
  parse_pointer-Ends w mut_set position lt = new_node-Ends ▸ λ node.
      g.parse_type w lt mut_set position false ▸ λ (inner, mut_set'). Ends-pure _

  parse_fn_type-Ends : (w : ℕ) → w < n → Ends takes_any w (parse_fn_type c)
  unfolding parse_fn_type
  parse_fn_type-Ends w lt =
      new_node-Ends ▸ λ node. parse_fn_signature-Ends w false no_vars lt ▸ λ sig. Ends-pure _

  parse_type_at-Ends :
      (w : ℕ) (mut_set : MutSet) (position : ℕ)
      → w ≤ n
      → Ends typed w (parse_type_at c mut_set position)
  unfolding parse_type_at pure
  parse_type_at-Ends w mut_set position le =
      first_match-cons _ _ _ _ refl
        (λ v lt. new_node-Ends ▸ λ node. Ends-gets _ ▸ λ token. Ends-pure _)
        (first_match-cons _ _ _ _ refl (λ v lt. parse_pointer-Ends v mut_set position (omega arith))
          (first_match-cons _ _ _ _ refl
            (λ v lt. match-Ends TokenType.right_bracket refl ▸ λ closed.
              parse_array-Ends v mut_set position closed (omega arith))
            (first_match-cons _ _ _ _ refl
              (λ v lt. parse_fn_type-Ends v (omega arith) ▸ λ type. Ends-pure _)
              (first_match-nil _ (
                peek_is-Ends TokenType.left_brace ▸ λ braced.
                Ends-if braced (parse_struct-Ends w true le ▹ λ type v lower. Ends-pure _) (
                  match_then TokenType.ellipse _ refl (λ v lower. Ends-pure _)
                    (record { at = λ s h. h })))))))

  -- The part of `parse_type` behind `imut`, or inside one that is.
  immutable-Ends :
      (w : ℕ) (mut_set : MutSet) (position : ℕ)
      → w ≤ n
      → Ends typed w (
          set_at position mut_set >>= λ mut_set'. match TokenType.left_paren >>= λ grouped.
          if grouped
          then (c.parse_type mut_set' (position + 1) true >>= λ (type, mut_set'').
              match TokenType.right_paren >>= λ _. pure (type, mut_set''))
          else parse_type_at c mut_set' (position + 1))
  immutable-Ends w mut_set position le = set_at-Ends position mut_set ▸ λ mut_set'.
      match_then TokenType.left_paren _ refl
        (λ v lower. g.parse_type v (omega arith) mut_set' _ true ▸ λ (type, mut_set'').
          match-Ends TokenType.right_paren refl ▸ λ _. Ends-pure _)
        (parse_type_at-Ends w mut_set' _ le)

  pub parse_type-Ends :
      (w : ℕ) (mut_set : MutSet) (position : ℕ) (imut_override : Bool)
      → w ≤ n
      → Ends typed w (Types.parse_type c mut_set position imut_override)
  unfolding Types.parse_type
  parse_type-Ends w mut_set position imut_override le =
      match_then TokenType.imut_kw _ refl
        (λ v lower. loosely (immutable-Ends v mut_set position (omega arith)))
        (Ends-if imut_override (immutable-Ends w mut_set position le)
          (parse_type_at-Ends w mut_set _ le))
