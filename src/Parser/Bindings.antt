-- ===== src/Parser/Bindings.antt =====
-- The attributes that a symbol of the parser has.
use pars_c.Common.{
  Bool, Bool-cases, Bytes, List, [], ap, append_assoc, arith, false, inl, inr, length,
  length-append, not, refl, ◌%◌, ◌++◌, ◌+◌, ◌<◌, ◌||◌, ◌∙◌, ◌∷◌, ◌≡◌,
}
use pars_c.Token.{TokenType}
use pars_c.Symbol.{
  Symbol, get_attributes, get_attributes-set_attributes, no_attributes, set_attributes, symbol_with,
}
use pars_c.Parser.State.{Ast, returned}
use pars_c.Parser.Symbols.{is_empty, symbol_of}
use pars_c.Parser.Balance.{Kept}
use pars_c.Parser.Returns.{Post}
use mathlib.Core.Path.{subst}
use mathlib.Core.Bool.{true≢false}
use pars_c.TextReader.{u32}

abbrev waits : List TokenType → List TokenType → Bool
waits pending of_module = not (is_empty pending) || not (is_empty of_module)

none_wait :
    (pending of_module : List TokenType)
    → waits pending of_module ≡ false
    → [] ≡ pending ++ of_module
none_wait [] [] h = refl
none_wait [] (type ∷ types) h = absurd (true≢false h)
none_wait (type ∷ types) of_module h = absurd (true≢false h)

set_both :
    (name : Bytes) (global pending of_module more : List TokenType)
    → length global < no_attributes
    → length pending + length of_module < 256
    → get_attributes
        (symbol_with name (u32 (length global)) ((length pending + length of_module) % 256))
        (((global ++ pending) ++ of_module) ++ more)
      ≡ pending ++ of_module
unfolding set_attributes
set_both name global pending of_module more h k =
    let count : (length pending + length of_module) % 256 ≡ length (pending ++ of_module) =
      omega (arith, length-append pending of_module) in
    rw (count, append_assoc global pending of_module)
      (get_attributes-set_attributes (pending ++ of_module) global more name h
        (omega (arith, length-append pending of_module)))

-- What a symbol has in the states that come later.
abbrev HasAttributes : List TokenType → Symbol → Ast → Type 0
HasAttributes types bound s = (t : Ast) → Kept s t → get_attributes bound t.g_attributes ≡ types

symbol_of-HasAttributes :
    (name : Bytes) (s : Ast)
    → length s.g_attributes < no_attributes
    → length s.pending_attributes + length s.module_attributes < 256
    → Post (HasAttributes (s.pending_attributes ++ s.module_attributes)) (symbol_of name s)
unfolding symbol_of set_attributes get_attributes
symbol_of-HasAttributes name s h k =
    elim (Bool-cases (waits s.pending_attributes s.module_attributes)) [
      | inl some_wait ↦ rw some_wait (λ t kept.
          let (more, e) = kept.attributes in
          let bound =
            symbol_with name (u32 (length s.g_attributes))
              ((length s.pending_attributes + length s.module_attributes) % 256) in
          ap (get_attributes bound) e
          ∙ set_both name s.g_attributes s.pending_attributes s.module_attributes more h k)
      | inr empty ↦ rw empty (λ t kept. none_wait s.pending_attributes s.module_attributes empty)
    ]

-- Where the numbers fit, the symbol of a name has the attributes that wait for it, and those of the
-- module behind them. It keeps them in every later state of which `Kept` holds.
pub symbol_of-get_attributes :
    (name : Bytes) (s s' t : Ast) (bound : Symbol)
    → length s.g_attributes < no_attributes
    → length s.pending_attributes + length s.module_attributes < 256
    → symbol_of name s ≡ returned bound s'
    → Kept s' t
    → get_attributes bound t.g_attributes ≡ s.pending_attributes ++ s.module_attributes
symbol_of-get_attributes name s s' t bound h k e kept =
    subst (Post (HasAttributes (s.pending_attributes ++ s.module_attributes))) e
      (symbol_of-HasAttributes name s h k) t kept
