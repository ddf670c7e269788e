-- ===== src/Tests/Overloads.antt =====
-- Witnesses of the theorems on overload sets, and reports. Types are numbers, expressions
-- are their types.
use pars_c.Common.{List, ℕ, true, Option, none, some, [], ◌∷◌, ◌==◌, ◌≡◌, refl, arith, ◌⊎◌}
use pars_c.TextReader
use pars_c.TextReader.View.{set_source-View}
use pars_c.FnCollection.{
  Typing, FnType, find_fn, get_fn-Takes, Takes, get_fn, get_fn-no_parameters, match_args, resolve,
  is_ambiguous,
}
use pars_c.Mangle.{mangle, mangle-shared}
use pars_c.Lexer.Keywords.{codes}
use pars_c.Report.{find_line, find_line-never}
use pars_c.Tests.Lexing.{source_of}

abbrev typing : Typing ℕ (Option ℕ)
typing = record {
  is_equal = ◌==◌;
  type_of = λ e. e;
  is_ctx_sensitive = λ e. true;
  visit_expr = λ e param. some param;
}

abbrev taking : ℕ → FnType ℕ
taking n = record { parameters = n ∷ 7 ∷ []; callable_arity = 2 }

abbrev nullary : FnType ℕ
nullary = record { parameters = []; callable_arity = 0 }

abbrev overloads : List (FnType ℕ)
overloads = taking 1 ∷ taking 2 ∷ []

abbrev called : List (Option ℕ)
called = some 2 ∷ none ∷ []

get_fn-Takes_example :
    ((overloads ≡ taking 2 ∷ []) × (some 2 ∷ some 7 ∷ [] ≡ called))
    ⊎ Takes typing (taking 2) called (some 2 ∷ some 7 ∷ [])
unfolding get_fn find_fn match_args resolve is_ambiguous
get_fn-Takes_example = get_fn-Takes typing overloads called (taking 2) (some 2 ∷ some 7 ∷ []) refl

get_fn-no_parameters_example :
    get_fn typing (nullary ∷ taking 2 ∷ []) (some 2 ∷ some 7 ∷ []) ≡ (none, some 2 ∷ some 7 ∷ [])
get_fn-no_parameters_example =
    get_fn-no_parameters typing nullary (taking 2) [] (some 2 ∷ some 7 ∷ []) refl refl

find_line-never_example : find_line 20 1 [] (TextReader.set_source (source_of "")) ≡ none
find_line-never_example =
    find_line-never 20 1 [] (set_source-View (source_of "") (omega arith)) (omega arith)

mangle-shared_example :
    mangle (codes "add_i32") (codes "i32" ∷ []) none []
    ≡ mangle (codes "add") (codes "i32" ∷ codes "i32" ∷ []) none []
mangle-shared_example = mangle-shared (codes "add") (codes "i32") (codes "i32" ∷ []) none []
