-- ===== src/Mangle.antt =====
-- `mangle` of src/mangle.hpp: the name of a function for the linker. What `get_type_name` returns for
-- the parameters and for the parent type is passed in.
use pars_c.Common.{Option, none, some, List, [], ◌∷◌, ◌++◌, append_assoc, Bytes, ◌≡◌, sym, ap, ◌∙◌}
use pars_c.Lexer.Keywords.{codes}

abbrev pub parent_prefix : Option Bytes → Bytes
parent_prefix none = []
parent_prefix (some name) = name ++ codes "::"

-- the loop over the parameters
unfoldable pub mangle_params : List Bytes → Bytes → Bytes
mangle_params [] buffer = buffer
mangle_params (param ∷ params) buffer = mangle_params params ((buffer ++ codes "_") ++ param)

unfoldable pub mangle : Bytes → List Bytes → Option Bytes → Bytes → Bytes
mangle symbol params parent_type buffer =
    mangle_params params (((buffer ++ codes "?") ++ parent_prefix parent_type) ++ symbol)

-- Two functions can share a mangled name: the first parameter's type can as well be an end of the
-- symbol, since an underscore may stand in a symbol.
pub mangle-shared :
    (symbol param : Bytes) (params : List Bytes) (parent_type : Option Bytes) (buffer : Bytes)
    → mangle ((symbol ++ codes "_") ++ param) params parent_type buffer
      ≡ mangle symbol (param ∷ params) parent_type buffer
unfolding mangle mangle_params
mangle-shared symbol param params parent_type buffer =
    let front = (buffer ++ codes "?") ++ parent_prefix parent_type in
    ap (mangle_params params) (
      sym (append_assoc front (symbol ++ codes "_") param)
      ∙ ap (λ text. text ++ param) (sym (append_assoc front symbol (codes "_"))))
