-- ===== src/Lexer/Window/Matched.antt =====
-- What `match` of src/lexer.cpp leaves as the last token.
use mathlib.Core.Bool.{true≢false}
use pars_c.Common.{◌≡◌, refl, ap, sym, ◌∙◌, true, false, Bool, some}
use pars_c.Token.{TokenType, Token}
use pars_c.Token.Index.{type_eq_iff}
use pars_c.Outcome.{ok, >>=-eq-ok, ok-injective}
use pars_c.Lexer.State.{Lexer}
use pars_c.Lexer.Window.{value_or, peek_last, peek, peek_is, advance, advance_if, match}
use pars_c.Lexer.Window.Look.{advance-Moved, peek-current}

advanced-last :
    (found : Bool) (token : Token) (l l' : Lexer)
    → l.current_token ≡ some token
    → advance_if (found, l) ≡ ok (true, l')
    → (found ≡ true) × (peek_last l' ≡ token)
unfolding advance_if peek_last
advanced-last false token l l' c h = absurd (true≢false (sym (ap (λ x. x.0) (ok-injective h))))
advanced-last true token l l' c h =
    let ((next, l1), h1, h2) = >>=-eq-ok (advance l) _ h in
    let same : l1 ≡ l' = ap (λ x. x.1) (ok-injective h2) in
    (
      refl,
      ap value_or (sym (ap (λ m. m.last_token) same) ∙ (advance-Moved l next l1 h1).last_is ∙ c),
    )

-- If `match` finds the type, the token behind it has the type.
pub match-last :
    (type : TokenType) (l l' : Lexer) → match type l ≡ ok (true, l') → (peek_last l').type ≡ type
unfolding match peek_is
match-last type l l' h =
    let ((found, l1), h1, h2) = >>=-eq-ok (peek_is type l) advance_if h in
    let ((token, l2), p, q) = >>=-eq-ok (peek l) _ h1 in
    let same : l2 ≡ l1 = ap (λ x. x.1) (ok-injective q) in
    let current = sym (ap (λ m. m.current_token) same) ∙ peek-current l token l2 p in
    let (yes_found, last) = advanced-last found token l1 l' current h2 in
    ap (λ (t : Token). t.type) last
    ∙ (type_eq_iff token.type type).0 (ap (λ x. x.0) (ok-injective q) ∙ yes_found)
