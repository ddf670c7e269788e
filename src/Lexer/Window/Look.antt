-- ===== src/Lexer/Window/Look.antt =====
-- The window of src/lexer.cpp, as its clients see it: `peek`, `peek_next`, `advance`, `expect` and
-- `match_both`.
use mathlib.Core.Path.{subst}
use pars_c.Common.{
  ◌≡◌, refl, sym, ap, ◌∙◌, none, some, Option, true, false, inl, inr, Bool-cases, if◌then◌else◌,
}
use pars_c.Token.{TokenType, Token, type_eq}
use pars_c.Outcome.{
  Always, Outcome, ok, thrown, undefined, expected, ◌>>=◌, >>=-eq-ok, ok-injective,
}
use pars_c.Lexer.State.{Lexer}
use pars_c.Lexer.Scanner.{advance_one}
use pars_c.Lexer.Scanner.Kept.{Keeps, window, advance_one-Kept}
use pars_c.Lexer.Window.{
  peek_next_is, match_second, match_both, value_or, move_up, advance_to, advance, peek_from, peek,
  peek_is, peek_next_from, peek_next, peek_last, expect_found, expect,
}

-- The window behind a read of `token`.
pub record Moved (l : Lexer) (token : Token) (l' : Lexer) : Type 0 where
  pub current_is : l'.current_token ≡ some token
  pub last_is : l'.last_token ≡ l.current_token
  pub next_is : l'.next_token ≡ none

kept_at :
    (l : Lexer) {token : Token} {l' : Lexer} → advance_one l ≡ ok (token, l') → window l' ≡ window l
kept_at l h = subst (Always (Keeps l)) h (advance_one-Kept l)

advance_to-Moved :
    (next : Option Token) (l : Lexer) (token : Token) (l' : Lexer)
    → l.next_token ≡ next
    → advance_to next l ≡ ok (token, l')
    → Moved l token l'
unfolding advance_to
advance_to-Moved (some next) l token l' e h =
    let read = ok-injective h in
    record {
      current_is = sym (ap (λ x. x.1.current_token) read) ∙ ap (λ x. some x.0) read;
      last_is = sym (ap (λ x. x.1.last_token) read);
      next_is = sym (ap (λ x. x.1.next_token) read);
    }
advance_to-Moved none l token l' e h =
    let ((t, l1), h1, h2) = >>=-eq-ok (advance_one l) _ h in
    let read = ok-injective h2 in
    let kept = kept_at l h1 in
    record {
      current_is = sym (ap (λ x. x.1.current_token) read) ∙ ap (λ x. some x.0) read;
      last_is = sym (ap (λ x. x.1.last_token) read) ∙ ap (λ w. w.1) kept;
      next_is = sym (ap (λ x. x.1.next_token) read) ∙ ap (λ w. w.2) kept ∙ e;
    }

-- When `advance` returns, its token is the current one, the token that was the current one is the
-- last one, and no next one is held.
pub advance-Moved :
    (l : Lexer) (token : Token) (l' : Lexer) → advance l ≡ ok (token, l') → Moved l token l'
unfolding advance
advance-Moved l token l' h = advance_to-Moved l.next_token l token l' refl h

peek_from-again :
    (current : Option Token) (l : Lexer) (token : Token) (l' : Lexer)
    → l.current_token ≡ current
    → peek_from current l ≡ ok (token, l')
    → l'.current_token ≡ some token
unfolding peek_from
peek_from-again (some t) l token l' e h =
    let read = ok-injective h in
    sym (ap (λ x. x.1.current_token) read) ∙ e ∙ ap (λ x. some x.0) read
peek_from-again none l token l' e h = (advance-Moved l token l' h).current_is

pub peek-current :
    (l : Lexer) (token : Token) (l' : Lexer)
    → peek l ≡ ok (token, l')
    → l'.current_token ≡ some token
unfolding peek
peek-current l token l' h = peek_from-again l.current_token l token l' refl h

-- A second `peek` returns the token of the first, and changes nothing.
pub peek-peek :
    (l : Lexer) (token : Token) (l' : Lexer) → peek l ≡ ok (token, l') → peek l' ≡ ok (token, l')
unfolding peek peek_from
peek-peek l token l' h = rw (peek-current l token l' h) refl

-- What a look ahead leaves: the read that follows is the one that would have been made without it.
pub record Ahead (l : Lexer) (read : Outcome (Token × Lexer)) (x : Token × Lexer) : Type 0 where
  pub advance_is : advance x.1 ≡ read
  pub current_is : x.1.current_token ≡ l.current_token
  pub next_is : x.1.next_token ≡ some x.0

peek_next_from-Ahead :
    (next : Option Token) (l : Lexer) (x : Token × Lexer)
    → l.next_token ≡ next
    → peek_next_from next l ≡ ok x
    → Ahead l (advance_to next l) x
unfolding peek_next_from advance advance_to
peek_next_from-Ahead (some t) l x e h =
    subst (Ahead l _) (ok-injective h)
      (record { advance_is = ap (λ n. advance_to n l) e; current_is = refl; next_is = e })
peek_next_from-Ahead none l x e h =
    let ((t, l1), h1, h2) = >>=-eq-ok (advance_one l) _ h in
    let kept = kept_at l h1 in
    let empty : record l1 { next_token = none } ≡ l1 =
      ap (λ n. record l1 { next_token = n }) (sym (ap (λ w. w.2) kept ∙ e)) in
    subst (Ahead l _) (ok-injective h2) (record {
      advance_is = ap (λ m. ok (move_up t m)) empty ∙ rw h1 refl;
      current_is = ap (λ w. w.1) kept;
      next_is = refl;
    })

-- A token that `peek_next` shows is held back: the `advance` that follows does what it would have
-- done without the look, and the current token stays.
pub peek_next-Ahead :
    (l : Lexer) (token : Token) (l' : Lexer)
    → peek_next l ≡ ok (token, l')
    → Ahead l (advance l) (token, l')
unfolding peek_next advance
peek_next-Ahead l token l' h = peek_next_from-Ahead l.next_token l (token, l') refl h

behind_advance :
    (l : Lexer) (token : Token)
    → l.current_token ≡ some token
    → (m : Outcome (Token × Lexer)) → m ≡ advance l
    → ◌>>=◌ {B = Token × Lexer} m (λ (_, l'). ok (peek_last l', l'))
      ≡ (m >>= λ (_, l'). ok (token, l'))
unfolding peek_last
behind_advance l token e (ok (t, l')) h =
    ap (λ n. ok (value_or n, l')) ((advance-Moved l t l' (sym h)).last_is ∙ e)
behind_advance l token e (thrown x) h = refl
behind_advance l token e undefined h = refl

-- With `token` the one that `peek` shows, `expect type` reads on and returns it, if it has the type;
-- else it throws that token, with both types, and reads nothing more.
pub expect-peek :
    (type : TokenType) (l : Lexer) (token : Token) (l' : Lexer)
    → peek l ≡ ok (token, l')
    → expect type l ≡ (
        if type_eq token.type type
        then (advance l' >>= λ (_, l''). ok (token, l''))
        else thrown (record { token = token; reason = expected type token.type }))
unfolding expect expect_found peek_is
expect-peek type l token l' h = elim (Bool-cases (type_eq token.type type)) [
  | inl e ↦ rw (h, e) (behind_advance l' token (peek-current l token l' h) (advance l') refl)
  | inr e ↦ rw (h, e, peek-peek l token l' h) refl
]

-- With `first` the token that `peek` shows and `second` the one that `peek_next` shows behind it,
-- `match_both a b` reads on twice if their types are `a` and `b`, and else not at all.
pub match_both-peek :
    (a b : TokenType) (l : Lexer) (first : Token) (l1 : Lexer) (second : Token) (l2 : Lexer)
    → peek l ≡ ok (first, l1)
    → peek_next l1 ≡ ok (second, l2)
    → match_both a b l ≡ (
        if type_eq first.type a
        then if type_eq second.type b
          then (advance l1 >>= λ (_, l3). advance l3 >>= λ (_, l4). ok (true, l4))
          else ok (false, l2)
        else ok (false, l1))
unfolding match_both match_second peek_is peek_next_is
match_both-peek a b l first l1 second l2 h k = elim (Bool-cases (type_eq first.type a)) [
  | inr e ↦ rw (h, e) refl
  | inl e ↦ elim (Bool-cases (type_eq second.type b)) [
    | inr g ↦ rw (h, e, k, g) refl
    | inl g ↦ rw (h, e, k, g, (peek_next-Ahead l1 second l2 k).advance_is) refl
  ]
]
