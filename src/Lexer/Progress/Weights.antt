-- ===== src/Lexer/Progress/Weights.antt =====
-- The weight of the window of src/lexer.cpp: the bytes that are left, and the tokens that it
-- holds. What the functions of the window that the parser of src/ast.cpp calls take of it.
use pars_c.Common.{
  ℕ, ◌+◌, ◌<◌, ◌≤◌, ◌≡◌, ◌∙◌, ap, arith, Bool, false, if◌then◌else◌, none, Option, refl, some, true,
}
use mathlib.Core.Path.{subst}
use pars_c.Token.{Token, TokenType, type_eq}
use pars_c.Token.Index.{type_eq_iff}
use pars_c.Outcome.{Always, Always-map, if-Always, ok, Outcome, thrown, undefined, >>=-Always}
use pars_c.TextReader.{remaining, size}
use pars_c.Lexer.State.{Lexer}
use pars_c.Lexer.Scanner.{advance_one}
use pars_c.Lexer.Scanner.Kept.{advance_one-Kept, window}
use pars_c.Lexer.Window.{
  advance, advance_if, advance_to, expect, expect_found, match, match_both, match_next,
  match_second, peek, peek_from, peek_is, peek_next, peek_next_from, peek_next_is,
}
use pars_c.Lexer.Progress.Tokens.{advance_one-Reads, cost, Reads}

abbrev pub held : Option Token → ℕ
held none = 0
held (some token) = cost token.type

abbrev pub weight : Lexer → ℕ
weight l = remaining l.reader + held l.current_token + held l.next_token

-- The text is as long as before, and the weight has gone down by so much.
pub record Takes (l : Lexer) (amount : ℕ) (l' : Lexer) : Type 0 where
  pub size_is : size l'.reader.source ≡ size l.reader.source
  pub less : weight l' + amount ≤ weight l

abbrev pub IsSmall : Lexer → Type 0
IsSmall l = size l.reader.source < 4294967296

Takes-none : (l : Lexer) → Takes l 0 l
Takes-none l = record { size_is = refl; less = omega arith }

pub Takes-trans : {l l' l'' : Lexer} {a b : ℕ} → Takes l a l' → Takes l' b l'' → Takes l (a + b) l''
Takes-trans h k = record {
  size_is = k.size_is ∙ h.size_is;
  less = let x = h.less in let y = k.less in omega arith;
}

pub IsSmall-Takes : {l l' : Lexer} {a : ℕ} → IsSmall l → Takes l a l' → IsSmall l'
IsSmall-Takes small h = let e = h.size_is in omega arith

-- A token that is read keeps the window, and takes its cost.
record Fetches (l : Lexer) (x : Token × Lexer) : Type 0 where
  read : Reads l x
  kept : window x.1 ≡ window l

advance_one-Fetches : (l : Lexer) → IsSmall l → Always (Fetches l) (advance_one l)
advance_one-Fetches l small = both (advance_one l) (advance_one-Reads l small) (advance_one-Kept l)
  where
    both :
        (o : Outcome (Token × Lexer))
        → Always (Reads l) o
        → Always (λ x. window x.1 ≡ window l) o
        → Always (Fetches l) o
    both (ok x) h k = record { read = h; kept = k }
    both (thrown e) h k = tt
    both undefined h k = tt

-- `advance` uses the current token up.
advance_to-Takes :
    (next : Option Token) (l : Lexer)
    → IsSmall l
    → l.next_token ≡ next
    → Always
        (λ x.
          Takes l (held l.current_token) x.1
          × (x.1.current_token ≡ some x.0)
          × (x.1.last_token ≡ l.current_token))
        (advance_to next l)
unfolding advance_to
advance_to-Takes (some token) l small e =
    (record { size_is = refl; less = rw e (omega arith) }, refl, refl)
advance_to-Takes none l small e =
    >>=-Always (Fetches l) _ (advance_one l) _ (advance_one-Fetches l small) λ x f. (
      record {
        size_is = f.read.size_is;
        less =
            let less = f.read.less in
            let next : x.1.next_token ≡ l.next_token = ap (λ w. w.2) f.kept in
            rw (next, e) (omega arith);
      },
      refl,
      ap (λ w. w.1) f.kept,
    )

pub advance-Takes :
    (l : Lexer)
    → IsSmall l
    → Always
        (λ x.
          Takes l (held l.current_token) x.1
          × (x.1.current_token ≡ some x.0)
          × (x.1.last_token ≡ l.current_token))
        (advance l)
unfolding advance
advance-Takes l small = advance_to-Takes l.next_token l small refl

peek_from-Takes :
    (current : Option Token) (l : Lexer)
    → IsSmall l
    → l.current_token ≡ current
    → Always (λ x. Takes l 0 x.1 × (x.1.current_token ≡ some x.0)) (peek_from current l)
unfolding peek_from
peek_from-Takes (some token) l small e = (Takes-none l, e)
peek_from-Takes none l small e =
    Always-map _ _ (advance l) (advance-Takes l small)
      (λ x h. (record { size_is = h.0.size_is; less = let k = h.0.less in omega arith }, h.1))

pub peek-Takes :
    (l : Lexer) → IsSmall l → Always (λ x. Takes l 0 x.1 × (x.1.current_token ≡ some x.0)) (peek l)
unfolding peek
peek-Takes l small = peek_from-Takes l.current_token l small refl

-- If the current token has the type, the window holds its cost.
type_eq-held :
    (type : TokenType) (token : Token) {current : Option Token}
    → current ≡ some token
    → type_eq token.type type ≡ true
    → held current ≡ cost type
type_eq-held type token e h = ap held e ∙ ap cost ((type_eq_iff token.type type).0 h)

pub peek_is-Takes :
    (type : TokenType) (l : Lexer)
    → IsSmall l
    → Always
        (λ x. Takes l 0 x.1 × (x.0 ≡ true → held x.1.current_token ≡ cost type))
        (peek_is type l)
unfolding peek_is
peek_is-Takes type l small =
    >>=-Always _ _ (peek l) _ (peek-Takes l small) (λ x h. (h.0, λ e. type_eq-held type x.0 h.1 e))

abbrev pub taken : Bool → ℕ → ℕ
taken found amount = if found then amount else 0

advance_if-Takes :
    (amount : ℕ) (l : Lexer) (x : Bool × Lexer)
    → IsSmall l
    → Takes l 0 x.1
    → (x.0 ≡ true → held x.1.current_token ≡ amount)
    → Always (λ y. Takes l (taken y.0 amount) y.1) (advance_if x)
unfolding advance_if
advance_if-Takes amount l (false, l') small h k = h
advance_if-Takes amount l (true, l') small h k =
    >>=-Always _ _ (advance l') _ (advance-Takes l' (IsSmall-Takes small h))
      (λ y m. subst (λ a. Takes l a y.1) (omega (arith, k refl)) (Takes-trans h m.0))

pub match-Takes :
    (type : TokenType) (l : Lexer)
    → IsSmall l
    → Always (λ x. Takes l (taken x.0 (cost type)) x.1) (match type l)
unfolding match
match-Takes type l small =
    >>=-Always _ _ (peek_is type l) _ (peek_is-Takes type l small)
      (λ x h. advance_if-Takes (cost type) l x small h.0 h.1)

-- `expect` takes the token that it returns.
expect_found-Takes :
    (amount : ℕ) (type : TokenType) (l : Lexer) (x : Bool × Lexer)
    → IsSmall l
    → Takes l 0 x.1
    → (x.0 ≡ true → held x.1.current_token ≡ amount)
    → Always (λ y. Takes l amount y.1) (expect_found type x)
unfolding expect_found
expect_found-Takes amount type l (true, l') small h k =
    >>=-Always _ _ (advance l') _ (advance-Takes l' (IsSmall-Takes small h))
      (λ y m. subst (λ a. Takes l a y.1) (omega (arith, k refl)) (Takes-trans h m.0))
expect_found-Takes amount type l (false, l') small h k =
    >>=-Always _ _ (peek l') _ (peek-Takes l' (IsSmall-Takes small h)) (λ y m. tt)

pub expect-Takes :
    (type : TokenType) (l : Lexer)
    → IsSmall l
    → Always (λ x. Takes l (cost type) x.1) (expect type l)
unfolding expect
expect-Takes type l small =
    >>=-Always _ _ (peek_is type l) _ (peek_is-Takes type l small)
      (λ x h. expect_found-Takes (cost type) type l x small h.0 h.1)

-- Looking ahead takes nothing, and leaves the current token.
abbrev Ahead : Lexer → Lexer → Type 0
Ahead l l' = Takes l 0 l' × (l'.current_token ≡ l.current_token)

peek_next_from-Takes :
    (next : Option Token) (l : Lexer)
    → IsSmall l
    → l.next_token ≡ next
    → Always (λ x. Ahead l x.1) (peek_next_from next l)
unfolding peek_next_from
peek_next_from-Takes (some token) l small e = (Takes-none l, refl)
peek_next_from-Takes none l small e =
    >>=-Always (Fetches l) _ (advance_one l) _ (advance_one-Fetches l small) λ x f.
      let same : x.1.current_token ≡ l.current_token = ap (λ w. w.1) f.kept in
      (
        record {
          size_is = f.read.size_is;
          less = let less = f.read.less in rw (same, e) (omega arith);
        },
        same,
      )

peek_next_is-Takes :
    (type : TokenType) (l : Lexer) → IsSmall l → Always (λ x. Ahead l x.1) (peek_next_is type l)
unfolding peek_next_is peek_next
peek_next_is-Takes type l small =
    >>=-Always _ _ (peek_next_from l.next_token l) _
      (peek_next_from-Takes l.next_token l small refl) (λ x h. h)

-- What is taken at least.
pub Takes-less : {l l' : Lexer} {a : ℕ} (b : ℕ) → b ≤ a → Takes l a l' → Takes l b l'
Takes-less b le h = record { size_is = h.size_is; less = let k = h.less in omega arith }

advance_if-none :
    (l : Lexer) (x : Bool × Lexer)
    → IsSmall l
    → Takes l 0 x.1
    → Always (λ y. Takes l 0 y.1) (advance_if x)
unfolding advance_if
advance_if-none l (false, l') small h = h
advance_if-none l (true, l') small h =
    >>=-Always _ _ (advance l') _ (advance-Takes l' (IsSmall-Takes small h))
      (λ y m. Takes-less 0 (omega arith) (Takes-trans h m.0))

pub match_next-Takes :
    (type : TokenType) (l : Lexer) → IsSmall l → Always (λ x. Takes l 0 x.1) (match_next type l)
unfolding match_next
match_next-Takes type l small =
    >>=-Always _ _ (peek_next_is type l) _ (peek_next_is-Takes type l small)
      (λ x h. advance_if-none l x small h.0)

match_second-Takes :
    (amount : ℕ) (b : TokenType) (l : Lexer) (x : Bool × Lexer)
    → IsSmall l
    → Takes l 0 x.1
    → (x.0 ≡ true → held x.1.current_token ≡ amount)
    → Always (λ y. Takes l (taken y.0 amount) y.1) (match_second b x)
unfolding match_second
match_second-Takes amount b l (false, l') small h k = h
match_second-Takes amount b l (true, l') small h k =
    let small' = IsSmall-Takes small h in
    >>=-Always _ _ (peek_next_is b l') _ (peek_next_is-Takes b l' small') λ x m.
      if-Always (λ y. Takes l (taken y.0 amount) y.1) x.0 _ _
        (>>=-Always _ _ (advance x.1) _ (advance-Takes x.1 (IsSmall-Takes small' m.0)) λ y p.
          >>=-Always _ _ (advance y.1) _
            (advance-Takes y.1 (IsSmall-Takes (IsSmall-Takes small' m.0) p.0))
            λ z q.
              Takes-less amount (let e = k refl in let e' = ap held m.1 in omega arith)
                (Takes-trans (Takes-trans (Takes-trans h m.0) p.0) q.0))
        (Takes-trans h m.0)

-- `match_both` takes the first of the two tokens, and the second one too.
pub match_both-Takes :
    (a b : TokenType) (l : Lexer)
    → IsSmall l
    → Always (λ x. Takes l (taken x.0 (cost a)) x.1) (match_both a b l)
unfolding match_both
match_both-Takes a b l small =
    >>=-Always _ _ (peek_is a l) _ (peek_is-Takes a l small)
      (λ x h. match_second-Takes (cost a) b l x small h.0 h.1)
