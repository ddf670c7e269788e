-- ===== src/Lexer/Scanner/Gaps.antt =====
-- What `advance_one` of src/lexer.cpp skips in front of a token: blanks, line ends and line
-- comments.
use pars_c.Common.{
  ℕ, zero, suc, ◌≤◌, Bool, true, false, not, ◌&&◌, inl, inr, refl, sym, ◌∙◌, arith, [], ◌∷◌, length,
  ◌≡◌, Bool-cases, Bytes, ◌==◌, while, while-true, while-false,
}
use pars_c.TextReader.{
  Source, TextReader, peek, peek_next, is_insignificant, skip_insignificant, skip_until,
}
use pars_c.TextReader.View.{View, View-remaining, peek-cons, peek-nil}
use pars_c.TextReader.Look.{peek_next-cons, peek_next-last}
use pars_c.TextReader.Scan.{drop_while, skip_insignificant-View, skip_until-View}
use pars_c.Lexer.Scanner.{skip_comments}

-- Two slashes; for a slash at the very end the byte `behind` the text is looked at.
abbrev pub starts_comment : ℕ → Bytes → Bool
starts_comment behind [] = false
starts_comment behind (c ∷ []) = c == b'/' && behind == b'/'
starts_comment behind (c ∷ d ∷ rest) = c == b'/' && d == b'/'

-- The rest of the line.
abbrev pub line_end : Bytes → Bytes
line_end = drop_while (λ b. not (b == b'\n'))

-- `Gap behind text rest`: blanks and comments lead from `text` to `rest`.
pub data Gap (behind : ℕ) : Bytes → Bytes → Type 0 where
  blanks :
      {text rest : Bytes}
      → drop_while is_insignificant text ≡ rest
      → starts_comment behind rest ≡ false
      → Gap behind text rest
  comment :
      {text line rest : Bytes}
      → drop_while is_insignificant text ≡ line
      → starts_comment behind line ≡ true
      → Gap behind (line_end line) rest
      → Gap behind text rest

-- The reader has skipped a gap, and starts a lexeme behind it.
abbrev pub Skips : Source → TextReader → Bytes → Type 0
Skips s r text =
    (rest : Bytes) × (done : Bytes) × Gap (s.beyond 0) text rest × View s r done [] rest

abbrev comment_test : TextReader → Bool
comment_test s = peek s == b'/' && peek_next s == b'/'

abbrev comment_body : TextReader → TextReader
comment_body s = skip_insignificant false (skip_until b'\n' s)

comment_test-View :
    {s : Source} {r : TextReader} {done lexeme : Bytes} (rest : Bytes)
    → View s r done lexeme rest
    → comment_test r ≡ starts_comment (s.beyond 0) rest
comment_test-View [] v = rw (peek-nil v)
comment_test-View (c ∷ []) v = rw (peek-cons v, peek_next-last v)
comment_test-View (c ∷ d ∷ rest) v = rw (peek-cons v, peek_next-cons v)

length-drop_while : (p : ℕ → Bool) (xs : Bytes) → length (drop_while p xs) ≤ length xs
length-drop_while p [] = omega arith
length-drop_while p (x ∷ xs) = ground (arith, length-drop_while p xs)

drop_while_twice : (p : ℕ → Bool) (xs : Bytes) → drop_while p (drop_while p xs) ≡ drop_while p xs
drop_while_twice p [] = refl
drop_while_twice p (x ∷ xs) = ground (arith, drop_while_twice p xs)

-- A comment has two bytes at least, or is the slash at the end of the text.
line_end_shorter :
    (behind : ℕ) (line : Bytes)
    → starts_comment behind line ≡ true
    → suc (length (line_end line)) ≤ length line
line_end_shorter behind [] h = cc
line_end_shorter behind (c ∷ []) h = ground arith
line_end_shorter behind (c ∷ d ∷ rest) h =
    ground (arith, length-drop_while (λ b. not (b == b'\n')) (d ∷ rest))

comments-Skips :
    (fuel : ℕ) {s : Source} {r : TextReader} {done : Bytes} (text line : Bytes)
    → length line ≤ fuel
    → drop_while is_insignificant text ≡ line
    → View s r done [] line
    → Skips s (while fuel comment_test comment_body r) text
comments-Skips zero {s} {r} {done} text line k e v =
    elim (Bool-cases (starts_comment (s.beyond 0) line)) [
      | inl h ↦ absurd (omega (arith, line_end_shorter (s.beyond 0) line h))
      | inr h ↦ (
        line,
        done,
        blanks e h,
        rw (while-false 0 comment_test comment_body (comment_test-View line v ∙ h)) v,
      )
    ]
comments-Skips (suc fuel) {s} {r} {done} text line k e v =
    elim (Bool-cases (starts_comment (s.beyond 0) line)) [
      | inl h ↦
          let (rest, done', gap, v') =
            comments-Skips fuel (line_end line) (drop_while is_insignificant (line_end line))
              (omega (
                arith,
                line_end_shorter (s.beyond 0) line h,
                length-drop_while is_insignificant (line_end line),
              ))
              refl (skip_insignificant-View (skip_until-View v b'\n') false) in
          (
            rest,
            done',
            comment e h gap,
            rw (while-true fuel comment_test comment_body (comment_test-View line v ∙ h)) v',
          )
      | inr h ↦ (
        line,
        done,
        blanks e h,
        rw (while-false (suc fuel) comment_test comment_body (comment_test-View line v ∙ h)) v,
      )
    ]

-- `skip_insignificant` and the loop over comments together skip a gap: blanks and line ends, and
-- after them line comments with what is blank behind each, until none begins.
pub skip_comments-Skips :
    {s : Source} {r : TextReader} {done lexeme text : Bytes}
    → View s r done lexeme text
    → Skips s (skip_comments (skip_insignificant false r)) text
unfolding skip_comments
skip_comments-Skips {text} v =
    let w = skip_insignificant-View v false in
    comments-Skips _ text (drop_while is_insignificant text) (View-remaining w) refl w

-- A gap ends where no blank and no comment begins.
pub Gap-end :
    {behind : ℕ} {text rest : Bytes}
    → Gap behind text rest
    → (drop_while is_insignificant rest ≡ rest) × (starts_comment behind rest ≡ false)
Gap-end (blanks {text} e h) = (rw (← e) (drop_while_twice is_insignificant text), h)
Gap-end (comment e h g) = Gap-end g

-- From each text there is one end.
pub Gap-unique :
    {behind : ℕ} {text rest other : Bytes}
    → Gap behind text rest
    → Gap behind text other
    → rest ≡ other
Gap-unique (blanks e h) (blanks e' h') = sym e ∙ e'
Gap-unique (blanks e h) (comment e' h' g) = cc
Gap-unique (comment e h g) (blanks e' h') = cc
Gap-unique (comment e h g) (comment e' h' g') = Gap-unique (rw (sym e ∙ e') at g) g'
