-- ===== src/Lexer/Progress.antt =====
-- How the functions of src/text_reader.cpp that src/lexer.cpp calls move the reader, in a text of less
-- than 2^32 bytes.
pub mod Tokens
pub mod Weights
use pars_c.Common.{
  ℕ, ◌+◌, ◌%◌, ◌-◌, ◌<◌, ◌≤◌, ◌≡◌, ◌∙◌, [], ◌∷◌, arith, Bool, Bool-cases, Bytes, false,
  if◌then◌else◌, inl, inr, refl, suc, true, while, zero, ◌==◌,
}
use pars_c.TextReader.{
  Source, TextReader, advance, advance_while, at, at_end, consume, escape_letters, get_identifier,
  is_escape_sequence, match, match_any, peek, peek_last, remaining, size, skip, skip_insignificant,
  skip_until, slice, sync,
}
use pars_c.Lexer.Literals.{scan_digits}
use pars_c.Lexer.Scanner.{skip_comments}

-- The second reader has the same text, and no more of it left.
pub record Behind (r r' : TextReader) : Type 0 where
  pub size_is : size r'.source ≡ size r.source
  pub shorter : size r.source < 4294967296 → remaining r' ≤ remaining r

pub Behind-refl : (r : TextReader) → Behind r r
Behind-refl r = record { size_is = refl; shorter = λ h. omega arith }

pub Behind-trans : {r s t : TextReader} → Behind r s → Behind s t → Behind r t
Behind-trans {r} {s} {t} h k = record {
  size_is = k.size_is ∙ h.size_is;
  shorter = λ small.
      let first = h.shorter small in
      let same = h.size_is in
      let second : remaining t ≤ remaining s = k.shorter (omega arith) in omega arith;
}

pub Behind-if :
    {r : TextReader} (b : Bool) (x y : TextReader)
    → Behind r x
    → Behind r y
    → Behind r (if b then x else y)
Behind-if true x y h k = h
Behind-if false x y h k = k

-- A byte that is read is one byte less to read.
pub consume-offset :
    (r : TextReader) (c : ℕ)
    → ((consume r c).offset ≡ (r.offset + 1) % 4294967296) × ((consume r c).source ≡ r.source)
unfolding consume
consume-offset r c = elim (Bool-cases (c == b'\n')) [
  | inl e ↦ rw e (refl, refl)
  | inr e ↦ rw e (refl, refl)
]

pub consume-shorter :
    (r : TextReader) (c : ℕ)
    → size r.source < 4294967296
    → at_end r ≡ false
    → remaining (consume r c) + 1 ≤ remaining r
unfolding at_end
consume-shorter r c small more =
    let (moved, same) = consume-offset r c in rw (moved, same) (ground arith)

pub consume-Behind : (r : TextReader) (c : ℕ) → at_end r ≡ false → Behind r (consume r c)
consume-Behind r c more = record {
  size_is = rw (consume-offset r c).1;
  shorter = λ small. let less = consume-shorter r c small more in omega arith;
}

pub skip-Behind : (r : TextReader) → Behind r (skip r)
unfolding advance
skip-Behind r = elim (Bool-cases (at_end r)) [
  | inl e ↦ rw (e, skip) (Behind-refl r)
  | inr e ↦ rw (e, skip) (consume-Behind r (at r.source r.offset) e)
]

pub sync-Behind : (r : TextReader) → Behind r (sync r)
unfolding sync
sync-Behind r = record { size_is = refl; shorter = λ small. omega arith }

pub slice-Behind : (r : TextReader) → Behind r (slice r).1
unfolding slice
slice-Behind r = record { size_is = refl; shorter = λ small. omega arith }

pub match-Behind : (c : ℕ) (r : TextReader) → Behind r (match c r).1
unfolding match
match-Behind c r = elim (Bool-cases (peek r == c)) [
  | inl e ↦ rw e (skip-Behind r)
  | inr e ↦ rw e (Behind-refl r)
]

match_any-Behind : (cs : Bytes) (r : TextReader) → Behind r (match_any cs r).1
unfolding match_any
match_any-Behind [] r = Behind-refl r
match_any-Behind (c ∷ cs) r = elim (Bool-cases (match c r).0) [
  | inl e ↦ rw e (match-Behind c r)
  | inr e ↦ rw e (match_any-Behind cs r)
]

pub is_escape_sequence-Behind : (r : TextReader) → Behind r (is_escape_sequence r).1
unfolding is_escape_sequence
is_escape_sequence-Behind r = elim (Bool-cases (peek_last r == b'\\')) [
  | inl e ↦ rw e (match_any-Behind escape_letters r)
  | inr e ↦ rw e (Behind-refl r)
]

-- The rounds of a loop, if each of them only moves on.
while-Behind :
    (n : ℕ) (test : TextReader → Bool) (round : TextReader → TextReader)
    → ((s : TextReader) → Behind s (round s))
    → (r : TextReader) → Behind r (while n test round r)
unfolding while
while-Behind zero test round h r = Behind-refl r
while-Behind (suc n) test round h r = elim (Bool-cases (test r)) [
  | inl e ↦ rw (e, while) (Behind-trans (h r) (while-Behind n test round h (round r)))
  | inr e ↦ rw (e, while) (Behind-refl r)
]

advance_while-Behind : (test : TextReader → Bool) (r : TextReader) → Behind r (advance_while test r)
unfolding advance_while
advance_while-Behind test r = while-Behind _ test skip skip-Behind r

pub skip_insignificant-Behind :
    (blank_only : Bool) (r : TextReader) → Behind r (skip_insignificant blank_only r)
unfolding skip_insignificant
skip_insignificant-Behind blank_only r = Behind-trans (advance_while-Behind _ r) (sync-Behind _)

skip_until-Behind : (c : ℕ) (r : TextReader) → Behind r (skip_until c r)
unfolding skip_until
skip_until-Behind c r = advance_while-Behind _ r

pub skip_comments-Behind : (r : TextReader) → Behind r (skip_comments r)
unfolding skip_comments
skip_comments-Behind r =
    while-Behind _ _ _
      (λ s. Behind-trans (skip_until-Behind b'\n' s) (skip_insignificant-Behind false _)) r

pub get_identifier-Behind : (r : TextReader) → Behind r (get_identifier r).1
unfolding get_identifier
get_identifier-Behind r = Behind-trans (advance_while-Behind _ r) (slice-Behind _)

pub scan_digits-Behind : (r : TextReader) → Behind r (scan_digits r)
unfolding scan_digits
scan_digits-Behind r = advance_while-Behind _ r
