-- ===== src/TextReader/Scan.antt =====
-- The loops of src/text_reader.cpp that skip, and that read identifiers, on the view of three
-- texts.
use pars_c.Common.{
  ℕ, zero, suc, ◌≤◌, Bool, true, false, not, ◌&&◌, [], ◌∷◌, ◌++◌, append_assoc, ◌≡◌, ap, ◌∙◌, arith,
  Bytes, length, ◌==◌, if◌then◌else◌, append-nil, while, while-true, while-false, Bool-cases, inl,
  inr,
}
use pars_c.TextReader.{
  Source, TextReader, at_end, peek, skip, remaining, sync, slice, advance_while, is_blank,
  is_insignificant, is_identifier, get_identifier, skip_insignificant, skip_until,
}
use pars_c.TextReader.View.{
  View, View-remaining, at_end-nil, at_end-cons, peek-nil, peek-cons, advance-View, sync-View,
  slice-View,
}

abbrev pub take_while : (ℕ → Bool) → Bytes → Bytes
take_while p [] = []
take_while p (c ∷ cs) = if p c then c ∷ take_while p cs else []

abbrev pub drop_while : (ℕ → Bool) → Bytes → Bytes
drop_while p [] = []
drop_while p (c ∷ cs) = if p c then drop_while p cs else c ∷ cs

-- A test on readers that comes to a test of the next byte, and fails at the end of the text.
pub record IsByteTest (test : TextReader → Bool) (p : ℕ → Bool) : Type 0 where
  pub at_nil :
      (s : Source) (r : TextReader) (done lexeme : Bytes) → View s r done lexeme [] → test r ≡ false
  pub at_cons :
      (s : Source) (r : TextReader) (done lexeme : Bytes) (c : ℕ) (rest : Bytes)
      → View s r done lexeme (c ∷ rest)
      → test r ≡ p c

module _ {test : TextReader → Bool} {p : ℕ → Bool} (t : IsByteTest test p) where
  while-View :
      (rest : Bytes) (fuel : ℕ) (s : Source) (r : TextReader) (done lexeme : Bytes)
      → length rest ≤ fuel
      → View s r done lexeme rest
      → View s (while fuel test skip r) done (lexeme ++ take_while p rest) (drop_while p rest)
  while-View [] fuel s r done lexeme h v =
      rw (append-nil, while-false fuel test skip (t.at_nil s r done lexeme v)) v
  while-View (c ∷ rest) zero s r done lexeme h v = absurd (omega arith)
  while-View (c ∷ rest) (suc fuel) s r done lexeme h v = elim (Bool-cases (p c)) [
    | inl e ↦
        rw
          (
            while-true fuel test skip (t.at_cons s r done lexeme c rest v ∙ e),
            e,
            ← append_assoc lexeme (c ∷ []) (take_while p rest),
          )
          (while-View rest fuel s (skip r) done (lexeme ++ c ∷ []) (omega arith) (advance-View v).1)
    | inr e ↦
        rw
          (while-false (suc fuel) test skip (t.at_cons s r done lexeme c rest v ∙ e), e, append-nil)
          v
  ]

  pub advance_while-View :
      {s : Source} {r : TextReader} {done lexeme rest : Bytes}
      → View s r done lexeme rest
      → View s (advance_while test r) done (lexeme ++ take_while p rest) (drop_while p rest)
  unfolding advance_while
  advance_while-View {s} {r} {done} {lexeme} {rest} v =
      while-View rest (remaining r) s r done lexeme (View-remaining v) v

-- The two shapes of test that the loops have.
guarded : (p : ℕ → Bool) → IsByteTest (λ r. not (at_end r) && p (peek r)) p
guarded p = record {
  at_nil = λ s r done lexeme v. rw (at_end-nil v);
  at_cons = λ s r done lexeme c rest v. rw (at_end-cons v, peek-cons v);
}

insignificant :
    IsByteTest
      (λ s. if not (at_end s) && false then is_blank (peek s) else is_insignificant (peek s))
      is_insignificant
unfolding is_insignificant is_blank
insignificant = record {
  at_nil = λ s r done lexeme v. rw (at_end-nil v, peek-nil v);
  at_cons = λ s r done lexeme c rest v. rw (at_end-cons v, peek-cons v);
}

blank :
    IsByteTest
      (λ s. if not (at_end s) && true then is_blank (peek s) else is_insignificant (peek s))
      is_blank
unfolding is_insignificant is_blank
blank = record {
  at_nil = λ s r done lexeme v. rw (at_end-nil v, peek-nil v);
  at_cons = λ s r done lexeme c rest v. rw (at_end-cons v, peek-cons v);
}

module _ {s : Source} {r : TextReader} {done lexeme rest : Bytes}
    (v : View s r done lexeme rest) where
  -- `get_identifier` returns the lexeme with the longest run of identifier bytes behind it.
  pub get_identifier-View :
      ((get_identifier r).0 ≡ lexeme ++ take_while is_identifier rest)
      × View s
          (get_identifier r).1
          (done ++ (lexeme ++ take_while is_identifier rest))
          []
          (drop_while is_identifier rest)
  unfolding get_identifier sync slice
  get_identifier-View =
      let w = slice-View (advance_while-View (guarded is_identifier) v) in
      (ap (λ (t : Bytes × TextReader). t.0) w.0, w.1)

  -- `skip_insignificant` drops the longest run of the bytes that it takes for insignificant, and
  -- starts a lexeme there. The conditional that binds around `!at_end() && blank_only` is
  -- harmless, since a zero byte is read at the end.
  pub skip_insignificant-View :
      (blank_only : Bool)
      → let p = if blank_only then is_blank else is_insignificant in
        View s
          (skip_insignificant blank_only r)
          (done ++ (lexeme ++ take_while p rest))
          []
          (drop_while p rest)
  unfolding skip_insignificant
  skip_insignificant-View true = sync-View (advance_while-View blank v)
  skip_insignificant-View false = sync-View (advance_while-View insignificant v)

  -- `skip_until` stops in front of the next byte `c`, or at the end of the text, and keeps the bytes
  -- before it in the lexeme.
  pub skip_until-View :
      (c : ℕ)
      → View s
          (skip_until c r)
          done
          (lexeme ++ take_while (λ b. not (b == c)) rest)
          (drop_while (λ b. not (b == c)) rest)
  unfolding skip_until
  skip_until-View c = advance_while-View (guarded (λ b. not (b == c))) v

-- The loop of `build_digit` in src/lexer.cpp has this shape too.
pub advance_while_guarded-View :
    {s : Source} {r : TextReader} {done lexeme rest : Bytes} (p : ℕ → Bool)
    → View s r done lexeme rest
    → View s
        (advance_while (λ q. not (at_end q) && p (peek q)) r)
        done
        (lexeme ++ take_while p rest)
        (drop_while p rest)
advance_while_guarded-View p v = advance_while-View (guarded p) v
