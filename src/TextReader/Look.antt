-- ===== src/TextReader/Look.antt =====
-- `peek_next`, `peek_last` and `match` of src/text_reader.cpp on the view of three texts.
use pars_c.Common.{
  ℕ, ◌+◌, ◌-◌, ◌<◌, true, false, [], ◌∷◌, ◌++◌, append_assoc, ◌≡◌, sym, ap, ◌∙◌, arith, Bytes,
  length, length-append, ◌==◌, if◌then◌else◌,
}
use pars_c.TextReader.{Source, TextReader, u32, size, skip, peek_next, peek_last, match}
use pars_c.TextReader.View.{View, size-View, at-append, peek-nil, peek-cons, advance-nil}

module _ {s : Source} {r : TextReader} {done lexeme : Bytes} where
  next_offset :
      {c : ℕ} {rest : Bytes}
      → View s r done lexeme (c ∷ rest)
      → u32 (r.offset + 1) ≡ length ((done ++ lexeme) ++ c ∷ [])
  next_offset {c} {rest} v =
      omega (arith, v.offset_is, v.fits, size-View v, length-append {0} (done ++ lexeme) (c ∷ []))

  pub peek_next-cons :
      {c d : ℕ} {rest : Bytes} → View s r done lexeme (c ∷ d ∷ rest) → peek_next r ≡ d
  unfolding peek_next
  peek_next-cons {c} {d} {rest} v =
      rw (next_offset v, v.source_is)
        (ground (
          arith,
          v.fits,
          size-View v,
          length-append (done ++ lexeme) (c ∷ []),
          at-append s ((done ++ lexeme) ++ c ∷ []) d rest
              (v.splits ∙ sym (append_assoc (done ++ lexeme) (c ∷ []) (d ∷ rest))),
        ))

  -- On the last byte the guard `m_offset + 1 > m_source.size()` lets the read through, one byte
  -- behind the text.
  pub peek_next-last : {c : ℕ} → View s r done lexeme (c ∷ []) → peek_next r ≡ s.beyond 0
  unfolding peek_next
  peek_next-last {c} v =
      rw (next_offset v, v.source_is)
        (ground (arith, v.fits, size-View v, length-append (done ++ lexeme) (c ∷ [])))

  pub peek_next-nil : View s r done lexeme [] → peek_next r ≡ 0
  unfolding peek_next
  peek_next-nil v = rw v.source_is (ground (arith, size-View v, v.offset_is, v.fits))

  -- `match` takes the next byte where it is the one asked for, and else leaves the reader alone.
  pub match-View :
      (b c : ℕ) {rest : Bytes}
      → View s r done lexeme (c ∷ rest)
      → match b r ≡ (if c == b then (true, skip r) else (false, r))
  unfolding match
  match-View b c v = rw (peek-cons v)

  pub match-nil :
      (b : ℕ) → View s r done lexeme [] → match b r ≡ (if 0 == b then (true, r) else (false, r))
  unfolding match
  match-nil b v = rw (peek-nil v, skip, advance-nil v)

-- Behind two bytes or more the last one is seen.
pub peek_last-View :
    {s : Source} {r : TextReader} {done lexeme rest : Bytes} (text : Bytes) (c : ℕ)
    → View s r done lexeme rest
    → done ++ lexeme ≡ text ++ c ∷ []
    → 0 < length text
    → peek_last r ≡ c
unfolding peek_last
peek_last-View {s} {r} {done} {lexeme} {rest} text c v e h =
    let before : u32 (r.offset + 4294967295) ≡ length text =
      omega
        (arith, v.offset_is, v.fits, size-View v, ap length e, length-append {0} text (c ∷ [])) in
    rw (before, v.source_is)
      (ground (
        arith,
        at-append s text c rest
            (v.splits ∙ ap (λ t. t ++ rest) e ∙ append_assoc text (c ∷ []) rest),
      ))

-- Behind the first byte a zero is seen, whatever that byte is.
pub peek_last-first :
    {s : Source} {r : TextReader} {done lexeme rest : Bytes}
    → View s r done lexeme rest
    → length (done ++ lexeme) ≡ 1
    → peek_last r ≡ 0
unfolding peek_last
peek_last-first v e = ground (arith, v.offset_is)

-- At the start the subtraction wraps, and a byte four gigabytes behind the text is read.
pub peek_last_start :
    {s : Source} {r : TextReader} {rest : Bytes}
    → View s r [] [] rest
    → peek_last r ≡ s.beyond (4294967295 - size s)
unfolding peek_last
peek_last_start v = ground (arith, v.offset_is, v.fits, ap size v.source_is)
