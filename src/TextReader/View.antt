-- ===== src/TextReader/View.antt =====
-- The reader seen as three texts: what was sliced off, the lexeme under way, and what is left. The
-- functions `set_source`, `at_end`, `peek`, `advance`, `slice` and `sync` of src/text_reader.cpp.
use pars_c.Common.{
  ℕ, ◌+◌, ◌-◌, ◌<◌, ◌≤◌, true, false, [], ◌∷◌, ◌++◌, append_assoc, ◌≡◌, refl, sym, ap, ◌∙◌, arith,
  Bytes, length, get_or, length-append, take-append_length, drop-append_length, ◌==◌, if◌then◌else◌,
  append-nil,
}
use pars_c.TextReader.{
  Source, TextReader, u32, u16, size, at, substr, set_source, at_end, consume, peek, advance, skip,
  remaining, sync, slice,
}

-- The line and the column of the place behind a text.
abbrev pub line_from : ℕ → Bytes → ℕ
line_from n [] = n
line_from n (c ∷ cs) = line_from (if c == b'\n' then n + 1 else n) cs

abbrev pub column_from : ℕ → Bytes → ℕ
column_from n [] = n
column_from n (c ∷ cs) = column_from (if c == b'\n' then 1 else n + 1) cs

pub record View (s : Source) (r : TextReader) (done lexeme rest : Bytes) : Type 0 where
  pub source_is : r.source ≡ s
  pub splits : s.bytes ≡ (done ++ lexeme) ++ rest
  pub current_is : r.current ≡ length done
  pub offset_is : r.offset ≡ length (done ++ lexeme)
  pub fits : size s < 4294967295
  pub line_is : r.current_line ≡ u32 (line_from 1 (done ++ lexeme))
  pub column_is : r.current_column ≡ u16 (column_from 1 (done ++ lexeme))

line_from-concat :
    (xs : Bytes) (n c : ℕ)
    → line_from n (xs ++ c ∷ []) ≡ (if c == b'\n' then line_from n xs + 1 else line_from n xs)
line_from-concat [] n c = refl
line_from-concat (x ∷ xs) n c = line_from-concat xs _ c

column_from-concat :
    (xs : Bytes) (n c : ℕ)
    → column_from n (xs ++ c ∷ []) ≡ (if c == b'\n' then 1 else column_from n xs + 1)
column_from-concat [] n c = refl
column_from-concat (x ∷ xs) n c = column_from-concat xs _ c

get_or-append : (xs : Bytes) (y : ℕ) (ys : Bytes) → get_or (xs ++ y ∷ ys) (length xs) 0 ≡ y
get_or-append [] y ys = refl
get_or-append (x ∷ xs) y ys = get_or-append xs y ys

sub_left : (a b : ℕ) → (a + b) - a ≡ b
sub_left a b = omega arith

pub at-append :
    (s : Source) (xs : Bytes) (y : ℕ) (ys : Bytes) → s.bytes ≡ xs ++ y ∷ ys → at s (length xs) ≡ y
at-append s xs y ys e = rw e (ground (arith, length-append xs (y ∷ ys), get_or-append xs y ys))

pub set_source-View : (s : Source) → size s < 4294967295 → View s (set_source s) [] [] s.bytes
unfolding set_source
set_source-View s h = record {
  source_is = refl;
  splits = refl;
  current_is = refl;
  offset_is = refl;
  fits = h;
  line_is = refl;
  column_is = refl;
}

pub size-View :
    {s : Source} {r : TextReader} {done lexeme rest : Bytes}
    → View s r done lexeme rest
    → size s ≡ length (done ++ lexeme) + length rest
size-View {done} {lexeme} {rest} v = ap length v.splits ∙ length-append (done ++ lexeme) rest

pub View-remaining :
    {s : Source} {r : TextReader} {done lexeme rest : Bytes}
    → View s r done lexeme rest
    → length rest ≤ remaining r
View-remaining v = omega (arith, size-View v, v.offset_is, ap size v.source_is)

module _ {s : Source} {r : TextReader} {done lexeme : Bytes} where
  pub at_end-nil : View s r done lexeme [] → at_end r ≡ true
  unfolding at_end
  at_end-nil v = ground (arith, v.source_is, v.offset_is, size-View v)

  pub peek-nil : View s r done lexeme [] → peek r ≡ 0
  unfolding peek
  peek-nil v = rw (at_end-nil v)

  -- At the end of the text nothing moves, and the byte is a zero.
  pub advance-nil : View s r done lexeme [] → advance r ≡ (0, r)
  unfolding advance
  advance-nil v = rw (at_end-nil v)

module _ {s : Source} {r : TextReader} {done lexeme : Bytes} {c : ℕ} {rest : Bytes}
    (v : View s r done lexeme (c ∷ rest)) where
  pub at_end-cons : at_end r ≡ false
  unfolding at_end
  at_end-cons = ground (arith, v.source_is, v.offset_is, size-View v)

  at-cons : at r.source r.offset ≡ c
  at-cons = rw (v.source_is, v.offset_is) (at-append s (done ++ lexeme) c rest v.splits)

  pub peek-cons : peek r ≡ c
  unfolding peek
  peek-cons = rw at_end-cons at-cons

  pub advance-cons : advance r ≡ (c, consume r c)
  unfolding advance
  advance-cons = rw (at_end-cons, at-cons)

  pub consume-View : View s (consume r c) done (lexeme ++ c ∷ []) rest
  unfolding consume
  consume-View = record {
    source_is = ground (arith, v.source_is);
    splits =
        v.splits
        ∙ rw (← append_assoc done lexeme (c ∷ []))
            (sym (append_assoc (done ++ lexeme) (c ∷ []) rest));
    current_is = ground (arith, v.current_is);
    offset_is =
        rw (← append_assoc done lexeme (c ∷ [])) (
          ground
            (arith, v.offset_is, length-append (done ++ lexeme) (c ∷ []), v.fits, size-View v));
    fits = v.fits;
    line_is =
        rw (← append_assoc done lexeme (c ∷ []), line_from-concat) (ground (arith, v.line_is));
    column_is =
        rw (← append_assoc done lexeme (c ∷ []), column_from-concat) (ground (arith, v.column_is));
  }

  skip-cons : skip r ≡ consume r c
  skip-cons = ap (λ (t : ℕ × TextReader). t.1) advance-cons

  -- A read gives the next byte, moves it to the lexeme, and keeps the line and the column.
  pub advance-View : (advance r ≡ (c, skip r)) × View s (skip r) done (lexeme ++ c ∷ []) rest
  advance-View = (advance-cons ∙ ap (λ r'. (c, r')) (sym skip-cons), rw skip-cons consume-View)

module _ {s : Source} {r : TextReader} {done lexeme rest : Bytes}
    (v : View s r done lexeme rest) where
  sync_parts : (done ++ lexeme) ++ [] ≡ done ++ lexeme
  sync_parts = append-nil (done ++ lexeme)

  pub sync-View : View s (sync r) (done ++ lexeme) [] rest
  unfolding sync
  sync-View = record {
    source_is = v.source_is;
    splits = rw sync_parts v.splits;
    current_is = v.offset_is;
    offset_is = rw sync_parts v.offset_is;
    fits = v.fits;
    line_is = rw sync_parts v.line_is;
    column_is = rw sync_parts v.column_is;
  }

  slice_text : substr r.source.bytes r.current (r.offset - r.current) ≡ lexeme
  slice_text =
      rw (v.source_is, v.current_is, v.offset_is, v.splits, length-append done lexeme)
        (rw
          (
            append_assoc done lexeme rest,
            drop-append_length done (lexeme ++ rest),
            sub_left (length done) (length lexeme),
          )
          (take-append_length lexeme rest))

  -- `slice` returns the lexeme, and the next lexeme starts behind it.
  pub slice-View : (slice r ≡ (lexeme, sync r)) × View s (sync r) (done ++ lexeme) [] rest
  unfolding slice sync
  slice-View = (rw slice_text, sync-View)
