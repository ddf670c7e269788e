-- ===== src/Tests/Texts.antt =====
-- Witnesses of the theorems on the reader, the arena and the files.
use pars_c.Lexer.Progress.Tokens.{Reads, advance_one-Reads}
use pars_c.Common.{ap, ℕ, Option, none, some, [], Bytes, ◌≡◌, refl, arith, length}
use mathlib.Core.Option.{map}
use mathlib.Core.Path.{subst}
use pars_c.TextReader
use pars_c.TextReader.{
  Source, get_identifier, skip_insignificant, skip_until, slice, sync, is_identifier,
  is_insignificant, is_blank, isalnum, isdigit,
}
use pars_c.Arena.{init, Arena, write}
use pars_c.Arena.Slices.{HasRoom}
use pars_c.FileManager.{
  read_file, load_found, FileManager, buffers, load_file, get_source, summary, Loaded,
  load_file-Loaded, load_file-keeps,
}
use pars_c.Lexer.Keywords.{codes}
use pars_c.Outcome.{Always}
use pars_c.Lexer.Scanner.{advance_one}
use pars_c.Lexer.Scanner.Kept.{Keeps, advance_one-Kept}
use pars_c.Tests.Lexing.{lexer_of}

advance_one-Reads_example : Always (Reads (lexer_of "+ 1")) (advance_one (lexer_of "+ 1"))
unfolding TextReader.set_source
advance_one-Reads_example = advance_one-Reads (lexer_of "+ 1") (omega arith)

advance_one-Kept_example : Always (Keeps (lexer_of "+ 1")) (advance_one (lexer_of "+ 1"))
advance_one-Kept_example = advance_one-Kept (lexer_of "+ 1")

abbrev arena : Arena
arena = record { memory = λ i. 7; capacity = 16; occupied = 2 }

abbrev fresh : ℕ → ℕ
fresh i = 0

abbrev no_files : FileManager
no_files = record { file_index = []; file_buffers = none }

abbrev read : Bytes → Option Bytes
read path = some path

room : HasRoom (buffers fresh none) 3
unfolding buffers init
room = record { within = omega arith; addressable = omega arith }

load_file-Loaded_example :
    ((load_file fresh read (codes "a.p") no_files).0
      ≡ get_source fresh 0 (load_file fresh read (codes "a.p") no_files).1)
    × (map summary (load_file fresh read (codes "a.p") no_files).0
        ≡ some (0, codes "a.p", codes "a.p"))
    × Loaded fresh (load_file fresh read (codes "a.p") no_files).1 0 (codes "a.p")
load_file-Loaded_example =
    load_file-Loaded fresh read (codes "a.p") (codes "a.p") no_files refl room (omega arith)

abbrev one_file : FileManager
one_file = (load_file fresh read (codes "a.p") no_files).1

room_behind : HasRoom (buffers fresh one_file.file_buffers) 3
unfolding buffers init load_file load_found read_file write
room_behind = record { within = omega arith; addressable = omega arith }

abbrev text_or : Option Bytes → Bytes
text_or none = []
text_or (some text) = text

load_file-keeps_example :
    Loaded fresh (load_file fresh read (codes "b.p") one_file).1 0 (codes "a.p")
load_file-keeps_example =
    load_file-keeps fresh read (codes "b.p") one_file 0 (codes "a.p")
      (load_file-Loaded fresh read (codes "a.p") (codes "a.p") no_files refl room (omega arith)).2
      (λ text h.
        subst (λ t. HasRoom (buffers fresh one_file.file_buffers) (length t)) (ap text_or h)
          room_behind)
