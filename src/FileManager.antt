-- ===== src/FileManager.antt =====
-- src/file_manager.cpp and `read_file` of src/util/io.cpp: the texts of all files, one behind the
-- other in one arena. `read` stands for the file system, `fresh` for the memory that
-- `virtual_alloc` hands out.
use pars_c.Common.{
  inr, inl, Option-cases, zero, suc, ℕ, ◌+◌, ◌-◌, ◌<◌, ◌≤◌, Option, none, some, List, [], ◌∷◌, ◌++◌,
  Bytes, length, get_elem?, ◌≡◌, refl, arith, ◌∙◌,
}
use mathlib.Core.Option.{map}
use pars_c.TextReader.{Source, u16}
use pars_c.Arena.{Arena, write, init, view_of}
use pars_c.Arena.Slices.{HasRoom, occupied-write, view_of-write, view_of-write_end}
use pars_c.Lexer.State.{SourceFile}

-- An entry of `g_file_index`: its text is a view of the arena.
pub record FileEntry : Type 0 where
  pub id : ℕ
  pub path : Bytes
  pub start : ℕ
  pub count : ℕ

-- `file_buffers` is `none` as long as its memory is the null pointer.
pub record FileManager : Type 0 where
  pub file_index : List FileEntry
  pub file_buffers : Option Arena

-- `MB(512)`
abbrev pub file_buffers_max_size : ℕ
file_buffers_max_size = 536870912

abbrev contents_of : Arena → ℕ → ℕ → Source
contents_of a start count = record {
  bytes = view_of a.memory start count;
  beyond = λ i. a.memory (start + count + i);
}

abbrev source_of : Arena → FileEntry → SourceFile
source_of a e = record { id = e.id; path = e.path; contents = contents_of a e.start e.count }

abbrev pub summary : SourceFile → ℕ × Bytes × Bytes
summary f = (f.id, f.path, f.contents.bytes)

-- `fread` to the end of the buffer, of a file that could be opened
unfoldable pub read_file : Bytes → Arena → Arena
read_file text a = write text a

module _ (fresh : ℕ → ℕ) where
  unfoldable pub buffers : Option Arena → Arena
  buffers none = init file_buffers_max_size fresh
  buffers (some a) = a

  unfoldable pub load_found : Option Bytes → Bytes → FileManager → Option SourceFile × FileManager
  load_found none path fm = (none, record fm { file_buffers = some (buffers fm.file_buffers) })
  load_found (some text) path fm =
      let a = buffers fm.file_buffers in
      let a' = read_file text a in
      let entry : FileEntry = record {
        id = u16 (length fm.file_index);
        path = path;
        start = a.occupied;
        count = a'.occupied - a.occupied;
      } in
      (
        some (source_of a' entry),
        record fm { file_index = fm.file_index ++ entry ∷ []; file_buffers = some a' },
      )

  unfoldable pub load_file :
      (Bytes → Option Bytes) → Bytes → FileManager → Option SourceFile × FileManager
  load_file read path fm = load_found (read path) path fm

  -- `none`: the index is out of bounds.
  unfoldable pub get_source : ℕ → FileManager → Option SourceFile
  get_source id fm = map (source_of (buffers fm.file_buffers)) (get_elem? fm.file_index id)

  -- What is in the index was read.
  pub record Loaded (fm : FileManager) (id : ℕ) (bytes : Bytes) : Type 0 where
    pub entry : FileEntry
    pub entry_is : get_elem? fm.file_index id ≡ some entry
    pub bytes_are : view_of (buffers fm.file_buffers).memory entry.start entry.count ≡ bytes
    pub within : entry.start + entry.count ≤ (buffers fm.file_buffers).occupied

  get_elem?-append-left :
      (xs ys : List FileEntry) (i : ℕ) (x : FileEntry)
      → get_elem? xs i ≡ some x
      → get_elem? (xs ++ ys) i ≡ some x
  get_elem?-append-left [] ys i x h = cc
  get_elem?-append-left (y ∷ xs) ys zero x h = h
  get_elem?-append-left (y ∷ xs) ys (suc i) x h = get_elem?-append-left xs ys i x h

  get_elem?-last :
      (xs : List FileEntry) (x : FileEntry) → get_elem? (xs ++ x ∷ []) (length xs) ≡ some x
  get_elem?-last [] x = refl
  get_elem?-last (y ∷ xs) x = get_elem?-last xs x

  -- `load_file` returns the text of a file that can be read, and `get_source` finds it under its id. It needs room
  -- in the arena, and fewer than 65536 files.
  pub load_file-Loaded :
      (read : Bytes → Option Bytes) (path text : Bytes) (fm : FileManager)
      → read path ≡ some text
      → HasRoom (buffers fm.file_buffers) (length text)
      → length fm.file_index < 65536
      → let (found, fm') = load_file read path fm in
        let id = length fm.file_index in
        (found ≡ get_source id fm')
        × (map summary found ≡ some (id, path, text))
        × Loaded fm' id text
  unfolding load_file load_found buffers read_file get_source
  load_file-Loaded read path text fm h room few =
      let a = buffers fm.file_buffers in
      let grown : (write text a).occupied ≡ a.occupied + length text = occupied-write a text room in
      let count : (write text a).occupied - a.occupied ≡ length text = omega (arith, grown) in
      let same : u16 (length fm.file_index) ≡ length fm.file_index = omega arith in
      let last = get_elem?-last fm.file_index (record {
        id = u16 (length fm.file_index);
        path = path;
        start = a.occupied;
        count = (write text a).occupied - a.occupied;
      }) in
      (
        rw (h, last) refl,
        rw (h, same, count, view_of-write_end a text) refl,
        rw h (record {
          entry = record {
            id = u16 (length fm.file_index);
            path = path;
            start = a.occupied;
            count = (write text a).occupied - a.occupied;
          };
          entry_is = last;
          bytes_are = rw count (view_of-write_end a text);
          within = omega (arith, grown);
        }),
      )

  -- A file that was loaded keeps its id and its text when another one is, for which there is room
  -- in the arena, or is not found.
  pub load_file-keeps :
      (read : Bytes → Option Bytes) (path : Bytes) (fm : FileManager) (id : ℕ) (bytes : Bytes)
      → Loaded fm id bytes
      → ((text : Bytes) → read path ≡ some text → HasRoom (buffers fm.file_buffers) (length text))
      → Loaded (load_file read path fm).1 id bytes
  unfolding load_file load_found buffers read_file
  load_file-keeps read path fm id bytes v room = elim (Option-cases (read path)) [
    | inl h ↦ rw h (record {
      entry = v.entry;
      entry_is = v.entry_is;
      bytes_are = v.bytes_are;
      within = v.within;
    })
    | inr (text, h) ↦
        let a = buffers fm.file_buffers in
        rw h (record {
          entry = v.entry;
          entry_is = get_elem?-append-left fm.file_index _ id v.entry v.entry_is;
          bytes_are = view_of-write a text v.entry.start v.entry.count v.within ∙ v.bytes_are;
          within = omega (arith, occupied-write a text (room text h), v.within);
        })
  ]
