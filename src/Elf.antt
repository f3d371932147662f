-- ===== src/Elf.antt =====
-- t89emu/include/ElfParser.h and t89emu/src/ElfParser.cpp: the headers of an ELF file. The file is the list of its
-- bytes; to read behind them has no behaviour.
pub mod Load
pub mod Section
pub mod Text
pub mod Symbol
use t89emu.Common.{ℕ, ◌+◌, ◌*◌, ltb, if◌then◌else◌, Option, some, ◌>>=◌, List}
use t89emu.Dwarf.DataStream.{decode_uint8, decode_uint16, decode_uint32}

-- A number of the file, lowest byte first.
unfoldable pub byte_at : List ℕ → ℕ → Option ℕ
byte_at file offset = do
  (v, _) ← decode_uint8 (record { bytes = file; index = offset; stream_len = 0 })
  some v

unfoldable pub half_at : List ℕ → ℕ → Option ℕ
half_at file offset = do
  (v, _) ← decode_uint16 (record { bytes = file; index = offset; stream_len = 0 })
  some v

unfoldable pub word_at : List ℕ → ℕ → Option ℕ
word_at file offset = do
  (v, _) ← decode_uint32 (record { bytes = file; index = offset; stream_len = 0 })
  some v

-- The fields that the program reads.
pub record ElfHeader : Type 0 where
  pub entry : ℕ
  pub phoff : ℕ
  pub shoff : ℕ
  pub phentsize : ℕ
  pub phnum : ℕ
  pub shentsize : ℕ
  pub shnum : ℕ
  pub shstrndx : ℕ

unfoldable pub read_header : List ℕ → Option ElfHeader
unfolding half_at word_at
read_header file = do
  entry ← word_at file 24
  phoff ← word_at file 28
  shoff ← word_at file 32
  phentsize ← half_at file 42
  phnum ← half_at file 44
  shentsize ← half_at file 46
  shnum ← half_at file 48
  shstrndx ← half_at file 50
  some (record {
    entry = entry;
    phoff = phoff;
    shoff = shoff;
    phentsize = phentsize;
    phnum = phnum;
    shentsize = shentsize;
    shnum = shnum;
    shstrndx = shstrndx;
  })

pub record ElfProgramHeader : Type 0 where
  pub p_type : ℕ
  pub offset : ℕ
  pub paddr : ℕ
  pub filesz : ℕ
  pub memsz : ℕ
  pub flags : ℕ

-- `getProgramHeader` for an entry that there is.
unfoldable pub get_program_header : List ℕ → ElfHeader → ℕ → Option ElfProgramHeader
unfolding word_at
get_program_header file h nentry = do
  let at = h.phoff + nentry * h.phentsize
  p_type ← word_at file at
  offset ← word_at file (at + 4)
  paddr ← word_at file (at + 12)
  filesz ← word_at file (at + 16)
  memsz ← word_at file (at + 20)
  flags ← word_at file (at + 24)
  some (record {
    p_type = p_type;
    offset = offset;
    paddr = paddr;
    filesz = filesz;
    memsz = memsz;
    flags = flags;
  })

-- The bytes of a section in the file: the smaller of its two sizes.
unfoldable pub section_size : ElfProgramHeader → ℕ
section_size p = if ltb p.memsz p.filesz then p.memsz else p.filesz
