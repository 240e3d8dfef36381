-- ===== src/Elf.antt =====
-- kernel/src/task/elf_loader/mod.rs: the headers of an ELF file, read in its byte order. The texts of
-- errors are left out.
pub mod Bytes
pub mod Fields
pub mod RoundTrip
mod Tests
use scarlet.Common.{
  ltb, ◌==◌, if◌then◌else◌, length, get_or, take, drop, ℕ, ◌+◌, ◌*◌, Bool, true, false, ◌&&◌, List,
  [], ◌∷◌,
}

pub record ElfHeader : Type 0 where
  pub ei_class : ℕ
  pub ei_data : ℕ
  pub e_type : ℕ
  pub e_machine : ℕ
  pub e_version : ℕ
  pub e_entry : ℕ
  pub e_phoff : ℕ
  pub e_shoff : ℕ
  pub e_flags : ℕ
  pub e_ehsize : ℕ
  pub e_phentsize : ℕ
  pub e_phnum : ℕ
  pub e_shentsize : ℕ
  pub e_shnum : ℕ
  pub e_shstrndx : ℕ

pub record ProgramHeader : Type 0 where
  pub p_type : ℕ
  pub p_flags : ℕ
  pub p_offset : ℕ
  pub p_vaddr : ℕ
  pub p_paddr : ℕ
  pub p_filesz : ℕ
  pub p_memsz : ℕ
  pub p_align : ℕ

pub data ElfHeaderParseErrorKind : Type 0 where
  invalid_magic_number unsupported_class invalid_data : ElfHeaderParseErrorKind
  other_header_error : List ℕ → ElfHeaderParseErrorKind

pub data ProgramHeaderParseErrorKind : Type 0 where
  invalid_size : ProgramHeaderParseErrorKind
  other_program_error : List ℕ → ProgramHeaderParseErrorKind

-- `Result`
pub data Parsed (E A : Type 0) : Type 0 where
  ok : A → Parsed E A
  err : E → Parsed E A

abbrev pub elfdata2lsb : ℕ
elfdata2lsb = 1

abbrev pub elfclass64 : ℕ
elfclass64 = 2

-- `from_le_bytes` and `from_be_bytes`
abbrev pub from_le_bytes : List ℕ → ℕ
from_le_bytes [] = 0
from_le_bytes (b ∷ bs) = b + 256 * from_le_bytes bs

abbrev pub reversed : List ℕ → List ℕ → List ℕ
reversed [] acc = acc
reversed (b ∷ bs) acc = reversed bs (b ∷ acc)

abbrev pub from_be_bytes : List ℕ → ℕ
from_be_bytes bs = from_le_bytes (reversed bs [])

abbrev pub read_bytes : List ℕ → Bool → ℕ
read_bytes bs true = from_le_bytes bs
read_bytes bs false = from_be_bytes bs

abbrev pub read_u16 : List ℕ → ℕ → Bool → ℕ
read_u16 buffer offset little = read_bytes (take 2 (drop offset buffer)) little

abbrev pub read_u32 : List ℕ → ℕ → Bool → ℕ
read_u32 buffer offset little = read_bytes (take 4 (drop offset buffer)) little

abbrev pub read_u64 : List ℕ → ℕ → Bool → ℕ
read_u64 buffer offset little = read_bytes (take 8 (drop offset buffer)) little

abbrev has_magic : List ℕ → Bool
has_magic buffer =
    get_or buffer 0 0 == 127
    && get_or buffer 1 0 == 69
    && get_or buffer 2 0 == 76
    && get_or buffer 3 0 == 70

abbrev pub header_fields : List ℕ → Bool → ElfHeader
header_fields buffer little = record {
  ei_class = get_or buffer 4 0;
  ei_data = get_or buffer 5 0;
  e_type = read_u16 buffer 16 little;
  e_machine = read_u16 buffer 18 little;
  e_version = read_u32 buffer 20 little;
  e_entry = read_u64 buffer 24 little;
  e_phoff = read_u64 buffer 32 little;
  e_shoff = read_u64 buffer 40 little;
  e_flags = read_u32 buffer 48 little;
  e_ehsize = read_u16 buffer 52 little;
  e_phentsize = read_u16 buffer 54 little;
  e_phnum = read_u16 buffer 56 little;
  e_shentsize = read_u16 buffer 58 little;
  e_shnum = read_u16 buffer 60 little;
  e_shstrndx = read_u16 buffer 62 little;
}

abbrev pub program_fields : List ℕ → Bool → ProgramHeader
program_fields buffer little = record {
  p_type = read_u32 buffer 0 little;
  p_flags = read_u32 buffer 4 little;
  p_offset = read_u64 buffer 8 little;
  p_vaddr = read_u64 buffer 16 little;
  p_paddr = read_u64 buffer 24 little;
  p_filesz = read_u64 buffer 32 little;
  p_memsz = read_u64 buffer 40 little;
  p_align = read_u64 buffer 48 little;
}

unfoldable pub parse_header : List ℕ → Parsed ElfHeaderParseErrorKind ElfHeader
parse_header buffer =
    if ltb (length buffer) 64
    then err invalid_data
    else if has_magic buffer
    then if get_or buffer 4 0 == elfclass64
      then ok (header_fields buffer (get_or buffer 5 0 == elfdata2lsb))
      else err unsupported_class
    else err invalid_magic_number

unfoldable pub parse_program : List ℕ → Bool → Parsed ProgramHeaderParseErrorKind ProgramHeader
parse_program buffer little =
    if ltb (length buffer) 56 then err invalid_size else ok (program_fields buffer little)
