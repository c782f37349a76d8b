-- ===== src/AddrSpace/Program.antt =====
-- The program file of an address space: the header of code/bin/noff.h as `ReadAt` brings it into
-- memory, and the part of `AddrSpace::demandpage` in code/userprog/addrspace.cc that fills a page for the
-- first time. The host is little endian, so WordToHost changes nothing and SwapHeader never runs. A
-- `ReadAt` at a negative position is none.
use jalepenos.Base.{
  ℕ, ◌+◌, ◌-◌, ◌*◌, ◌%◌, ◌^◌, Bool, not, ◌&&◌, Option, none, some, ltb, leb, ◌==◌, if◌then◌else◌,
  ◌>>=◌,
}
use jalepenos.Base.Int.{ℤ, pos, negsuc, ltb_ℤ}
use jalepenos.Machine.Words.Signs.{to_int}
use jalepenos.OpenFile.{OpenFile, Sectors, read_at}

-- The fields are patterns of ints.
pub record Segment : Type 0 where
  pub virtual_addr : ℕ
  pub in_file_addr : ℕ
  pub size : ℕ

pub record NoffHeader : Type 0 where
  pub noff_magic : ℕ
  pub code : Segment
  pub init_data : Segment
  pub uninit_data : Segment

-- NOFFMAGIC
abbrev pub magic_number : ℕ
magic_number = 0xbadfad

-- The int at a place in memory.
abbrev pub int_at : (ℕ → ℕ) → ℕ → ℕ
int_at mem p = mem p + 256 * mem (p + 1) + 65536 * mem (p + 2) + 16777216 * mem (p + 3)

abbrev pub segment_at : (ℕ → ℕ) → ℕ → Segment
segment_at mem p = record {
  virtual_addr = int_at mem p;
  in_file_addr = int_at mem (p + 4);
  size = int_at mem (p + 8);
}

unfoldable pub header_at : (ℕ → ℕ) → NoffHeader
header_at mem = record {
  noff_magic = int_at mem 0;
  code = segment_at mem 4;
  init_data = segment_at mem 16;
  uninit_data = segment_at mem 28;
}

-- `garbage` is what the new buffer of ReadAt holds, `stack` what `noffH` does before it is read.
unfoldable pub read_header : OpenFile → Sectors → (ℕ → ℕ) → (ℕ → ℕ) → Option NoffHeader
unfolding header_at
read_header executable d garbage stack = read_at executable d garbage stack 0 40 0 >>= λ (_, mem).
    let h = header_at mem in if h.noff_magic == magic_number then some h else none

-- A segment whose addresses are from `virtualAddr` up to before `virtualAddr + size`.
unfoldable pub holds_page : Segment → ℕ → Bool
holds_page s page_addr =
    not (ltb_ℤ (pos page_addr) (to_int s.virtual_addr))
    && ltb_ℤ (pos page_addr) (to_int ((s.virtual_addr + s.size) % 2 ^ 32))

abbrev read_int : OpenFile → Sectors → (ℕ → ℕ) → (ℕ → ℕ) → ℕ → ℤ → Option (ℕ → ℕ)
read_int f d garbage memory to (pos position) =
    read_at f d garbage memory to 128 position >>= λ (_, mem). some mem
read_int f d garbage memory to (negsuc n) = none

-- stored_executable->ReadAt(&(machine->mainMemory[physLocation]), PageSize, inFileAddr + offset)
unfoldable pub read_segment :
    OpenFile → Sectors → (ℕ → ℕ) → (ℕ → ℕ) → ℕ → Segment → ℕ → Option (ℕ → ℕ)
read_segment f d garbage memory to s page_addr =
    read_int f d garbage memory to
      (to_int ((s.in_file_addr + (page_addr + 2 ^ 32 - s.virtual_addr)) % 2 ^ 32))

-- bzero(&machine->mainMemory[to], PageSize)
unfoldable pub zero_page : (ℕ → ℕ) → ℕ → ℕ → ℕ
zero_page memory to q = if leb to q && ltb q (to + 128) then 0 else memory q

-- Code, initialised data, or neither: the page at `page_addr` goes to the frame at `to`.
unfoldable pub fill_page :
    OpenFile → Sectors → (ℕ → ℕ) → NoffHeader → (ℕ → ℕ) → ℕ → ℕ → Option (ℕ → ℕ)
fill_page f d garbage h memory to page_addr =
    if holds_page h.code page_addr
    then read_segment f d garbage memory to h.code page_addr
    else if holds_page h.init_data page_addr
    then read_segment f d garbage memory to h.init_data page_addr
    else some (zero_page memory to)
