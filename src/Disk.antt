-- ===== src/Disk.antt =====
-- code/machine/disk.h and disk.cc: the simulated disk. The UNIX file behind it is the member
-- `contents`, the bytes of each sector; opening the file is left out. Sector numbers are
-- not negative. Ticks are the patterns of ints, which wrap. A failed ASSERT is `none`.
pub mod Latency
pub mod Requests
use jalepenos.Base.{
  ℕ, ◌+◌, ◌-◌, ◌*◌, ◌/◌, ◌%◌, ◌^◌, Bool, true, false, not, ◌&&◌, List, Option, none, some, ltb,
  ◌==◌, if◌then◌else◌, update, zero, suc,
}
use jalepenos.Base.Int.{ℤ, pos, negsuc, ltb_ℤ}

abbrev pub sectors_per_track : ℕ
sectors_per_track = 32

abbrev pub num_sectors : ℕ
num_sectors = 1024

abbrev pub rotation_time : ℕ
rotation_time = 500

abbrev pub seek_time : ℕ
seek_time = 500

-- The members of `Statistics` that the disk uses.
pub record Stats : Type 0 where
  pub total_ticks : ℕ
  pub num_disk_reads : ℕ
  pub num_disk_writes : ℕ

pub record Disk : Type 0 where
  pub active : Bool
  pub last_sector : ℕ
  pub buffer_init : ℕ
  pub contents : ℕ → List ℕ

-- The constructor, on a file with the given contents.
abbrev pub init : (ℕ → List ℕ) → Disk
init contents = record { active = false; last_sector = 0; buffer_init = 0; contents = contents }

-- abs(newTrack - oldTrack)
abbrev pub distance : ℕ → ℕ → ℕ
distance a b = (a - b) + (b - a)

-- The int that the low 32 bits of a number stand for, divided as C does, towards zero, and 0 in place of a
-- remainder that is negative.
abbrev pub minus : ℕ → ℤ
minus zero = pos 0
minus (suc n) = negsuc n

unfoldable pub quotient : ℕ → ℕ → ℤ
quotient n by =
    let p = n % 2 ^ 32 in if ltb p (2 ^ 31) then pos (p / by) else minus ((2 ^ 32 - p) / by)

unfoldable pub rest_of : ℕ → ℕ → ℕ
rest_of n by = let p = n % 2 ^ 32 in if ltb p (2 ^ 31) then p % by else 0

-- The seek time, and the rotation to the next sector boundary.
unfoldable pub time_to_seek : Disk → Stats → ℕ → ℕ × ℕ
unfolding rest_of
time_to_seek d s new_sector =
    let seek =
      distance (new_sector / sectors_per_track) (d.last_sector / sectors_per_track) * seek_time in
    let over = rest_of (s.total_ticks + seek) rotation_time in
    (seek, if ltb 0 over then rotation_time - over else 0)

-- Both ints divided by the number of sectors of a track; `from` may be negative.
unfoldable pub modulo_diff : ℕ → ℤ → ℕ
modulo_diff to (pos from) =
    (to % sectors_per_track + sectors_per_track - from % sectors_per_track) % sectors_per_track
modulo_diff to (negsuc from) =
    (to % sectors_per_track + sectors_per_track + suc from % sectors_per_track) % sectors_per_track

-- The track buffer has the sector. A quotient that is negative fails the test.
unfoldable pub in_track_buffer : Disk → ℕ → ℕ → Bool
unfolding modulo_diff quotient
in_track_buffer d new_sector time_after =
    ltb_ℤ (pos (modulo_diff new_sector (quotient d.buffer_init rotation_time)))
      (quotient (time_after + (2 ^ 32 - d.buffer_init % 2 ^ 32)) rotation_time)

unfoldable pub compute_latency : Disk → Stats → ℕ → Bool → ℕ
unfolding time_to_seek in_track_buffer modulo_diff quotient
compute_latency d s new_sector writing =
    let (seek, rotation) = time_to_seek d s new_sector in
    let time_after = s.total_ticks + seek + rotation in
    if (not writing && (seek == 0)) && in_track_buffer d new_sector time_after
    then rotation_time
    else seek
      + (rotation + modulo_diff new_sector (quotient time_after rotation_time) * rotation_time)
      + rotation_time

unfoldable pub update_last : Disk → Stats → ℕ → Disk
unfolding time_to_seek
update_last d s new_sector =
    let (seek, rotate) = time_to_seek d s new_sector in
    record d {
      last_sector = new_sector;
      buffer_init =
          if not (seek == 0) then (s.total_ticks + seek + rotate) % 2 ^ 32 else d.buffer_init;
    }

-- The ASSERTs of a request.
abbrev pub admits : Disk → ℕ → Bool
admits d sector_number = not d.active && ltb sector_number num_sectors

-- The bytes read, and the number of ticks after which the interrupt is scheduled.
unfoldable pub read_request : Disk → Stats → ℕ → Option (List ℕ × Disk × Stats × ℕ)
unfolding compute_latency update_last
read_request d s sector_number =
    let ticks = compute_latency d s sector_number false in
    if admits d sector_number
    then some (
      d.contents sector_number,
      update_last (record d { active = true }) s sector_number,
      record s { num_disk_reads = suc s.num_disk_reads },
      ticks,
    )
    else none

unfoldable pub write_request : Disk → Stats → ℕ → List ℕ → Option (Disk × Stats × ℕ)
unfolding compute_latency update_last
write_request d s sector_number bytes =
    let ticks = compute_latency d s sector_number true in
    if admits d sector_number
    then some (
      update_last (record d { active = true; contents = update d.contents sector_number bytes }) s
          sector_number,
      record s { num_disk_writes = suc s.num_disk_writes },
      ticks,
    )
    else none

-- `active = FALSE`, before the call of the handler.
unfoldable pub handle_interrupt : Disk → Disk
handle_interrupt d = record d { active = false }
