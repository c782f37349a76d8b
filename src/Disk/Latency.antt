-- ===== src/Disk/Latency.antt =====
-- How long a request takes.
use jalepenos.Base.{
  ℕ, ◌+◌, ◌*◌, ◌/◌, ◌%◌, ◌^◌, ◌≤◌, ◌<◌, ◌≡◌, sym, subst, Bool, true, false, not, ◌&&◌, ◌==◌,
  if◌then◌else◌, arith,
}
use jalepenos.Base.Int.{ℤ, pos, negsuc}
use jalepenos.Disk.{
  Disk, Stats, sectors_per_track, num_sectors, rotation_time, seek_time, distance, time_to_seek,
  modulo_diff, quotient, rest_of, in_track_buffer, compute_latency,
}

-- Turning on by the difference brings the sector under the head.
modulo_diff_lem :
    (to from : ℕ) → (from + modulo_diff to (pos from)) % sectors_per_track ≡ to % sectors_per_track
unfolding modulo_diff
modulo_diff_lem to from = omega arith

modulo_diff_bound : (to : ℕ) (from : ℤ) → modulo_diff to from < sectors_per_track
unfolding modulo_diff
modulo_diff_bound to (pos from) = omega arith
modulo_diff_bound to (negsuc from) = omega arith

rotation_bound : (d : Disk) (s : Stats) (sector : ℕ) → (time_to_seek d s sector).1 < rotation_time
unfolding time_to_seek rest_of
rotation_bound d s sector = ground arith

-- After the seek and the rotation the head is at a sector boundary.
seek_boundary :
    (d : Disk) (s : Stats) (sector : ℕ)
    → s.total_ticks + (time_to_seek d s sector).0 < 2 ^ 31
    → let (seek, rotation) = time_to_seek d s sector in
      (s.total_ticks + seek + rotation) % rotation_time ≡ 0
unfolding time_to_seek rest_of
seek_boundary d s sector int = ground arith

distance_bound :
    (a b : ℕ)
    → a < num_sectors
    → b < num_sectors
    → distance (a / sectors_per_track) (b / sectors_per_track) ≤ 31
distance_bound a b ha hb = omega arith

abbrev time_after : Disk → Stats → ℕ → ℕ
time_after d s sector =
    let (seek, rotation) = time_to_seek d s sector in s.total_ticks + seek + rotation

at_sector :
    (t k sector : ℕ)
    → t % rotation_time ≡ 0
    → (t / rotation_time + k) % sectors_per_track ≡ sector % sectors_per_track
    → ((t + k * rotation_time + rotation_time) % rotation_time ≡ 0)
      × ((t + k * rotation_time + rotation_time) / rotation_time % sectors_per_track
          ≡ (sector + 1) % sectors_per_track)
at_sector t k sector boundary turned = (omega arith, omega arith)

quotient-int : (n : ℕ) → n < 2 ^ 31 → quotient n rotation_time ≡ pos (n / rotation_time)
unfolding quotient
quotient-int n int = let same : n % 2 ^ 32 ≡ n = omega arith in rw same (ground arith)

-- For a write that ends before the tick count reaches 2 ^ 31: it is finished at a sector
-- boundary, when the sector written has passed the head and the next one of the track is to
-- come.
pub compute_latency-position :
    (d : Disk) (s : Stats) (sector : ℕ)
    → s.total_ticks + compute_latency d s sector true < 2 ^ 31
    → let finish = s.total_ticks + compute_latency d s sector true in
      (finish % rotation_time ≡ 0)
      × (finish / rotation_time % sectors_per_track ≡ (sector + 1) % sectors_per_track)
unfolding compute_latency
compute_latency-position d s sector int =
    let t = time_after d s sector in
    let t_int : t < 2 ^ 31 = omega (arith, int) in
    let k = modulo_diff sector (pos (t / rotation_time)) in
    let boundary = seek_boundary d s sector (omega (arith, int)) in
    let turned = modulo_diff_lem sector (t / rotation_time) in
    let e : s.total_ticks + compute_latency d s sector true
        ≡ t + k * rotation_time + rotation_time =
      rw (quotient-int t t_int) (omega arith) in
    subst
      (λ f.
        (f % rotation_time ≡ 0)
        × (f / rotation_time % sectors_per_track ≡ (sector + 1) % sectors_per_track))
      (sym e) (at_sector t k sector boundary turned)

between :
    (buffered : Bool) (seek rotation k : ℕ)
    → seek ≤ 31 * seek_time
    → rotation < rotation_time
    → k < sectors_per_track
    → let ticks =
        if buffered then rotation_time else seek + (rotation + k * rotation_time) + rotation_time in
      (rotation_time ≤ ticks) × (ticks < 31 * seek_time + rotation_time + 32 * rotation_time)
between true seek rotation k a b c = (omega arith, omega arith)
between false seek rotation k a b c = (omega arith, omega arith)

seek_bound :
    (d : Disk) (s : Stats) (sector : ℕ)
    → d.last_sector < num_sectors
    → sector < num_sectors
    → (time_to_seek d s sector).0 ≤ 31 * seek_time
unfolding time_to_seek
seek_bound d s sector old new = omega (arith, distance_bound sector d.last_sector new old)

-- A request between sectors of the disk takes at least the time of one sector, and less than the
-- longest seek, the rotation to the next boundary and one revolution.
pub compute_latency-bounds :
    (d : Disk) (s : Stats) (sector : ℕ) (writing : Bool)
    → d.last_sector < num_sectors
    → sector < num_sectors
    → (rotation_time ≤ compute_latency d s sector writing)
      × (compute_latency d s sector writing < 31 * seek_time + rotation_time + 32 * rotation_time)
unfolding compute_latency
compute_latency-bounds d s sector writing old new =
    let (seek, rotation) = time_to_seek d s sector in
    let t = time_after d s sector in
    between ((not writing && (seek == 0)) && in_track_buffer d sector t) seek rotation
      (modulo_diff sector (quotient t rotation_time)) (seek_bound d s sector old new)
      (rotation_bound d s sector) (modulo_diff_bound sector (quotient t rotation_time))

-- A read of a sector never takes longer than a write of it from the same state: the track buffer
-- makes no request slower.
pub read-write_latency :
    (d : Disk) (s : Stats) (sector : ℕ)
    → compute_latency d s sector false ≤ compute_latency d s sector true
unfolding compute_latency
read-write_latency d s sector = ground arith
