-- ===== src/Disk/Requests.antt =====
-- One request at a time, and what a read gives after a write.
use jalepenos.Base.{
  ℕ, ◌<◌, ◌≡◌, refl, true, false, List, none, some, ltb, ◌==◌, if◌then◌else◌, arith, update, suc,
}
use jalepenos.Disk.{
  Disk, Stats, num_sectors, admits, read_request, write_request, handle_interrupt, compute_latency,
  update_last,
}

-- A write to a sector of an idle disk passes its ASSERTs; until the interrupt every read or
-- write fails an ASSERT; after the interrupt a read of any sector of the disk passes and gives
-- the bytes written, or for another sector the bytes that were there, and a read of no sector
-- fails an ASSERT.
pub read_request-write_request :
    (d : Disk) (s : Stats) (n : ℕ) (bytes : List ℕ)
    → d.active ≡ false
    → n < num_sectors
    → (d' : Disk) × (s' : Stats) × (ticks : ℕ) × (write_request d s n bytes ≡ some (d', s', ticks))
      × ((t : Stats) (m : ℕ) → read_request d' t m ≡ none)
      × ((t : Stats) (m : ℕ) (other : List ℕ) → write_request d' t m other ≡ none)
      × ((t : Stats) (m : ℕ)
          → read_request (handle_interrupt d') t m ≡ (
              if ltb m num_sectors
              then some (
                (if m == n then bytes else d.contents m),
                update_last d' t m,
                record t { num_disk_reads = suc t.num_disk_reads },
                compute_latency (handle_interrupt d') t m false,
              )
              else none))
unfolding read_request write_request handle_interrupt
read_request-write_request d s n bytes idle inside =
    let open_now : admits d n ≡ true = ground arith in
    (
      update_last (record d { active = true; contents = update d.contents n bytes }) s n,
      record s { num_disk_writes = suc s.num_disk_writes },
      compute_latency d s n true,
      rw open_now refl,
      λ t m. refl,
      λ t m other. refl,
      λ t m. refl,
    )
