-- ===== src/Tsdb/Append/Reopen.antt =====
-- Reopening: the descriptor that `read_sector_info` builds from the medium is as good as the one
-- that was kept in memory.
use flash_db_rust.Base.{
  ℕ, ◌+◌, ◌%◌, ◌^◌, ◌≤◌, ◌<◌, ◌==◌, ◌≡◌, refl, ◌∙◌, sym, ap, Bool, true, false, ok, List, ℤ, pos,
  arith, length, branch, take, replicate, if◌then◌else◌,
}
use flash_db_rust.Def.{sector_store_status_num}
use flash_db_rust.Def.TslStatus
use flash_db_rust.Def.TslStatus.{TslStatus}
use flash_db_rust.Def.StoreStatus
use flash_db_rust.Def.StoreStatus.{SectorStoreStatus}
use flash_db_rust.Status.{get_status}
use flash_db_rust.Storage.{Storage}
use flash_db_rust.Storage.Bytes.{slice}
use flash_db_rust.Storage.Laws.{IsByteArray}
use flash_db_rust.Tsdb.Types.{
  TsdbSecInfo, Tsdb, blank_sector, rd_u32, rd_i32, sector_end0_status_offset,
  sector_end0_time_offset, sector_end0_idx_offset, sector_end1_status_offset,
  sector_end1_time_offset, sector_end1_idx_offset, sector_magic_offset, sector_magic_word,
}
use flash_db_rust.Tsdb.Sector.{
  end_stat, decode_end, decode_sector, measure_tsls, after_header, read_sector_info,
}
use flash_db_rust.Tsdb.Sector.Log.{log_at}
use flash_db_rust.Tsdb.Append.Stored.{Stored-bounds, Stored-length}
use flash_db_rust.Tsdb.Append.Recover.{Measured, measure_tsls-Stored}
use flash_db_rust.Tsdb.Append.Room.{IsOpen}

if_same : {A : Type 0} (P : A → Type 0) (b : Bool) {x y : A} → P x → P y → P (if b then x else y)
if_same P true p q = p
if_same P false p q = q

-- What the end information of a header does not touch.
record SameSpace (s s' : TsdbSecInfo) : Type 0 where
  status : s'.status ≡ s.status
  addr : s'.addr ≡ s.addr
  empty_idx : s'.empty_idx ≡ s.empty_idx
  empty_data : s'.empty_data ≡ s.empty_data
  remain : s'.remain ≡ s.remain

decode_end-SameSpace : (hdr : List ℕ) (s : TsdbSecInfo) → SameSpace s (decode_end hdr s)
decode_end-SameSpace hdr s =
    let same : (time : ℤ) (idx : ℕ) → SameSpace s (record s { end_time = time; end_idx = idx }) =
      λ time idx. record {
        status = refl;
        addr = refl;
        empty_idx = refl;
        empty_data = refl;
        remain = refl;
      } in
    if_same (SameSpace s) (TslStatus.eq (end_stat hdr sector_end0_status_offset) TslStatus.write)
      (same (rd_i32 hdr sector_end0_time_offset) (rd_u32 hdr sector_end0_idx_offset))
      (if_same (SameSpace s) (TslStatus.eq (end_stat hdr sector_end1_status_offset) TslStatus.write)
        (same (rd_i32 hdr sector_end1_time_offset) (rd_u32 hdr sector_end1_idx_offset))
        (same s.end_time s.end_idx))

-- A header with the magic word and a status.
pub record IsHeader (hdr : List ℕ) (status : SectorStoreStatus) : Type 0 where
  pub magic : rd_u32 hdr sector_magic_offset ≡ sector_magic_word
  pub state : StoreStatus.from_index (get_status (take 1 hdr) sector_store_status_num) ≡ status

pub decode_sector-IsHeader :
    (status : SectorStoreStatus) (sec_size addr : ℕ) (hdr : List ℕ)
    → IsHeader hdr status
    → 32 ≤ sec_size
    → addr + sec_size < 2 ^ 32
    → let (r, s) = decode_sector sec_size addr hdr blank_sector in
      (r ≡ ok tt)
      × (s.status ≡ status)
      × (s.addr ≡ addr)
      × Measured s 0 (addr + 32) (addr + sec_size)
unfolding decode_sector
decode_sector-IsHeader status sec_size addr hdr header large small =
    let is_magic : (rd_u32 hdr sector_magic_offset == sector_magic_word) ≡ true =
      rw (header.magic) refl in
    let e1 : (addr + 32) % 2 ^ 32 ≡ addr + 32 = omega arith in
    let e2 : (addr + sec_size) % 2 ^ 32 ≡ addr + sec_size = omega arith in
    let same = decode_end-SameSpace hdr _ in
    rw is_magic (
      refl,
      same.status ∙ header.state,
      same.addr,
      record {
        empty_idx = same.empty_idx ∙ e1;
        empty_data = same.empty_data ∙ e2;
        remain = same.remain ∙ rw (e1, e2) (ap pos (omega arith));
        end_idx = λ p. absurd (omega arith);
      },
    )

module _ {S T : Type 0} (st : Storage S) (arr : IsByteArray st) where
  open arr use {capacity, byte, read_in}

  -- On a byte array, for an open sector that holds some logs and has room for one more record,
  -- whose header says that it is in use and whose next record is unused, `read_sector_info` with
  -- traversal succeeds and builds a descriptor with which the sector is open again, with the same
  -- logs and the same room. It changes nothing.
  pub read_sector_info-IsOpen :
      (db : Tsdb S T) (logs : List (ℤ × List ℕ)) (room : ℕ)
      → IsOpen st arr db logs room
      → 0 < length logs
      → 16 ≤ room
      → IsHeader (slice (byte db.storage) db.cur_sec.addr 32) SectorStoreStatus.using
      → TslStatus.eq
          ((log_at (byte db.storage) db.max_len db.cur_sec.empty_idx).status)
          TslStatus.unused
        ≡ true
      → let ((r, sec), db') = read_sector_info st db.cur_sec.addr blank_sector true db in
        (r ≡ ok tt) × (db' ≡ db) × IsOpen st arr (record db { cur_sec = sec }) logs room
  unfolding read_sector_info after_header branch
  read_sector_info-IsOpen db logs room open_db some_log enough header unused =
      let addr = db.cur_sec.addr in
      let b = Stored-bounds _ _ _ logs _ _ open_db.stored in
      let n = Stored-length _ _ _ logs _ _ open_db.stored in
      let hdr = slice (byte db.storage) addr 32 in
      let (good, using, same_addr, start) =
        decode_sector-IsHeader SectorStoreStatus.using db.sec_size addr hdr header (omega arith)
          (omega arith) in
      let s0 = (decode_sector db.sec_size addr hdr blank_sector).1 in
      let (done, kept, status, addr', m) =
        measure_tsls-Stored st arr db (db.sec_size + 1) (addr + 32) (addr + db.sec_size)
          db.cur_sec.empty_idx db.cur_sec.empty_data logs 0 s0 open_db.stored (omega arith)
          (omega arith) (omega arith) (omega arith) unused start in
      let read = read_in db.storage addr (replicate 32 0) (omega arith) in
      let s1 : TsdbSecInfo = (measure_tsls st (db.sec_size + 1) (addr + 32) s0 db).0.1 in
      let at : s1.addr ≡ addr = addr' ∙ same_addr in
      rw (read, good, using, start.empty_idx)
        (
          done,
          kept,
          record {
            using = status ∙ using;
            stored = rw (at, m.empty_idx, m.empty_data) (open_db.stored);
            ended = λ p. m.end_idx (omega arith) ∙ sym (m.empty_idx);
            left = m.remain ∙ ap pos (omega arith);
            apart = rw (m.empty_idx, m.empty_data) (open_db.apart);
            fits = rw at (open_db.fits);
            small = rw at (open_db.small);
          },
        )
