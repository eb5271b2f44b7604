-- ===== src/PcapRing.antt =====
-- core/pcap_ring.py: the capture files of a table. A file is the list of the records behind its
-- header.
pub mod Bounds
pub mod Total
pub mod Dropped
pub mod Quota
mod Runs
use poker_eye_v.Prelude.{
  ℕ, zero, suc, ◌+◌, ◌-◌, ◌*◌, ◌/◌, ◌%◌, ◌^◌, ◌≤◌, String, Bool, true, false, ◌&&◌, not, Option,
  none, some, List, [], ◌∷◌, ◌++◌, length, leb, ltb, ◌==◌, if◌then◌else◌, nat_key, pair_key,
  string_key,
}
use poker_eye_v.Dict
use poker_eye_v.Dict.{Dict}
use poker_eye_v.CoinWire.Octets.{Bytes}

pub record PcapRingPolicy : Type 0 where
  pub segment_bytes : ℕ
  pub segments : ℕ
  pub per_table_cap : ℕ
  pub completed_retention : ℕ
  pub global_cap : ℕ

-- `__post_init__` does not raise.
unfoldable pub is_valid : PcapRingPolicy → Bool
is_valid p =
    not (p.segment_bytes == 0)
    && (not (p.segments == 0) && leb (p.segment_bytes * p.segments) p.per_table_cap)

-- The generation and the index in a file's name.
abbrev pub Name : Type 0
Name = ℕ × ℕ

abbrev pub Segment : Type 0
Segment = List Bytes

abbrev pub header_size : ℕ
header_size = 24

unfoldable pub records_size : Segment → ℕ
records_size [] = 0
records_size (r ∷ rs) = length r + records_size rs

-- p.stat().st_size
abbrev pub file_size : Segment → ℕ
file_size s = header_size + records_size s

-- `current` is the name of the open file.
pub record PcapRing : Type 0 where
  pub policy : PcapRingPolicy
  pub files : Dict Name Segment
  pub current : Option Name
  pub current_size : ℕ
  pub segment_index : ℕ
  pub generation : ℕ
  pub dropped : ℕ
  pub completed : List ℕ

-- while len(self._completed) > retention: self._completed.pop(0)
unfoldable pub retain : ℕ → List ℕ → List ℕ
retain retention [] = []
retain retention (g ∷ gs) =
    let rest = retain retention gs in if ltb retention (length (g ∷ gs)) then rest else g ∷ gs

unfoldable pub is_kept : List ℕ → ℕ → Bool
is_kept [] g = false
is_kept (k ∷ ks) g = if k == g then true else is_kept ks g

-- The files of generations that are not retained are deleted.
unfoldable pub delete_old : List ℕ → Dict Name Segment → Dict Name Segment
delete_old keep [] = []
delete_old keep (((g, i), s) ∷ fs) =
    let rest = delete_old keep fs in if is_kept keep g then ((g, i), s) ∷ rest else rest

unfoldable pub retire_generation : PcapRing → PcapRing
retire_generation r =
    let completed = retain r.policy.completed_retention (r.completed ++ r.generation ∷ []) in
    record r {
      completed = completed;
      files = delete_old completed r.files;
      generation = r.generation + 1;
    }

abbrev pub retired : PcapRing → PcapRing
retired r =
    if leb r.policy.segments r.segment_index && ltb 0 r.generation then retire_generation r else r

-- `_open_segment`, which is all that `_rotate` does
unfoldable pub open_segment : PcapRing → PcapRing
open_segment r =
    let q = retired r in
    let index = q.segment_index % q.policy.segments in
    record q {
      segment_index = index;
      files = Dict.put q.files (q.generation, index) [];
      current = some (q.generation, index);
      current_size = header_size;
    }

-- PcapRing(directory, policy), with the files that stand in the directory
unfoldable pub new_ring : PcapRingPolicy → Dict Name Segment → PcapRing
new_ring policy files = open_segment (record {
  policy = policy;
  files = files;
  current = none;
  current_size = 0;
  segment_index = 0;
  generation = 0;
  dropped = 0;
  completed = [];
})

unfoldable pub le_bytes : ℕ → ℕ → Bytes
le_bytes zero n = []
le_bytes (suc width) n = n % 256 ∷ le_bytes width (n / 256)

-- struct.pack("<IIII", sec, usec, len(data), len(data)) + data; `none` is the `struct.error`
unfoldable pub packet_record : ℕ → ℕ → Bytes → Option Bytes
packet_record sec usec payload =
    if ltb sec (2 ^ 32) && (ltb usec (2 ^ 32) && ltb (length payload) (2 ^ 32))
    then some (
        le_bytes 4 sec
        ++ (le_bytes 4 usec
            ++ (le_bytes 4 (length payload) ++ (le_bytes 4 (length payload) ++ payload))))
    else none

unfoldable pub next_segment : PcapRing → PcapRing
next_segment r = open_segment (record r { segment_index = r.segment_index + 1 })

abbrev or_empty : Option Segment → Segment
or_empty none = []
or_empty (some s) = s

-- The record is written to the open file, which is left if it is full then; with no open file the
-- write raises.
unfoldable pub append_record : PcapRing → Bytes → Option PcapRing
append_record r bytes = elim r.current [
  | none ↦ none
  | some name ↦
      let written = record r {
        files = Dict.put r.files name (or_empty (Dict.get r.files name) ++ bytes ∷ []);
        current_size = r.current_size + length bytes;
      } in
      some (
        if leb r.policy.segment_bytes (r.current_size + length bytes)
        then next_segment written
        else written)
]

abbrev pub overflows : PcapRing → Bytes → Bool
overflows r bytes = ltb r.policy.segment_bytes (r.current_size + length bytes)

-- The segment that a record goes to: the open one, or the next one if it does not fit.
abbrev pub segment_for : PcapRing → Bytes → PcapRing
segment_for r bytes = if overflows r bytes then next_segment r else r

abbrev pub written : Option PcapRing → Option (PcapRing × Bool)
written none = none
written (some r) = some (r, true)

-- `write_packet` from the lock on; `none` is an exception
unfoldable pub write_record : PcapRing → Bytes → Option (PcapRing × Bool)
write_record r bytes =
    let q = segment_for r bytes in
    if overflows q bytes
    then some (record q { dropped = q.dropped + 1 }, false)
    else written (append_record q bytes)

unfoldable pub write_packet : PcapRing → ℕ → ℕ → Bytes → Option (PcapRing × Bool)
write_packet r sec usec payload = elim (packet_record sec usec payload) [
  | none ↦ none
  | some bytes ↦ write_record r bytes
]

unfoldable pub close : PcapRing → PcapRing
close r = record r { current = none }

-- sum(p.stat().st_size for p in files)
unfoldable pub table_bytes : Dict Name Segment → ℕ
table_bytes [] = 0
table_bytes ((n, s) ∷ fs) = file_size s + table_bytes fs

-- A file that the quota's glob finds, whose `stat` answers: its table, its name, its size, its time of
-- modification, and whether `unlink` raises.
pub record Found : Type 0 where
  pub table_key : String
  pub name : Name
  pub bytes : ℕ
  pub mtime : ℕ
  pub locked : Bool

unfoldable pub total_bytes : List Found → ℕ
total_bytes [] = 0
total_bytes (f ∷ fs) = f.bytes + total_bytes fs

abbrev pub insert : Found → List Found → List Found
insert f [] = f ∷ []
insert f (g ∷ gs) = let rest = insert f gs in if leb f.mtime g.mtime then f ∷ g ∷ gs else g ∷ rest

-- sorted(files, key=st_mtime), which keeps the order of files with the same time
unfoldable pub by_mtime : List Found → List Found
by_mtime [] = []
by_mtime (f ∷ fs) = insert f (by_mtime fs)

-- The loop of `_enforce_global_quota` with its `total`: the files that are left.
unfoldable pub evict : ℕ → ℕ → List Found → List Found
evict cap total [] = []
evict cap total (f ∷ fs) =
    let rest = evict cap (total - f.bytes) fs in
    if ltb cap total then (if f.locked then f ∷ rest else rest) else f ∷ fs

unfoldable pub enforce_global_quota : PcapRingPolicy → List Found → List Found
enforce_global_quota policy found =
    let files = by_mtime found in evict policy.global_cap (total_bytes files) files
