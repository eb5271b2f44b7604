-- ===== src/PcapRing/Bounds.antt =====
-- How much a table's ring keeps on disk.
use poker_eye_v.Prelude.{
  ℕ, ◌+◌, ◌%◌, ◌≤◌, ◌<◌, ◌≡◌, Bool, true, false, Option, none, some, List, [], ◌∷◌, ◌++◌, arith,
  length, leb, if◌then◌else◌, nat_key, pair_key, Option-cases, Bool-cases, inl, inr,
}
use poker_eye_v.Dict
use poker_eye_v.Dict.{
  Dict, get-put, get-put_self, get-remove, Distinct, Distinct-put, Distinct-remove, size-remove,
  AllEntries, AllEntries-get,
}
use poker_eye_v.CoinWire.Octets.{Bytes}
use poker_eye_v.PcapRing.{
  PcapRingPolicy, PcapRing, Name, Segment, is_valid, header_size, records_size, file_size,
  open_segment, next_segment, append_record, overflows, segment_for, write_record, packet_record,
  write_packet, close, written,
}

-- The open file is the one of the segment index, and its size is known.
pub record IsOpen (r : PcapRing) (n : Name) : Type 0 where
  pub name : n ≡ (0, r.segment_index)
  pub segment : Segment
  pub file : Dict.get r.files n ≡ some segment
  pub size : file_size segment ≡ r.current_size

-- The policy is one that `__post_init__` takes, with room for the header; all files are segments of
-- the generation 0, none above the segment size.
pub record IsSound (r : PcapRing) : Type 0 where
  pub valid : is_valid r.policy ≡ true
  pub roomy : header_size ≤ r.policy.segment_bytes
  pub generation : r.generation ≡ 0
  pub completed : r.completed ≡ []
  pub index : r.segment_index < r.policy.segments
  pub files :
      (n : Name) (s : Segment)
      → Dict.get r.files n ≡ some s
      → (n.0 ≡ 0) × (n.1 < r.policy.segments) × (file_size s ≤ r.policy.segment_bytes)
  pub opened : (n : Name) → r.current ≡ some n → IsOpen r n
  pub within : r.current_size ≤ r.policy.segment_bytes
  pub distinct : Distinct r.files

valid_segments : (p : PcapRingPolicy) → is_valid p ≡ true → 0 < p.segments
unfolding is_valid
valid_segments p e = ground (arith, e)

wrapped : (n m : ℕ) → 0 < m → n % m < m
wrapped n m h = omega (arith, h)

abbrev pub opened_at : PcapRing → ℕ → PcapRing
opened_at r index = record r {
  segment_index = index;
  files = Dict.put r.files (0, index) [];
  current = some (0, index);
  current_size = header_size;
}

pub next_segment_lem :
    (r : PcapRing)
    → r.generation ≡ 0
    → next_segment r ≡ opened_at r ((r.segment_index + 1) % r.policy.segments)
unfolding next_segment open_segment
next_segment_lem r g = ground (arith, g)

opened-IsSound :
    (r : PcapRing) (index : ℕ) → index < r.policy.segments → IsSound r → IsSound (opened_at r index)
unfolding records_size
opened-IsSound r index i v = record {
  valid = v.valid;
  roomy = v.roomy;
  generation = v.generation;
  completed = v.completed;
  index = i;
  files = λ n s e. ground (arith, e, v.files n s, v.roomy, get-put r.files (0, index) [] n);
  opened = λ n e. record {
    name = ground (arith, e);
    segment = [];
    file = ground (arith, e, get-put_self r.files (0, index) []);
    size = ground arith;
  };
  within = v.roomy;
  distinct = Distinct-put r.files (0, index) [] v.distinct;
}

pub next-IsSound : (r : PcapRing) → IsSound r → IsSound (next_segment r)
next-IsSound r v = rw (next_segment_lem r v.generation) (
    opened-IsSound r ((r.segment_index + 1) % r.policy.segments)
      (wrapped (r.segment_index + 1) r.policy.segments (valid_segments r.policy v.valid)) v)

records_size-append :
    (rs : Segment) (bytes : Bytes)
    → records_size (rs ++ bytes ∷ []) ≡ records_size rs + length bytes
unfolding records_size
records_size-append [] bytes = omega arith
records_size-append (r ∷ rs) bytes = omega (arith, records_size-append rs bytes)

-- A record that fits is written to the open file `n`.
abbrev pub written_to : PcapRing → Name → Segment → Bytes → PcapRing
written_to r n s bytes = record r {
  files = Dict.put r.files n (s ++ bytes ∷ []);
  current_size = r.current_size + length bytes;
}

written-IsSound :
    (r : PcapRing) (n : Name) (o : IsOpen r n) (bytes : Bytes)
    → r.current ≡ some n
    → r.current_size + length bytes ≤ r.policy.segment_bytes
    → IsSound r
    → IsSound (written_to r n o.segment bytes)
written-IsSound r n o bytes c fits v =
    let grown = o.segment ++ bytes ∷ [] in
    record {
      valid = v.valid;
      roomy = v.roomy;
      generation = v.generation;
      completed = v.completed;
      index = v.index;
      files = λ m s e. ground (
        arith,
        e,
        fits,
        o.size,
        o.name,
        v.index,
        v.files m s,
        records_size-append o.segment bytes,
        get-put r.files n grown m,
      );
      opened = λ m e. record {
        name = ground (arith, e, c, o.name);
        segment = grown;
        file = ground (arith, e, c, get-put_self r.files n grown);
        size = omega (arith, o.size, records_size-append o.segment bytes);
      };
      within = fits;
      distinct = Distinct-put r.files n grown v.distinct;
    }

-- A full segment is left.
abbrev pub turned : PcapRing → PcapRing
turned r = if leb r.policy.segment_bytes r.current_size then next_segment r else r

turned-IsSound : (r : PcapRing) → IsSound r → IsSound (turned r)
turned-IsSound r v = elim (Bool-cases (leb r.policy.segment_bytes r.current_size)) [
  | inl e ↦ rw e (next-IsSound r v)
  | inr e ↦ rw e v
]

pub append_record_lem :
    (r : PcapRing) (n : Name) (o : IsOpen r n) (bytes : Bytes)
    → r.current ≡ some n
    → append_record r bytes ≡ some (turned (written_to r n o.segment bytes))
unfolding append_record
append_record_lem r n o bytes c = ground (arith, c, o.file)

segment_for-IsSound : (r : PcapRing) (bytes : Bytes) → IsSound r → IsSound (segment_for r bytes)
segment_for-IsSound r bytes v = elim (Bool-cases (overflows r bytes)) [
  | inl e ↦ rw e (next-IsSound r v)
  | inr e ↦ rw e v
]

append-IsSound :
    (r r' : PcapRing) (bytes : Bytes)
    → overflows r bytes ≡ false
    → append_record r bytes ≡ some r'
    → IsSound r
    → IsSound r'
append-IsSound r r' bytes f e v = elim (Option-cases r.current) [
  | inl c ↦ absurd (unfold append_record in ground (arith, e, c))
  | inr (n, c) ↦
      let o = v.opened n c in
      let w = written_to r n o.segment bytes in
      let q : turned w ≡ r' = cc (append_record_lem r n o bytes c, e) in
      rw (← q) (turned-IsSound w (written-IsSound r n o bytes c (ground (arith, f)) v))
]

-- The drop of a packet, and the close of the ring.
dropped-IsSound : (r : PcapRing) (n : ℕ) → IsSound r → IsSound (record r { dropped = n })
dropped-IsSound r n v = record {
  valid = v.valid;
  roomy = v.roomy;
  generation = v.generation;
  completed = v.completed;
  index = v.index;
  files = v.files;
  opened = λ m e.
      let o = v.opened m e in
      record { name = o.name; segment = o.segment; file = o.file; size = o.size };
  within = v.within;
  distinct = v.distinct;
}

close-IsSound : (r : PcapRing) → IsSound r → IsSound (close r)
unfolding close
close-IsSound r v = record {
  valid = v.valid;
  roomy = v.roomy;
  generation = v.generation;
  completed = v.completed;
  index = v.index;
  files = v.files;
  opened = λ m e. absurd (cc e);
  within = v.within;
  distinct = v.distinct;
}

written-some :
    (o : Option PcapRing) (r : PcapRing) (b : Bool) → written o ≡ some (r, b) → o ≡ some r
written-some none r b e = absurd (cc e)
written-some (some q) r b e = cc e

write_record-IsSound :
    (r r' : PcapRing) (bytes : Bytes) (b : Bool)
    → write_record r bytes ≡ some (r', b)
    → IsSound r
    → IsSound r'
unfolding write_record
write_record-IsSound r r' bytes b e v =
    let q = segment_for r bytes in
    let w = segment_for-IsSound r bytes v in
    elim (Bool-cases (overflows q bytes)) [
      | inl f ↦
          let p : record q { dropped = q.dropped + 1 } ≡ r' = ground (arith, e, f) in
          rw (← p) (dropped-IsSound q (q.dropped + 1) w)
      | inr f ↦
          append-IsSound q r' bytes f
            (written-some (append_record q bytes) r' b (ground (arith, e, f))) w
    ]

-- The calls of a ring; a packet is given by the numbers of its record's header and its bytes.
pub data Call : Type 0 where
  writes : ℕ → ℕ → Bytes → Call
  closes : Call

abbrev ring_of : PcapRing → Option (PcapRing × Bool) → PcapRing
ring_of r none = r
ring_of r (some (r', b)) = r'

-- A call that raises leaves the ring as it is.
unfoldable pub step : PcapRing → Call → PcapRing
step r (writes sec usec payload) = ring_of r (write_packet r sec usec payload)
step r closes = close r

unfoldable pub run : PcapRing → List Call → PcapRing
run r [] = r
run r (c ∷ cs) = run (step r c) cs

ring_of-IsSound :
    (r : PcapRing) (bytes : Bytes) → IsSound r → IsSound (ring_of r (write_record r bytes))
ring_of-IsSound r bytes v = elim (Option-cases (write_record r bytes)) [
  | inl e ↦ rw e v
  | inr ((r', b), e) ↦ rw e (write_record-IsSound r r' bytes b e v)
]

step-IsSound : (r : PcapRing) (c : Call) → IsSound r → IsSound (step r c)
unfolding step write_packet
step-IsSound r closes v = close-IsSound r v
step-IsSound r (writes sec usec payload) v = elim (Option-cases (packet_record sec usec payload)) [
  | inl e ↦ rw (e, step, write_packet) v
  | inr (bytes, e) ↦ rw (e, step, write_packet) (ring_of-IsSound r bytes v)
]

pub run-IsSound : (r : PcapRing) (cs : List Call) → IsSound r → IsSound (run r cs)
unfolding run
run-IsSound r [] v = v
run-IsSound r (c ∷ cs) v = run-IsSound (step r c) cs (step-IsSound r c v)
