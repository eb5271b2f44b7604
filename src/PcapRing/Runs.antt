-- ===== src/PcapRing/Runs.antt =====
-- Concrete rings, and the theorems at concrete inputs.
use poker_eye_v.Prelude.{
  ℕ, ◌*◌, ◌≤◌, ◌≡◌, refl, false, some, List, [], ◌∷◌, arith, nat_key, pair_key,
}
use poker_eye_v.Dict
use poker_eye_v.PcapRing.{
  Name, Segment, file_size, PcapRingPolicy, PcapRing, Found, is_valid, records_size, table_bytes,
  enforce_global_quota, by_mtime, evict, total_bytes,
}
use poker_eye_v.PcapRing.Bounds.{IsSound, Call, writes, closes, run}
use poker_eye_v.PcapRing.Total.{ring_bytes-le, nothing_retired}

-- Two segments of 50 bytes.
abbrev policy : PcapRingPolicy
policy = record {
  segment_bytes = 50;
  segments = 2;
  per_table_cap = 120;
  completed_retention = 1;
  global_cap = 100;
}

abbrev ring : PcapRing
ring = record {
  policy = policy;
  files = ((0, 0), []) ∷ [];
  current = some (0, 0);
  current_size = 24;
  segment_index = 0;
  generation = 0;
  dropped = 0;
  completed = [];
}

ring-IsSound : IsSound ring
unfolding is_valid records_size Dict.get
ring-IsSound = record {
  valid = refl;
  roomy = omega arith;
  generation = refl;
  completed = refl;
  index = omega arith;
  files = λ n s e. ground (arith, e);
  opened = λ n e. record {
    name = ground (arith, e);
    segment = [];
    file = ground (arith, e);
    size = refl;
  };
  within = omega arith;
  distinct = (refl, tt);
}

abbrev packets : List Call
packets = writes 1 2 (9 ∷ []) ∷ writes 1 3 (8 ∷ 7 ∷ []) ∷ writes 1 4 (6 ∷ []) ∷ closes ∷ []

ring_bytes-le_example :
    let q = run ring packets in
    (Dict.size q.files ≤ q.policy.segments)
    × ((n : Name) (s : Segment)
        → Dict.get q.files n ≡ some s
        → file_size s ≤ q.policy.segment_bytes)
    × (table_bytes q.files ≤ q.policy.segments * q.policy.segment_bytes)
    × (table_bytes q.files ≤ q.policy.per_table_cap)
ring_bytes-le_example = ring_bytes-le ring packets ring-IsSound

nothing_retired_example : ((run ring packets).generation ≡ 0) × ((run ring packets).completed ≡ [])
nothing_retired_example = nothing_retired ring packets ring-IsSound

abbrev found : ℕ → ℕ → ℕ → Found
found index bytes mtime = record {
  table_key = "t1";
  name = (0, index);
  bytes = bytes;
  mtime = mtime;
  locked = false;
}

abbrev three_found : List Found
three_found = found 0 60 30 ∷ found 1 70 10 ∷ found 2 20 20 ∷ []

oldest_deleted : enforce_global_quota policy three_found ≡ found 2 20 20 ∷ found 0 60 30 ∷ []
unfolding enforce_global_quota by_mtime evict total_bytes
oldest_deleted = refl
