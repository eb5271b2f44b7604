-- ===== src/PcapRing/Total.antt =====
-- The bytes of a table's files.
use poker_eye_v.Prelude.{
  ℕ, zero, suc, ◌*◌, ◌≤◌, ◌<◌, ◌≡◌, refl, true, some, List, [], ◌∷◌, arith, nat_key, pair_key,
  Option-cases, inl, inr,
}
use native.Mathlib.Nat.{mul-le-mul_right}
use poker_eye_v.Dict
use poker_eye_v.Dict.{
  Dict, get-remove, Distinct, Distinct-remove, size-remove, AllEntries, AllEntries-get,
}
use poker_eye_v.PcapRing.{PcapRing, PcapRingPolicy, Name, Segment, is_valid, file_size, table_bytes}
use poker_eye_v.PcapRing.Bounds.{IsSound, Call, run, run-IsSound}

abbrev InRange : ℕ → Dict Name Segment → Type 0
InRange n d = (k : Name) (s : Segment) → Dict.get d k ≡ some s → (k.0 ≡ 0) × (k.1 < n)

none_of_range : (d : Dict Name Segment) → InRange 0 d → Dict.size d ≡ 0
unfolding Dict.get Dict.size
none_of_range [] h = refl
none_of_range ((k, s) ∷ d) h = absurd (ground (arith, h k s))

-- Files of one generation with indices below `n` are `n` at most.
size-le : (n : ℕ) (d : Dict Name Segment) → Distinct d → InRange n d → Dict.size d ≤ n
size-le zero d u h = omega (arith, none_of_range d h)
size-le (suc n) d u h = elim (Option-cases (Dict.get d (0, n))) [
  | inl e ↦ omega (arith, size-le n d u (λ k s f. ground (arith, h k s f, e, f)))
  | inr (t, e) ↦
      let rest =
        size-le n (Dict.remove d (0, n)) (Distinct-remove d (0, n) u)
          (λ k s f. ground (arith, get-remove d (0, n) k, h k s, f)) in
      omega (arith, rest, size-remove d (0, n) t u e)
]

table_bytes-le :
    (b : ℕ) (d : Dict Name Segment)
    → AllEntries (λ k s. file_size s ≤ b) d
    → table_bytes d ≤ Dict.size d * b
unfolding table_bytes Dict.size
table_bytes-le b [] h = omega arith
table_bytes-le b ((k, s) ∷ d) h = omega (arith, h.0, table_bytes-le b d h.1)

valid_cap :
    (p : PcapRingPolicy) → is_valid p ≡ true → p.segment_bytes * p.segments ≤ p.per_table_cap
unfolding is_valid
valid_cap p e = ground (arith, e)

-- From a ring that is sound (a valid policy with room for a file's header in a segment, files that are
-- segments of the first generation and no larger than one, and an open file of the size that the ring
-- has noted), after any packets and closes: at most as many files as segments are on disk, each of at
-- most the segment size, and together they are at most the cap of a table.
pub ring_bytes-le :
    (r : PcapRing) (cs : List Call)
    → IsSound r
    → let q = run r cs in
      (Dict.size q.files ≤ q.policy.segments)
      × ((n : Name) (s : Segment)
          → Dict.get q.files n ≡ some s
          → file_size s ≤ q.policy.segment_bytes)
      × (table_bytes q.files ≤ q.policy.segments * q.policy.segment_bytes)
      × (table_bytes q.files ≤ q.policy.per_table_cap)
ring_bytes-le r cs v0 =
    let q = run r cs in
    let v = run-IsSound r cs v0 in
    let few =
      size-le q.policy.segments q.files v.distinct (λ k s e. ground (arith, v.files k s e)) in
    let each =
      AllEntries-get (λ k s. file_size s ≤ q.policy.segment_bytes) q.files v.distinct
        (λ k s e. ground (arith, v.files k s e)) in
    let all = table_bytes-le q.policy.segment_bytes q.files each in
    let most = mul-le-mul_right q.policy.segment_bytes few in
    (
      few,
      λ n s e. (v.files n s e).2,
      omega (arith, all, most),
      omega (arith, all, most, valid_cap q.policy v.valid),
    )

-- Whatever is written, no generation of segments is ever retired: the ring stays in its first
-- generation and has no completed capture set.
pub nothing_retired :
    (r : PcapRing) (cs : List Call)
    → IsSound r
    → ((run r cs).generation ≡ 0) × ((run r cs).completed ≡ [])
nothing_retired r cs v = let w = run-IsSound r cs v in (w.generation, w.completed)
