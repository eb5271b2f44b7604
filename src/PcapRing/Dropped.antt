-- ===== src/PcapRing/Dropped.antt =====
-- Which packets are dropped.
use poker_eye_v.Prelude.{
  ◌+◌, ◌≡◌, ◌∙◌, refl, true, false, some, arith, length, leb, if◌then◌else◌, Bool-cases, inl, inr,
  nat_key, pair_key,
}
use poker_eye_v.CoinWire.Octets.{Bytes}
use poker_eye_v.PcapRing.{
  PcapRing, Name, header_size, next_segment, overflows, segment_for, write_record,
}
use poker_eye_v.PcapRing.Bounds.{
  IsSound, next_segment_lem, next-IsSound, append_record_lem, turned, written_to,
}

next-keeps :
    (r : PcapRing)
    → r.generation ≡ 0
    → let q = next_segment r in
      (q.dropped ≡ r.dropped)
      × (q.policy ≡ r.policy)
      × (q.current_size ≡ header_size)
      × (q.current ≡ some (0, q.segment_index))
next-keeps r g = let e = next_segment_lem r g in rw e (refl, refl, refl, refl)

turned-dropped : (r : PcapRing) → r.generation ≡ 0 → (turned r).dropped ≡ r.dropped
turned-dropped r g = elim (Bool-cases (leb r.policy.segment_bytes r.current_size)) [
  | inl e ↦ rw e (next-keeps r g).0
  | inr e ↦ rw e refl
]

-- The segment that the record goes to has room for it.
room :
    (r q : PcapRing) (n : Name) (bytes : Bytes)
    → segment_for r bytes ≡ q
    → overflows q bytes ≡ false
    → q.current ≡ some n
    → IsSound q
    → (r' : PcapRing) × (write_record r bytes ≡ some (r', true)) × (r'.dropped ≡ q.dropped)
unfolding write_record
room r q n bytes s f c v =
    let o = v.opened n c in
    let w = written_to q n o.segment bytes in
    (turned w, ground (arith, s, f, append_record_lem q n o bytes c), turned-dropped w v.generation)

-- An open ring drops a packet exactly where its record does not fit into an empty segment; a drop is
-- counted, and any other packet is written, into the open segment or into the next.
pub write_record_lem :
    (r : PcapRing) (n : Name) (bytes : Bytes)
    → IsSound r
    → r.current ≡ some n
    → let fits = leb (header_size + length bytes) r.policy.segment_bytes in
      (r' : PcapRing) × (write_record r bytes ≡ some (r', fits))
      × (r'.dropped ≡ (if fits then r.dropped else r.dropped + 1))
write_record_lem r n bytes v c = elim (Bool-cases (overflows r bytes)) [
  | inr f ↦
      let o = v.opened n c in
      let fit : leb (header_size + length bytes) r.policy.segment_bytes ≡ true =
        ground (arith, f, o.size) in
      let (r', e, d) = room r r n bytes (rw f refl) f c v in (r', rw fit e, rw fit d)
  | inl f ↦
      let q = next_segment r in
      let (d, p, z, now_open) = next-keeps r v.generation in
      let s : segment_for r bytes ≡ q = rw f refl in
      elim (Bool-cases (leb (header_size + length bytes) r.policy.segment_bytes)) [
        | inl fit ↦
            let (r', e, d') =
              room r q (0, q.segment_index) bytes s (ground (arith, fit, p, z)) now_open
                (next-IsSound r v) in
            (r', rw fit e, rw fit (d' ∙ d))
        | inr big ↦ (
          record q { dropped = q.dropped + 1 },
          rw big (unfold write_record in ground (arith, s, big, p, z)),
          rw big (rw d refl),
        )
      ]
]
