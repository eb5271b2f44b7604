-- ===== src/Protocol/Reading.antt =====
-- `_read_exact` of core/protocol.py and core/eye_backend.py: a number of bytes out of a socket that
-- gives them in pieces.
use poker_eye_v.Prelude.{
  ℕ, zero, suc, ◌+◌, ◌-◌, ◌≤◌, ◌<◌, ◌≡◌, refl, sym, ap, ◌∙◌, Bool, true, false, Option, none, some,
  List, [], ◌∷◌, ◌++◌, length, take, drop, leb, if◌then◌else◌, arith, All, length-append,
  length-take, length-drop, Bool-cases, inl, inr,
}
use mathlib.Core.List.{append_assoc}
use poker_eye_v.CoinWire.Octets.{Bytes}

-- What a socket has for its reader: the pieces that `recv` gives if it may. An empty piece, and the
-- end of the list, is a peer that is gone.
abbrev pub Stream : Type 0
Stream = List Bytes

-- One round of the loop, with `need` bytes to come: `sock.recv(need)` gives the piece or its start.
abbrev is_gone : Bytes → Bool
is_gone [] = true
is_gone (b ∷ bs) = false

-- `none` is the `ConnectionError`; `data` is called `got`.
unfoldable pub read_exact : ℕ → Bytes → Stream → Option (Bytes × Stream)
read_exact size got [] = if leb size (length got) then some (got, []) else none
read_exact size got (chunk ∷ chunks) =
    let need = size - length got in
    let more = read_exact size (got ++ chunk) chunks in
    if leb size (length got)
    then some (got, chunk ∷ chunks)
    else if is_gone chunk
    then none
    else if leb (length chunk) need
    then more
    else some (got ++ take need chunk, drop need chunk ∷ chunks)

-- The bytes of a stream.
abbrev pub joined : Stream → Bytes
joined [] = []
joined (chunk ∷ chunks) = chunk ++ joined chunks

abbrev pub HasData : Bytes → Type 0
HasData chunk = 0 < length chunk

-- Reading `size` bytes gives `bytes` and leaves a stream of `rest`.
pub record Reads (size : ℕ) (got : Bytes) (stream : Stream) (bytes rest : Bytes) : Type 0 where
  pub left : Stream
  pub returned : read_exact size got stream ≡ some (bytes, left)
  pub same : joined left ≡ rest
  pub flowing : All HasData left

module _ {ℓ} {A : Type ℓ} where
  -- Two splits of one list at the same place are the same.
  pub append_split : (a b c d : List A) → a ++ b ≡ c ++ d → length a ≡ length c → (a ≡ c) × (b ≡ d)
  append_split [] b [] d e h = (refl, e)
  append_split [] b (y ∷ c) d e h = absurd (omega (arith, h))
  append_split (x ∷ a) b [] d e h = absurd (omega (arith, h))
  append_split (x ∷ a) b (y ∷ c) d e h =
      let (p, q) = append_split a b c d (cc e) (omega (arith, h)) in (cc (e, p), q)

  pub take-drop : (n : ℕ) (xs : List A) → take n xs ++ drop n xs ≡ xs
  take-drop zero xs = refl
  take-drop (suc n) [] = refl
  take-drop (suc n) (x ∷ xs) = ap (◌∷◌ x) (take-drop n xs)

flows : (chunk : Bytes) → HasData chunk → is_gone chunk ≡ false
flows [] h = absurd (omega (arith, h))
flows (b ∷ bs) h = refl

-- The piece holds more than is needed.
piece_cut :
    (size : ℕ) (got chunk bytes rest : Bytes) (chunks : Stream)
    → length got ≤ size
    → size - length got < length chunk
    → got ++ joined (chunk ∷ chunks) ≡ bytes ++ rest
    → length bytes ≡ size
    → let need = size - length got in
      (got ++ take need chunk ≡ bytes)
      × (joined (drop need chunk ∷ chunks) ≡ rest)
      × HasData (drop need chunk)
piece_cut size got chunk bytes rest chunks g n e h =
    let need = size - length got in
    let tk = take need chunk in
    let dr = drop need chunk in
    let regrouped : (got ++ tk) ++ (dr ++ joined chunks) ≡ got ++ joined (chunk ∷ chunks) =
      append_assoc got tk (dr ++ joined chunks)
      ∙ ap (λ (x : Bytes). got ++ x)
          (sym (append_assoc tk dr (joined chunks))
            ∙ ap (λ (x : Bytes). x ++ joined chunks) (take-drop need chunk)) in
    let (p, q) =
      append_split (got ++ tk) (dr ++ joined chunks) bytes rest (regrouped ∙ e)
        (omega (arith, length-append got tk, length-take need chunk)) in
    (p, q, omega (arith, length-drop need chunk))

pub read_exact-Reads :
    (size : ℕ) (got : Bytes) (stream : Stream) (bytes rest : Bytes)
    → All HasData stream
    → length got ≤ size
    → got ++ joined stream ≡ bytes ++ rest
    → length bytes ≡ size
    → Reads size got stream bytes rest
unfolding read_exact
read_exact-Reads size got [] bytes rest f g e h =
    let long = ap (λ (x : Bytes). length x) e in
    let full : length got ≡ size =
      omega (arith, long, length-append got [], length-append bytes rest) in
    let (p, q) = append_split got [] bytes rest e (omega (arith, full, h)) in
    record { left = []; returned = ground (arith, full, p); same = q; flowing = tt }
read_exact-Reads size got (chunk ∷ chunks) bytes rest f g e h =
    let need = size - length got in
    elim (Bool-cases (leb size (length got))) [
      | inl full ↦
          let (p, q) =
            append_split got (joined (chunk ∷ chunks)) bytes rest e (ground (arith, full, g, h)) in
          record {
            left = chunk ∷ chunks;
            returned = ground (arith, full, p);
            same = q;
            flowing = f;
          }
      | inr short ↦ elim (Bool-cases (leb (length chunk) need)) [
        | inl fits ↦
            let more =
              read_exact-Reads size (got ++ chunk) chunks bytes rest f.1
                (ground (arith, fits, short, length-append got chunk))
                (append_assoc got chunk (joined chunks) ∙ e) h in
            record {
              left = more.left;
              returned = ground (arith, fits, short, flows chunk f.0, more.returned);
              same = more.same;
              flowing = more.flowing;
            }
        | inr big ↦
            let (p, q, d) =
              piece_cut size got chunk bytes rest chunks g (ground (arith, big)) e h in
            record {
              left = drop need chunk ∷ chunks;
              returned = ground (arith, big, short, flows chunk f.0, p);
              same = q;
              flowing = (d, f.1);
            }
      ]
    ]

-- A stream with too few bytes is read in vain.
pub read_exact-short :
    (size : ℕ) (got : Bytes) (stream : Stream)
    → length got + length (joined stream) < size
    → read_exact size got stream ≡ none
unfolding read_exact
read_exact-short size got [] h = ground (arith, h)
read_exact-short size got (chunk ∷ chunks) h =
    let cut = length-append chunk (joined chunks) in
    let grown = length-append got chunk in
    ground (arith, h, cut, grown, read_exact-short size (got ++ chunk) chunks)
