-- ===== src/CoinWire/Plain.antt =====
-- What an encoded value is read back as, and which values Python can hold.
use poker_eye_v.Prelude.{◌≡◌, refl, Bool, true, false, arith, if◌then◌else◌, ap}
use poker_eye_v.Prelude.Int.{pos}
use poker_eye_v.CoinWire.Octets.{Bytes, low_byte, is_utf8}
use poker_eye_v.CoinWire.{
  Sfs, byte, short, int, utf, object, Members, end, member, Value, number, text, dict, Entries,
  stop, entry, bytes_eq, put,
}

-- The kind of a number is lost, and a byte keeps its low eight bits.
unfoldable mutual
  pub plain : Sfs → Value
  plain (byte n) = number (pos (low_byte n))
  plain (short n) = number n
  plain (int n) = number n
  plain (utf bs) = text bs
  plain (object ms) = dict (plain_members ms)

  pub plain_members : Members → Entries
  plain_members end = stop
  plain_members (member k v ms) = entry k (plain v) (plain_members ms)

abbrev pub has_key : Members → Bytes → Bool
has_key end k = false
has_key (member j v ms) k = if bytes_eq k j then true else has_key ms k

-- Texts are UTF-8, and the keys of a dict are distinct.
unfoldable mutual
  pub IsProper : Sfs → Type 0
  IsProper (byte n) = Unit
  IsProper (short n) = Unit
  IsProper (int n) = Unit
  IsProper (utf bs) = is_utf8 bs ≡ true
  IsProper (object ms) = IsDict ms

  pub IsDict : Members → Type 0
  IsDict end = Unit
  IsDict (member k v ms) = (is_utf8 k ≡ true) × (has_key ms k ≡ false) × IsProper v × IsDict ms

abbrev pub append : Entries → Entries → Entries
append stop es = es
append (entry k v out) es = entry k v (append out es)

abbrev pub has_entry : Entries → Bytes → Bool
has_entry stop k = false
has_entry (entry j v out) k = if bytes_eq j k then true else has_entry out k

-- No key of `ms` is in `out`.
abbrev pub Apart : Entries → Members → Type 0
Apart out end = Unit
Apart out (member k v ms) = (has_entry out k ≡ false) × Apart out ms

pub Apart-stop : (ms : Members) → Apart stop ms
Apart-stop end = tt
Apart-stop (member k v ms) = (refl, Apart-stop ms)

pub put-append :
    (out : Entries) (k : Bytes) (v : Value)
    → has_entry out k ≡ false
    → put out k v ≡ append out (entry k v stop)
unfolding put
put-append stop k v h = refl
put-append (entry j w out) k v h = ground (arith, put-append out k v)

has_entry-append :
    (out : Entries) (k j : Bytes) (v : Value)
    → has_entry out j ≡ false
    → bytes_eq k j ≡ false
    → has_entry (append out (entry k v stop)) j ≡ false
has_entry-append stop k j v h e = rw e refl
has_entry-append (entry i w out) k j v h e = ground (arith, has_entry-append out k j v)

pub Apart-append :
    (out : Entries) (k : Bytes) (v : Value) (ms : Members)
    → Apart out ms
    → has_key ms k ≡ false
    → Apart (append out (entry k v stop)) ms
Apart-append out k v end a h = tt
Apart-append out k v (member j w ms) (new, a) h =
    (has_entry-append out k j v new (ground arith), Apart-append out k v ms a (ground arith))

pub append_assoc : (out es fs : Entries) → append (append out es) fs ≡ append out (append es fs)
append_assoc stop es fs = refl
append_assoc (entry k v out) es fs = ap (entry k v) (append_assoc out es fs)
