-- ===== src/CoinWire.antt =====
-- core/coin_wire.py: the SFS2X codec. A Python str is its UTF-8 bytes, and a position of the decoder
-- is what of the buffer stands from there on.
pub mod Octets
pub mod Fuel
pub mod RoundTrip
pub mod Plain
pub mod Inverse
pub mod Packets
pub mod Sizes
pub mod Requests
mod Runs
use poker_eye_v.Prelude.{
  ℕ, zero, suc, ◌+◌, ◌/◌, ◌%◌, Bool, true, false, ◌&&◌, Option, none, some, List, [], ◌∷◌, ◌++◌,
  length, take, drop, ◌==◌, ◌>>=◌, if◌then◌else◌,
}
use poker_eye_v.Prelude.Int.{ℤ, pos}
use poker_eye_v.CoinWire.Octets.{Bytes, from_bytes, from_signed, u16, i16, i32, low_byte, is_utf8}

abbrev pub sfs_byte : ℕ
sfs_byte = 2

abbrev pub sfs_short : ℕ
sfs_short = 3

abbrev pub sfs_int : ℕ
sfs_int = 4

abbrev pub sfs_utf : ℕ
sfs_utf = 8

abbrev pub sfs_object : ℕ
sfs_object = 18

-- What is encoded: `_Byte`, `_Short`, `_Int`, `_Str` and `_Obj`.
mutual
  pub data Sfs : Type 0 where
    byte : ℤ → Sfs
    short : ℤ → Sfs
    int : ℤ → Sfs
    utf : Bytes → Sfs
    object : Members → Sfs

  -- A dict in its order.
  pub data Members : Type 0 where
    end : Members
    member : Bytes → Sfs → Members → Members

-- What is decoded: an int, a str or a dict.
mutual
  pub data Value : Type 0 where
    number : ℤ → Value
    text : Bytes → Value
    dict : Entries → Value

  pub data Entries : Type 0 where
    stop : Entries
    entry : Bytes → Value → Entries → Entries

unfoldable pub bytes_eq : Bytes → Bytes → Bool
bytes_eq [] [] = true
bytes_eq [] (b ∷ bs) = false
bytes_eq (a ∷ cs) [] = false
bytes_eq (a ∷ cs) (b ∷ bs) = let rest = bytes_eq cs bs in if a == b then rest else false

-- out[k] = v
unfoldable pub put : Entries → Bytes → Value → Entries
put stop k v = entry k v stop
put (entry j w out) k v =
    let rest = put out k v in if bytes_eq j k then entry j v out else entry j w rest

abbrev pub count : Members → ℕ
count end = 0
count (member k v ms) = suc (count ms)

-- a + b of two results, either of which may have raised
abbrev pub join : Option Bytes → Option Bytes → Option Bytes
join (some a) (some b) = some (a ++ b)
join (some a) none = none
join none b = none

-- _u16(len(b)) + b
abbrev pub sized : Bytes → Option Bytes
sized bs = join (u16 (length bs)) (some bs)

unfoldable mutual
  -- `_enc_value`; `none` is the `OverflowError` of a number that does not fit.
  pub enc_value : Sfs → Option Bytes
  enc_value (byte n) = some (sfs_byte ∷ low_byte n ∷ [])
  enc_value (short n) = join (some (sfs_short ∷ [])) (i16 n)
  enc_value (int n) = join (some (sfs_int ∷ [])) (i32 n)
  enc_value (utf bs) = join (some (sfs_utf ∷ [])) (sized bs)
  enc_value (object ms) = join (join (some (sfs_object ∷ [])) (u16 (count ms))) (enc_members ms)

  pub enc_members : Members → Option Bytes
  enc_members end = some []
  enc_members (member k v ms) = join (join (sized k) (enc_value v)) (enc_members ms)

-- buf[pos:pos + ln].decode("utf-8"), with the rest behind it
unfoldable pub dec_text : ℕ → Bytes → Option (Bytes × Bytes)
dec_text ln bs = if is_utf8 (take ln bs) then some (take ln bs, drop ln bs) else none

-- A length of two bytes, and that many bytes of text.
unfoldable pub dec_sized : Bytes → Option (Bytes × Bytes)
unfolding dec_text
dec_sized bs = dec_text (from_bytes (take 2 bs)) (drop 2 bs)

-- The loop of `_dec_value` over the members of an object.
unfoldable pub dec_members :
    (Bytes → Option (Value × Bytes)) → ℕ → Entries → Bytes → Option (Entries × Bytes)
dec_members dec zero out bs = some (out, bs)
dec_members dec (suc n) out bs = do
  (k, rest) ← dec_sized bs
  (v, rest') ← dec rest
  dec_members dec n (put out k v) rest'

-- buf[pos], pos + 1
unfoldable pub dec_byte : Bytes → Option (Value × Bytes)
dec_byte [] = none
dec_byte (b ∷ rest) = some (number (pos b), rest)

-- `_dec_value` after the type byte; `dec` is the call for a member.
unfoldable pub dec_body : (Bytes → Option (Value × Bytes)) → ℕ → Bytes → Option (Value × Bytes)
unfolding dec_members dec_byte
dec_body dec typ bs =
    if typ == sfs_byte
    then dec_byte bs
    else if typ == sfs_short
    then some (number (from_signed (take 2 bs)), drop 2 bs)
    else if typ == sfs_int
    then some (number (from_signed (take 4 bs)), drop 4 bs)
    else if typ == sfs_utf
    then (do (s, rest) ← dec_sized bs; some (text s, rest))
    else if typ == sfs_object
    then (do
      (out, rest) ← dec_members dec (from_bytes (take 2 bs)) stop (drop 2 bs)
      some (dict out, rest))
    else none

-- `_dec_value`, on fuel for the nesting; `none` is any exception.
unfoldable pub dec_value : ℕ → Bytes → Option (Value × Bytes)
unfolding dec_body
dec_value zero bs = none
dec_value (suc fuel) [] = none
dec_value (suc fuel) (typ ∷ bs) = dec_body (dec_value fuel) typ bs
