-- ===== src/Policy/Words.antt =====
-- The words of a CC and the keys of Coin's options, read as the code reads them. Case and white space
-- are those of ASCII.
use Prim.Native.Char.{code}
use poker_eye_v.Prelude.{
  ℕ, ◌+◌, ◌*◌, ◌-◌, String, Bool, true, false, ◌&&◌, ◌||◌, Option, none, some, List, [], ◌∷◌, leb,
  ◌==◌, if◌then◌else◌,
}
use poker_eye_v.Json.{Json, Fields, str, end, field, get, truthy}

codes : String → List ℕ
codes String.[] = []
codes (String.◌∷◌ c s) = code c ∷ codes s

abbrev is_space : ℕ → Bool
is_space n = (leb 9 n && leb n 13) || (leb 28 n && leb n 32)

abbrev upper_code : ℕ → ℕ
upper_code n = if leb 97 n && leb n 122 then n - 32 else n

skip_spaces : List ℕ → List ℕ
skip_spaces [] = []
skip_spaces (n ∷ ns) = let rest = skip_spaces ns in if is_space n then rest else n ∷ ns

reverse_onto : List ℕ → List ℕ → List ℕ
reverse_onto [] out = out
reverse_onto (n ∷ ns) out = reverse_onto ns (n ∷ out)

upper : List ℕ → List ℕ
upper [] = []
upper (n ∷ ns) = upper_code n ∷ upper ns

-- s.strip().upper()
strip_upper : List ℕ → List ℕ
unfolding skip_spaces reverse_onto upper
strip_upper ns = upper (reverse_onto (skip_spaces (reverse_onto (skip_spaces ns) [])) [])

-- str(x).strip().upper(), of which only texts can be a known word.
word : Json → List ℕ
unfolding codes strip_upper
word (str s) = strip_upper (codes s)
word _ = []

-- `x or rest`
abbrev or_next : Option Json → List ℕ → List ℕ
or_next none rest = rest
or_next (some x) rest = if truthy x then word x else rest

-- str(cc.get("type") or cc.get("action") or cc.get("message") or "").strip().upper()
unfoldable pub cc_word : Fields → List ℕ
unfolding word
cc_word cc = or_next (get cc "type") (or_next (get cc "action") (or_next (get cc "message") []))

unfoldable pub same_word : List ℕ → List ℕ → Bool
same_word [] [] = true
same_word [] (n ∷ ns) = false
same_word (m ∷ ms) [] = false
same_word (m ∷ ms) (n ∷ ns) = let rest = same_word ms ns in if m == n then rest else false

-- The words that the code tells apart.
pub data CcType : Type 0 where
  fold check call raise bet all_in other : CcType

abbrev is : List ℕ → String → Bool
is w s = same_word w (codes s)

unfoldable pub classify : List ℕ → CcType
unfolding codes
classify w =
    if is w "FOLD" || is w "FAST_FOLD"
    then fold
    else if is w "CHECK"
    then check
    else if is w "CALL"
    then call
    else if is w "RAISE"
    then raise
    else if is w "BET"
    then bet
    else if is w "ALLIN" || is w "ALL-IN" || is w "ALL_IN"
    then all_in
    else other

unfoldable pub cc_type : Fields → CcType
unfolding cc_word classify
cc_type cc = classify (cc_word cc)

-- The number of decimal digits, read after `n`; an underscore may stand between two digits, and `after`
-- is whether the last character was a digit.
digits_at : Bool → ℕ → List ℕ → Option ℕ
digits_at true n [] = some n
digits_at false n [] = none
digits_at after n (d ∷ ds) =
    let rest = digits_at true (n * 10 + (d - 48)) ds in
    let gap = digits_at false n ds in
    if leb 48 d && leb d 57 then rest else if after && d == 95 then gap else none

-- A number below 0 is no code.
abbrev minus : Option ℕ → Option ℕ
minus none = none
minus (some n) = if n == 0 then some 0 else none

abbrev signed : List ℕ → Option ℕ
signed [] = none
signed (d ∷ ds) =
    if d == 43
    then digits_at false 0 ds
    else if d == 45
    then minus (digits_at false 0 ds)
    else digits_at false 0 (d ∷ ds)

-- int(key), of a key in ASCII, if it is not negative
key_number : String → Option ℕ
unfolding codes digits_at skip_spaces reverse_onto
key_number s = signed (reverse_onto (skip_spaces (reverse_onto (skip_spaces (codes s)) [])) [])

abbrev is_number : Option ℕ → ℕ → Bool
is_number none n = false
is_number (some m) n = m == n

unfoldable pub has_key_code : Fields → ℕ → Bool
unfolding key_number
has_key_code end n = false
has_key_code (field k v d) n = if is_number (key_number k) n then true else has_key_code d n

-- n in _legal_option_codes(options)
abbrev pub has_code : Option Fields → ℕ → Bool
has_code none n = false
has_code (some d) n = has_key_code d n
