-- ===== src/Dynamo/Shard.antt =====
-- seaplane-dynamo/dynamodb/shard.go and constants.go: the shard bucket of a document.
use Prim.Native.Char.{code}
use rosa_hyperfleet_kube_app.Prelude.{
  ℕ, zero, suc, ◌+◌, ◌-◌, ◌*◌, ◌/◌, ◌%◌, ◌<◌, String, ◌≡◌, refl, ◌&&◌, Option, none, some, List, [],
  ◌∷◌, arith, ltb, leb, nat_beq, length, take, if◌then◌else◌, Bool-cases, inl, inr,
}
use rosa_hyperfleet_kube_app.Prelude.Int.{ℤ, pos, negsuc}
use rosa_hyperfleet_kube_app.Base.{concat}

abbrev pub gsi_shard_count : ℕ
gsi_shard_count = 4

-- The code points of a text. Where one of the first eight is no ASCII character the parse below
-- fails, and else they are the first eight bytes, so counting bytes makes no difference.
abbrev codes : String → List ℕ
codes String.[] = []
codes (String.◌∷◌ c s) = code c ∷ codes s

-- strings.ReplaceAll(documentID, "-", "")
strip_hyphens : List ℕ → List ℕ
strip_hyphens [] = []
strip_hyphens (c ∷ cs) = let rest = strip_hyphens cs in if nat_beq c b'-' then rest else c ∷ rest

hex_digit : ℕ → Option ℕ
hex_digit c =
    if leb b'0' c && leb c b'9'
    then some (c - b'0')
    else if leb b'a' c && leb c b'f'
    then some (c - b'a' + 10)
    else if leb b'A' c && leb c b'F'
    then some (c - b'A' + 10)
    else none

-- strconv.ParseUint(digits, 16, 64) of at most eight digits, which cannot overflow.
parse_hex : ℕ → List ℕ → Option ℕ
parse_hex v [] = some v
parse_hex v (c ∷ cs) = elim (hex_digit c) [ none ↦ none | some d ↦ parse_hex (v * 16 + d) cs ]

digit_text : ℕ → String
digit_text d =
    if nat_beq d 0
    then "0"
    else if nat_beq d 1
    then "1"
    else if nat_beq d 2
    then "2"
    else if nat_beq d 3
    then "3"
    else if nat_beq d 4
    then "4"
    else if nat_beq d 5
    then "5"
    else if nat_beq d 6
    then "6"
    else if nat_beq d 7
    then "7"
    else if nat_beq d 8
    then "8"
    else "9"

decimal_digits : ℕ → ℕ → String
decimal_digits zero v = ""
decimal_digits (suc f) v =
    let rest = decimal_digits f (v / 10) in
    if ltb v 10 then digit_text v else concat (rest ∷ digit_text (v % 10) ∷ [])

-- strconv.FormatUint(v, 10); a number has at most as many digits as its successor.
unfoldable pub format_uint : ℕ → String
unfolding decimal_digits digit_text concat
format_uint v = decimal_digits (suc v) v

-- `if shardCount <= 0 { shardCount = GSIShardCount }`
unfoldable pub shard_count_or_default : ℤ → ℕ
shard_count_or_default (pos zero) = gsi_shard_count
shard_count_or_default (pos (suc c)) = suc c
shard_count_or_default (negsuc c) = gsi_shard_count

shard_of : ℕ → List ℕ → String
shard_of count stripped =
    if ltb (length stripped) 8
    then "0"
    else elim (parse_hex 0 (take 8 stripped)) [ none ↦ "0" | some v ↦ format_uint (v % count) ]

unfoldable pub compute_shard : String → ℤ → String
unfolding strip_hyphens hex_digit parse_hex format_uint shard_count_or_default shard_of
compute_shard document_id shard_count =
    shard_of (shard_count_or_default shard_count) (strip_hyphens (codes document_id))

unfoldable pub compute_shard_default : String → String
unfolding compute_shard
compute_shard_default document_id = compute_shard document_id (pos gsi_shard_count)

compute_shard_sample : compute_shard_default "0000000e-aaaa-4000-8000-000000000000" ≡ "2"
unfolding compute_shard_default
compute_shard_sample = refl

compute_shard_short : compute_shard_default "0-0-0-e" ≡ "0"
unfolding compute_shard_default
compute_shard_short = refl

pub shard_count-pos : (c : ℤ) → 0 < shard_count_or_default c
unfolding shard_count_or_default
shard_count-pos (pos zero) = omega arith
shard_count-pos (pos (suc c)) = omega arith
shard_count-pos (negsuc c) = omega arith

zero_bucket : (count : ℕ) → 0 < count → (k : ℕ) × (k < count) × ("0" ≡ format_uint k)
unfolding format_uint
zero_bucket count h = (0, h, refl)

parsed_bucket :
    (count : ℕ) (o : Option ℕ)
    → 0 < count
    → (k : ℕ) × (k < count)
      × ((elim o [ none ↦ "0" | some v ↦ format_uint (v % count) ]) ≡ format_uint k)
parsed_bucket count none h = zero_bucket count h
parsed_bucket count (some v) h = (v % count, omega arith, refl)

shard_of-bucket :
    (count : ℕ) (cs : List ℕ)
    → 0 < count
    → (k : ℕ) × (k < count) × (shard_of count cs ≡ format_uint k)
unfolding shard_of
shard_of-bucket count cs h = elim (Bool-cases (ltb (length cs) 8)) [
  | inl short ↦ rw short (zero_bucket count h)
  | inr long ↦ rw long (parsed_bucket count (parse_hex 0 (take 8 cs)) h)
]

-- Whatever the document ID, its shard is the decimal text of a bucket below the shard count: one of
-- those that a poll over that count queries.
compute_shard-bucket :
    (id : String) (c : ℤ)
    → (k : ℕ) × (k < shard_count_or_default c) × (compute_shard id c ≡ format_uint k)
unfolding compute_shard
compute_shard-bucket id c =
    shard_of-bucket (shard_count_or_default c) (strip_hyphens (codes id)) (shard_count-pos c)
