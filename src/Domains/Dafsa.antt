-- ===== src/Domains/Dafsa.antt =====
-- ops/webauthn/psl/dafsa.rs: the reader of libpsl's binary public suffix list.
pub mod Bounds
use libwebauthn.Prelude.{
  ℕ, zero, suc, ◌+◌, ◌-◌, ◌*◌, ◌/◌, ◌^◌, bit_and, bit_or, bit_xor, Bool, true, false, not, ◌&&◌,
  ◌||◌, Option, none, some, List, [], ◌∷◌, ◌++◌, ◌==◌, ltb, leb, if◌then◌else◌, length, take, drop,
  get_elem?, bytes_eq, Result, ok, err, ◌>>=◌,
}
use libwebauthn.Domains.Text.{dot, split_once}
use libwebauthn.Domains.Suffix.{public_suffix}

abbrev pub flag_exception : ℕ
flag_exception = 1

abbrev pub flag_wildcard : ℕ
flag_wildcard = 2

-- The variables `pos` and `offset` of `lookup`.
pub record Cursor : Type 0 where
  pub pos : ℕ
  pub offset : ℕ

-- The number of bytes of an offset, and its value; `none` where the graph ends too soon.
offset_size_value : List ℕ → ℕ → ℕ → Option (ℕ × ℕ)
offset_size_value graph pos b =
    if bit_and b 0x60 == 0x60
    then elim (get_elem? graph (pos + 1)) [
      | none ↦ none
      | some hi ↦ elim (get_elem? graph (pos + 2)) [
        | none ↦ none
        | some lo ↦ some (3, bit_or (bit_or (bit_and b 0x1F * 2 ^ 16) (hi * 2 ^ 8)) lo)
      ]
    ]
    else if bit_and b 0x60 == 0x40
    then elim (get_elem? graph (pos + 1)) [
      | none ↦ none
      | some lo ↦ some (2, bit_or (bit_and b 0x1F * 2 ^ 8) lo)
    ]
    else some (1, bit_and b 0x3F)

advance : List ℕ → Cursor → ℕ → Option (ℕ × ℕ) → Option Cursor
advance graph c b none = none
advance graph c b (some (consumed, step)) =
    if ltb (c.offset + step) (2 ^ 64)
    then some (record {
      pos = if bit_and b 0x80 == 0 then c.pos + consumed else length graph;
      offset = c.offset + step;
    })
    else none

unfoldable pub get_next_offset : List ℕ → Cursor → Option Cursor
unfolding offset_size_value advance
get_next_offset graph c = elim (get_elem? graph c.pos) [
  | none ↦ none
  | some b ↦ advance graph c b (offset_size_value graph c.pos b)
]

abbrev pub has_top_bit : Option ℕ → Bool
has_top_bit none = false
has_top_bit (some b) = not (bit_and b 0x80 == 0)

abbrev pub is_eol : List ℕ → ℕ → Bool
is_eol graph offset = has_top_bit (get_elem? graph offset)

abbrev pub same_byte : Option ℕ → Option ℕ → Bool
same_byte (some g) (some k) = g == k
same_byte _ _ = false

abbrev pub is_match : List ℕ → ℕ → List ℕ → ℕ → Bool
is_match graph offset key key_pos = same_byte (get_elem? graph offset) (get_elem? key key_pos)

abbrev pub end_char : Option ℕ → Option ℕ
end_char none = none
end_char (some g) = some (bit_xor g 0x80)

abbrev pub is_end_char_match : List ℕ → ℕ → List ℕ → ℕ → Bool
is_end_char_match graph offset key key_pos =
    same_byte (end_char (get_elem? graph offset)) (get_elem? key key_pos)

abbrev pub flags_of : Option ℕ → Option ℕ
flags_of none = none
flags_of (some b) = if bit_and b 0xE0 == 0x80 then some (bit_and b 0x0F) else none

unfoldable pub get_return_value : List ℕ → ℕ → Option ℕ
get_return_value graph offset = flags_of (get_elem? graph offset)

-- The inner loop, over the bytes of the key that are left: the offset and the position where it
-- stops, or `none` at a byte that does not match.
unfoldable pub match_label : List ℕ → List ℕ → ℕ → ℕ → ℕ → Option (ℕ × ℕ)
match_label graph key zero offset key_pos = some (offset, key_pos)
match_label graph key (suc left) offset key_pos =
    if is_eol graph offset
    then some (offset, key_pos)
    else if is_match graph offset key key_pos
    then match_label graph key left (offset + 1) (key_pos + 1)
    else none

-- What a round of the outer loop does: it returns, or goes on at a position, an offset and a place in
-- the key.
pub data Round : Type 0 where
  finish : Option ℕ → Round
  go_on : Cursor → ℕ → Round

-- The rest of a round, after the bytes of the label.
after_label : List ℕ → List ℕ → Cursor → ℕ → Bool → Round
after_label graph key c key_pos did_consume =
    if key_pos == length key
    then elim (get_return_value graph c.offset) [
      | some rv ↦ finish (some rv)
      | none ↦ if did_consume then finish none else go_on c key_pos
    ]
    else if is_end_char_match graph c.offset key key_pos
    then go_on (record { pos = c.offset + 1; offset = c.offset + 1 }) (key_pos + 1)
    else if did_consume
    then finish none
    else go_on c key_pos

consumed_label : List ℕ → List ℕ → ℕ → Option (ℕ × ℕ) → Round
unfolding after_label
consumed_label graph key pos none = finish none
consumed_label graph key pos (some (offset, key_pos)) =
    after_label graph key (record { pos = pos; offset = offset }) key_pos true

-- A round, once `get_next_offset` has moved the cursor.
unfoldable pub lookup_round : List ℕ → List ℕ → Cursor → ℕ → Round
unfolding after_label consumed_label
lookup_round graph key c key_pos =
    if ltb key_pos (length key) && not (is_eol graph c.offset)
    then if is_match graph c.offset key key_pos
      then consumed_label graph key c.pos
          (match_label graph key (length key - (key_pos + 1)) (c.offset + 1) (key_pos + 1))
      else go_on c key_pos
    else after_label graph key c key_pos false

-- The outer loop: what it returns, or `none` where the fuel does not last.
unfoldable pub lookup_loop : List ℕ → List ℕ → ℕ → Cursor → ℕ → Option (Option ℕ)
lookup_loop graph key zero c key_pos = none
lookup_loop graph key (suc fuel) c key_pos = elim (get_next_offset graph c) [
  | none ↦ some none
  | some c' ↦ elim (lookup_round graph key c' key_pos) [
    | finish result ↦ some result
    | go_on c'' key_pos' ↦ lookup_loop graph key fuel c'' key_pos'
  ]
]

-- The rounds that a lookup can take: each goes forward in the graph, or in the key.
abbrev pub lookup_fuel : List ℕ → List ℕ → ℕ
lookup_fuel graph key = suc (length key) * suc (length graph)

abbrev pub start : Cursor
start = record { pos = 0; offset = 0 }

abbrev pub returned : Option (Option ℕ) → Option ℕ
returned none = none
returned (some result) = result

unfoldable pub lookup : List ℕ → List ℕ → Option ℕ
lookup graph key = returned (lookup_loop graph key (lookup_fuel graph key) start 0)

wildcard_of : Option ℕ → Bool
wildcard_of none = false
wildcard_of (some flags) = not (bit_and flags flag_wildcard == 0)

parent_is_wildcard : List ℕ → Option (List ℕ × List ℕ) → Bool
unfolding wildcard_of
parent_is_wildcard graph none = false
parent_is_wildcard graph (some (label, parent)) = wildcard_of (lookup graph parent)

-- An exact rule, or else a wildcard above.
unfoldable pub is_public_suffix : List ℕ → List ℕ → Bool
unfolding parent_is_wildcard
is_public_suffix graph domain = elim (lookup graph domain) [
  | some flags ↦ bit_and flags flag_exception == 0
  | none ↦ parent_is_wildcard graph (split_once dot domain)
]

-- `DafsaFilePublicSuffixList::public_suffix`.
unfoldable pub dafsa_public_suffix : List ℕ → List ℕ → Option (List ℕ)
dafsa_public_suffix graph host = public_suffix (is_public_suffix graph) host

pub data LoadError : Type 0 where
  truncated bad_magic bad_header : LoadError
  unsupported_version : ℕ → LoadError

-- ".DAFSA@PSL_".
abbrev pub magic : List ℕ
magic = 0x2e ∷ 0x44 ∷ 0x41 ∷ 0x46 ∷ 0x53 ∷ 0x41 ∷ 0x40 ∷ 0x50 ∷ 0x53 ∷ 0x4c ∷ 0x5f ∷ []

abbrev pub header_len : ℕ
header_len = 16

-- The decimal digits at the start (`take_while` of `is_ascii_digit`).
abbrev pub leading_digits : List ℕ → List ℕ
leading_digits [] = []
leading_digits (b ∷ bs) = if leb 48 b && leb b 57 then b ∷ leading_digits bs else []

-- The number that decimal digits write, four at most here, so that it fits a u32.
abbrev pub decimal : ℕ → List ℕ → ℕ
decimal n [] = n
decimal n (b ∷ bs) = decimal (n * 10 + (b - 48)) bs

parse_version : List ℕ → Result LoadError ℕ
parse_version [] = err bad_header
parse_version (digit ∷ digits) = ok (decimal 0 (digit ∷ digits))

unfoldable pub parse_header : List ℕ → Result LoadError (List ℕ)
unfolding parse_version
parse_header bytes =
    let header = take header_len bytes in
    if ltb (length bytes) header_len
    then err truncated
    else if not (bytes_eq (take (length magic) header) magic)
    then err bad_magic
    else if not (same_byte (get_elem? header 15) (some 10))
    then err bad_header
    else parse_version (leading_digits (take 4 (drop 11 header))) >>= λ version.
        if version == 0 then ok (drop header_len bytes) else err (unsupported_version version)
