-- ===== src/Codec.antt =====
-- exchange/matcher/src/codec.cpp: the payloads of the two logs as bytes. An encoder takes the caller's
-- buffer and returns it; a decoder's output is `none` where the call leaves it alone. The types of the
-- model hold no side, reason or type outside the enumerations, so that the encoders' tests of these
-- are always passed.
pub mod Commands
pub mod Events
pub mod Canonical
pub mod CommandTrips
pub mod EventFields
pub mod EventTrips
pub mod CommandCanon
pub mod EventCanon
use ll_exp.Prelude.{
  ℕ, ◌+◌, leb, ◌==◌, if◌then◌else◌, Bool, true, false, not, ◌&&◌, ◌||◌, Option, none, some, List,
  [], ◌∷◌, length, get_or, set, replicate, ltb,
}
use ll_exp.Book.Types.{Side}

abbrev pub command_wal_payload_size : ℕ
command_wal_payload_size = 48

abbrev pub event_wal_payload_size : ℕ
event_wal_payload_size = 64

pub data PayloadCodecStatus : Type 0 where
  ok invalid_size invalid_type invalid_field non_canonical_bytes : PayloadCodecStatus

-- What the switch of a decoder finds.
pub data Parsed (A : Type 0) : Type 0 where
  parsed : A → Parsed A
  refused : PayloadCodecStatus → Parsed A

unfoldable pub bytes_equal : List ℕ → List ℕ → Bool
bytes_equal [] [] = true
bytes_equal (x ∷ xs) (y ∷ ys) = x == y && bytes_equal xs ys
bytes_equal _ _ = false

-- The numbers of the enumerators.
abbrev pub side_byte : Side → ℕ
side_byte Side.bid = 0
side_byte Side.ask = 1

abbrev pub side_of : ℕ → Side
side_of value = if value == 0 then Side.bid else Side.ask

abbrev pub valid_side : ℕ → Bool
valid_side value = leb value 1

-- The end of a decoder: what was parsed is encoded again and compared.
abbrev pub after_encoded :
    {A : Type 0} → List ℕ → A → PayloadCodecStatus × List ℕ → PayloadCodecStatus × Option A
after_encoded bytes a (PayloadCodecStatus.ok, canonical) =
    if not (bytes_equal bytes canonical)
    then (PayloadCodecStatus.non_canonical_bytes, none)
    else (PayloadCodecStatus.ok, some a)
after_encoded bytes a (status, canonical) = (status, none)

abbrev pub after_parsed :
    {A B : Type 0}
    → List ℕ
    → (A → B)
    → (B → PayloadCodecStatus × List ℕ)
    → Parsed A
    → PayloadCodecStatus × Option B
after_parsed bytes whole encode (Parsed.parsed a) = after_encoded bytes (whole a) (encode (whole a))
after_parsed bytes whole encode (Parsed.refused status) = (status, none)
