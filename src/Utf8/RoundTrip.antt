-- ===== src/Utf8/RoundTrip.antt =====
-- Decoding reverses encoding.
use mathlib.Core.Option
use fabric_chaincode_rs.Prelude.{
  IsScalar, IsText, ℕ, zero, suc, ◌+◌, ◌/◌, ◌%◌, [], ◌∷◌, ◌++◌, ◌≡◌, refl, ap, ◌≤◌, ◌<◌, Bytes,
  Text, true, some, arith, length, length-append,
}
use fabric_chaincode_rs.Utf8.{
  encode_char, into_bytes, char, scan, second3, second4, decode, decode_lossy, from_utf8,
  from_utf8_lossy,
}

scan_one : (c : ℕ) (r : Bytes) → c < 128 → scan c r ≡ char c r
unfolding scan
scan_one c r h = ground arith

scan_two :
    (c : ℕ) (r : Bytes) → 128 ≤ c → c < 2048 → scan (192 + c / 64) ((128 + c % 64) ∷ r) ≡ char c r
unfolding scan
scan_two c r h k = ground arith

second3_ok :
    (c : ℕ)
    → 2048 ≤ c
    → c < 65536
    → IsScalar c
    → second3 (224 + c / 4096) (128 + c / 64 % 64) ≡ true
unfolding second3
second3_ok c h k s = ground arith

second4_ok :
    (c : ℕ) → 65536 ≤ c → c < 1114112 → second4 (240 + c / 262144) (128 + c / 4096 % 64) ≡ true
unfolding second4
second4_ok c h k = ground arith

scan_three :
    (c : ℕ) (r : Bytes)
    → 2048 ≤ c
    → c < 65536
    → IsScalar c
    → scan (224 + c / 4096) ((128 + c / 64 % 64) ∷ (128 + c % 64) ∷ r) ≡ char c r
unfolding scan
scan_three c r h k s = ground (arith, second3_ok c h k s)

scan_four :
    (c : ℕ) (r : Bytes)
    → 65536 ≤ c
    → c < 1114112
    → scan (240 + c / 262144) ((128 + c / 4096 % 64) ∷ (128 + c / 64 % 64) ∷ (128 + c % 64) ∷ r)
      ≡ char c r
unfolding scan
scan_four c r h k = ground (arith, second4_ok c h k)

module _ (fuel : ℕ) (c : ℕ) (r : Bytes) (s : IsScalar c) where
  decode-char :
      decode (suc fuel) (encode_char c ++ r) ≡ Option.map (λ (t : Text). c ∷ t) (decode fuel r)
  unfolding decode encode_char
  decode-char = ground (arith, scan_one c r, scan_two c r, scan_three c r, scan_four c r)

  decode_lossy-char : decode_lossy (suc fuel) (encode_char c ++ r) ≡ c ∷ decode_lossy fuel r
  unfolding decode_lossy encode_char
  decode_lossy-char = ground (arith, scan_one c r, scan_two c r, scan_three c r, scan_four c r)

length-encode_char : (c : ℕ) → 1 ≤ length (encode_char c)
unfolding encode_char
length-encode_char c = ground arith

decode-into_bytes :
    (fuel : ℕ) (t : Text)
    → IsText t
    → length (into_bytes t) ≤ fuel
    → decode fuel (into_bytes t) ≡ some t
unfolding into_bytes decode decode_lossy
decode-into_bytes zero [] h k = refl
decode-into_bytes (suc fuel) [] h k = refl
decode-into_bytes zero (c ∷ t) h k =
    absurd (omega (arith, length-encode_char c, length-append (encode_char c) (into_bytes t)))
decode-into_bytes (suc fuel) (c ∷ t) h k = rw (decode-char fuel c (into_bytes t) h.0) (
    ap (Option.map (λ (u : Text). c ∷ u)) (
      decode-into_bytes fuel t h.1
        (omega (arith, length-encode_char c, length-append (encode_char c) (into_bytes t)))))

decode_lossy-into_bytes :
    (fuel : ℕ) (t : Text)
    → IsText t
    → length (into_bytes t) ≤ fuel
    → decode_lossy fuel (into_bytes t) ≡ t
unfolding into_bytes decode decode_lossy
decode_lossy-into_bytes zero [] h k = refl
decode_lossy-into_bytes (suc fuel) [] h k = refl
decode_lossy-into_bytes zero (c ∷ t) h k =
    absurd (omega (arith, length-encode_char c, length-append (encode_char c) (into_bytes t)))
decode_lossy-into_bytes (suc fuel) (c ∷ t) h k = rw (decode_lossy-char fuel c (into_bytes t) h.0) (
    ap (λ (u : Text). c ∷ u)
      (decode_lossy-into_bytes fuel t h.1
        (omega (arith, length-encode_char c, length-append (encode_char c) (into_bytes t)))))

pub from_utf8-into_bytes : (t : Text) → IsText t → from_utf8 (into_bytes t) ≡ some t
unfolding from_utf8
from_utf8-into_bytes t h = decode-into_bytes (length (into_bytes t)) t h (omega arith)

pub from_utf8_lossy-into_bytes : (t : Text) → IsText t → from_utf8_lossy (into_bytes t) ≡ t
unfolding from_utf8_lossy
from_utf8_lossy-into_bytes t h = decode_lossy-into_bytes (length (into_bytes t)) t h (omega arith)
