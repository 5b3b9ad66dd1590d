-- ===== src/Tests/CodeTests.antt =====
-- Instances of the round trips of bytes and texts.
use identt.Prelude.{◌≡◌, Bytes, [], ◌∷◌, false, arith}
use identt.Exception.{ok}
use identt.Bin2Ascii.Hex.{AllBytes}
use identt.Bin2Ascii.Base64.{b64_encode, b64_decode, b64_decode-b64_encode}

abbrev some_bytes : Bytes
some_bytes = 0 ∷ 127 ∷ 255 ∷ 10 ∷ []

are_bytes : AllBytes some_bytes
are_bytes = (omega arith, (omega arith, (omega arith, (omega arith, tt))))

b64_decode-b64_encode_example : b64_decode (b64_encode some_bytes false) ≡ ok some_bytes
b64_decode-b64_encode_example = b64_decode-b64_encode some_bytes are_bytes
