-- ===== src/Streamer/Frame.antt =====
-- internal/cedana/streamer/fs.go: what is sent on the socket to the image streamer, a 32-bit length
-- in little-endian order and then the encoded message, and what glob makes of the four bytes of a length.
-- Encoding messages is left to protobuf.
use cedana.Base.{ℕ, ◌+◌, ◌*◌, ◌/◌, ◌%◌, ◌^◌, ◌<◌, ◌≡◌, List, [], ◌∷◌, ◌++◌, arith, length}

-- binary.LittleEndian.PutUint32, of a number that is cut to 32 bits.
unfoldable pub put_uint32 : ℕ → List ℕ
put_uint32 n = (n % 256) ∷ (n / 256 % 256) ∷ (n / 65536 % 256) ∷ (n / 16777216 % 256) ∷ []

-- What glob, openFd and stopListener send.
unfoldable pub frame : List ℕ → List ℕ
unfolding put_uint32
frame msg = put_uint32 (length msg) ++ msg

unfoldable pub uint32_of : ℕ → ℕ → ℕ → ℕ → ℕ
uint32_of a b c d = a + b * 256 + c * 65536 + d * 16777216

uint32-put :
    (n : ℕ)
    → n < 2 ^ 32
    → uint32_of (n % 256) (n / 256 % 256) (n / 65536 % 256) (n / 16777216 % 256) ≡ n
unfolding uint32_of
uint32-put n h = omega arith
