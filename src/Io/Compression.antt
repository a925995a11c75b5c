-- ===== src/Io/Compression.antt =====
-- pkg/io/compression.go: the formats, the codec that each writer and reader uses, and the file
-- extensions. Formats are texts and paths are lists of bytes. The codecs themselves (lz4, gzip and
-- zlib) are libraries; what matters here is which one is chosen.
use mathlib.Core.List.{reverse}
use Prim.Native.Char.{code}
use cedana.Base.{
  ℕ, String, ◌==◌, str_eq, Bool, true, false, ◌&&◌, ◌||◌, Option, none, some, List, [], ◌∷◌,
  if◌then◌else◌,
}

-- The bytes of an ASCII text.
abbrev pub codes : String → List ℕ
codes String.[] = []
codes (String.◌∷◌ c s) = code c ∷ codes s

-- SUPPORTED_COMPRESSIONS.
unfoldable pub supported : String → Bool
supported c =
    str_eq c ""
    || str_eq c "none"
    || str_eq c "tar"
    || str_eq c "gzip"
    || str_eq c "gz"
    || str_eq c "lz4"
    || str_eq c "zlib"

pub data Codec : Type 0 where
  lz4 gzip zlib plain : Codec

-- NewCompressionWriter; `none` is the error for an unsupported format.
unfoldable pub writer_codec : String → Option Codec
writer_codec c =
    if str_eq c "lz4"
    then some lz4
    else if str_eq c "gzip" || str_eq c "gz"
    then some gzip
    else if str_eq c "zlib"
    then some zlib
    else if str_eq c "tar" || str_eq c "none" || str_eq c ""
    then some plain
    else none

-- NewCompressionReader.
unfoldable pub reader_codec : String → Option Codec
reader_codec c =
    if str_eq c "lz4"
    then some lz4
    else if str_eq c "gzip" || str_eq c "gz"
    then some gzip
    else if str_eq c "zlib"
    then some zlib
    else if str_eq c "tar" || str_eq c "none" || str_eq c ""
    then some plain
    else none

-- NewOptimizedCompressionWriter: on a FUSE file system it chooses the codec itself.
unfoldable pub optimized_codec : String → Bool → Option Codec
unfolding writer_codec
optimized_codec c false = writer_codec c
optimized_codec c true =
    if str_eq c "lz4"
    then some lz4
    else if str_eq c "gzip" || str_eq c "gz"
    then some gzip
    else some plain

abbrev pub slash : ℕ
slash = 0x2f

abbrev pub dot : ℕ
dot = 0x2e

-- filepath.Ext: from the last dot on, if it is in the last element of the path.
unfoldable pub ext_back : List ℕ → List ℕ → List ℕ
ext_back acc [] = []
ext_back acc (c ∷ r) =
    let more = ext_back (c ∷ acc) r in if c == slash then [] else if c == dot then c ∷ acc else more

unfoldable pub ext : List ℕ → List ℕ
unfolding ext_back
ext path = ext_back [] (reverse path)

abbrev pub same : List ℕ → List ℕ → Bool
same [] [] = true
same (a ∷ as') (b ∷ bs) = a == b && same as' bs
same _ _ = false

-- CompressionFromExt.
unfoldable pub compression_from_ext : List ℕ → Option String
compression_from_ext path =
    let e = ext path in
    if same e (codes ".lz4")
    then some "lz4"
    else if same e (codes ".gz") || same e (codes ".gzip")
    then some "gzip"
    else if same e (codes ".zlib")
    then some "zlib"
    else if same e (codes ".tar")
    then some "tar"
    else if same e []
    then some "none"
    else none

-- ExtForCompression.
unfoldable pub ext_for_compression : String → Option (List ℕ)
ext_for_compression c =
    if str_eq c "lz4"
    then some (codes ".lz4")
    else if str_eq c "gzip"
    then some (codes ".gz")
    else if str_eq c "zlib"
    then some (codes ".zlib")
    else if str_eq c "tar" || str_eq c "none" || str_eq c ""
    then some []
    else none
