-- ===== src/Io/RoundTrip.antt =====
-- What a restore makes of the file that a dump has written: pkg/io/compression.go with the paths of
-- internal/cedana/filesystem/dump_adapters.go and internal/cedana/streamer/fs.go.
use mathlib.Core.List.{reverse, reverse-append}
use cedana.Base.{
  ℕ, String, ◌≡◌, ◌≢◌, refl, sym, subst, ◌∙◌, ◌↔◌, ◌⊎◌, inl, inr, str_eq, eq_iff, Bool, true, false,
  none, some, List, [], ◌++◌, arith, Bool-cases,
}
use cedana.Io.Compression.{
  codes, supported, writer_codec, reader_codec, optimized_codec, ext, ext_back,
  compression_from_ext, ext_for_compression,
}

-- The path of the tarball: `req.Dir + "/" + req.Name + ".tar" + ext`.
abbrev pub tarball : List ℕ → List ℕ → List ℕ → List ℕ
tarball dir name e = (dir ++ codes "/" ++ name) ++ (codes ".tar" ++ e)

-- The extension of a path that ends in one of the suffixes is found from the end.
ext-suffix : (p q : List ℕ) → ext (p ++ q) ≡ ext_back [] (reverse q ++ reverse p)
unfolding ext
ext-suffix p q = rw (reverse-append p q)

-- The format read off the tarball's path, for the four suffixes that a dump writes.
from_tarball :
    (p : List ℕ)
    → (compression_from_ext (p ++ codes ".tar.lz4") ≡ some "lz4")
      × (compression_from_ext (p ++ codes ".tar.gz") ≡ some "gzip")
      × (compression_from_ext (p ++ codes ".tar.zlib") ≡ some "zlib")
      × (compression_from_ext (p ++ codes ".tar") ≡ some "tar")
unfolding compression_from_ext ext_back
from_tarball p = (
  rw (ext-suffix p (codes ".tar.lz4")),
  rw (ext-suffix p (codes ".tar.gz")),
  rw (ext-suffix p (codes ".tar.zlib")),
  rw (ext-suffix p (codes ".tar")),
)

-- A supported format is one of the seven.
supported_cases :
    (P : String → Type 0)
    → P ""
    → P "none"
    → P "tar"
    → P "gzip"
    → P "gz"
    → P "lz4"
    → P "zlib"
    → (c : String) → supported c ≡ true
    → P c
unfolding supported
supported_cases P p0 p1 p2 p3 p4 p5 p6 c h = elim (Bool-cases (str_eq c "")) [
  | inl e ↦ subst P (sym ((eq_iff c "").0 e)) p0
  | inr n0 ↦ elim (Bool-cases (str_eq c "none")) [
    | inl e ↦ subst P (sym ((eq_iff c "none").0 e)) p1
    | inr n1 ↦ elim (Bool-cases (str_eq c "tar")) [
      | inl e ↦ subst P (sym ((eq_iff c "tar").0 e)) p2
      | inr n2 ↦ elim (Bool-cases (str_eq c "gzip")) [
        | inl e ↦ subst P (sym ((eq_iff c "gzip").0 e)) p3
        | inr n3 ↦ elim (Bool-cases (str_eq c "gz")) [
          | inl e ↦ subst P (sym ((eq_iff c "gz").0 e)) p4
          | inr n4 ↦ elim (Bool-cases (str_eq c "lz4")) [
            | inl e ↦ subst P (sym ((eq_iff c "lz4").0 e)) p5
            | inr n5 ↦ elim (Bool-cases (str_eq c "zlib")) [
              | inl e ↦ subst P (sym ((eq_iff c "zlib").0 e)) p6
              | inr n6 ↦ absurd (ground arith)
            ]
          ]
        ]
      ]
    ]
  ]
]

has_extension-supported :
    (c : String) {e : List ℕ} → ext_for_compression c ≡ some e → supported c ≡ true
unfolding supported ext_for_compression
has_extension-supported c h = ground arith

abbrev ReadsBack : List ℕ → List ℕ → String → Type 0
ReadsBack dir name c =
    (e : List ℕ)
    → ext_for_compression c ≡ some e
    → (f : String) × (compression_from_ext (tarball dir name e) ≡ some f)
      × (reader_codec f ≡ writer_codec c)

reads_back :
    (dir name : List ℕ) (c f : String) (e0 : List ℕ)
    → compression_from_ext (tarball dir name e0) ≡ some f
    → reader_codec f ≡ writer_codec c
    → ext_for_compression c ≡ some e0
    → ReadsBack dir name c
reads_back dir name c f e0 r w x e h =
    (f, subst (λ y. compression_from_ext (tarball dir name y) ≡ some f) (ground arith) r, w)

-- The format read off the name of a tarball has the reader of the codec that the format of the dump
-- names.
name_reads_back :
    (dir name : List ℕ) (c : String) (e : List ℕ)
    → ext_for_compression c ≡ some e
    → (f : String) × (compression_from_ext (tarball dir name e) ≡ some f)
      × (reader_codec f ≡ writer_codec c)
unfolding ext_for_compression reader_codec writer_codec
name_reads_back dir name c e h =
    let (l, g, z, t) = from_tarball (dir ++ codes "/" ++ name) in
    supported_cases (ReadsBack dir name) (reads_back dir name "" "tar" [] t refl refl)
      (reads_back dir name "none" "tar" [] t refl refl)
      (reads_back dir name "tar" "tar" [] t refl refl)
      (reads_back dir name "gzip" "gzip" (codes ".gz") g refl refl) (λ e h. absurd (ground arith))
      (reads_back dir name "lz4" "lz4" (codes ".lz4") l refl refl)
      (reads_back dir name "zlib" "zlib" (codes ".zlib") z refl refl) c
      (has_extension-supported c h) e h

-- A supported format has an extension exactly if it is not "gz": for "gz" a dump to a file fails,
-- although the format passes the check of the dump and has a writer and a reader.
pub gz_has_no_extension :
    (c : String)
    → supported c ≡ true
    → ((ext_for_compression c ≡ none) ↔ (c ≡ "gz"))
      × (writer_codec c ≢ none)
      × (reader_codec c ≡ writer_codec c)
unfolding ext_for_compression writer_codec reader_codec
gz_has_no_extension =
    supported_cases
      (λ c.
        ((ext_for_compression c ≡ none) ↔ (c ≡ "gz"))
        × (writer_codec c ≢ none)
        × (reader_codec c ≡ writer_codec c))
      ((λ h. absurd (ground arith), λ h. absurd (ground (arith, eq_iff "" "gz"))), λ h. cc, refl)
      (
        (λ h. absurd (ground arith), λ h. absurd (ground (arith, eq_iff "none" "gz"))),
        λ h. cc,
        refl,
      )
      ((λ h. absurd (ground arith), λ h. absurd (ground (arith, eq_iff "tar" "gz"))), λ h. cc, refl)
      (
        (λ h. absurd (ground arith), λ h. absurd (ground (arith, eq_iff "gzip" "gz"))),
        λ h. cc,
        refl,
      )
      ((λ h. refl, λ h. refl), λ h. cc, refl)
      ((λ h. absurd (ground arith), λ h. absurd (ground (arith, eq_iff "lz4" "gz"))), λ h. cc, refl)
      (
        (λ h. absurd (ground arith), λ h. absurd (ground (arith, eq_iff "zlib" "gz"))),
        λ h. cc,
        refl,
      )

-- On a FUSE file system the writer uses the codec that the format asks for exactly if the format is
-- not "zlib".
pub fuse_writes_zlib_plain :
    (c : String)
    → supported c ≡ true
    → (optimized_codec c true ≡ optimized_codec c false) ↔ (c ≢ "zlib")
unfolding optimized_codec
fuse_writes_zlib_plain =
    supported_cases (λ c. (optimized_codec c true ≡ optimized_codec c false) ↔ (c ≢ "zlib"))
      (λ h. λ q. ground (arith, eq_iff "" "zlib"), λ h. refl)
      (λ h. λ q. ground (arith, eq_iff "none" "zlib"), λ h. refl)
      (λ h. λ q. ground (arith, eq_iff "tar" "zlib"), λ h. refl)
      (λ h. λ q. ground (arith, eq_iff "gzip" "zlib"), λ h. refl)
      (λ h. λ q. ground (arith, eq_iff "gz" "zlib"), λ h. refl)
      (λ h. λ q. ground (arith, eq_iff "lz4" "zlib"), λ h. refl)
      (λ h. λ q. ground arith, λ h. absurd (h refl))

fuse_reads_back :
    {A : Type 0} {x y z : A} {c : String}
    → x ≡ y
    → ((c ≢ "zlib") → z ≡ y)
    → (c ≢ "zlib") ⊎ (true ≡ false)
    → x ≡ z
fuse_reads_back w back (inl n) = w ∙ sym (back n)
fuse_reads_back w back (inr q) = absurd (ground arith)

-- For every format for which the dump has an extension, a restore reads a format off the tarball's name,
-- whatever the directory and the name are, and its reader has the codec of the writer that io.Tar made,
-- on a FUSE file system or not, exactly if the format of the dump is not zlib or the file system not FUSE.
pub restore_reads_dump :
    (dir name : List ℕ) (c : String) (e : List ℕ) (is_fuse : Bool)
    → ext_for_compression c ≡ some e
    → (f : String) × (compression_from_ext (tarball dir name e) ≡ some f)
      × ((reader_codec f ≡ optimized_codec c is_fuse) ↔ ((c ≢ "zlib") ⊎ (is_fuse ≡ false)))
unfolding optimized_codec
restore_reads_dump dir name c e false h =
    let (f, r, w) = name_reads_back dir name c e h in (f, r, (λ q. inr refl, λ q. w))
restore_reads_dump dir name c e true h =
    let (f, r, w) = name_reads_back dir name c e h in
    let (there, back) = fuse_writes_zlib_plain c (has_extension-supported c h) in
    (f, r, (λ q. inl (there (sym q ∙ w)), λ q. fuse_reads_back w back q))
