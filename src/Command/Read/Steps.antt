-- ===== src/Command/Read/Steps.antt =====
-- What the steps of the readers do on a reader that delivers known bytes.
use sofa_bolt_go.Base.{
  ℕ, ◌≤◌, ◌<◌, ◌≡◌, refl, sym, none, [], ◌∷◌, ◌++◌, append-nil, append_assoc, arith, Bytes, be32,
  ltb, length, drop, drop_all, false, lt→ltb,
}
use sofa_bolt_go.SimpleMap
use sofa_bolt_go.SimpleMap.{FastSimpleMap, range, get_encode_size}
use sofa_bolt_go.SimpleMap.Entries.{flat, length-flat-range}
use sofa_bolt_go.SimpleMap.Invariant.{IsWellFormed}
use sofa_bolt_go.SimpleMap.RoundTrip.{decode-flat}
use sofa_bolt_go.ReadHelper.{ReadHelper, IsDocumented}
use sofa_bolt_go.Command.{Command}
use sofa_bolt_go.Command.Wire.{body}
use sofa_bolt_go.Command.Read.Monad.{ReadState, ok}
use sofa_bolt_go.Command.Read.{
  or_io, read_uint8, read_block, read_class, read_header, read_content, read_connection,
  decode_headers, headers_decoded, read_crc, read_body, read_proto,
}

off_test : (n : ℕ) → n ≡ 0 → ltb 0 n ≡ false
off_test n e = ground arith

module _ (rh : ReadHelper) (doc : IsDocumented rh) where
  abbrev pub at : Command → Bytes → ReadState rh.Reader
  at c bs = record { cmd = c; br = doc.stream bs }

  full_exact :
      (xs rest old : Bytes) (n : ℕ)
      → n ≡ length xs
      → rh.read_to_bytes (doc.stream (xs ++ rest)) n (rh.alloc_to_at_least old n)
        ≡ (none, xs, doc.stream rest)
  full_exact xs rest old n e =
      let b = rh.alloc_to_at_least old (length xs) in
      let size = doc.length-alloc old (length xs) in
      rw
        (
          e,
          doc.read_full xs rest b (omega (arith, size)),
          drop_all (length xs) b (omega (arith, size)),
          append-nil,
        )
        refl

  module _ (xs rest old : Bytes) (n : ℕ) (c : Command) (e : n ≡ length xs) where
    pub read_class_full :
        read_class rh old n (at c (xs ++ rest)) ≡ (ok tt, at (record c { class = xs }) rest)
    unfolding read_class or_io
    read_class_full = rw (full_exact xs rest old n e)

    pub read_header_full :
        read_header rh old n (at c (xs ++ rest)) ≡ (ok tt, at (record c { header = xs }) rest)
    unfolding read_header or_io
    read_header_full = rw (full_exact xs rest old n e)

    pub read_content_full :
        read_content rh old n (at c (xs ++ rest)) ≡ (ok tt, at (record c { content = xs }) rest)
    unfolding read_content or_io
    read_content_full = rw (full_exact xs rest old n e)

    pub read_connection_full :
        read_connection rh old n (at c (xs ++ rest))
        ≡ (ok tt, at (record c { connection = xs }) rest)
    unfolding read_connection or_io
    read_connection_full = rw (full_exact xs rest old n e)

  pub read_block_full :
      (xs rest b32 : Bytes) (n : ℕ) (c : Command)
      → n ≡ length xs
      → n ≤ length b32
      → read_block rh n b32 (at c (xs ++ rest)) ≡ (ok (xs ++ drop n b32), at c rest)
  unfolding read_block or_io
  read_block_full xs rest b32 n c e h = rw (e, doc.read_full xs rest b32 (omega (arith, e, h))) refl

  pub read_uint8_full :
      (x : ℕ) (rest : Bytes) (c : Command) → read_uint8 rh (at c (x ∷ rest)) ≡ (ok x, at c rest)
  unfolding read_uint8 or_io
  read_uint8_full x rest c = rw (doc.uint8_full x rest)

  pub read_proto_full :
      (x : ℕ) (rest : Bytes) (c : Command)
      → read_proto rh (at c (x ∷ rest)) ≡ (ok x, at (record c { reserved = 0 }) rest)
  unfolding read_proto or_io
  read_proto_full x rest c = rw (doc.uint8_full x rest)

  -- Headers are decoded into an empty map.
  pub decode_headers_full :
      (m : FastSimpleMap) (rest : Bytes) (c : Command)
      → IsWellFormed m
      → decode_headers rh
          (at (record c { header = flat (range m); headers = SimpleMap.empty }) rest)
        ≡ (
          ok tt,
          at
              (record c { header = flat (range m); headers = record m { raw = flat (range m) } })
              rest,
        )
  unfolding decode_headers headers_decoded
  decode_headers_full m rest c w = rw (decode-flat m [] w)

  pub read_crc_on :
      (v : ℕ) (rest : Bytes) (c : Command)
      → 0 < c.switc
      → v < 4294967296
      → read_crc rh (at c (be32 v ++ rest)) ≡ (ok tt, at (record c { crc32 = v }) rest)
  unfolding read_crc or_io
  read_crc_on v rest c on h = rw (doc.uint32_full v rest h, lt→ltb 0 c.switc on) refl

  pub read_crc_off :
      (rest : Bytes) (c : Command) → c.switc ≡ 0 → read_crc rh (at c rest) ≡ (ok tt, at c rest)
  unfolding read_crc
  read_crc_off rest c off = rw (off_test c.switc off) refl

  -- The class, the headers and the content, of the sizes given.
  pub read_body_full :
      (old : Bytes → Bytes) (src c : Command) (rest : Bytes)
      → IsWellFormed src.headers
      → read_body rh old
          (length src.class)
          (get_encode_size src.headers)
          (length src.content)
          (at (record c { headers = SimpleMap.empty }) (body src ++ rest))
        ≡ (
          ok tt,
          at
              (record c {
                class = src.class;
                header = flat (range src.headers);
                headers = record (src.headers) { raw = flat (range src.headers) };
                content = src.content;
              })
              rest,
        )
  unfolding read_body
  read_body_full old src c rest w =
      let hdr = flat (range src.headers) in
      let c1 = record c { class = src.class; headers = SimpleMap.empty } in
      let c2 = record c1 { header = hdr; headers = record (src.headers) { raw = hdr } } in
      rw
        (
          append_assoc src.class (hdr ++ src.content) rest,
          append_assoc hdr src.content rest,
          read_class_full src.class (hdr ++ (src.content ++ rest)) (old c.class) (length src.class)
              (record c { headers = SimpleMap.empty }) refl,
          read_header_full hdr (src.content ++ rest) (old c.header) (get_encode_size src.headers) c1
              (sym (length-flat-range src.headers)),
          decode_headers_full src.headers (src.content ++ rest) c1 w,
          read_content_full src.content rest (old c.content) (length src.content) c2 refl,
        )
        refl
