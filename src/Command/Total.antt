-- ===== src/Command/Total.antt =====
-- The readers on arbitrary input: they end in a command or an error.
use sofa_bolt_go.Base.{
  ◌+◌, ◌%◌, get_or, uint16_at, uint32_at, ℕ, Bool, true, false, Option, none, some, [], ◌∷◌, Bytes,
  Bool-cases, inl, inr, ltb, ◌==◌, if◌then◌else◌, ◌||◌,
}
use sofa_bolt_go.SimpleMap.{FastSimpleMap, DecodeError}
use sofa_bolt_go.SimpleMap.Decode.{decode-parse}
use sofa_bolt_go.ReadHelper.{ReadHelper}
use sofa_bolt_go.Command.{is_bolt_request, proto_tb_remoting}
use sofa_bolt_go.Command.Read.Monad.{
  Failure, io, bad_headers, malformed_proto, malformed_type, panicked, Result, ok, err, ReadState,
  M, continue, ◌>>=◌, pure, fail, get_cmd, modify,
}
use sofa_bolt_go.Command.Read.{
  or_io, read_uint8, read_block, read_class, read_header, read_content, read_connection,
  headers_decoded, decode_headers, read_crc, read_body, read_command_tb_remoting,
  read_response_command_bolt_v1, read_request_command_bolt_v1, read_command_bolt_v1,
  read_request_command_bolt_v2, read_response_command_bolt_v2, read_command_bolt_v2, read_proto,
  read_command,
}

-- A failure that is an error, and not a panic.
abbrev pub IsError : {E : Type 0} → Failure E → Type 0
IsError (io e) = Unit
IsError (bad_headers e) = Unit
IsError malformed_proto = Unit
IsError malformed_type = Unit
IsError panicked = ⊥

abbrev pub IsClean : {E A : Type 0} → Result E A → Type 0
IsClean (ok a) = Unit
IsClean (err e) = IsError e

module _ {E R : Type 0} where
  record IsSafe {A : Type 0} (m : M E R A) : Type 0 where
    safe : (s : ReadState R) → IsClean (m s).0

  continue-IsClean :
      {A B : Type 0} (f : A → M E R B) (r : Result E A) (s : ReadState R)
      → IsClean r
      → ((a : A) → IsSafe (f a))
      → IsClean (continue f r s).0
  continue-IsClean f (ok a) s c h = (h a).safe s
  continue-IsClean f (err e) s c h = c

  bind :
      {A B : Type 0} (m : M E R A) (f : A → M E R B)
      → IsSafe m
      → ((a : A) → IsSafe (f a))
      → IsSafe (m >>= f)
  bind m f p h = record { safe = λ s. continue-IsClean f (m s).0 (m s).1 (p.safe s) h }

  pure-IsSafe : {A : Type 0} (a : A) → IsSafe (pure a)
  pure-IsSafe a = record { safe = λ s. tt }

  fail-IsSafe : {A : Type 0} (e : Failure E) → IsError e → IsSafe (fail {A = A} e)
  fail-IsSafe e h = record { safe = λ s. h }

or_io-IsClean : {E A S : Type 0} (e : Option E) (a : A) (s : S) → IsClean (or_io e a s).0
unfolding or_io
or_io-IsClean none a s = tt
or_io-IsClean (some e) a s = tt

module _ (rh : ReadHelper) where
  read_uint8-IsSafe : IsSafe (read_uint8 rh)
  unfolding read_uint8
  read_uint8-IsSafe = record { safe = λ s. or_io-IsClean _ _ _ }

  read_proto-IsSafe : IsSafe (read_proto rh)
  unfolding read_proto
  read_proto-IsSafe = record { safe = λ s. or_io-IsClean _ _ _ }

  read_block-IsSafe : (n : ℕ) (b32 : Bytes) → IsSafe (read_block rh n b32)
  unfolding read_block
  read_block-IsSafe n b32 = record { safe = λ s. or_io-IsClean _ _ _ }

  read_class-IsSafe : (old : Bytes) (n : ℕ) → IsSafe (read_class rh old n)
  unfolding read_class
  read_class-IsSafe old n = record { safe = λ s. or_io-IsClean _ _ _ }

  read_header-IsSafe : (old : Bytes) (n : ℕ) → IsSafe (read_header rh old n)
  unfolding read_header
  read_header-IsSafe old n = record { safe = λ s. or_io-IsClean _ _ _ }

  read_content-IsSafe : (old : Bytes) (n : ℕ) → IsSafe (read_content rh old n)
  unfolding read_content
  read_content-IsSafe old n = record { safe = λ s. or_io-IsClean _ _ _ }

  read_connection-IsSafe : (old : Bytes) (n : ℕ) → IsSafe (read_connection rh old n)
  unfolding read_connection
  read_connection-IsSafe old n = record { safe = λ s. or_io-IsClean _ _ _ }

  headers_decoded-IsClean :
      (s : ReadState rh.Reader) (r : Option DecodeError × FastSimpleMap)
      → IsClean (headers_decoded rh s (some r)).0
  unfolding headers_decoded
  headers_decoded-IsClean s (none, m) = tt
  headers_decoded-IsClean s (some e, m) = tt

  decode_headers-IsSafe : IsSafe (decode_headers rh)
  unfolding decode_headers
  decode_headers-IsSafe = record {
    safe = λ s. rw (decode-parse s.cmd.headers s.cmd.header []) (headers_decoded-IsClean s _);
  }

  read_crc-IsSafe : IsSafe (read_crc rh)
  unfolding read_crc
  read_crc-IsSafe = record {
    safe = λ s. elim (Bool-cases (ltb 0 s.cmd.switc)) [
      | inl on ↦ rw on (or_io-IsClean _ _ _)
      | inr off ↦ rw off tt
    ];
  }

  read_body-IsSafe : (old : Bytes → Bytes) (k n m : ℕ) → IsSafe (read_body rh old k n m)
  unfolding read_body
  read_body-IsSafe old k n m =
      bind get_cmd _ (record { safe = λ s. tt })
        (λ c. bind (read_class rh (old c.class) k) _ (read_class-IsSafe _ _) (λ u.
          bind (read_header rh (old c.header) n) _ (read_header-IsSafe _ _) (λ u.
            bind (decode_headers rh) _ decode_headers-IsSafe
              (λ u. read_content-IsSafe (old c.content) m))))

  read_request_command_bolt_v2-IsSafe : (b32 : Bytes) → IsSafe (read_request_command_bolt_v2 rh b32)
  unfolding read_request_command_bolt_v2
  read_request_command_bolt_v2-IsSafe b32 = bind _ _ (read_block-IsSafe _ _) (λ b.
      bind
        (modify (λ c. record c {
          cmdcode = uint16_at b 0;
          ver2 = get_or b 2 0;
          rid = uint32_at b 3;
          codec = get_or b 7 0;
          switc = get_or b 8 0;
          timeout = uint32_at b 9;
        }))
        _ (record { safe = λ s. tt })
        (λ u.
          bind _ _
            (read_body-IsSafe (λ old. old) (uint16_at b 13) (uint16_at b 15) (uint32_at b 17))
            (λ u. bind _ _ read_crc-IsSafe (λ u.
              pure-IsSafe (24 + (uint16_at b 13 + uint16_at b 15) % 65536 + uint32_at b 17)))))

  read_response_command_bolt_v2-IsSafe :
      (b32 : Bytes) → IsSafe (read_response_command_bolt_v2 rh b32)
  unfolding read_response_command_bolt_v2
  read_response_command_bolt_v2-IsSafe b32 = bind _ _ (read_block-IsSafe _ _) (λ b.
      bind
        (modify (λ c. record c {
          cmdcode = uint16_at b 0;
          ver2 = get_or b 2 0;
          rid = uint32_at b 3;
          codec = get_or b 7 0;
          switc = get_or b 8 0;
          status = uint16_at b 9;
        }))
        _ (record { safe = λ s. tt })
        (λ u.
          bind _ _
            (read_body-IsSafe (λ old. old) (uint16_at b 11) (uint16_at b 13) (uint32_at b 15))
            (λ u. bind _ _ read_crc-IsSafe (λ u.
              pure-IsSafe (22 + (uint16_at b 11 + uint16_at b 13) % 65536 + uint32_at b 15)))))

  read_request_command_bolt_v1-IsSafe : (b32 : Bytes) → IsSafe (read_request_command_bolt_v1 rh b32)
  unfolding read_request_command_bolt_v1
  read_request_command_bolt_v1-IsSafe b32 = bind _ _ (read_block-IsSafe _ _) (λ b.
      bind
        (modify (λ c. record c {
          cmdcode = uint16_at b 0;
          ver2 = get_or b 3 0;
          rid = uint32_at b 3;
          codec = get_or b 7 0;
          timeout = uint32_at b 8;
        }))
        _ (record { safe = λ s. tt })
        (λ u.
          bind _ _ (read_body-IsSafe (λ old. []) (uint16_at b 12) (uint16_at b 14) (uint32_at b 16))
            (λ u.
              pure-IsSafe
                (16 + 2 + 4 + (uint16_at b 12 + uint16_at b 14) % 65536 + uint32_at b 16))))

  read_response_command_bolt_v1-IsSafe :
      (b32 : Bytes) → IsSafe (read_response_command_bolt_v1 rh b32)
  unfolding read_response_command_bolt_v1
  read_response_command_bolt_v1-IsSafe b32 = bind _ _ (read_block-IsSafe _ _) (λ b.
      bind
        (modify (λ c. record c {
          cmdcode = uint16_at b 0;
          ver2 = get_or b 3 0;
          rid = uint32_at b 3;
          codec = get_or b 7 0;
          status = uint16_at b 8;
        }))
        _ (record { safe = λ s. tt })
        (λ u.
          bind _ _
            (read_body-IsSafe (λ old. old) (uint16_at b 10) (uint16_at b 12) (uint32_at b 14))
            (λ u.
              pure-IsSafe
                (14 + 2 + 4 + (uint16_at b 10 + uint16_at b 12) % 65536 + uint32_at b 14))))

  read_command_tb_remoting-IsSafe : (b32 : Bytes) → IsSafe (read_command_tb_remoting rh b32)
  unfolding read_command_tb_remoting
  read_command_tb_remoting-IsSafe b32 = bind _ _ (read_block-IsSafe _ _) (λ b.
      bind
        (modify (λ c. record c {
          proto = proto_tb_remoting;
          cmdcode = get_or b 0 0;
          codec = get_or b 1 0;
          typ = get_or b 2 0;
          reserved = get_or b 3 0;
        }))
        _ (record { safe = λ s. tt })
        (λ u.
          bind get_cmd _ (record { safe = λ s. tt })
            (λ c. bind _ _ (read_connection-IsSafe c.connection (uint32_at b 4)) (λ u.
              bind _ _ (read_class-IsSafe c.class (get_or b 8 0)) (λ u.
                bind _ _ (read_content-IsSafe c.content (uint32_at b 9))
                  (λ u. pure-IsSafe (14 + uint32_at b 4 + get_or b 8 0 + uint32_at b 9)))))))

  choice :
      {A : Type 0} (t : Bool) (m n : M rh.IoError rh.Reader A)
      → IsSafe m
      → IsSafe n
      → IsSafe (if t then m else n)
  choice true m n p q = p
  choice false m n p q = q

  dispatch-IsSafe :
      (typ : ℕ) (m n : M rh.IoError rh.Reader ℕ)
      → IsSafe m
      → IsSafe n
      → IsSafe (if typ == 0 then m else if is_bolt_request typ then n else fail malformed_type)
  dispatch-IsSafe typ m n p q =
      choice (typ == 0) m _ p
        (choice (is_bolt_request typ) n (fail malformed_type) q (fail-IsSafe malformed_type tt))

  read_command_bolt_v1-IsSafe : (b32 : Bytes) → IsSafe (read_command_bolt_v1 rh b32)
  unfolding read_command_bolt_v1
  read_command_bolt_v1-IsSafe b32 = bind (read_uint8 rh) _ read_uint8-IsSafe (λ u8.
      bind (modify (λ c. record c { typ = u8 })) _ (record { safe = λ s. tt })
        (λ u.
          dispatch-IsSafe u8 (read_response_command_bolt_v1 rh b32)
            (read_request_command_bolt_v1 rh b32) (read_response_command_bolt_v1-IsSafe b32)
            (read_request_command_bolt_v1-IsSafe b32)))

  read_command_bolt_v2-IsSafe : (b32 : Bytes) → IsSafe (read_command_bolt_v2 rh b32)
  unfolding read_command_bolt_v2
  read_command_bolt_v2-IsSafe b32 =
      bind (read_block rh 2 (0 ∷ 0 ∷ [])) _ (read_block-IsSafe 2 (0 ∷ 0 ∷ [])) (λ b2.
        bind (modify (λ c. record c { ver1 = get_or b2 0 0; typ = get_or b2 1 0 })) _
          (record { safe = λ s. tt })
          (λ u.
            dispatch-IsSafe (get_or b2 1 0) (read_response_command_bolt_v2 rh b32)
              (read_request_command_bolt_v2 rh b32) (read_response_command_bolt_v2-IsSafe b32)
              (read_request_command_bolt_v2-IsSafe b32)))

  protocol-IsSafe :
      (b32 : Bytes) (u8 : ℕ)
      → IsSafe (
          if u8 == 0 || u8 == 1
          then read_command_bolt_v1 rh b32
          else if u8 == 2
          then read_command_bolt_v2 rh b32
          else if u8 == 13
          then read_command_tb_remoting rh b32
          else fail malformed_proto)
  protocol-IsSafe b32 u8 =
      choice (u8 == 0 || u8 == 1) (read_command_bolt_v1 rh b32) _ (read_command_bolt_v1-IsSafe b32)
        (choice (u8 == 2) (read_command_bolt_v2 rh b32) _ (read_command_bolt_v2-IsSafe b32) (
          choice (u8 == 13) (read_command_tb_remoting rh b32) (fail malformed_proto)
            (read_command_tb_remoting-IsSafe b32) (fail-IsSafe malformed_proto tt)))

  read_command-IsSafe : (b32 : Bytes) → IsSafe (read_command rh b32)
  unfolding read_command
  read_command-IsSafe b32 = bind (read_proto rh) _ read_proto-IsSafe (λ u8.
      bind (modify (λ c. record c { proto = u8 })) _ (record { safe = λ s. tt })
        (λ u. protocol-IsSafe b32 u8))

  -- Whatever a reader delivers, even one that breaks its documented behaviour, and whatever the
  -- command and the scratch bytes hold before, `ReadCommand` ends in a result or in an error of the
  -- reader, the header map, the protocol or the type, and not in a panic.
  pub read_command-IsClean :
      (b32 : Bytes) (s : ReadState rh.Reader) → IsClean (read_command rh b32 s).0
  read_command-IsClean b32 s = (read_command-IsSafe b32).safe s
