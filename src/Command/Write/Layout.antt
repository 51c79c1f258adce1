-- ===== src/Command/Write/Layout.antt =====
-- The writers produce the drawn layouts, whatever the buffer held before.
use sofa_bolt_go.Base.{
  ℕ, ◌+◌, ◌≤◌, ◌≡◌, refl, sym, ap, ◌∙◌, some, List, [], ◌∷◌, ◌++◌, append-nil, append_assoc, arith,
  Bytes, be32, length, drop, overwrite, length-append, length-drop, overwrite-append, drop-drop,
  take-append_eq, drop-append_eq, drop_all, inl, inr, Bool-cases, ◌||◌, ◌==◌, if◌then◌else◌, ltb,
  codes,
}
use sofa_bolt_go.SimpleMap.{FastSimpleMap, get_encode_size, range}
use sofa_bolt_go.SimpleMap.Entries.{flat, length-flat-range}
use sofa_bolt_go.SimpleMap.Encode.{encode-flat}
use sofa_bolt_go.Checksum.{checksum}
use sofa_bolt_go.ReadHelper.{ReadHelper, IsDocumented}
use sofa_bolt_go.Command.{
  Command, proto_bolt_v1, proto_bolt_v2, proto_tb_remoting, type_bolt_response, is_bolt_request,
}
use sofa_bolt_go.Command.Write.{
  Written, written, malformed_proto, malformed_type, write_command, write_command_bolt_v1,
  write_command_bolt_v2, put_content, put_body, encode_headers, append_crc, finish, finish_crc,
  write_request_command_bolt_v1, write_response_command_bolt_v1, write_request_command_bolt_v2,
  write_response_command_bolt_v2, write_command_tb_remoting,
}
use sofa_bolt_go.Command.Wire.{
  concat, body, with_crc, request_v1, response_v1, request_v2, response_v2, tb_remoting,
}

-- Writes one after the other from an offset on.
put_all : Bytes → ℕ → List Bytes → Bytes
put_all b i [] = b
put_all b i (w ∷ ws) = put_all (overwrite b i w) (i + length w) ws

put_all-concat :
    (p q : Bytes) (i : ℕ) (ws : List Bytes)
    → i ≡ length p
    → length (concat ws) ≤ length q
    → put_all (p ++ q) i ws ≡ p ++ (concat ws ++ drop (length (concat ws)) q)
unfolding put_all
put_all-concat p q i [] e h = refl
put_all-concat p q i (w ∷ ws) e h =
    let size = length-append w (concat ws) in
    rw (e, overwrite-append p q w (omega arith))
      (put_all-concat (p ++ w) (drop (length w) q) (length p + length w) ws
          (sym (length-append p w)) (omega (arith, length-drop (length w) q))
        ∙ simp (append_assoc, drop-drop, size))

-- Headers encoded behind `p`, where they fit.
encode_headers-append :
    (m : FastSimpleMap) (p q : Bytes) (off : ℕ)
    → off ≡ length p
    → get_encode_size m ≤ length q
    → encode_headers m off (p ++ q) ≡ some (p ++ (flat (range m) ++ drop (get_encode_size m) q))
unfolding encode_headers
encode_headers-append m p q off e h =
    rw (drop-append_eq off p q e) (rw (encode-flat m q [] h) (rw (take-append_eq off p q e)))

overwrite_at :
    (p q src : Bytes) (i : ℕ)
    → i ≡ length p
    → length src ≤ length q
    → overwrite (p ++ q) i src ≡ p ++ src ++ drop (length src) q
overwrite_at p q src i e h = rw e (overwrite-append p q src h)

-- Behind a fixed part `p`, the body fills the rest of the buffer.
put_body-append :
    (cmd : Command) (p q : Bytes) (fixed : ℕ)
    → fixed ≡ length p
    → length q ≡ length cmd.class + get_encode_size cmd.headers + length cmd.content
    → put_body fixed cmd (p ++ q) ≡ some (p ++ body cmd)
unfolding put_body put_content
put_body-append cmd p q fixed e size =
    rw
      (
        overwrite_at p q cmd.class fixed e (omega (arith, size)),
        encode_headers-append cmd.headers (p ++ cmd.class) behind_class (fixed + length cmd.class)
            (omega (arith, e, length-append p cmd.class))
            (omega (arith, size, length-drop (length cmd.class) q)),
        sym (append_assoc (p ++ cmd.class) (flat (range cmd.headers)) behind_headers),
      )
      (ap some (
        overwrite_at (p ++ cmd.class ++ flat (range cmd.headers)) behind_headers cmd.content _ ends
          fits
        ∙ rw (drop_all (length cmd.content) behind_headers all, append-nil) (simp append_assoc)))
  where
    behind_class : Bytes
    behind_class = drop (length cmd.class) q

    behind_headers : Bytes
    behind_headers = drop (get_encode_size cmd.headers) behind_class

    room : length behind_headers ≡ length cmd.content
    room = omega (
      arith,
      size,
      length-drop (get_encode_size cmd.headers) behind_class,
      length-drop (length cmd.class) q,
    )

    fits : length cmd.content ≤ length behind_headers
    fits = omega (arith, room)

    all : length behind_headers ≤ length cmd.content
    all = omega (arith, room)

    ends :
        fixed + length cmd.class + get_encode_size cmd.headers
        ≡ length (p ++ cmd.class ++ flat (range cmd.headers))
    ends = omega (
      arith,
      e,
      length-append (p ++ cmd.class) (flat (range cmd.headers)),
      length-append p cmd.class,
      length-flat-range cmd.headers,
    )

-- The fixed part written field by field over any buffer, and the body behind it.
fixed_then_body :
    (cmd : Command) (b : Bytes) (fixed : ℕ) (ws : List Bytes)
    → fixed ≡ length (concat ws)
    → length b ≡ fixed + length cmd.class + get_encode_size cmd.headers + length cmd.content
    → put_body fixed cmd (put_all b 0 ws) ≡ some (concat ws ++ body cmd)
fixed_then_body cmd b fixed ws e size =
    rw (put_all-concat [] b 0 ws refl (omega (arith, e, size))) (
      put_body-append cmd (concat ws) (drop (length (concat ws)) b) fixed e
        (omega (arith, e, size, length-drop (length (concat ws)) b)))

-- The checksum is over everything before it, and stands behind it.
append_crc-with_crc : (cmd : Command) (b : Bytes) → append_crc cmd b ≡ with_crc cmd b
unfolding append_crc with_crc
append_crc-with_crc cmd b = elim (Bool-cases (ltb 0 cmd.switc)) [
  | inl on ↦ rw on (
      overwrite_at b (codes "0123") (be32 (checksum b)) _
        (omega (arith, length-append b (codes "0123"))) (omega arith)
      ∙ append-nil (b ++ be32 (checksum b)))
  | inr off ↦ rw off
]

-- Three blocks one behind the other fill the rest of a buffer.
three_blocks :
    (p q x y z : Bytes) (i : ℕ)
    → i ≡ length p
    → length q ≡ length x + length y + length z
    → overwrite (overwrite (overwrite (p ++ q) i x) (i + length x) y) (i + length x + length y) z
      ≡ p ++ (x ++ (y ++ z))
three_blocks p q x y z i e size =
    rw
      (
        overwrite_at p q x i e (omega (arith, size)),
        overwrite_at (p ++ x) (drop (length x) q) y (i + length x)
            (omega (arith, e, length-append p x)) (omega (arith, size, length-drop (length x) q)),
        overwrite_at (p ++ x ++ y) (drop (length y) (drop (length x) q)) z (i + length x + length y)
            (omega (arith, e, length-append (p ++ x) y, length-append p x))
            (omega
              (arith, size, length-drop (length x) q, length-drop (length y) (drop (length x) q))),
        drop_all (length z) (drop (length y) (drop (length x) q)) (
            omega
              (arith, size, length-drop (length x) q, length-drop (length y) (drop (length x) q))),
        append-nil,
      )
      (simp append_assoc)

module _ (rh : ReadHelper) (doc : IsDocumented rh) (b : Bytes) (cmd : Command) where
  -- A V1 request is written as its comment draws it.
  pub write_request_v1 :
      write_request_command_bolt_v1 rh b cmd ≡ written (concat (request_v1 cmd) ++ body cmd)
  unfolding write_request_command_bolt_v1 put_all finish
  write_request_v1 = ap finish (
      fixed_then_body cmd (rh.alloc_to_at_least b _) 22 (request_v1 cmd) refl
        (doc.length-alloc b _))

  pub write_response_v1 :
      write_response_command_bolt_v1 rh b cmd ≡ written (concat (response_v1 cmd) ++ body cmd)
  unfolding write_response_command_bolt_v1 put_all finish
  write_response_v1 = ap finish (
      fixed_then_body cmd (rh.alloc_to_at_least b _) 20 (response_v1 cmd) refl
        (doc.length-alloc b _))

  pub write_request_v2 :
      write_request_command_bolt_v2 rh b cmd
      ≡ written (with_crc cmd (concat (request_v2 cmd) ++ body cmd))
  unfolding write_request_command_bolt_v2 put_all finish_crc
  write_request_v2 =
      ap (finish_crc cmd) (
        fixed_then_body cmd (rh.alloc_to_at_least b _) 24 (request_v2 cmd) refl
          (doc.length-alloc b _))
      ∙ rw append_crc-with_crc

  pub write_response_v2 :
      write_response_command_bolt_v2 rh b cmd
      ≡ written (with_crc cmd (concat (response_v2 cmd) ++ body cmd))
  unfolding write_response_command_bolt_v2 put_all finish_crc
  write_response_v2 =
      ap (finish_crc cmd) (
        fixed_then_body cmd (rh.alloc_to_at_least b _) 22 (response_v2 cmd) refl
          (doc.length-alloc b _))
      ∙ rw append_crc-with_crc

  tb_fixed :
      (b : Bytes)
      → length b ≡ 14 + length cmd.connection + length cmd.class + length cmd.content
      → overwrite
          (overwrite
            (overwrite (put_all b 0 (tb_remoting cmd)) 14 cmd.connection)
            (14 + length cmd.connection)
            cmd.class)
          (14 + length cmd.connection + length cmd.class)
          cmd.content
        ≡ concat (tb_remoting cmd) ++ (cmd.connection ++ (cmd.class ++ cmd.content))
  tb_fixed b size = rw (put_all-concat [] b 0 (tb_remoting cmd) refl (omega (arith, size))) (
      three_blocks (concat (tb_remoting cmd)) (drop 14 b) cmd.connection cmd.class cmd.content 14
        refl (omega (arith, size, length-drop 14 b)))

  pub write_tb_remoting :
      write_command_tb_remoting rh b cmd
      ≡ written (concat (tb_remoting cmd) ++ (cmd.connection ++ (cmd.class ++ cmd.content)))
  unfolding write_command_tb_remoting put_all
  write_tb_remoting = ap written (tb_fixed (rh.alloc_to_at_least b _) (doc.length-alloc b _))

-- The layout of every kind of command that has one.
abbrev pub layout : Command → Written
layout cmd =
    if cmd.proto == 0 || cmd.proto == proto_bolt_v1
    then (if is_bolt_request cmd.typ
        then written (concat (request_v1 cmd) ++ body cmd)
        else if cmd.typ == type_bolt_response
        then written (concat (response_v1 cmd) ++ body cmd)
        else malformed_type)
    else if cmd.proto == proto_bolt_v2
    then (if is_bolt_request cmd.typ
        then written (with_crc cmd (concat (request_v2 cmd) ++ body cmd))
        else if cmd.typ == type_bolt_response
        then written (with_crc cmd (concat (response_v2 cmd) ++ body cmd))
        else malformed_type)
    else if cmd.proto == proto_tb_remoting
    then written (concat (tb_remoting cmd) ++ (cmd.connection ++ (cmd.class ++ cmd.content)))
    else malformed_proto

-- With a helper that behaves as documented, and whatever the buffer given and its old contents,
-- `WriteCommand` does not panic: it produces the
-- drawn layout of the command's protocol and type, with lengths and fields reduced to their widths,
-- and the errors exactly for an unknown protocol, or an unknown type of a BOLT command.
pub write_command-layout :
    (rh : ReadHelper) (doc : IsDocumented rh) (b : Bytes) (cmd : Command)
    → write_command rh b cmd ≡ layout cmd
unfolding write_command write_command_bolt_v1 write_command_bolt_v2
write_command-layout rh doc b cmd =
    rw
      (
        write_request_v1 rh doc b cmd,
        write_response_v1 rh doc b cmd,
        write_request_v2 rh doc b cmd,
        write_response_v2 rh doc b cmd,
        write_tb_remoting rh doc b cmd,
      )
      refl
