-- ===== src/Work/Copy.antt =====
-- `copy_sendpack` of work.c: a copy string by string, which leaves `temp_name` alone.
use model_lib.Base.{◌≡◌, ◌<◌, Option, none, some, [], arith, length}
use model_lib.CString.{Buf, c_str, copy_str, max_size, IsClean, c_str-clean, copy_str-nil}
use model_lib.Packet.{SendPack, zero_pack}

infixl 5 ◌>>=◌
abbrev ◌>>=◌ : {A B : Type 0} → Option A → (A → Option B) → Option B
none >>= f = none
some a >>= f = f a

-- `memcpy(dst, src, strlen(src))` between two arrays of a packet.
unfoldable pub copy_field : (dst src : Buf) → Option Buf
copy_field dst src = do t ← c_str max_size src; copy_str max_size dst t

-- `none` if a string of `send` has no end inside its array.
unfoldable pub copy_sendpack : (recv send : SendPack) → Option SendPack
unfolding copy_field
copy_sendpack recv send = do
  sourse_name ← copy_field recv.sourse_name send.sourse_name
  msg0 ← copy_field recv.send_msg0 send.send_msg0
  msg1 ← copy_field recv.send_msg1 send.send_msg1
  msg2 ← copy_field recv.send_msg2 send.send_msg2
  msg3 ← copy_field recv.send_msg3 send.send_msg3
  msg4 ← copy_field recv.send_msg4 send.send_msg4
  some (record recv {
    send_cmd = send.send_cmd;
    result = send.result;
    sourse_name = sourse_name;
    send_msg0 = msg0;
    send_msg1 = msg1;
    send_msg2 = msg2;
    send_msg3 = msg3;
    send_msg4 = msg4;
    send_id1 = send.send_id1;
    send_id2 = send.send_id2;
  })

-- A string that its array holds with its NUL.
pub record IsString (b : Buf) : Type 0 where
  pub clean : IsClean b
  pub fits : length b < max_size

-- Every array of the packet holds a string and zeros behind it.
pub record HasStrings (p : SendPack) : Type 0 where
  pub sourse_name : IsString p.sourse_name
  pub send_msg0 : IsString p.send_msg0
  pub send_msg1 : IsString p.send_msg1
  pub send_msg2 : IsString p.send_msg2
  pub send_msg3 : IsString p.send_msg3
  pub send_msg4 : IsString p.send_msg4

pub copy_field-nil : (b : Buf) → IsString b → copy_field [] b ≡ some b
unfolding copy_field
copy_field-nil b s =
    rw (c_str-clean max_size b s.clean s.fits) (copy_str-nil max_size b (omega arith))

-- Onto a cleared packet the copy of a packet of strings is the packet itself, but for temp_name,
-- which stays cleared.
pub copy_sendpack-zero_pack :
    (p : SendPack) → HasStrings p → copy_sendpack zero_pack p ≡ some (record p { temp_name = [] })
unfolding copy_sendpack
copy_sendpack-zero_pack p h = rw (
  copy_field-nil p.sourse_name h.sourse_name,
  copy_field-nil p.send_msg0 h.send_msg0,
  copy_field-nil p.send_msg1 h.send_msg1,
  copy_field-nil p.send_msg2 h.send_msg2,
  copy_field-nil p.send_msg3 h.send_msg3,
  copy_field-nil p.send_msg4 h.send_msg4,
)
