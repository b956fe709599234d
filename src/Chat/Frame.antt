-- ===== src/Chat/Frame.antt =====
-- servers/ChatServer/src/MsgNode.cpp, and the lengths of servers/common/include/const.h.
-- A `short` is the integer that it stands for; a value that goes into one is cut to 16 bits.
pub mod Wire
use quick_chat.Prelude.{
  ℕ, zero, suc, ◌+◌, ◌-◌, ◌*◌, ◌/◌, ◌%◌, ltb, leb, Bool, true, false, List, [], ◌∷◌, ◌++◌, Option,
  none, some, ◌≡◌, refl, Bytes, codes, ℤ, pos, negsuc, if◌then◌else◌, length, take, drop, Outcome,
  done, blocked, threw, crashed,
}

abbrev pub max_length : ℕ
max_length = 1024 * 2

abbrev pub head_total_len : ℕ
head_total_len = 4

abbrev pub head_id_len : ℕ
head_id_len = 2

-- The low 16 bits of an integer, and the `short` with these bits.
pub bits16 : ℤ → ℕ
bits16 (pos n) = n % 65536
bits16 (negsuc n) = 65535 - n % 65536

unfoldable pub to_short : ℕ → ℤ
to_short n = let m = n % 65536 in if ltb m 32768 then pos m else negsuc (65535 - m)

-- `max_len + HEAD_TOTAL_LEN`, in an `int`.
pub plus_head : ℤ → ℤ
plus_head (pos n) = pos (n + 4)
plus_head (negsuc n) = if ltb n 4 then pos (3 - n) else negsuc (n - 4)

-- The buffer has `total_len + 1` bytes; zeros stand for the bytes that are not yet written.
pub record MsgNode : Type 0 where
  pub cur_len : ℕ
  pub total_len : ℕ
  pub bytes : Bytes

pub zeros : ℕ → Bytes
zeros zero = []
zeros (suc n) = 0 ∷ zeros n

-- `MsgNode::MsgNode`: `new char[total_len_ + 1]` throws at a negative size, and at a length of -1
-- the terminator is written before the empty buffer.
unfoldable pub make_node : ℤ → Outcome MsgNode
unfolding zeros
make_node (pos n) = done (record { cur_len = 0; total_len = n; bytes = zeros (n + 1) })
make_node (negsuc zero) = crashed
make_node (negsuc (suc n)) = threw

-- `Clear`: all bytes but the last.
unfoldable clear : MsgNode → MsgNode
unfolding zeros
clear m = record m { cur_len = 0; bytes = zeros m.total_len ++ drop m.total_len m.bytes }

-- `memcpy(bytes + offset, src, length of src)`, none where that leaves the buffer.
pub copy_at : ℕ → Bytes → Bytes → Option Bytes
copy_at offset src bytes =
    if leb (offset + length src) (length bytes)
    then some (take offset bytes ++ (src ++ drop (offset + length src) bytes))
    else none

-- Two bytes in network order.
unfoldable pub be16 : ℤ → Bytes
unfolding bits16
be16 z = bits16 z / 256 ∷ bits16 z % 256 ∷ []

-- The first `n` bytes of a message, none where it is shorter or `n` is negative.
pub read_msg : Bytes → ℤ → Option Bytes
read_msg msg (pos n) = if leb n (length msg) then some (take n msg) else none
read_msg msg (negsuc n) = none

pub copy_or_crash : ℕ → Option Bytes → MsgNode → Outcome MsgNode
unfolding copy_at
copy_or_crash offset none m = crashed
copy_or_crash offset (some src) m = elim (copy_at offset src m.bytes) [
  | none ↦ crashed
  | some bytes ↦ done (record m { bytes = bytes })
]

infixl 5 ◌then_copy◌
abbrev ◌then_copy◌ : Outcome MsgNode → ℕ × Option Bytes → Outcome MsgNode
◌then_copy◌ (done m) (offset, src) = copy_or_crash offset src m
◌then_copy◌ blocked c = blocked
◌then_copy◌ threw c = threw
◌then_copy◌ crashed c = crashed

-- `SendNode::SendNode`: `RecvNode` and `SendNode` are a `MsgNode` with a message id.
pub record SendNode : Type 0 where
  pub node : MsgNode
  pub msg_id : ℤ

pub fill_node : Bytes → ℤ → ℤ → Outcome MsgNode
unfolding make_node to_short bits16 plus_head be16 read_msg copy_or_crash
fill_node msg max_len msg_id =
    make_node (to_short (bits16 (plus_head max_len)))
    then_copy (0, some (be16 msg_id))
    then_copy (head_id_len, some (be16 max_len))
    then_copy (head_total_len, read_msg msg max_len)

unfoldable pub make_send_node : Bytes → ℤ → ℤ → Outcome SendNode
unfolding fill_node
make_send_node msg max_len msg_id = elim (fill_node msg max_len msg_id) [
  | done m ↦ done (record { node = m; msg_id = msg_id })
  | blocked ↦ blocked
  | threw ↦ threw
  | crashed ↦ crashed
]

-- What `async_write` sends of a node: `total_len` bytes.
pub wire : SendNode → Bytes
wire m = take m.node.total_len m.node.bytes
