-- ===== src/Chat/Frame/Wire.antt =====
-- The bytes of a `SendNode` on the wire.
use quick_chat.Prelude.{
  ℕ, zero, suc, ◌+◌, ◌/◌, ◌%◌, ◌≤◌, ◌<◌, [], ◌∷◌, ◌++◌, some, ◌≡◌, refl, ap, Bytes, ℤ, pos, negsuc,
  arith, length, drop, take_all, take-length-append, done, threw,
}
use quick_chat.Chat.Frame.{
  bits16, to_short, plus_head, MsgNode, zeros, make_node, copy_at, be16, read_msg, copy_or_crash,
  fill_node, make_send_node, wire,
}

-- The integers that a `short` holds.
abbrev pub IsShort : ℤ → Type 0
IsShort (pos n) = n < 32768
IsShort (negsuc n) = n < 32768

pub to_short-bits16 : (z : ℤ) → IsShort z → to_short (bits16 z) ≡ z
unfolding to_short bits16
to_short-bits16 (pos n) h = ground arith
to_short-bits16 (negsuc n) h = ground arith

bits16-lt : (z : ℤ) → bits16 z < 65536
unfolding bits16
bits16-lt (pos n) = omega arith
bits16-lt (negsuc n) = omega arith

copy_first : (a b x y : ℕ) (r : Bytes) → copy_at 0 (a ∷ b ∷ []) (x ∷ y ∷ r) ≡ some (a ∷ b ∷ r)
unfolding copy_at
copy_first a b x y r = ground arith

copy_second :
    (a b c d x y : ℕ) (r : Bytes)
    → copy_at 2 (c ∷ d ∷ []) (a ∷ b ∷ x ∷ y ∷ r) ≡ some (a ∷ b ∷ c ∷ d ∷ r)
unfolding copy_at
copy_second a b c d x y r = ground arith

length-zeros : (n : ℕ) → length (zeros n) ≡ n
unfolding zeros
length-zeros zero = refl
length-zeros (suc n) = ap suc (length-zeros n)

drop-zeros : (n : ℕ) → drop n (zeros (suc n)) ≡ 0 ∷ []
unfolding zeros
drop-zeros zero = refl
drop-zeros (suc n) = drop-zeros n

drop_four : (a b c d n : ℕ) (r : Bytes) → drop (4 + n) (a ∷ b ∷ c ∷ d ∷ r) ≡ drop n r
drop_four a b c d n r = let e : 4 + n ≡ suc (suc (suc (suc n))) = omega arith in rw e

copy_body :
    (a b c d : ℕ) (msg : Bytes)
    → copy_at 4 msg (a ∷ b ∷ c ∷ d ∷ zeros (suc (length msg)))
      ≡ some (a ∷ b ∷ c ∷ d ∷ (msg ++ 0 ∷ []))
unfolding copy_at
copy_body a b c d msg = ground (
  arith,
  length-zeros (suc (length msg)),
  drop_four a b c d (length msg) (zeros (suc (length msg))),
  drop-zeros (length msg),
)

make_node_lem :
    (n : ℕ)
    → n ≤ 32763
    → make_node (to_short (bits16 (plus_head (pos n))))
      ≡ done (record { cur_len = 0; total_len = n + 4; bytes = 0 ∷ 0 ∷ 0 ∷ 0 ∷ zeros (suc n) })
unfolding make_node to_short bits16 plus_head zeros
make_node_lem n h =
    let e : n + 4 + 1 ≡ suc (suc (suc (suc (suc n)))) = omega arith in ground (arith, ap zeros e)

abbrev pub filled : Bytes → ℤ → MsgNode
filled msg msg_id = record {
  cur_len = 0;
  total_len = length msg + 4;
  bytes = be16 msg_id ++ (be16 (pos (length msg)) ++ (msg ++ 0 ∷ []));
}

fill_node_lem :
    (msg : Bytes) (msg_id : ℤ)
    → length msg ≤ 32763
    → fill_node msg (pos (length msg)) msg_id ≡ done (filled msg msg_id)
unfolding fill_node be16 read_msg copy_or_crash
fill_node_lem msg msg_id h =
    let n = length msg in
    let i = bits16 msg_id in
    let l = bits16 (pos n) in
    ground (
      arith,
      make_node_lem n h,
      copy_first (i / 256) (i % 256) 0 0 (0 ∷ 0 ∷ zeros (suc n)),
      copy_second (i / 256) (i % 256) (l / 256) (l % 256) 0 0 (zeros (suc n)),
      copy_body (i / 256) (i % 256) (l / 256) (l % 256) msg,
      take_all msg,
    )

-- Up to 32763 bytes of message, a `SendNode` is built, and holds the id and the length in network
-- order, the message and a final zero.
pub make_send_node_lem :
    (msg : Bytes) (msg_id : ℤ)
    → length msg ≤ 32763
    → make_send_node msg (pos (length msg)) msg_id
      ≡ done (record { node = filled msg msg_id; msg_id = msg_id })
unfolding make_send_node
make_send_node_lem msg msg_id h = rw (fill_node_lem msg msg_id h, make_send_node) refl

-- What goes out of such a node.
abbrev pub framed : Bytes → ℤ → Bytes
framed msg msg_id = be16 msg_id ++ (be16 (pos (length msg)) ++ msg)

wire-filled :
    (msg : Bytes) (msg_id : ℤ)
    → wire (record { node = filled msg msg_id; msg_id = msg_id }) ≡ framed msg msg_id
unfolding wire be16
wire-filled msg msg_id =
    let e : length msg + 4 ≡ suc (suc (suc (suc (length msg)))) = omega arith in
    rw (e, take-length-append msg (0 ∷ []))

-- With a length of 32764 to 32767 bytes the size of the buffer wraps to a negative `short`, and the
-- allocation throws.
make_send_node_throws :
    (msg : Bytes) (n : ℕ) (msg_id : ℤ)
    → 32764 ≤ n
    → n ≤ 32767
    → make_send_node msg (pos n) msg_id ≡ threw
unfolding make_send_node fill_node make_node to_short bits16 plus_head
make_send_node_throws msg n msg_id h k = ground arith
