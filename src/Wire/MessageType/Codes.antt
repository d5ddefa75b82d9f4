-- ===== src/Wire/MessageType/Codes.antt =====
-- The numeric codes of the message types.
use hla4_rs.Prelude.{ℕ, ◌<◌, ◌≡◌, refl, arith, ok}
use hla4_rs.Wire.MessageType.{MessageType, ctrl_new_session, as_u32, from_u32}

-- Every message type survives the trip through its code.
pub from_u32-as_u32 : (t : MessageType) → from_u32 (as_u32 t) ≡ ok t
unfolding as_u32 from_u32
from_u32-as_u32 ctrl_new_session = refl
from_u32-as_u32 _ = refl

-- A code that decodes is the code of the decoded type: no two codes name one type.
pub as_u32_of_from_u32 : (n : ℕ) (t : MessageType) → from_u32 n ≡ ok t → as_u32 t ≡ n
unfolding as_u32 from_u32
as_u32_of_from_u32 n t h = ground arith

-- Every code fits a u32.
pub as_u32-lt : (t : MessageType) → as_u32 t < 256
unfolding as_u32
as_u32-lt ctrl_new_session = omega arith
as_u32-lt _ = omega arith
