-- ===== src/Channel/Free.antt =====
-- chanfree of libtask/channel.c. `free` is a parameter, on a machine of state `S`.
use libabhi.Base.{◌==◌, if◌then◌else◌}
use libabhi.Channel.{Ptr}

-- The addresses of the blocks that a Channel points to.
pub record Blocks : Type 0 where
  pub name : Ptr
  pub arecv_a : Ptr
  pub asend_a : Ptr

unfoldable pub chanfree :
    {S : Type 0} (free : Ptr → S → S) (blocks : Ptr → Blocks) → (c : Ptr) → S → S
chanfree free blocks c s =
    if c == 0
    then s
    else free c (free (blocks c).asend_a (free (blocks c).arecv_a (free (blocks c).name s)))
