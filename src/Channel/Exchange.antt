-- ===== src/Channel/Exchange.antt =====
-- Two tasks meet at a channel without buffer: chanrecv, the switch to another task, and chansend, of
-- libtask/channel.c.
use libabhi.Base.{ℕ, ◌+◌, ◌<◌, ◌≡◌, true, List, [], ◌∷◌, ◌++◌, ◌⊎◌}
use libabhi.Sched.{World}
use libabhi.Sched.Ready.{Idle, Runnable}
use libabhi.Channel.{Ptr, Channel, Machine, System, Side, send, recv, chanrcv}
use libabhi.Channel.Chanop.{claimed, mine}
use libabhi.Channel.Exec.{chanalt_resume}
use libabhi.Channel.Select.{CanCall}
use libabhi.Channel.Meet.{IsWaiting}
use libabhi.Channel.Waiting.{at, IsRoomy}

-- What the two calls leave: the element is where the receiver wants it, whose task `t` is ready and will
-- return 0, and nobody waits at the channel any more.
pub record Exchanged (b c t : ℕ) (ready : List Ptr) (mem : Ptr → ℕ) (σ : System) : Type 0 where
  pub moved : σ.mem ≡ mem
  pub woken : Runnable σ.world (ready ++ (t ∷ []))
  pub returns_index : chanalt_resume b σ ≡ 0
  pub nobody : (d : Side) → at σ c d ≡ []

-- A task receives with its Alts at `b`, and another sends with its Alts at `a`.
module _ (k b c v : ℕ) (σ : System) (room : ℕ) (direct : (σ.chan c).bufsize ≡ 0)
    (empty : (σ.chan c).nbuf ≡ 0) (alone : (d : Side) → at σ c d ≡ [])
    (space : IsRoomy (1 + room) σ) (idle : Idle σ.world.heap σ.world.taskrunning)
    (calls : CanCall σ c) (memory : σ.machine.grows ≡ true) where
  abbrev mid : System
  mid = claimed b c chanrcv v true σ

  abbrev self :
      mid.alt (b + 0) ≡ record { c = c; v = v; op = chanrcv; task = σ.world.taskrunning; xalt = b }
  self = mine b c chanrcv v true σ

  -- What chanrecv leaves.
  record Received (τ : System) : Type 0 where
    waiting : IsWaiting τ (b + 0) 1
    whose :
        (τ.alt (b + 0))
        ≡ record { c = c; v = v; op = chanrcv; task = σ.world.taskrunning; xalt = b }
    roomy : IsRoomy room τ
    unbuffered : (τ.chan c).bufsize ≡ 0
    nothing : (τ.chan c).nbuf ≡ 0
    receivers : at τ c recv ≡ (b + 0) ∷ []
    senders : at τ c send ≡ []
    same_world : τ.world ≡ σ.world
    same_mem : τ.mem ≡ σ.mem

  -- The switch to the other task, on its own stack, which has changed the memory to `mem`.
  module _ (a v' : ℕ) (apart : (b + 1 < a) ⊎ (a + 1 < b)) (switch : World → World) (mem : Ptr → ℕ)
      (sender : Machine) (ready : List Ptr) (runs : Runnable (switch σ.world) ready)
      (sleeps : Idle (switch σ.world).heap σ.world.taskrunning)
      (calls' : CanCall (record σ { world = switch σ.world; machine = sender }) c) where
    abbrev switched : System → System
    switched τ = record τ { world = switch τ.world; mem = mem; machine = sender }
