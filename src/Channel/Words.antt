-- ===== src/Channel/Words.antt =====
-- The functions of libtask/channel.c that send and receive a word, which stands in a local variable at
-- the address `x` while _chanop runs. A receiver reads the variable once its call is over; in one that
-- has received nothing the word has no known value.
use libabhi.Base.{ℕ, true, false, Outcome}
use libabhi.Channel.{Ptr, System, update, chansnd, chanrcv}
use libabhi.Channel.Exec.{Choice, _chanop}

-- The local variable at `x` has the value `v`.
abbrev pub set_local : (x v : ℕ) → System → System
set_local x v σ = record σ { mem = update σ.mem x v }

module _ (fuel j i : ℕ) (a : Ptr) (c x : ℕ) where
  unfoldable pub chansendp : (v : ℕ) → System → Outcome (Choice × System)
  chansendp v σ = _chanop fuel j i a c chansnd x true (set_local x v σ)

  unfoldable pub channbsendp : (v : ℕ) → System → Outcome (Choice × System)
  channbsendp v σ = _chanop fuel j i a c chansnd x false (set_local x v σ)

  unfoldable pub chansendul : (val : ℕ) → System → Outcome (Choice × System)
  chansendul val σ = _chanop fuel j i a c chansnd x true (set_local x val σ)

  unfoldable pub channbsendul : (val : ℕ) → System → Outcome (Choice × System)
  channbsendul val σ = _chanop fuel j i a c chansnd x false (set_local x val σ)

  unfoldable pub chanrecvp : System → Outcome (Choice × System)
  chanrecvp σ = _chanop fuel j i a c chanrcv x true σ

  unfoldable pub channbrecvp : System → Outcome (Choice × System)
  channbrecvp σ = _chanop fuel j i a c chanrcv x false σ

  unfoldable pub chanrecvul : System → Outcome (Choice × System)
  chanrecvul σ = _chanop fuel j i a c chanrcv x true σ

  unfoldable pub channbrecvul : System → Outcome (Choice × System)
  channbrecvul σ = _chanop fuel j i a c chanrcv x false σ

-- What the four receiving functions return.
unfoldable pub received : (x : Ptr) → System → ℕ
received x σ = σ.mem x
