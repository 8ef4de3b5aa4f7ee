-- ===== src/Tests/Channels.antt =====
-- Tests of channels.
use libabhi.Base.{
  ◌++◌, ℕ, inr, ◌≡◌, ◌<◌, ◌+◌, refl, true, ◌==◌, if◌then◌else◌, some, [], ◌∷◌, arith, Returns, ok,
  ◌>>=◌, ◌%◌,
}
use libabhi.Tests.Data.{world}
use libabhi.Channel.{Ptr, Alt, Altarray, Channel, System, no_alts, altcanexec, chansnd, chanrcv}
use libabhi.Channel.Exec.{
  target, transfer, can, count_can, claim, count_alts, chanalt, altexec, chose,
}
use libabhi.Channel.Alone.{Buffers}
use libabhi.Channel.Buffered.{chansend_stores}
use libabhi.Channel.Exec.{chansend}
use libabhi.Channel.Free.{chanfree}
use libabhi.Channel.Fifo.{IsBuffered}
use libabhi.Channel.Transfer.{Moved, transfer_both}
use libabhi.Channel.Select.{chanalt_acts}

abbrev mem : Ptr → ℕ
mem p = 100 + p

abbrev sender : Alt
sender = record { c = 1; v = 7; op = chansnd; task = 10; xalt = 3 }

abbrev receiver : Alt
receiver = record { c = 1; v = 8; op = chanrcv; task = 20; xalt = 5 }

-- 11, then 12, round the end of the buffer
abbrev buffered : Channel
buffered = record {
  bufsize = 3;
  elemsize = 8;
  buf = 12 ∷ 0 ∷ 11 ∷ [];
  nbuf = 2;
  off = 2;
  asend = no_alts;
  arecv = no_alts;
}

buffered-IsBuffered : IsBuffered buffered
buffered-IsBuffered = omega arith

transfer_both_example :
    Returns
      (Moved buffered (12 ∷ 107 ∷ []) (target 8 11 mem))
      (transfer (some sender) (some receiver) buffered mem)
transfer_both_example =
    transfer_both buffered buffered-IsBuffered mem sender receiver 11 (12 ∷ []) refl refl refl

abbrev unbuffered : Channel
unbuffered = record {
  bufsize = 0;
  elemsize = 8;
  buf = [];
  nbuf = 0;
  off = 0;
  asend = no_alts;
  arecv = no_alts;
}

-- The Alts at 3 receive from the channel 1, which holds elements; the array ends with CHANNOBLK.
abbrev system : ℕ → System
system op = record {
  mem = mem;
  alt = λ p. record { c = 1; v = 8; op = if p == 4 then 4 else op; task = 0; xalt = 0 };
  chan = λ p. buffered;
  world = world;
  machine = record { sp = 9000; stk = 1000; opened = λ c. true; grows = true };
}

abbrev small_array : Altarray
small_array = record { a = 3 ∷ 9 ∷ []; n = 2; m = 2 }

counted : count_alts 2 3 0 (system 2) ≡ ok 1
unfolding count_alts
counted = refl

some_can : 0 < count_can 1 3 0 (claim 1 3 0 (system 2))
unfolding count_can claim altcanexec
some_can = omega arith

chanalt_acts_example :
    (m : ℕ) × (m < 1)
    × (can (3 + m) (claim 1 3 0 (system 2)) ≡ true)
    × (count_can m 3 0 (claim 1 3 0 (system 2)) ≡ 5 % count_can 1 3 0 (claim 1 3 0 (system 2)))
    × (chanalt 2 5 0 3 (system 2)
        ≡ (altexec 2 0 (3 + m) (claim 1 3 0 (system 2)) >>= λ σ'. ok (chose m, σ')))
chanalt_acts_example =
    chanalt_acts 2 5 0 3 (system 2) 1 counted (omega arith, omega arith) (inr refl, tt) some_can

-- The channel 1 holds 11 and 12, and has room for one more.
abbrev stored : System
stored = record (system 2) { alt = λ p. record { c = 0; v = 0; op = 0; task = 0; xalt = 0 } }

chansend_stores_example :
    Returns
      (λ (r, σ').
        (r ≡ chose 0) × Buffers world stored.machine buffered 1 (11 ∷ 12 ∷ 107 ∷ []) mem σ')
      (chansend 2 0 0 9 1 7 stored)
chansend_stores_example =
    chansend_stores 0 0 0 9 1 7 stored buffered-IsBuffered ((omega arith, omega arith), refl) refl
      (omega arith)

-- A machine that notes what is freed.
freed :
    chanfree (λ p s. s ++ (p ∷ [])) (λ c. record { name = 2; arecv_a = 3; asend_a = 4 }) 1 []
    ≡ 2 ∷ 3 ∷ 4 ∷ 1 ∷ []
unfolding chanfree
freed = refl
