-- ===== src/Channel/Queue.antt =====
-- A buffered channel of libtask/channel.c and the calls that may not block, against a bounded queue.
use libabhi.Base.{
  ℕ, suc, ◌≡◌, ◌≢◌, List, [], ◌∷◌, ◌++◌, ltb, if◌then◌else◌, Outcome, ok, ◌>>=◌, length,
}
use libabhi.Channel.{System}
use libabhi.Channel.Exec.{Choice, chose, refused, waits}
use libabhi.Channel.Fifo.{contents, IsBuffered}
use libabhi.Channel.Select.{CanCall}
use libabhi.Channel.Words.{channbsendul, channbrecvul, received}

-- A call, with the two numbers that rand() would give it.
pub data Call : Type 0 where
  put : (j i val : ℕ) → Call
  get : (j i : ℕ) → Call

pub data Reply : Type 0 where
  sent full nothing asleep : Reply
  got : ℕ → Reply

-- A queue of at most `bound` elements.
abbrev pub queue_step : (bound : ℕ) → Call → List ℕ → Reply × List ℕ
queue_step bound (put j i val) q =
    if ltb (length q) bound then (sent, q ++ (val ∷ [])) else (full, q)
queue_step bound (get j i) [] = (nothing, [])
queue_step bound (get j i) (x ∷ q) = (got x, q)

pub queue_run : (bound : ℕ) → List Call → List ℕ → List Reply × List ℕ
queue_run bound [] q = ([], q)
queue_run bound (call ∷ calls) q =
    let (reply, q') = queue_step bound call q in
    let (replies, q'') = queue_run bound calls q' in (reply ∷ replies, q'')

abbrev reply_of : Choice → (success failure : Reply) → Reply
reply_of (chose n) success failure = success
reply_of refused success failure = failure
reply_of waits success failure = asleep

-- The same calls of channbsendul and channbrecvul, by one task, with Alts at `a` and its variable at
-- `x`.
module _ (k a c x : ℕ) where
  unfoldable pub channel_step : Call → System → Outcome (Reply × System)
  channel_step (put j i val) σ = do
    (r, σ') ← channbsendul (suc (suc k)) j i a c x val σ
    ok (reply_of r sent full, σ')
  channel_step (get j i) σ = do
    (r, σ') ← channbrecvul (suc (suc k)) j i a c x σ
    ok (reply_of r (got (received x σ')) nothing, σ')

  unfoldable pub channel_run : List Call → System → Outcome (List Reply × System)
  unfolding channel_step
  channel_run [] σ = ok ([], σ)
  channel_run (call ∷ calls) σ = do
    (reply, σ') ← channel_step call σ
    (replies, σ'') ← channel_run calls σ'
    ok (reply ∷ replies, σ'')

  -- The channel holds `q`, at most `bound` words of 8 bytes, nobody waits at it, and the running task
  -- has the stack to call chanalt for it.
  pub record Holds (bound : ℕ) (q : List ℕ) (σ : System) : Type 0 where
    pub valid : IsBuffered (σ.chan c)
    pub size : (σ.chan c).bufsize ≡ bound
    pub words : (σ.chan c).elemsize ≡ 8
    pub calls : CanCall σ c
    pub no_sender : (σ.chan c).asend.n ≡ 0
    pub no_receiver : (σ.chan c).arecv.n ≡ 0
    pub held : contents (σ.chan c) ≡ q

  module _ (named : x ≢ 0) where
    -- What one call does to the reply and to the queue.
    abbrev Follows : ℕ → Call → List ℕ → Reply × System → Type 0
    Follows bound call q (reply, σ') =
        (reply ≡ (queue_step bound call q).0) × Holds bound ((queue_step bound call q).1) σ'
