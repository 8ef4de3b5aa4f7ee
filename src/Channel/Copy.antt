-- ===== src/Channel/Copy.antt =====
-- altcopy of libtask/channel.c at a channel that holds nothing.
use libabhi.Base.{
  ℕ, ◌≡◌, refl, sym, ap, true, false, some, arith, ◌==◌, Bool-cases, inl, inr, Returns, returns,
}
use libabhi.Channel.{Ptr, Alt, System, Side, chansnd, chanrcv, side_of, update}
use libabhi.Channel.Exec.{source, target, altcopy}
use libabhi.Channel.Transfer.{transfer_direct}

-- Moving elements changes the memory and a buffer.
pub record Copied (σ σ₁ : System) : Type 0 where
  pub alt_eq : σ₁.alt ≡ σ.alt
  pub world_eq : σ₁.world ≡ σ.world
  pub sides : (c : Ptr) (d : Side) → side_of d (σ₁.chan c) ≡ side_of d (σ.chan c)

-- A channel that is written back as it is.
unchanged :
    (σ : System) (c₀ : Ptr) (mem : Ptr → ℕ)
    → Copied σ (record σ { chan = update σ.chan c₀ (σ.chan c₀); mem = mem })
unchanged σ c₀ mem = record {
  alt_eq = refl;
  world_eq = refl;
  sides = λ c d. elim (Bool-cases (c == c₀)) [
    | inl e ↦ let same : c ≡ c₀ = ground arith in rw e (sym (ap (λ x. side_of d (σ.chan x)) same))
    | inr n ↦ rw n refl
  ];
}

-- A sender at a channel that holds nothing.
pub copy_direct :
    (s r : Alt) (σ : System)
    → s.op ≡ chansnd
    → r.op ≡ chanrcv
    → (σ.chan s.c).nbuf ≡ 0
    → Returns
        (λ σ₁. Copied σ σ₁ × (σ₁.mem ≡ target r.v (source s.v σ.mem) σ.mem))
        (altcopy (some s) (some r) σ)
unfolding altcopy
copy_direct s r σ sends receives nothing =
    let first : (s.op == chanrcv) ≡ false = ground (arith, sends) in
    rw (first, transfer_direct (σ.chan s.c) σ.mem s r sends receives nothing)
      (returns (unchanged σ s.c (target r.v (source s.v σ.mem) σ.mem), refl))

-- The same, when the receiver comes second.
pub copy_back :
    (s r : Alt) (σ : System)
    → s.op ≡ chansnd
    → r.op ≡ chanrcv
    → (σ.chan r.c).nbuf ≡ 0
    → Returns
        (λ σ₁. Copied σ σ₁ × (σ₁.mem ≡ target r.v (source s.v σ.mem) σ.mem))
        (altcopy (some r) (some s) σ)
unfolding altcopy
copy_back s r σ sends receives nothing =
    let second : (r.op == chanrcv) ≡ true = ground (arith, receives) in
    rw (transfer_direct (σ.chan r.c) σ.mem s r sends receives nothing, second)
      (returns (unchanged σ r.c (target r.v (source s.v σ.mem) σ.mem), refl))
