-- ===== src/Channel/Frame.antt =====
-- What a task writes into its own Alts does not touch those of a task that waits.
use libabhi.Base.{
  ℕ, zero, suc, ◌+◌, ◌-◌, ◌≤◌, ◌≡◌, refl, sym, ap, subst, ◌∙◌, List, [], ◌∷◌, ◌++◌, arith,
}
use libabhi.Sched.Ready.{Idle, Runnable}
use libabhi.Channel.{Ptr, Alt, System, Side, ends}
use libabhi.Channel.Delarray.{occ}
use libabhi.Channel.Exec.{chanalt_resume}
use libabhi.Channel.Waiting.{at, entry, belonging}
use libabhi.Channel.Leave.{IsSelect, IsValid}
use libabhi.Channel.Meet.{IsWaiting, Met}

-- `σ'` differs from `σ` at most in Alts outside those from `x` to `x + n`.
pub record Framed (σ : System) (x n : ℕ) (σ' : System) : Type 0 where
  pub alts_eq : (q : Ptr) → x ≤ q → q ≤ x + n → σ'.alt q ≡ σ.alt q
  pub chan_eq : σ'.chan ≡ σ.chan
  pub mem_eq : σ'.mem ≡ σ.mem
  pub world_eq : σ'.world ≡ σ.world

belonging-frame :
    (n : ℕ) (p : Ptr) (f g : Ptr → Alt) (c : Ptr) (d : Side)
    → ((q : Ptr) → p ≤ q → q ≤ p + n → g q ≡ f q)
    → belonging n p g c d ≡ belonging n p f c d
belonging-frame zero p f g c d same = refl
belonging-frame (suc n) p f g c d same =
    ap (λ a. entry a p c d ++ belonging n (p + 1) g c d) (same p (omega arith) (omega arith))
    ∙ ap (λ l. entry (f p) p c d ++ l)
        (belonging-frame n (p + 1) f g c d λ q l h. same q (omega arith) (omega arith))

IsSelect-frame :
    (n : ℕ) (p : Ptr) (f g : Ptr → Alt)
    → ((q : Ptr) → p ≤ q → q ≤ p + n → g q ≡ f q)
    → IsSelect n p f
    → IsSelect n p g
IsSelect-frame zero p f g same end = ap (λ a. ends a.op) (same p (omega arith) (omega arith)) ∙ end
IsSelect-frame (suc n) p f g same (first, rest) = (
  subst IsValid (sym (same p (omega arith) (omega arith))) first,
  IsSelect-frame n (p + 1) f g (λ q l h. same q (omega arith) (omega arith)) rest,
)

module _ (σ σ' : System) (other : Ptr) (n : ℕ) (k : Framed σ ((σ.alt other).xalt) n σ')
    (above : (σ.alt other).xalt ≤ other) (below : other ≤ (σ.alt other).xalt + n) where
  abbrev x : Ptr
  x = (σ.alt other).xalt

  other_eq : σ'.alt other ≡ σ.alt other
  other_eq = k.alts_eq other above below

  x_eq : (σ'.alt other).xalt ≡ x
  x_eq = ap (λ a. a.xalt) other_eq

  same_belonging :
      (c : Ptr) (d : Side) → belonging n ((σ'.alt other).xalt) σ'.alt c d ≡ belonging n x σ.alt c d
  same_belonging c d =
      ap (λ y. belonging n y σ'.alt c d) x_eq ∙ belonging-frame n x σ.alt σ'.alt c d k.alts_eq

  pub IsWaiting-frame : IsWaiting σ other n → IsWaiting σ' other n
  IsWaiting-frame w = record {
    select =
        subst (λ y. IsSelect n y σ'.alt) (sym x_eq)
          (IsSelect-frame n x σ.alt σ'.alt k.alts_eq w.select);
    all_wait = λ c d q. omega (
      arith,
      w.all_wait c d q,
      ap (occ q) (same_belonging c d),
      ap (λ f. occ q (at (record σ { chan = f }) c d)) k.chan_eq,
    );
    idle =
        subst (λ a. Idle σ'.world.heap a.task) (sym other_eq)
          (subst (λ u. Idle u.heap ((σ.alt other).task)) (sym k.world_eq) w.idle);
  }

  pub Met-frame :
      {ready : List Ptr} {mem : Ptr → ℕ} {τ : System}
      → Met σ' other n ready mem τ
      → Met σ other n ready mem τ
  Met-frame {ready} {mem} {τ} m = record {
    moved = m.moved;
    left = λ c d q. omega (
      arith,
      m.left c d q,
      ap (occ q) (same_belonging c d),
      ap (λ f. occ q (at (record σ { chan = f }) c d)) k.chan_eq,
    );
    woken = subst (λ a. Runnable τ.world (ready ++ (a.task ∷ []))) other_eq m.woken;
    returns_index = subst (λ y. chanalt_resume y τ ≡ other - y) x_eq m.returns_index;
  }
